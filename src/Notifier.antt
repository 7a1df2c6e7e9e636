-- ===== src/Notifier.antt =====
-- internal/notifier/retry.go: the delivery of an event with retries. The reporter below it is a
-- parameter: what its n-th call for this event returns. Durations are int64 nanoseconds.
pub mod Delivery
pub mod Queue
pub mod Http
use sleigh.Prelude.{
  ℕ, zero, suc, ◌+◌, Bool, true, false, not, Option, none, some, List, [], ◌∷◌, if◌then◌else◌,
}
use sleigh.Prelude.Int.{ℤ, pos, leb_ℤ, ltb_ℤ, pos_part}
use sleigh.Prelude.Machine.{add_int64}

pub record RetryOptions : Type 0 where
  pub max_retries : ℤ
  pub initial_backoff : ℤ
  pub max_backoff : ℤ
  pub queue_size : ℤ

-- What errors.As and errors.Is tell apart of an error of the reporter.
pub data ReportError : Type 0 where
  delivery_error : (retryable : Bool) → ReportError
  canceled deadline_exceeded other : ReportError

abbrev pub positive_or : ℤ → ℤ → ℤ
positive_or n d = if leb_ℤ n (pos 0) then d else n

-- The defaults of NewRetryReporter.
unfoldable pub with_defaults : RetryOptions → RetryOptions
with_defaults opts = record {
  max_retries = positive_or opts.max_retries (pos 5);
  initial_backoff = positive_or opts.initial_backoff (pos 500000000);
  max_backoff = positive_or opts.max_backoff (pos 10000000000);
  queue_size = positive_or opts.queue_size (pos 1024);
}

unfoldable pub should_retry : Option ReportError → Bool
should_retry none = false
should_retry (some (delivery_error retryable)) = retryable
should_retry (some canceled) = false
should_retry (some deadline_exceeded) = true
should_retry (some other) = true

module _ (opts : RetryOptions) where
  -- The loop of `backoff`, `n` turns from a delay.
  unfoldable pub double_up : ℕ → ℤ → ℤ
  double_up zero delay = if ltb_ℤ opts.max_backoff delay then opts.max_backoff else delay
  double_up (suc n) delay =
      let doubled = add_int64 delay delay in
      let rest = double_up n doubled in
      if leb_ℤ opts.max_backoff doubled then opts.max_backoff else rest

  unfoldable pub backoff : ℕ → ℤ
  unfolding double_up
  backoff retry = double_up retry opts.initial_backoff

  -- How `deliver` ends: the index of its last call, the error of that call if it dropped the event,
  -- and the sleeps between the calls.
  pub record Outcome : Type 0 where
    pub last : ℕ
    pub error : Option ReportError
    pub slept : List ℤ

  abbrev pub after_report : ℕ → Option ReportError → Outcome → Outcome
  after_report retry error rest =
      if should_retry error
      then record rest { slept = backoff retry ∷ rest.slept }
      else record { last = retry; error = error; slept = [] }

  -- The loop of `deliver` from the call number `retry`, with `left` more retries.
  unfoldable pub deliver_from : (ℕ → Option ReportError) → ℕ → ℕ → Outcome
  unfolding should_retry backoff
  deliver_from report zero retry = record { last = retry; error = report retry; slept = [] }
  deliver_from report (suc left) retry =
      after_report retry (report retry) (deliver_from report left (retry + 1))

  unfoldable pub deliver : (ℕ → Option ReportError) → Outcome
  unfolding deliver_from
  deliver report = deliver_from report (pos_part opts.max_retries) 0
