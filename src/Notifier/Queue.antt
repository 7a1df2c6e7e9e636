-- ===== src/Notifier/Queue.antt =====
-- internal/notifier/retry.go: the queue between Report and the loop that delivers, and an abstract log
-- of the events that it stands for.
pub mod Log
use sleigh.Prelude.{
  ℕ, zero, suc, ◌+◌, ◌-◌, ◌≤◌, ltb, Bool, true, false, Option, none, some, List, [], ◌∷◌, ◌++◌, map,
  length, if◌then◌else◌,
}
use sleigh.Prelude.Int.{pos_part}
use sleigh.Notifier.{RetryOptions, ReportError, Outcome, deliver, with_defaults}

-- What Report returns: nothing, the error of the caller's context, or "event queue is full".
pub data Answer : Type 0 where
  accepted context_error queue_full : Answer

-- The select of Report: `room` and `done` say which cases are ready, and `first` which of two ready
-- cases the runtime picks.
abbrev pub select_case : (room done first : Bool) → Answer
select_case true true first = if first then accepted else context_error
select_case true false first = accepted
select_case false true first = context_error
select_case false false first = queue_full

-- A turn: a call of Report, or a turn of the loop, with what the reporter below returns for the event
-- that it takes.
pub data Turn (E : Type 0) : Type 0 where
  report_turn : E → (done first : Bool) → Turn E
  loop_turn : (E → ℕ → Option ReportError) → Turn E

module _ (opts : RetryOptions) (E : Type 0) where
  -- The channel, and the events that the loop took, with how their delivery ended.
  pub record Reporter : Type 0 where
    pub waiting : List E
    pub handled : List (E × Outcome opts)

-- NewRetryReporter.
abbrev pub new_reporter : (opts : RetryOptions) (E : Type 0) → Reporter (with_defaults opts) E
new_reporter opts E = record { waiting = []; handled = [] }

module _ {opts : RetryOptions} {E : Type 0} where
  abbrev pub enqueue : Answer → E → Reporter opts E → Reporter opts E
  enqueue accepted event r = record r { waiting = r.waiting ++ event ∷ [] }
  enqueue context_error event r = r
  enqueue queue_full event r = r

  abbrev pub has_room : Reporter opts E → Bool
  has_room r = ltb (length r.waiting) (pos_part opts.queue_size)

  unfoldable pub report_event : E → Bool → Bool → Reporter opts E → Option Answer × Reporter opts E
  report_event event done first r =
      let answer = select_case (has_room r) done first in (some answer, enqueue answer event r)

  abbrev pub take_first :
      List E → (E → ℕ → Option ReportError) → List (E × Outcome opts) → Reporter opts E
  take_first [] below handled = record { waiting = []; handled = handled }
  take_first (event ∷ waiting) below handled = record {
    waiting = waiting;
    handled = handled ++ (event, deliver opts (below event)) ∷ [];
  }

  -- A turn of the loop: it waits while the channel is empty.
  unfoldable pub loop : (E → ℕ → Option ReportError) → Reporter opts E → Reporter opts E
  unfolding deliver
  loop below r = take_first r.waiting below r.handled

  unfoldable pub turn : Turn E → Reporter opts E → Option Answer × Reporter opts E
  unfolding report_event loop
  turn (report_turn event done first) r = report_event event done first r
  turn (loop_turn below) r = (none, loop below r)
