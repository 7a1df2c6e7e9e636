-- ===== src/Tests/Notices.antt =====
-- The theorems on the notifier at a concrete reporter.
use sleigh.Prelude.{ℕ, zero, suc, ◌*◌, ◌≡◌, refl, none, some, Option, arith}
use Prim.Native.Nat.{◌^◌, min}
use sleigh.Prelude.Int.{pos}
use sleigh.Notifier.{RetryOptions, ReportError, deadline_exceeded, deliver, backoff}
use sleigh.Notifier.Delivery.{IsRun, deliver_lem, backoff_lem}

abbrev opts : RetryOptions
opts = record {
  max_retries = pos 5;
  initial_backoff = pos 500000000;
  max_backoff = pos 10000000000;
  queue_size = pos 1024;
}

-- A reporter that is late twice.
abbrev late : ℕ → Option ReportError
late zero = some deadline_exceeded
late (suc zero) = some deadline_exceeded
late (suc (suc n)) = none

deliver_example : IsRun opts late 0 5 (deliver opts late)
deliver_example = deliver_lem opts late

backoff_example : backoff opts 3 ≡ pos (min (500000000 * 2 ^ 3) 10000000000)
backoff_example = backoff_lem opts 10000000000 refl (omega arith) 500000000 refl (omega arith) 3
