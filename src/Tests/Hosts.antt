-- ===== src/Tests/Hosts.antt =====
-- The queue of the notifier, the alerts of the monitor and the numbers of the configuration.
use sleigh.Prelude.{ℕ, Text, true, false, none, some, List, [], ◌∷◌, ◌≡◌, refl, codes, arith}
use sleigh.Prelude.Int.{pos, negsuc, pos_part}
use sleigh.Prelude.Decimal.{digits_from, decimal, decimal_ℤ}
use sleigh.Notifier.{RetryOptions, canceled}
use sleigh.Notifier.Queue.{Turn, report_turn, loop_turn, Reporter}
use sleigh.Notifier.Queue.Log.{turns, log_turns, log_of, turns-log_of}
use sleigh.Monitor.{new_monitor}
use sleigh.Monitor.Alerts.{Call, dispatched_from, IsApart, IsSerious, dispatch_oom_event-IsApart}
use sleigh.Config.{get_env_int64}
use sleigh.Config.Numbers.{get_env_int64-decimal_ℤ}

abbrev small : RetryOptions
small = record {
  max_retries = pos 1;
  initial_backoff = pos 1;
  max_backoff = pos 8;
  queue_size = pos 1;
}

abbrev empty : Reporter small ℕ
empty = record { waiting = []; handled = [] }

-- The second event finds the queue full, the third one does not.
abbrev day : List (Turn ℕ)
day =
    report_turn 1 false true
    ∷ report_turn 2 false true
    ∷ loop_turn (λ event n. some canceled)
    ∷ report_turn 3 false true
    ∷ []

turns_example :
    ((turns day empty).0 ≡ (log_turns (pos_part small.queue_size) day (log_of empty)).0)
    × (log_of (turns day empty).1 ≡ (log_turns (pos_part small.queue_size) day (log_of empty)).1)
turns_example = turns-log_of day empty

abbrev call : Text → ℕ → Call
call risk now = record { risk = risk; now = now; reported = none }

abbrev night : List Call
night =
    call (codes "high") 1
    ∷ call (codes "high") 2
    ∷ call (codes "low") 3
    ∷ call (codes "critical") 4
    ∷ call (codes "critical") 60000000004
    ∷ []

dispatch_oom_event_example :
    IsApart [] none (dispatched_from (codes "t") night new_monitor)
    × IsSerious (dispatched_from (codes "t") night new_monitor)
dispatch_oom_event_example = dispatch_oom_event-IsApart (codes "t") night

get_env_int64_example :
    get_env_int64 (λ key. codes "-42") (codes "WARM_POOL_SIZE") (pos 1) ≡ negsuc 41
unfolding decimal_ℤ decimal digits_from
get_env_int64_example =
    get_env_int64-decimal_ℤ (λ key. codes "-42") (codes "WARM_POOL_SIZE") (negsuc 41) (pos 1)
      (omega arith) refl
