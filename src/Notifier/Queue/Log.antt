-- ===== src/Notifier/Queue/Log.antt =====
-- The abstract log behind the queue of internal/notifier/retry.go: the accepted events in their order,
-- and how many of them were handed to the reporter below. The queue refines it.
use sleigh.Prelude.{
  ℕ, ◌+◌, ◌-◌, ltb, Bool, true, false, Option, none, some, List, [], ◌∷◌, ◌++◌, map, length,
  length-append, ◌≡◌, refl, sym, ap, ◌∙◌, arith, if◌then◌else◌,
}
use mathlib.Core.List.{append_assoc, map-append}
use sleigh.Prelude.Int.{pos_part}
use sleigh.Notifier.{RetryOptions, ReportError, Outcome, deliver}
use sleigh.Notifier.Queue.{
  Answer, accepted, context_error, queue_full, select_case, Turn, report_turn, loop_turn, Reporter,
  enqueue, has_room, take_first, report_event, loop, turn,
}

pub record Log (E : Type 0) : Type 0 where
  pub written : List E
  pub read : ℕ

abbrev the : (A : Type 0) → A → A
the A a = a

module _ {E : Type 0} where
  abbrev append_if : Answer → E → Log E → Log E
  append_if accepted event log = record log { written = log.written ++ event ∷ [] }
  append_if context_error event log = log
  append_if queue_full event log = log

  -- An event may be written while fewer than `size` are unread; the reader goes on while one is unread.
  abbrev pub log_turn : ℕ → Turn E → Log E → Option Answer × Log E
  log_turn size (report_turn event done first) log =
      let answer = select_case (ltb (length log.written - log.read) size) done first in
      (some answer, append_if answer event log)
  log_turn size (loop_turn below) log =
      (none, if ltb log.read (length log.written) then record log { read = log.read + 1 } else log)

  abbrev pub log_turns : ℕ → List (Turn E) → Log E → List (Option Answer) × Log E
  log_turns size [] log = ([], log)
  log_turns size (t ∷ ts) log =
      let (answer, log') = log_turn size t log in
      let (answers, last) = log_turns size ts log' in (answer ∷ answers, last)

log_eq :
    {E : Type 0} {es es' : List E} {n n' : ℕ}
    → es ≡ es'
    → n ≡ n'
    → record { written = es; read = n } ≡ the (Log E) (record { written = es'; read = n' })
log_eq e f = rw (e, f) refl

module _ {opts : RetryOptions} {E : Type 0} where
  abbrev pub turns : List (Turn E) → Reporter opts E → List (Option Answer) × Reporter opts E
  turns [] r = ([], r)
  turns (t ∷ ts) r =
      let (answer, r') = turn t r in let (answers, last) = turns ts r' in (answer ∷ answers, last)

  abbrev event_of : E × Outcome opts → E
  event_of (event, outcome) = event

  -- The log that a reporter stands for.
  abbrev pub log_of : Reporter opts E → Log E
  log_of r = record { written = map event_of r.handled ++ r.waiting; read = length r.handled }

  count :
      (handled : List (E × Outcome opts)) (waiting : List E)
      → length (map event_of handled ++ waiting) ≡ length handled + length waiting
  count [] waiting = omega arith
  count (h ∷ handled) waiting = omega (arith, count handled waiting)

  unread :
      (handled : List (E × Outcome opts)) (waiting : List E)
      → length (map event_of handled ++ waiting) - length handled ≡ length waiting
  unread handled waiting = rw (count handled waiting) (omega arith)

  enqueue-log_of :
      (answer : Answer) (event : E) (r : Reporter opts E)
      → log_of (enqueue answer event r) ≡ append_if answer event (log_of r)
  enqueue-log_of accepted event r =
      ap (λ es. record { written = es; read = length r.handled })
        (sym (append_assoc (map event_of r.handled) r.waiting (event ∷ [])))
  enqueue-log_of context_error event r = refl
  enqueue-log_of queue_full event r = refl

  taken-log_of :
      (below : E → ℕ → Option ReportError) (handled : List (E × Outcome opts)) (waiting : List E)
      → log_of (take_first waiting below handled)
        ≡ (log_turn
            (pos_part opts.queue_size)
            (loop_turn below)
            (record { written = map event_of handled ++ waiting; read = length handled })).1
  taken-log_of below handled [] =
      let all_read =
        the (ltb (length handled) (length (map event_of handled ++ [])) ≡ false)
          (rw (count handled []) (ground arith)) in
      rw all_read refl
  taken-log_of below handled (event ∷ waiting) =
      let some_unread =
        the (ltb (length handled) (length (map event_of handled ++ event ∷ waiting)) ≡ true)
          (rw (count handled (event ∷ waiting)) (ground arith)) in
      rw some_unread (
        log_eq
          (ap (λ es. es ++ waiting)
              (map-append event_of handled ((event, deliver opts (below event)) ∷ []))
            ∙ append_assoc (map event_of handled) (event ∷ []) waiting)
          (length-append handled ((event, deliver opts (below event)) ∷ [])))

  answer-log_of :
      (event : E) (done first : Bool) (r : Reporter opts E)
      → (report_event event done first r).0
        ≡ (log_turn (pos_part opts.queue_size) (report_turn event done first) (log_of r)).0
  unfolding report_event
  answer-log_of event done first r = rw (unread r.handled r.waiting) refl

  reported-log_of :
      (event : E) (done first : Bool) (r : Reporter opts E)
      → log_of (report_event event done first r).1
        ≡ (log_turn (pos_part opts.queue_size) (report_turn event done first) (log_of r)).1
  unfolding report_event
  reported-log_of event done first r =
      rw (unread r.handled r.waiting) (enqueue-log_of (select_case (has_room r) done first) event r)

  turn-log_of :
      (t : Turn E) (r : Reporter opts E)
      → ((turn t r).0 ≡ (log_turn (pos_part opts.queue_size) t (log_of r)).0)
        × (log_of (turn t r).1 ≡ (log_turn (pos_part opts.queue_size) t (log_of r)).1)
  unfolding turn loop
  turn-log_of (report_turn event done first) r =
      (answer-log_of event done first r, reported-log_of event done first r)
  turn-log_of (loop_turn below) r = (refl, taken-log_of below r.handled r.waiting)

  -- Over any sequence of calls of Report and turns of the loop, with whatever the contexts, the
  -- runtime and the reporter below do, the queue of the notifier answers as a log does that takes an
  -- event while fewer than QueueSize of it are unread, and what the loop handled and what waits are
  -- that log, read in its order.
  pub turns-log_of :
      (ts : List (Turn E)) (r : Reporter opts E)
      → ((turns ts r).0 ≡ (log_turns (pos_part opts.queue_size) ts (log_of r)).0)
        × (log_of (turns ts r).1 ≡ (log_turns (pos_part opts.queue_size) ts (log_of r)).1)
  turns-log_of [] r = (refl, refl)
  turns-log_of (t ∷ ts) r =
      let (answers, last) = turns-log_of ts (turn t r).1 in
      let (answer, log) = turn-log_of t r in
      (
        rw (answer, answers, log) refl,
        last ∙ ap (λ l. (log_turns (pos_part opts.queue_size) ts l).1) log,
      )
