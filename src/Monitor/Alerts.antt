-- ===== src/Monitor/Alerts.antt =====
-- The events that dispatchOOMEvent of internal/monitor/service.go sends, over any sequence of calls.
use sleigh.Prelude.{
  ℕ, ◌+◌, ◌≤◌, Text, Bool, true, false, ◌&&◌, ◌||◌, Option, none, some, List, [], ◌∷◌, codes, ◌==◌,
  ◌≡◌, ◌≢◌, ◌⊎◌, inl, inr, sym, arith, text_eq_iff, Bool-cases,
}
use sleigh.Monitor.{Monitor, within_minute, send, dispatch_oom_event, new_monitor}

-- A call: the risk, the time, and what the reporter returns if it is called.
pub record Call : Type 0 where
  pub risk : Text
  pub now : ℕ
  pub reported : Option Text

abbrev note_if : Bool → Call → List (Text × ℕ) → List (Text × ℕ)
note_if true call sent = (call.risk, call.now) ∷ sent
note_if false call sent = sent

-- The events that a sequence of calls dispatches, with their risks and times.
abbrev pub dispatched_from : Text → List Call → Monitor → List (Text × ℕ)
dispatched_from target [] m = []
dispatched_from target (call ∷ calls) m =
    let (alert, m') = dispatch_oom_event (some target) call.risk call.now call.reported m in
    note_if alert.dispatched call (dispatched_from target calls m')

-- After an event, the next one is of another risk or a minute or more later.
abbrev pub IsApart : Text → Option ℕ → List (Text × ℕ) → Type 0
IsApart risk last [] = Unit
IsApart risk none ((r, t) ∷ sent) = IsApart r (some t) sent
IsApart risk (some last) ((r, t) ∷ sent) =
    ((r ≢ risk) ⊎ (last + 60000000000 ≤ t)) × IsApart r (some t) sent

abbrev pub IsSerious : List (Text × ℕ) → Type 0
IsSerious [] = Unit
IsSerious ((r, t) ∷ sent) = ((r ≡ codes "high") ⊎ (r ≡ codes "critical")) × IsSerious sent

IsApart-cons :
    (risk new : Text) (last : Option ℕ) (now : ℕ) (sent : List (Text × ℕ))
    → (risk == new && within_minute now last) ≡ false
    → IsApart new (some now) sent
    → IsApart risk last ((new, now) ∷ sent)
IsApart-cons risk new none now sent f h = h
IsApart-cons risk new (some last) now sent f h = (
  elim (Bool-cases (risk == new)) [
    | inl e ↦ inr (ground (arith, e, f))
    | inr e ↦ inl (λ k. let same = (text_eq_iff risk new).1 (sym k) in cc)
  ],
  h,
)

serious :
    (risk : Text)
    → (risk == codes "high" || risk == codes "critical") ≡ true
    → (risk ≡ codes "high") ⊎ (risk ≡ codes "critical")
serious risk h = elim (Bool-cases (risk == codes "high")) [
  | inl e ↦ inl ((text_eq_iff risk (codes "high")).0 e)
  | inr e ↦ inr ((text_eq_iff risk (codes "critical")).0 (ground (arith, e, h)))
]

module _ (target : Text) where
  abbrev Fine : Text → Option ℕ → List (Text × ℕ) → Type 0
  Fine risk last sent = IsApart risk last sent × IsSerious sent

  after_send :
      (calls : List Call) (call : Call) (answer : Option Text) (risk : Text) (last : Option ℕ)
      → (call.risk == codes "high" || call.risk == codes "critical") ≡ true
      → (risk == call.risk && within_minute call.now last) ≡ false
      → Fine risk last
          (dispatched_from target calls (record { last_risk = risk; last_sent = last }))
      → Fine call.risk (some call.now) (
          dispatched_from target calls
            (record { last_risk = call.risk; last_sent = some call.now }))
      → (let (alert, m) =
            send target call.risk call.now answer (record { last_risk = risk; last_sent = last }) in
          Fine risk last (note_if alert.dispatched call (dispatched_from target calls m)))
  after_send calls call (some error) risk last e f same new = same
  after_send calls call none risk last e f same (new, all_serious) =
      (IsApart-cons risk call.risk last call.now _ f new, (serious call.risk e, all_serious))

  apart :
      (calls : List Call) (risk : Text) (last : Option ℕ)
      → IsApart risk last
          (dispatched_from target calls (record { last_risk = risk; last_sent = last }))
        × IsSerious (dispatched_from target calls (record { last_risk = risk; last_sent = last }))
  unfolding dispatch_oom_event
  apart [] risk last = (tt, tt)
  apart (call ∷ calls) risk last =
      elim (Bool-cases (call.risk == codes "high" || call.risk == codes "critical")) [
        | inr e ↦ rw e (apart calls risk last)
        | inl e ↦ elim (Bool-cases (risk == call.risk && within_minute call.now last)) [
          | inl f ↦ rw (e, f) (apart calls risk last)
          | inr f ↦
              rw (e, f)
                (after_send calls call call.reported risk last e f (apart calls risk last)
                  (apart calls call.risk (some call.now)))
        ]
      ]

  -- Over any sequence of calls, each event that dispatchOOMEvent dispatches is of risk high or
  -- critical, and is of another risk than the one dispatched before it or a minute or more later.
  pub dispatch_oom_event-IsApart :
      (calls : List Call)
      → IsApart [] none (dispatched_from target calls new_monitor)
        × IsSerious (dispatched_from target calls new_monitor)
  dispatch_oom_event-IsApart calls = apart calls [] none
