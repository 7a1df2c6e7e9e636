-- ===== src/Router/Guarded.antt =====
-- router.go: the handlers of one sandbox answer the session that owns it, and refuse the others.
pub mod Heads
pub mod Routes
use sleigh.Prelude.{
  ℕ, Text, Bool, true, false, not, ◌||◌, leb, Option, none, some, List, [], ◌∷◌, codes, trim_space,
  ◌==◌, ◌≡◌, ◌⊎◌, inl, inr, refl, sym, ◌∙◌, ap, arith, Bool-cases, Option-cases, find?,
  if◌then◌else◌,
}
use sleigh.Errors.{
  Error, Result, ok, err, bad_request, is_not_found, is_bad_request, is_forbidden, message,
}
use sleigh.Action.{pure, raise, lift, continue, ◌>>=◌, ◌>>◌}
use sleigh.Store.Schema.{Db, SandboxRecord}
use sleigh.Service.Types.{World, Svc, ExecTask, Event, Job}
use sleigh.Service.Effects.{sql, read_clock}
use sleigh.Store.Sandboxes.{get_sandbox}
use sleigh.Service.Access.{authorize_sandbox_access}
use sleigh.Service.Access.Owner.{IsOwner, authorize_sandbox_access-IsOwner}
use sleigh.Router.Replies.{
  Reply, reply, write_error, status_of, write_domain_error, Request, Handler,
  session_token_from_request, answer, require, with_sandbox, with_sandbox_and, with_body,
  decoded_or,
}

-- The store of the sandboxes, the runtime and the tasks are as they were.
pub record SameState {R : Type 0} (w w' : World R) : Type 0 where
  pub same_db : w'.db ≡ w.db
  pub same_runtime : w'.runtime ≡ w.runtime
  pub same_tasks : w'.exec_map ≡ w.exec_map
  pub same_jobs : w'.jobs ≡ w.jobs
  pub same_events : w'.sent ≡ w.sent

-- What the reply is where the session does not own the sandbox.
pub record Refused {R : Type 0} (w : World R) (out : Reply × World R) : Type 0 where
  pub is_error : leb 400 out.0.status ≡ true
  pub unchanged : SameState w out.1

pub same : {R : Type 0} (w : World R) → SameState w w
same w = record {
  same_db = refl;
  same_runtime = refl;
  same_tasks = refl;
  same_jobs = refl;
  same_events = refl;
}

same_but_faults :
    {R : Type 0} (w : World R) (fs : List Bool) → SameState w (record w { faults = fs })
same_but_faults w fs = record {
  same_db = refl;
  same_runtime = refl;
  same_tasks = refl;
  same_jobs = refl;
  same_events = refl;
}

pub status_of-error : (e : Error) → leb 400 (status_of e) ≡ true
unfolding status_of
status_of-error e = elim (Bool-cases (is_not_found e)) [
  | inl h ↦ rw h refl
  | inr h ↦ elim (Bool-cases (is_bad_request e)) [
    | inl k ↦ rw (h, k) refl
    | inr k ↦ elim (Bool-cases (is_forbidden e)) [
      | inl l ↦ rw (h, k, l) refl
      | inr l ↦ rw (h, k, l) refl
    ]
  ]
]

abbrev Denied : {R : Type 0} → World R → Result (Unit {0}) → World R → Type 0
Denied w (ok u) w' = Unit
Denied w (err e) w' = SameState w w'

module _ {R : Type 0} where
  queried-Denied :
      (session_id sandbox_id : Text) (w : World R) (fs : List Bool)
      → w.faults ≡ fs
      → (trim_space session_id == [] || trim_space sandbox_id == []) ≡ false
      → (found : Option SandboxRecord)
      → find? (λ r. r.id == trim_space sandbox_id) w.db.sandboxes ≡ found
      → Denied w
          (authorize_sandbox_access session_id sandbox_id w).0
          (authorize_sandbox_access session_id sandbox_id w).1
  unfolding authorize_sandbox_access sql get_sandbox read_clock
  queried-Denied session_id sandbox_id w (true ∷ fs) hf e found h =
      rw (hf, e) (same_but_faults (record w { faults = true ∷ fs }) fs)
  queried-Denied session_id sandbox_id w [] hf e none h =
      rw (hf, e, h) (same (record w { faults = [] }))
  queried-Denied session_id sandbox_id w (false ∷ fs) hf e none h =
      rw (hf, e, h) (same_but_faults (record w { faults = false ∷ fs }) fs)
  queried-Denied session_id sandbox_id w [] hf e (some row) h =
      elim (Bool-cases (trim_space row.session_id == trim_space session_id)) [
        | inl k ↦ rw (hf, e, h, k) tt
        | inr k ↦ rw (hf, e, h, k) (same (record w { faults = [] }))
      ]
  queried-Denied session_id sandbox_id w (false ∷ fs) hf e (some row) h =
      elim (Bool-cases (trim_space row.session_id == trim_space session_id)) [
        | inl k ↦ rw (hf, e, h, k) tt
        | inr k ↦ rw (hf, e, h, k) (same_but_faults (record w { faults = false ∷ fs }) fs)
      ]

  authorize-Denied :
      (session_id sandbox_id : Text) (w : World R)
      → Denied w
          (authorize_sandbox_access session_id sandbox_id w).0
          (authorize_sandbox_access session_id sandbox_id w).1
  unfolding authorize_sandbox_access
  authorize-Denied session_id sandbox_id w =
      elim (Bool-cases (trim_space session_id == [] || trim_space sandbox_id == [])) [
        | inl e ↦ rw e (same w)
        | inr e ↦
            queried-Denied session_id sandbox_id w w.faults refl e
              (find? (λ r. r.id == trim_space sandbox_id) w.db.sandboxes) refl
      ]

  -- After the check the handler goes on only for the owner.
  checked :
      (session_id sandbox_id : Text) (h : Handler R) (w : World R) (r : Result (Unit {0}))
      (w' : World R)
      → (r ≡ ok tt → IsOwner session_id sandbox_id w.db.sandboxes)
      → Denied w r w'
      → IsOwner session_id sandbox_id w.db.sandboxes
        ⊎ Refused w (answer (λ s. continue r (λ u. h) w') w)
  checked session_id sandbox_id h w (ok u) w' granted denied = inl (granted refl)
  checked session_id sandbox_id h w (err e) w' granted denied =
      inr (record { is_error = status_of-error e; unchanged = denied })

  pub authorized :
      (session_id sandbox_id : Text) (h : Handler R) (w : World R)
      → IsOwner session_id sandbox_id w.db.sandboxes
        ⊎ Refused w (answer (authorize_sandbox_access session_id sandbox_id >> h) w)
  authorized session_id sandbox_id h w =
      checked session_id sandbox_id h w (authorize_sandbox_access session_id sandbox_id w).0
        (authorize_sandbox_access session_id sandbox_id w).1
        (authorize_sandbox_access-IsOwner session_id sandbox_id w)
        (authorize-Denied session_id sandbox_id w)

  -- The session is named and owns the sandbox, or the request is refused.
  abbrev pub Guard : Result Text → Text → World R → Reply × World R → Type 0
  Guard session sandbox_id w out =
      ((session_id : Text) × (session ≡ ok session_id)
        × IsOwner session_id sandbox_id w.db.sandboxes)
      ⊎ Refused w out
