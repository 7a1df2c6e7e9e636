-- ===== src/Service/Access/Owner.antt =====
-- AuthorizeSandboxAccess of service.go lets only the session in that owns the sandbox.
use sleigh.Prelude.{
  Text, ◌==◌, ◌≡◌, ◌≢◌, codes, sym, ◌∙◌, refl, Bool, true, false, ◌||◌, Option, none, some, List,
  [], ◌∷◌, arith, trim_space, find?, Bool-cases, Option-cases, inl, inr, text_eq_iff, if◌then◌else◌,
}
use sleigh.Errors.{Result, ok, err, not_found, forbidden, bad_request, failure}
use sleigh.Store.Schema.{SandboxRecord}
use sleigh.Store.Sandboxes.{get_sandbox}
use sleigh.Service.Types.{World}
use sleigh.Service.Effects.{sql, read_clock}
use sleigh.Service.Access.{authorize_sandbox_access}

-- The answer that the table of sandboxes calls for.
unfoldable pub verdict : Text → Option SandboxRecord → Result (Unit {0})
verdict session none = err not_found
verdict session (some row) = if trim_space row.session_id == session then ok tt else err forbidden

unfoldable pub access_answer : Text → Text → List SandboxRecord → Result (Unit {0})
access_answer session_id sandbox_id rows =
    let s = trim_space session_id in
    let id = trim_space sandbox_id in
    if s == [] || id == [] then err bad_request else verdict s (find? (λ r. r.id == id) rows)

-- The sandbox is there, and its session is the one that asks, up to white space at the ends.
pub record IsOwner (session_id sandbox_id : Text) (rows : List SandboxRecord) : Type 0 where
  pub named : (trim_space session_id == []) ≡ false
  pub row : SandboxRecord
  pub found : find? (λ r. r.id == trim_space sandbox_id) rows ≡ some row
  pub owned : trim_space row.session_id ≡ trim_space session_id

answer-IsOwner :
    (session_id sandbox_id : Text) (rows : List SandboxRecord)
    → access_answer session_id sandbox_id rows ≡ ok tt
    → IsOwner session_id sandbox_id rows
unfolding access_answer verdict
answer-IsOwner session_id sandbox_id rows h =
    elim (Bool-cases (trim_space session_id == [] || trim_space sandbox_id == [])) [
      | inl e ↦ let k : err bad_request ≡ ok tt = rw e at h in cc
      | inr e ↦ elim (Option-cases (find? (λ r. r.id == trim_space sandbox_id) rows)) [
        | inl n ↦ let k : err not_found ≡ ok tt = rw (e, n) at h in cc
        | inr (row, n) ↦ elim (Bool-cases (trim_space row.session_id == trim_space session_id)) [
          | inl k ↦ record {
            named = ground (arith, e);
            row = row;
            found = n;
            owned = (text_eq_iff (trim_space row.session_id) (trim_space session_id)).0 k;
          }
          | inr k ↦ let l : err forbidden ≡ ok tt = rw (e, n, k) at h in cc
        ]
      ]
    ]

module _ {R : Type 0} where
  -- While the driver fails no call, AuthorizeSandboxAccess answers by the table of sandboxes: bad
  -- request, not found, forbidden or granted.
  pub authorize_sandbox_access_lem :
      (session_id sandbox_id : Text) (w : World R)
      → w.faults ≡ []
      → (authorize_sandbox_access session_id sandbox_id w).0
        ≡ access_answer session_id sandbox_id w.db.sandboxes
  unfolding authorize_sandbox_access access_answer verdict sql get_sandbox read_clock
  authorize_sandbox_access_lem session_id sandbox_id w hf =
      elim (Bool-cases (trim_space session_id == [] || trim_space sandbox_id == [])) [
        | inl e ↦ rw e refl
        | inr e ↦ elim (Option-cases (find? (λ r. r.id == trim_space sandbox_id) w.db.sandboxes)) [
          | inl n ↦ rw (e, hf, n) refl
          | inr (row, n) ↦ elim (Bool-cases (trim_space row.session_id == trim_space session_id)) [
            | inl k ↦ rw (e, hf, n, k) refl
            | inr k ↦ rw (e, hf, n, k) refl
          ]
        ]
      ]

  read_answer :
      (session_id sandbox_id : Text) (w : World R) (fs : List Bool)
      → w.faults ≡ false ∷ fs
      → (authorize_sandbox_access session_id sandbox_id w).0
        ≡ access_answer session_id sandbox_id w.db.sandboxes
  unfolding authorize_sandbox_access access_answer verdict sql get_sandbox read_clock
  read_answer session_id sandbox_id w fs hf =
      elim (Bool-cases (trim_space session_id == [] || trim_space sandbox_id == [])) [
        | inl e ↦ rw e refl
        | inr e ↦ elim (Option-cases (find? (λ r. r.id == trim_space sandbox_id) w.db.sandboxes)) [
          | inl n ↦ rw (e, hf, n) refl
          | inr (row, n) ↦ elim (Bool-cases (trim_space row.session_id == trim_space session_id)) [
            | inl k ↦ rw (e, hf, n, k) refl
            | inr k ↦ rw (e, hf, n, k) refl
          ]
        ]
      ]

  failed_answer :
      (session_id sandbox_id : Text) (w : World R) (fs : List Bool)
      → w.faults ≡ true ∷ fs
      → (authorize_sandbox_access session_id sandbox_id w).0 ≢ ok tt
  unfolding authorize_sandbox_access sql
  failed_answer session_id sandbox_id w fs hf h =
      elim (Bool-cases (trim_space session_id == [] || trim_space sandbox_id == [])) [
        | inl e ↦ let k : err bad_request ≡ ok tt = rw e at h in cc
        | inr e ↦
            let k : err (failure (codes "database call failed")) ≡ ok tt = rw (e, hf) at h in cc
      ]

  faults-IsOwner :
      (session_id sandbox_id : Text) (w : World R) (fs : List Bool)
      → w.faults ≡ fs
      → (authorize_sandbox_access session_id sandbox_id w).0 ≡ ok tt
      → IsOwner session_id sandbox_id w.db.sandboxes
  faults-IsOwner s id w [] hf h =
      answer-IsOwner s id w.db.sandboxes (sym (authorize_sandbox_access_lem s id w hf) ∙ h)
  faults-IsOwner s id w (false ∷ fs) hf h =
      answer-IsOwner s id w.db.sandboxes (sym (read_answer s id w fs hf) ∙ h)
  faults-IsOwner s id w (true ∷ fs) hf h = absurd (failed_answer s id w fs hf h)

  -- Whatever the database's driver does, AuthorizeSandboxAccess grants access only to a session with
  -- a name, on a sandbox that is there and whose session it is, up to white space at the ends.
  pub authorize_sandbox_access-IsOwner :
      (session_id sandbox_id : Text) (w : World R)
      → (authorize_sandbox_access session_id sandbox_id w).0 ≡ ok tt
      → IsOwner session_id sandbox_id w.db.sandboxes
  authorize_sandbox_access-IsOwner session_id sandbox_id w h =
      faults-IsOwner session_id sandbox_id w w.faults refl h
