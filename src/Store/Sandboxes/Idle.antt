-- ===== src/Store/Sandboxes/Idle.antt =====
-- ListIdleSandboxesBefore of store.go: what counts as idle.
use sleigh.Prelude.{
  Text, ◌==◌, ◌≡◌, ◌∙◌, Bool, true, false, not, ◌&&◌, List, [], arith, any, text_lt, Bool-cases,
  inl, inr,
}
use sleigh.Prelude.Rows.{any-false, any-select, any-update_where_to}
use sleigh.Prelude.Sorting.{any-order_by}
use sleigh.Errors.{Result, ok, err}
use sleigh.Store.Schema.{Db, Labels, SandboxRecord, has_sandbox}
use sleigh.Store.Sandboxes.{
  update_sandbox, update_sandbox_assignment, is_idle, list_idle_sandboxes_before,
}

abbrev pub rows_of : Result (List SandboxRecord) → List SandboxRecord
rows_of (ok rows) = rows
rows_of (err e) = []

-- A row of this id that was last accessed before the time.
unfoldable pub is_stale : Text → Text → SandboxRecord → Bool
is_stale id before r =
    (r.id == id) && (not (r.last_accessed == []) && text_lt r.last_accessed before)

assigned-is_idle :
    (id session_id before : Text) (labels : Labels) (r : SandboxRecord)
    → (session_id == []) ≡ false
    → is_stale id before r ≡ true
    → ((r.id == id) && is_idle before (record r { session_id = session_id; labels = labels }))
      ≡ true
unfolding is_stale is_idle
assigned-is_idle id session_id before labels r h k = ground (arith, h, k)

-- UpdateSandboxAssignment leaves the time of the last access: a sandbox that waited in the pool since
-- before the limit is listed as idle the moment it is given to a session.
pub assignment-list_idle :
    (id session_id before : Text) (labels : Labels) (db : Db)
    → (session_id == []) ≡ false
    → any (is_stale id before) db.sandboxes ≡ true
    → any
        (λ r. r.id == id)
        (rows_of
          (list_idle_sandboxes_before before
            (update_sandbox_assignment id session_id labels db).1).0)
      ≡ true
unfolding update_sandbox_assignment update_sandbox list_idle_sandboxes_before has_sandbox
assignment-list_idle id session_id before labels db h k =
    elim (Bool-cases (any (λ r. r.id == id) db.sandboxes)) [
      | inr e ↦
          let none_stale : any (is_stale id before) db.sandboxes ≡ false =
            any-false (λ r. r.id == id) (is_stale id before) db.sandboxes
              (λ r l. unfold is_stale in ground (arith, l)) e in
          cc
      | inl e ↦ rw e (
          any-order_by (λ a b. text_lt a.last_accessed b.last_accessed) (λ r. r.id == id) _
          ∙ any-select (λ r. r.id == id) (is_idle before) _
              (any-update_where_to (λ r. (r.id == id) && is_idle before r) (λ r. r.id == id)
                (is_stale id before) (λ r. record r { session_id = session_id; labels = labels })
                db.sandboxes (λ r l. unfold is_stale in ground (arith, l))
                (λ r l. assigned-is_idle id session_id before labels r h l) k))
    ]
