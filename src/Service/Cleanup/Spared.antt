-- ===== src/Service/Cleanup/Spared.antt =====
-- CleanupIdleSandboxes of service.go spares what is not idle.
use sleigh.Prelude.{
  ◌+◌, Text, ◌==◌, ◌≡◌, refl, Bool, true, false, not, ◌&&◌, List, [], ◌∷◌, arith, All, any, select,
  order_by, text_lt, text_eq_iff, Bool-cases, inl, inr,
}
use sleigh.Prelude.Int.{ℤ}
use sleigh.Prelude.Rows.{any-delete_where}
use sleigh.Prelude.Sorting.{All-order_by}
use sleigh.Action.{pure, continue, ◌>>=◌}
use sleigh.Action.Keeps.{Keeps, Keeps-bind, Keeps-attempt, Keeps-if, Keeps-pure}
use sleigh.Store.Schema.{Db, SandboxRecord, has_sandbox}
use sleigh.Store.Sandboxes.{cascade_sandbox, delete_sandbox, is_idle, list_idle_sandboxes_before}
use sleigh.Service.Types.{World, Svc, Backend, Policy}
use sleigh.Service.Effects.{sql, sql_with, read_clock}
use sleigh.Service.Pool.Frame.{OnDb, sql-OnDb, call-OnDb}
use sleigh.Service.Cleanup.{
  gone_or_ok, count_if, ttl_or_14, delete_idle, delete_all_idle, cleanup_idle_sandboxes,
}

-- The sandbox is in the store.
abbrev pub Present : Text → Db → Type 0
Present id db = any (λ (r : SandboxRecord). r.id == id) db.sandboxes ≡ true

apart :
    (id other : Text) (rows : List SandboxRecord)
    → (other == id) ≡ false
    → any (λ r. (r.id == id) && (r.id == other)) rows ≡ false
unfolding any
apart id other [] h = refl
apart id other (r ∷ rows) h = ground (
  arith,
  apart id other rows h,
  text_eq_iff r.id id,
  text_eq_iff r.id other,
  text_eq_iff other id,
)

delete_sandbox-Present :
    (id other : Text) → (other == id) ≡ false → Keeps (Present id) (delete_sandbox other)
unfolding delete_sandbox cascade_sandbox has_sandbox
delete_sandbox-Present id other d = record {
  at = λ db h. elim (Bool-cases (any (λ r. r.id == other) db.sandboxes)) [
    | inr e ↦ rw e h
    | inl e ↦ rw e (
        any-delete_where (λ r. r.id == id) (λ r. r.id == other) db.sandboxes h
          (apart id other db.sandboxes d))
  ];
}

-- No row of this id is selected.
not_selected :
    (id : Text) (q : SandboxRecord → Bool) (rows : List SandboxRecord)
    → any (λ r. (r.id == id) && q r) rows ≡ false
    → All (λ r. (r.id == id) ≡ false) (select q rows)
unfolding any select
not_selected id q [] h = tt
not_selected id q (r ∷ rows) h = elim (Bool-cases (q r)) [
  | inl e ↦ rw e (ground (arith, e, h), not_selected id q rows (ground (arith, h)))
  | inr e ↦ rw e (not_selected id q rows (ground (arith, h)))
]

module _ {R : Type 0} (b : Backend R) (id : Text) where
  delete_idle-Present :
      (other : Text)
      → (other == id) ≡ false
      → Keeps (OnDb {R = R} (Present id)) (delete_idle b other)
  unfolding delete_idle
  delete_idle-Present other d =
      Keeps-bind _ _ (Keeps-attempt _ (call-OnDb (Present id) (b.delete other))) (λ stopped.
        Keeps-if (not (gone_or_ok stopped)) _ _ (Keeps-pure false) (
          Keeps-bind _ _
            (Keeps-attempt _ (sql-OnDb (Present id) _ (delete_sandbox-Present id other d)))
            (λ deleted. Keeps-pure (gone_or_ok deleted))))

  delete_all_idle-Present :
      (rows : List SandboxRecord)
      → All (λ r. (r.id == id) ≡ false) rows
      → Keeps (OnDb {R = R} (Present id)) (delete_all_idle b rows)
  unfolding delete_all_idle
  delete_all_idle-Present [] h = Keeps-pure 0
  delete_all_idle-Present (item ∷ items) h =
      Keeps-bind (delete_idle b item.id) _ (delete_idle-Present item.id h.0) (λ gone.
        Keeps-bind (delete_all_idle b items) (λ n. pure (count_if gone n))
          (delete_all_idle-Present items h.1) (λ n. Keeps-pure (count_if gone n)))

  abbrev older : SandboxRecord → SandboxRecord → Bool
  older x y = text_lt x.last_accessed y.last_accessed

  listed_then :
      {A : Type 0} (fs : List Bool) (before : Text) (f : List SandboxRecord → Svc R A) (w : World R)
      → Keeps
          (OnDb {R = R} (Present id))
          (f (order_by older (select (is_idle before) w.db.sandboxes)))
      → Present id w.db
      → let r = sql_with fs (list_idle_sandboxes_before before) w in
        Present id (continue r.0 f r.1).1.db
  unfolding list_idle_sandboxes_before
  listed_then [] before f w k h = k.at w h
  listed_then (true ∷ fs) before f w k h = h
  listed_then (false ∷ fs) before f w k h = k.at (record w { faults = fs }) h

  module _ (days_before : ℤ → Text → Text) (policy : Policy) where
    -- A sandbox that is there stays through CleanupIdleSandboxes, unless it has a session and was
    -- last accessed before the limit of the run, whatever the database's driver and the runtime do.
    pub cleanup_idle_sandboxes-Present :
        (w : World R)
        → Present id w.db
        → any
            (λ r.
              (r.id == id)
              && is_idle (days_before (ttl_or_14 policy.sandbox_idle_ttl_days) (w.clock w.ticks)) r)
            w.db.sandboxes
          ≡ false
        → Present id (cleanup_idle_sandboxes b days_before policy w).1.db
    unfolding cleanup_idle_sandboxes read_clock sql
    cleanup_idle_sandboxes-Present w h k =
        let before = days_before (ttl_or_14 policy.sandbox_idle_ttl_days) (w.clock w.ticks) in
        listed_then w.faults before (λ idle. delete_all_idle b idle >>= λ n. pure (n, before))
          (record w { ticks = w.ticks + 1 })
          (Keeps-bind (delete_all_idle b _) (λ n. pure (n, before))
            (delete_all_idle-Present _ (
              All-order_by older (λ r. (r.id == id) ≡ false)
                (select (is_idle before) w.db.sandboxes)
                (not_selected id (is_idle before) w.db.sandboxes k)))
            (λ n. Keeps-pure (n, before)))
          h
