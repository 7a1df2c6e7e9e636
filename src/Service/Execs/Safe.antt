-- ===== src/Service/Execs/Safe.antt =====
-- ensureSnapshotSafe of service.go against the life of an exec task.
use sleigh.Prelude.{
  Text, trim_space, ◌==◌, ◌≡◌, refl, sym, subst, true, false, ◌||◌, Option, arith, any, All, codes,
  ◌≢◌, ◌⊎◌, ◌↔◌, Bool-cases, inl, inr, text_eq_iff,
}
use sleigh.Prelude.Rows.{any-split, any-false-All, All-any-false}
use sleigh.Errors.{Error, ok}
use sleigh.Service.Types.{World, ExecTask, ExecOutput, Backend, running, cancelling}
use sleigh.Service.Execs.{has_id, is_live, is_exec_terminal_status, ensure_snapshot_safe}
use sleigh.Service.Execs.Run.{finish_exec}
use sleigh.Service.Execs.Settle.{others, is_open, finish_exec-others, finish_exec-Closed}

waiting-not_terminal :
    (s : Text) → (s == running || s == cancelling) ≡ true → is_exec_terminal_status s ≡ false
unfolding is_exec_terminal_status trim_space ◌==◌
waiting-not_terminal s h = elim (Bool-cases (s == running)) [
  | inl k ↦ rw ((text_eq_iff s running).0 k) refl
  | inr k ↦ rw ((text_eq_iff s cancelling).0 (ground (arith, h, k))) refl
]

live-is_open :
    (sandbox_id exec_id : Text) (t : ExecTask)
    → is_live sandbox_id t ≡ true
    → has_id exec_id t ≡ true
    → is_open exec_id t ≡ true
unfolding is_live is_open
live-is_open sandbox_id exec_id t h k = ground (arith, h, k, waiting-not_terminal t.result.status)

-- The task is of another sandbox, or neither runs nor is being cancelled.
abbrev pub IsQuietFor : Text → ExecTask → Type 0
IsQuietFor sandbox_id t =
    (t.result.sandbox_id ≢ sandbox_id)
    ⊎ ((t.result.status ≢ codes "running") × (t.result.status ≢ codes "cancelling"))

eq-of_true : (s t : Text) → (s == t) ≡ true → s ≡ t
eq-of_true s t h = (text_eq_iff s t).0 h

ne-of_false : (s t : Text) → (s == t) ≡ false → s ≢ t
ne-of_false s t h e = cc (h, (text_eq_iff s t).1 e)

live-IsQuietFor :
    (sandbox_id : Text) (t : ExecTask) → is_live sandbox_id t ≡ false → IsQuietFor sandbox_id t
unfolding is_live
live-IsQuietFor sandbox_id t h = elim (Bool-cases (t.result.sandbox_id == sandbox_id)) [
  | inr e ↦ inl (ne-of_false t.result.sandbox_id sandbox_id e)
  | inl e ↦ elim (Bool-cases (t.result.status == running)) [
    | inl k ↦ cc (rw (e, k) at h)
    | inr k ↦ inr (
      ne-of_false t.result.status running k,
      ne-of_false t.result.status cancelling (rw (e, k) at h),
    )
  ]
]

IsQuietFor-live :
    (sandbox_id : Text) (t : ExecTask) → IsQuietFor sandbox_id t → is_live sandbox_id t ≡ false
unfolding is_live
IsQuietFor-live sandbox_id t h = elim (Bool-cases (t.result.sandbox_id == sandbox_id)) [
  | inr e ↦ rw e refl
  | inl e ↦ elim h [
    | inl other ↦ absurd (other (eq-of_true t.result.sandbox_id sandbox_id e))
    | inr (a, b) ↦ elim (Bool-cases (t.result.status == running)) [
      | inl k ↦ absurd (a (eq-of_true t.result.status running k))
      | inr k ↦ elim (Bool-cases (t.result.status == cancelling)) [
        | inl l ↦ absurd (b (eq-of_true t.result.status cancelling l))
        | inr l ↦ rw (e, k, l) refl
      ]
    ]
  ]
]

module _ {R : Type 0} where
  ensure_snapshot_safe-any :
      (sandbox_id : Text) (w : World R)
      → (((ensure_snapshot_safe sandbox_id w).0 ≡ ok tt)
          ↔ (any (is_live sandbox_id) w.exec_map ≡ false))
        × ((ensure_snapshot_safe sandbox_id w).1 ≡ w)
  unfolding ensure_snapshot_safe
  ensure_snapshot_safe-any sandbox_id w = elim (Bool-cases (any (is_live sandbox_id) w.exec_map)) [
    | inl h ↦ rw h ((λ k. cc, λ k. cc), refl)
    | inr h ↦ rw h ((λ k. refl, λ k. refl), refl)
  ]

  -- ensureSnapshotSafe agrees exactly when each task in memory is of another sandbox, or has a
  -- status other than "running" and "cancelling", and changes nothing.
  pub ensure_snapshot_safe_lem :
      (sandbox_id : Text) (w : World R)
      → (((ensure_snapshot_safe sandbox_id w).0 ≡ ok tt) ↔ All (IsQuietFor sandbox_id) w.exec_map)
        × ((ensure_snapshot_safe sandbox_id w).1 ≡ w)
  ensure_snapshot_safe_lem sandbox_id w =
      let ((there, back), same) = ensure_snapshot_safe-any sandbox_id w in
      (
        (
          λ h.
              any-false-All (is_live sandbox_id) (IsQuietFor sandbox_id)
                (live-IsQuietFor sandbox_id) w.exec_map (there h),
          λ h. back (
              All-any-false (is_live sandbox_id) (IsQuietFor sandbox_id)
                (IsQuietFor-live sandbox_id) w.exec_map h),
        ),
        same,
      )

  module _ (b : Backend R) (exec_id : Text) (output : ExecOutput) (e : Option Error)
      (w : World R) where
    -- After runExecTask has got the return of the command, every task of that id in memory has
    -- ended, and the tasks of other ids are unchanged, whatever the database and the runtime did.
    pub finish_exec_lem :
        (any (is_open exec_id) (finish_exec b exec_id output e w).1.exec_map ≡ false)
        × (others exec_id (finish_exec b exec_id output e w).1.exec_map ≡ others exec_id w.exec_map)
    finish_exec_lem = (
      finish_exec-Closed b exec_id output e w,
      (finish_exec-others b exec_id output e (others exec_id w.exec_map)).at w refl,
    )

    -- When no other task of the sandbox is waiting, the end of the command makes ensureSnapshotSafe
    -- agree.
    pub finish_exec-ensure_snapshot_safe :
        (sandbox_id : Text)
        → any (is_live sandbox_id) (others exec_id w.exec_map) ≡ false
        → (ensure_snapshot_safe sandbox_id (finish_exec b exec_id output e w).1).0 ≡ ok tt
    finish_exec-ensure_snapshot_safe sandbox_id h =
        let w' = (finish_exec b exec_id output e w).1 in
        (ensure_snapshot_safe-any sandbox_id w').0.1 (
          any-split (is_live sandbox_id) (is_open exec_id) (has_id exec_id) w'.exec_map
            (λ t. live-is_open sandbox_id exec_id t)
            (subst (λ m. any (is_live sandbox_id) m ≡ false) (sym finish_exec_lem.1) h)
            finish_exec_lem.0)
