-- ===== src/Service/Pool/Filled.antt =====
-- ensureWarmPool of service.go fills the pool.
use mathlib.Core.List.{append_assoc, append-nil}
use sleigh.Prelude.{
  ◌&&◌, List, All, length, length-append, ap, ℕ, zero, suc, ◌+◌, ◌-◌, ◌≤◌, Text, true, ◌≡◌, refl,
  sym, subst, ◌∙◌, [], ◌∷◌, ◌++◌, arith, any, count_where, text_eq_iff, Bool-cases, inl, inr, codes,
  ◌==◌,
}
use sleigh.Prelude.Int.{ℤ, pos, ◌<ℤ◌, eqb_ℤ, pos_part, eqb_ℤ-refl}
use sleigh.Prelude.Rows.{count_where-append, All-append}
use sleigh.Errors.{ok}
use sleigh.Action.Triple.{Triple, Post, Triple-Keeps, Triple-bind, Post-ok}
use sleigh.Store.Schema.{Db, SandboxRecord, WarmPoolEntry, has_sandbox}
use sleigh.Store.Sandboxes.{create_sandbox}
use sleigh.Store.Pool.{fits, create_warm_pool_entry, count_warm_pool_available}
use sleigh.Service.Pool.Frame.{
  OnDb, sql-Triple, new_id-OnDb, call-OnDb, read_clock-OnDb, created_or_now-OnDb,
}
use sleigh.Service.Types.{World, Backend, Policy}
use sleigh.Service.Effects.{sql, call, new_id, read_clock}
use sleigh.Service.Pool.{
  warm_image, warm_memory, warm_enabled, pool_request, pool_row, pool_entry, count_refill,
  created_or_now, add_pool_sandbox, fill, fill_missing, ensure_pool,
}

-- How many entries of the pool are of this image and this memory.
abbrev pub pool_count : Text → ℤ → Db → ℕ
pool_count image memory_mb db =
    count_where (λ e. (e.image == image) && eqb_ℤ e.memory_mb memory_mb) db.warm_pool

-- An entry of this image and this memory.
abbrev pub IsOf : Text → ℤ → WarmPoolEntry → Type 0
IsOf image memory_mb e = (e.image ≡ image) × (e.memory_mb ≡ memory_mb)

count-IsOf :
    (image : Text) (memory_mb : ℤ) (es : List WarmPoolEntry)
    → All (IsOf image memory_mb) es
    → count_where (fits image memory_mb) es ≡ length es
unfolding count_where fits
count-IsOf image memory_mb [] h = omega arith
count-IsOf image memory_mb (e ∷ es) ((i, m), h) =
    rw (i, m, (text_eq_iff image image).1 refl, eqb_ℤ-refl memory_mb)
      (omega (arith, count-IsOf image memory_mb es h))

-- The pool is the old one with `c` entries of this image and this memory added.
abbrev Holds : Text → ℤ → List WarmPoolEntry → ℕ → Db → Type 0
Holds image memory_mb old c db =
    (added : List WarmPoolEntry) × (db.warm_pool ≡ old ++ added)
    × (length added ≡ c)
    × All (IsOf image memory_mb) added

module _ (image : Text) (memory_mb : ℤ) (old : List WarmPoolEntry) (c : ℕ) where
  one_more :
      (db : Db)
      → Holds image memory_mb old c db
      → (e : WarmPoolEntry) → IsOf image memory_mb e
      → Holds image memory_mb old (c + 1) (record db { warm_pool = db.warm_pool ++ e ∷ [] })
  one_more db (added, same, l, a) e k = (
    added ++ e ∷ [],
    ap (λ t. t ++ e ∷ []) same ∙ append_assoc old added (e ∷ []),
    omega (arith, length-append added (e ∷ []), l),
    All-append (IsOf image memory_mb) added (e ∷ []) a (k, tt),
  )

  create_sandbox-Holds :
      (r : SandboxRecord)
      → Triple (Holds image memory_mb old c) (create_sandbox r) (λ _. Holds image memory_mb old c)
  unfolding create_sandbox
  create_sandbox-Holds r = record {
    at = λ db h. elim (Bool-cases (has_sandbox db r.id)) [ inl e ↦ rw e tt | inr e ↦ rw e h ];
  }

  create_warm_pool_entry-Holds :
      (e : WarmPoolEntry)
      → IsOf image memory_mb e
      → Triple
          (Holds image memory_mb old c)
          (create_warm_pool_entry e)
          (λ _. Holds image memory_mb old (c + 1))
  unfolding create_warm_pool_entry
  create_warm_pool_entry-Holds e k = record {
    at = λ db h. elim (Bool-cases (any (λ x. x.sandbox_id == e.sandbox_id) db.warm_pool)) [
      | inl a ↦ rw a tt
      | inr a ↦ elim (Bool-cases (has_sandbox db e.sandbox_id)) [
        | inr d ↦ rw (a, d) tt
        | inl d ↦ rw (a, d) (one_more db h e k)
      ]
    ];
  }

count-Triple :
    (image : Text) (memory_mb : ℤ) (old : List WarmPoolEntry)
    → Triple
        (λ db. db.warm_pool ≡ old)
        (count_warm_pool_available image memory_mb)
        (λ available db.
          (available ≡ count_where (fits image memory_mb) old) × Holds image memory_mb old 0 db)
unfolding count_warm_pool_available
count-Triple image memory_mb old = record {
  at =
      λ db h. (ap (count_where (fits image memory_mb)) h, ([], h ∙ sym (append-nil old), refl, tt));
}

entry-IsOf :
    (policy : Policy) (id now : Text)
    → IsOf (warm_image policy) (warm_memory policy) (pool_entry policy id now)
unfolding pool_entry
entry-IsOf policy id now = (refl, refl)

module _ {R : Type 0} (b : Backend R) (policy : Policy) (old : List WarmPoolEntry) where
  -- The old pool with `c` entries of the policy added.
  abbrev Has : ℕ → World R → Type 0
  Has c = OnDb (Holds (warm_image policy) (warm_memory policy) old c)

  add_pool_sandbox-Triple : (c : ℕ) → Triple (Has c) (add_pool_sandbox b policy) (λ _. Has (c + 1))
  unfolding add_pool_sandbox
  add_pool_sandbox-Triple c =
      let image = warm_image policy in
      let memory_mb = warm_memory policy in
      let P : Db → Type 0 = Holds image memory_mb old c in
      let Q : Db → Type 0 = Holds image memory_mb old (c + 1) in
      Triple-bind (λ _. OnDb P) (new_id (codes "sbx_")) _ (Triple-Keeps _ (new_id-OnDb P _))
        (λ id.
          Triple-bind (λ _. OnDb P) (call (b.create (pool_request policy id))) _
            (Triple-Keeps _ (call-OnDb P (b.create (pool_request policy id))))
            (λ meta.
              Triple-bind (λ _. OnDb P) (created_or_now meta.created) _
                (Triple-Keeps _ (created_or_now-OnDb P meta.created))
                (λ created.
                  Triple-bind (λ _. OnDb P)
                    (sql (create_sandbox (pool_row policy id meta.status created))) _
                    (sql-Triple P (λ _. P) _ (create_sandbox-Holds image memory_mb old c _))
                    (λ _.
                      Triple-bind (λ _. OnDb P) read_clock _ (Triple-Keeps _ (read_clock-OnDb P))
                        (λ now.
                          Triple-bind (λ _. OnDb Q)
                            (sql (create_warm_pool_entry (pool_entry policy id now)))
                            (λ _. count_refill)
                            (sql-Triple P (λ _. Q) _
                              (create_warm_pool_entry-Holds image memory_mb old c
                                (pool_entry policy id now) (entry-IsOf policy id now)))
                            (λ _. record { at = λ w h. h }))))))

  fill-Triple : (n c : ℕ) → Triple (Has c) (fill b policy n) (λ _. Has (c + n))
  unfolding fill
  fill-Triple zero c = record { at = λ w h. subst (λ k. Has k w) (omega arith) h }
  fill-Triple (suc n) c =
      Triple-bind (λ _. Has (c + 1)) (add_pool_sandbox b policy) _ (add_pool_sandbox-Triple c)
        (λ _.
          subst (λ k. Triple (Has (c + 1)) (fill b policy n) (λ _. Has k)) (omega arith)
            (fill-Triple n (c + 1)))

  -- How many of the old entries fit.
  abbrev old_count : ℕ
  old_count = count_where (fits (warm_image policy) (warm_memory policy)) old

  counted :
      Triple
        (OnDb (λ db. db.warm_pool ≡ old))
        (sql (count_warm_pool_available (warm_image policy) (warm_memory policy)))
        (λ available w. (available ≡ old_count) × Has 0 w)
  counted =
      sql-Triple (λ db. db.warm_pool ≡ old)
        (λ available db.
          (available ≡ old_count) × Holds (warm_image policy) (warm_memory policy) old 0 db)
        _ (count-Triple (warm_image policy) (warm_memory policy) old)

  abbrev size : ℕ
  size = pos_part policy.warm_pool_size

  fill_from :
      (available : ℕ)
      → Triple
          (λ w. (available ≡ old_count) × Has 0 w)
          (fill b policy (size - available))
          (λ _. Has (size - old_count))
  fill_from available = record {
    at = λ w (e, h).
        subst
          (λ a.
            Post (λ _. Has (size - old_count)) (fill b policy (size - a) w).0
              (fill b policy (size - a) w).1)
          (sym e)
          (subst
            (λ k.
              Post (λ _. Has k) (fill b policy (size - old_count) w).0
                (fill b policy (size - old_count) w).1)
            (omega arith) ((fill-Triple (size - old_count) 0).at w h));
  }

  fill_missing-Triple :
      Triple (OnDb (λ db. db.warm_pool ≡ old)) (fill_missing b policy) (λ _. Has (size - old_count))
  unfolding fill_missing
  fill_missing-Triple =
      Triple-bind (λ available w. (available ≡ old_count) × Has 0 w)
        (sql (count_warm_pool_available (warm_image policy) (warm_memory policy))) _ counted
        fill_from

module _ {R : Type 0} (b : Backend R) (policy : Policy) where
  -- How many entries of the pool are of the configured image and memory.
  abbrev pub fitting : World R → ℕ
  fitting w = pool_count (warm_image policy) (warm_memory policy) w.db

  abbrev pub target : ℕ
  target = pos_part policy.warm_pool_size

  -- With a target size above 0, a run of ensureWarmPool that returns no error keeps every old entry
  -- of the pool in its place and adds at the end as many entries as were missing to the target size,
  -- all of the configured image and memory, so that at least the target size are there.
  pub ensure_pool_lem :
      (w : World R)
      → pos 0 <ℤ policy.warm_pool_size
      → (ensure_pool b policy w).0 ≡ ok tt
      → (added : List WarmPoolEntry) × ((ensure_pool b policy w).1.db.warm_pool
          ≡ w.db.warm_pool ++ added)
        × (length added ≡ target - fitting w)
        × All (IsOf (warm_image policy) (warm_memory policy)) added
        × (target ≤ fitting (ensure_pool b policy w).1)
  unfolding ensure_pool fits
  ensure_pool_lem w positive h =
      let on : warm_enabled policy ≡ true = unfold warm_enabled in ground (arith, positive) in
      let image = warm_image policy in
      let memory_mb = warm_memory policy in
      let old = w.db.warm_pool in
      let run : (fill_missing b policy w).0 ≡ ok tt = rw on at h in
      let (added, same, l, a) =
        Post-ok (λ _. Has b policy old (target - fitting w)) (fill_missing b policy w).0
          (fill_missing b policy w).1 tt ((fill_missing-Triple b policy old).at w refl) run in
      let counted_added =
        ap (count_where (fits image memory_mb)) same
        ∙ count_where-append (fits image memory_mb) old added in
      rw on (added, same, l, a, omega (arith, counted_added, count-IsOf image memory_mb added a, l))
