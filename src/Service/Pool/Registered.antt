-- ===== src/Service/Pool/Registered.antt =====
-- Create of service.go: what it returns is in the store.
use sleigh.Prelude.{
  Text, ◌==◌, ◌≡◌, refl, ◌∙◌, true, ◌&&◌, Option, none, some, List, [], ◌∷◌, ◌++◌, arith, any,
  codes, text_eq_refl, Bool-cases, inl, inr,
}
use sleigh.Prelude.Int.{eqb_ℤ}
use sleigh.Prelude.Rows.{any-update_where, any-update_where_to}
use sleigh.Errors.{ok}
use sleigh.Action.{Action, pure}
use sleigh.Action.Keeps.{Keeps}
use sleigh.Action.Triple.{Triple, Triple-Keeps, Triple-bind, Post-ok}
use sleigh.Store.Schema.{Db, Labels, SandboxRecord, has_sandbox}
use sleigh.Store.Sandboxes.{
  create_sandbox, update_sandbox, update_sandbox_assignment, update_sandbox_status,
}
use sleigh.Store.Pool.{acquire_warm_pool_entry}
use sleigh.Service.Types.{World, ensure_warm_pool, Backend, Policy, Metadata, CreateRequest}
use sleigh.Service.Effects.{sql, call, spawn, new_id}
use sleigh.Service.Events.{session_id_from_labels, emit_session_aggregate}
use sleigh.Service.Pool.{
  warm_image, warm_memory, warm_enabled, created_or_now, assign, allocate_from_warm_pool,
  create_new, made, create, normalize_create_defaults, record_managed_image_usage,
}
use sleigh.Service.Pool.Frame.{
  OnDb, sql-Triple, sql-OnDb, spawn-OnDb, emit_session_aggregate-OnDb,
  record_managed_image_usage-OnDb,
}

-- The sandbox is in the store, as one of the session.
abbrev pub Registered : Text → Text → Db → Type 0
Registered session_id id db =
    any (λ (r : SandboxRecord). (r.id == id) && (r.session_id == session_id)) db.sandboxes ≡ true

abbrev Anything : {A : Type 0} → A → Type 0
Anything a = Unit {0}

module _ (session_id : Text) where
  assignment-Triple :
      (id : Text) (labels : Labels)
      → Triple Anything
          (update_sandbox_assignment id session_id labels)
          (λ _. Registered session_id id)
  unfolding update_sandbox_assignment update_sandbox has_sandbox
  assignment-Triple id labels = record {
    at = λ db _. elim (Bool-cases (any (λ r. r.id == id) db.sandboxes)) [
      | inr e ↦ rw e tt
      | inl e ↦ rw e (
          any-update_where_to (λ r. (r.id == id) && (r.session_id == session_id)) (λ r. r.id == id)
            (λ r. r.id == id) (λ r. record r { session_id = session_id; labels = labels })
            db.sandboxes (λ x h. h) (λ x h. rw (h, text_eq_refl session_id) refl) e)
    ];
  }

  status-Registered :
      (id other status : Text)
      → Keeps (Registered session_id id) (update_sandbox_status other status)
  unfolding update_sandbox_status update_sandbox has_sandbox
  status-Registered id other status = record {
    at = λ db h. elim (Bool-cases (any (λ r. r.id == other) db.sandboxes)) [
      | inr e ↦ rw e h
      | inl e ↦ rw e (
          any-update_where (λ r. (r.id == id) && (r.session_id == session_id)) (λ r. r.id == other)
            (λ r. record r { status = status }) db.sandboxes (λ x. refl)
          ∙ h)
    ];
  }

  appended :
      (row : SandboxRecord)
      → row.session_id ≡ session_id
      → (rows : List SandboxRecord)
      → any
          (λ (r : SandboxRecord). (r.id == row.id) && (r.session_id == session_id))
          (rows ++ record row { last_accessed = row.created } ∷ [])
        ≡ true
  unfolding any
  appended row s [] = rw (text_eq_refl row.id, s, text_eq_refl session_id) refl
  appended row s (r ∷ rows) = ground (arith, appended row s rows)

  create_sandbox-Triple :
      (row : SandboxRecord)
      → row.session_id ≡ session_id
      → Triple Anything (create_sandbox row) (λ _. Registered session_id row.id)
  unfolding create_sandbox
  create_sandbox-Triple row s = record {
    at = λ db _. elim (Bool-cases (has_sandbox db row.id)) [
      | inl e ↦ rw e tt
      | inr e ↦ rw e (appended row s db.sandboxes)
    ];
  }

module _ {R : Type 0} (session_id : Text) where
  nothing : {A : Type 0} (m : Action (World R) A) → Triple Anything m (λ _. Anything)
  nothing m = Triple-Keeps m (record { at = λ w h. tt })

  -- What a found or made sandbox comes with.
  abbrev OfPool : Option Metadata → World R → Type 0
  OfPool none w = Unit
  OfPool (some meta) w = Registered session_id meta.id w.db

  module _ (b : Backend R) (policy : Policy) (req : CreateRequest) where
    assign-Triple : (o : Option Text) → Triple Anything (assign b policy req session_id o) OfPool
    assign-Triple none = record { at = λ w h. tt }
    assign-Triple (some id) =
        let P : Db → Type 0 = Registered session_id id in
        Triple-bind (λ _. Anything) (call (b.get id)) _ (nothing (call (b.get id)))
          (λ meta.
            Triple-bind (λ _. Anything) (created_or_now meta.created) _ (nothing _)
              (λ created.
                Triple-bind (λ _. OnDb P) (sql (update_sandbox_assignment id session_id req.labels))
                  _ (sql-Triple Anything (λ _. P) _ (assignment-Triple session_id id req.labels))
                  (λ _.
                    Triple-bind (λ _. OnDb P) (sql (update_sandbox_status id meta.status)) _
                      (Triple-Keeps _
                        (sql-OnDb P _ (status-Registered session_id id id meta.status)))
                      (λ _. record { at = λ w h. h }))))

    allocate-Triple : Triple Anything (allocate_from_warm_pool b policy req session_id) OfPool
    unfolding allocate_from_warm_pool
    allocate-Triple = elim (Bool-cases (warm_enabled policy)) [
      | inr e ↦ rw e (record { at = λ w h. tt })
      | inl e ↦
          elim (Bool-cases
            ((req.image == warm_image policy) && eqb_ℤ req.memory_limit_mb (warm_memory policy))) [
              | inr k ↦ rw (e, k) (record { at = λ w h. tt })
              | inl k ↦
                  rw (e, k)
                    (Triple-bind (λ _. Anything)
                      (sql (acquire_warm_pool_entry (warm_image policy) (warm_memory policy)))
                      (assign b policy req session_id) (nothing _) assign-Triple)
            ]
    ]

    create_new-Triple :
        Triple Anything
          (create_new b policy req session_id)
          (λ meta. OnDb (Registered session_id meta.id))
    create_new-Triple =
        Triple-bind (λ _. Anything) (new_id (codes "sbx_")) _ (nothing _)
          (λ id.
            let P : Db → Type 0 = Registered session_id id in
            Triple-bind (λ _. Anything) (call (b.create (record req { id = id }))) _
              (nothing (call (b.create (record req { id = id }))))
              (λ meta.
                Triple-bind (λ _. Anything) (created_or_now meta.created) _ (nothing _)
                  (λ created.
                    Triple-bind (λ _. OnDb P) (sql (create_sandbox _)) _
                      (sql-Triple Anything (λ _. P) _ (create_sandbox-Triple session_id _ refl))
                      (λ _. record { at = λ w h. h }))))

    made-Triple :
        (o : Option Metadata)
        → Triple
            (OfPool o)
            (made b policy req session_id o)
            (λ p. OnDb (Registered session_id p.0.id))
    made-Triple (some meta) = record { at = λ w h. h }
    made-Triple none =
        Triple-bind (λ meta. OnDb (Registered session_id meta.id))
          (create_new b policy req session_id) _ create_new-Triple
          (λ meta. record { at = λ w h. h })

module _ {R : Type 0} (b : Backend R) (policy : Policy) (request : CreateRequest) where
  create-Triple :
      Triple Anything
        (create b policy request)
        (λ meta. OnDb {R = R} (Registered (session_id_from_labels request.labels) meta.id))
  unfolding create
  create-Triple =
      let session_id = session_id_from_labels request.labels in
      let defaults = normalize_create_defaults policy request in
      let req : CreateRequest = record request {
        image = defaults.0;
        memory_limit_mb = defaults.1;
      } in
      Triple-bind (OfPool session_id) (allocate_from_warm_pool b policy req session_id) _
        (allocate-Triple session_id b policy req)
        (λ found.
          Triple-bind (λ p. OnDb (Registered session_id p.0.id))
            (made b policy req session_id found) _ (made-Triple session_id b policy req found)
            (λ p.
              let P : Db → Type 0 = Registered session_id p.0.id in
              Triple-bind (λ _. OnDb P)
                (emit_session_aggregate session_id p.0.id p.1 (codes "info")) _
                (Triple-Keeps _ (emit_session_aggregate-OnDb P (λ db rows h. h) _ _ _ _))
                (λ _.
                  Triple-bind (λ _. OnDb P) (spawn ensure_warm_pool) _
                    (Triple-Keeps _ (spawn-OnDb P _))
                    (λ _.
                      Triple-bind (λ _. OnDb P) (record_managed_image_usage p.0) (λ _. pure p.0)
                        (Triple-Keeps _ (record_managed_image_usage-OnDb P p.0))
                        (λ _. record { at = λ w h. h })))))

  -- Whenever Create returns a sandbox, made new or out of the pool, the store has it, as one of the
  -- session that the labels name.
  pub create-Registered :
      (w : World R) (meta : Metadata)
      → (create b policy request w).0 ≡ ok meta
      → Registered (session_id_from_labels request.labels) meta.id (create b policy request w).1.db
  create-Registered w meta h =
      Post-ok (λ meta. OnDb (Registered (session_id_from_labels request.labels) meta.id))
        (create b policy request w).0 (create b policy request w).1 meta (create-Triple.at w tt) h
