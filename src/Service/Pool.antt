-- ===== src/Service/Pool.antt =====
-- service.go: Create and the pool of warm sandboxes.
pub mod Filled
pub mod Frame
pub mod Registered
use sleigh.Prelude.{
  ℕ, zero, suc, ◌+◌, ◌-◌, Text, Bool, true, false, ◌&&◌, ◌||◌, not, Option, none, some, List, [],
  ◌∷◌, codes, trim_space, ◌==◌, if◌then◌else◌,
}
use sleigh.Prelude.Int.{ℤ, pos, pos_part, leb_ℤ, ltb_ℤ, eqb_ℤ}
use sleigh.Action.{pure, gets, modify, ◌>>=◌, ◌>>◌}
use sleigh.Store.Schema.{Labels, SandboxRecord, WarmPoolEntry}
use sleigh.Store.Sandboxes.{create_sandbox, update_sandbox_assignment, update_sandbox_status}
use sleigh.Store.Pool.{acquire_warm_pool_entry, count_warm_pool_available, create_warm_pool_entry}
use sleigh.Store.Images.{record_managed_image_pull, touch_managed_image_if_tracked}
use sleigh.Service.Types.{
  World, Svc, Job, ensure_warm_pool, record_image_pull, touch_image_usage, Backend, Policy,
  Metadata, CreateRequest,
}
use sleigh.Service.Effects.{sql, call, spawn, new_id, read_clock}
use sleigh.Service.Events.{session_id_from_labels, emit_session_aggregate}

pub record WarmPoolStats : Type 0 where
  pub enabled : Bool
  pub target_size : ℤ
  pub available : ℕ
  pub image : Text
  pub memory_mb : ℤ
  pub hits : ℕ
  pub misses : ℕ
  pub refill_total : ℕ

module _ (policy : Policy) where
  -- warmPoolConfig, field by field.
  unfoldable pub warm_image : Text
  warm_image =
      let image = trim_space policy.warm_pool_image in
      if image == [] then codes "python:3.11-slim" else image

  unfoldable pub warm_memory : ℤ
  warm_memory =
      if leb_ℤ policy.warm_pool_memory_mb (pos 0) then pos 256 else policy.warm_pool_memory_mb

  unfoldable pub warm_enabled : Bool
  warm_enabled = ltb_ℤ (pos 0) policy.warm_pool_size

  unfoldable pub normalize_create_defaults : CreateRequest → Text × ℤ
  unfolding warm_image warm_memory
  normalize_create_defaults req =
      let image = trim_space req.image in
      (
        if image == [] then warm_image else image,
        if leb_ℤ req.memory_limit_mb (pos 0) then warm_memory else req.memory_limit_mb,
      )

-- `if s == "" { s = d }`
abbrev pub or_text : Text → Text → Text
or_text [] d = d
or_text (c ∷ s) d = c ∷ s

abbrev pub pool_labels : Labels
pool_labels = (codes "warm_pool", codes "true") ∷ []

abbrev pub usage_job : Metadata → Text → Text → Job
usage_job meta image used_at =
    if meta.image_pull_triggered
    then record_image_pull image used_at
    else touch_image_usage image used_at

module _ (policy : Policy) where
  -- The request, the row and the entry of a sandbox that ensureWarmPool makes.
  unfoldable pub pool_request : Text → CreateRequest
  pool_request sandbox_id = record {
    id = sandbox_id;
    image = warm_image policy;
    labels = pool_labels;
    memory_limit_mb = warm_memory policy;
  }

  unfoldable pub pool_row : Text → Text → Text → SandboxRecord
  pool_row sandbox_id status created = record {
    id = sandbox_id;
    session_id = [];
    image = warm_image policy;
    status = status;
    labels = pool_labels;
    created = created;
    last_accessed = created;
  }

  unfoldable pub pool_entry : Text → Text → WarmPoolEntry
  pool_entry sandbox_id now = record {
    sandbox_id = sandbox_id;
    image = warm_image policy;
    memory_mb = warm_memory policy;
    created_at = now;
  }

module _ {R : Type 0} where
  -- s.warmPoolRefillTotal++
  abbrev pub count_refill : Svc R (Unit {0})
  count_refill = modify (λ w. record w { warm_pool_refill_total = w.warm_pool_refill_total + 1 })

  -- `if meta.Created == "" { meta.Created = time.Now()… }`: the clock is read only then.
  abbrev pub created_or_now : Text → Svc R Text
  created_or_now [] = read_clock
  created_or_now (c ∷ s) = pure (c ∷ s)

  unfoldable pub record_managed_image_usage : Metadata → Svc R (Unit {0})
  record_managed_image_usage meta =
      let image = trim_space meta.image in
      if image == [] then pure tt else do used_at ← read_clock; spawn (usage_job meta image used_at)

  module _ (b : Backend R) (policy : Policy) where
    unfoldable pub is_create_image_cached : Text → Svc R (Bool × Text)
    unfolding normalize_create_defaults
    is_create_image_cached image = do
      let req : CreateRequest = record {
        id = [];
        image = image;
        labels = [];
        memory_limit_mb = pos 0;
      }
      let normalized = (normalize_create_defaults policy req).0
      exists ← call (b.image_exists normalized)
      pure (exists, normalized)

    -- A sandbox taken out of the pool for a session.
    abbrev pub assign : CreateRequest → Text → Option Text → Svc R (Option Metadata)
    assign req session_id none = do
      modify (λ w. record w { warm_pool_misses = w.warm_pool_misses + 1 })
      pure none
    assign req session_id (some sandbox_id) = do
      meta ← call (b.get sandbox_id)
      created ← created_or_now meta.created
      sql (update_sandbox_assignment sandbox_id session_id req.labels)
      sql (update_sandbox_status sandbox_id meta.status)
      modify (λ w. record w { warm_pool_hits = w.warm_pool_hits + 1 })
      pure (
          some (record meta {
            id = sandbox_id;
            image = or_text meta.image req.image;
            created = created;
            labels = req.labels;
          }))

    unfoldable pub allocate_from_warm_pool : CreateRequest → Text → Svc R (Option Metadata)
    unfolding warm_image warm_memory warm_enabled
    allocate_from_warm_pool req session_id =
        if not (warm_enabled policy)
        then pure none
        else if not
            ((req.image == warm_image policy) && eqb_ℤ req.memory_limit_mb (warm_memory policy))
        then pure none
        else sql (acquire_warm_pool_entry (warm_image policy) (warm_memory policy))
          >>= assign req session_id

    -- One turn of the loop of ensureWarmPool.
    unfoldable pub add_pool_sandbox : Svc R (Unit {0})
    add_pool_sandbox = do
      sandbox_id ← new_id (codes "sbx_")
      meta ← call (b.create (pool_request policy sandbox_id))
      created ← created_or_now meta.created
      sql (create_sandbox (pool_row policy sandbox_id meta.status created))
      now ← read_clock
      sql (create_warm_pool_entry (pool_entry policy sandbox_id now))
      count_refill

    -- `n` is how many the pool is short of: `available` goes up by one a turn.
    unfoldable pub fill : ℕ → Svc R (Unit {0})
    unfolding add_pool_sandbox
    fill zero = pure tt
    fill (suc n) = do add_pool_sandbox; fill n

    unfoldable pub fill_missing : Svc R (Unit {0})
    unfolding fill
    fill_missing = do
      available ← sql (count_warm_pool_available (warm_image policy) (warm_memory policy))
      fill (pos_part policy.warm_pool_size - available)

    unfoldable pub ensure_pool : Svc R (Unit {0})
    unfolding warm_enabled fill_missing
    ensure_pool = if not (warm_enabled policy) then pure tt else fill_missing

    unfoldable pub warm_pool_status : Svc R WarmPoolStats
    unfolding warm_image warm_memory
    warm_pool_status = do
      available ← sql (count_warm_pool_available (warm_image policy) (warm_memory policy))
      gets (λ w. record {
        enabled = warm_enabled policy;
        target_size = policy.warm_pool_size;
        available = available;
        image = warm_image policy;
        memory_mb = warm_memory policy;
        hits = w.warm_pool_hits;
        misses = w.warm_pool_misses;
        refill_total = w.warm_pool_refill_total;
      })

    unfoldable pub refill_warm_pool : Svc R WarmPoolStats
    unfolding ensure_pool warm_pool_status
    refill_warm_pool = do ensure_pool; warm_pool_status

    -- A new sandbox, when none came from the pool.
    abbrev pub create_new : CreateRequest → Text → Svc R Metadata
    create_new req session_id = do
      sandbox_id ← new_id (codes "sbx_")
      meta ← call (b.create (record req { id = sandbox_id }))
      created ← created_or_now meta.created
      let image = or_text meta.image req.image
      sql (
          create_sandbox (record {
            id = sandbox_id;
            session_id = session_id;
            image = image;
            status = meta.status;
            labels = req.labels;
            created = created;
            last_accessed = created;
          }))
      pure (record meta { id = sandbox_id; image = image; created = created; labels = req.labels })

    abbrev pub made : CreateRequest → Text → Option Metadata → Svc R (Metadata × Text)
    made req session_id (some meta) = pure (meta, codes "sandbox_assigned_from_pool")
    made req session_id none = do
      meta ← create_new req session_id
      pure (meta, codes "sandbox_created")

    unfoldable pub create : CreateRequest → Svc R Metadata
    unfolding normalize_create_defaults allocate_from_warm_pool record_managed_image_usage
    create request = do
      let defaults = normalize_create_defaults policy request
      let req = record request { image = defaults.0; memory_limit_mb = defaults.1 }
      let session_id = session_id_from_labels req.labels
      found ← allocate_from_warm_pool req session_id
      (meta, trigger) ← made req session_id found
      emit_session_aggregate session_id meta.id trigger (codes "info")
      spawn ensure_warm_pool
      record_managed_image_usage meta
      pure meta
