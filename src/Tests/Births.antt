-- ===== src/Tests/Births.antt =====
-- The theorems on how sandboxes come and go: Create at a request that the pool serves, and the
-- clean-up of a store with sandboxes of the pool.
use sleigh.Prelude.{
  Text, ◌≡◌, refl, false, [], ◌∷◌, codes, any, trim_space, ◌==◌, ◌&&◌, select, order_by, insert_by,
  text_lt, delete_where, update_where,
}
use sleigh.Prelude.Int.{ℤ, pos}
use sleigh.Errors.{ok}
use sleigh.Store.Schema.{label, has_sandbox}
use sleigh.Store.Sandboxes.{update_sandbox, update_sandbox_assignment, update_sandbox_status}
use sleigh.Store.Pool.{fits, oldest_fit, acquire_warm_pool_entry}
use sleigh.Service.Types.{World, Metadata, CreateRequest}
use sleigh.Service.Effects.{sql, read_clock}
use sleigh.Service.Events.{session_id_from_labels, emit_session_aggregate}
use sleigh.Service.Pool.{
  warm_image, warm_memory, warm_enabled, normalize_create_defaults, allocate_from_warm_pool, create,
  record_managed_image_usage,
}
use sleigh.Service.Pool.Registered.{Registered, create-Registered}
use sleigh.Store.Sandboxes.{is_idle}
use sleigh.Service.Cleanup.{cleanup_idle_sandboxes}
use sleigh.Service.Cleanup.Spared.{Present, cleanup_idle_sandboxes-Present}
use sleigh.Tests.Data.{policy, calm, live, world}

abbrev request : CreateRequest
request = record {
  id = [];
  image = [];
  labels = (codes "session_id", codes "s") ∷ [];
  memory_limit_mb = pos 0;
}

-- Nobody listens to events.
abbrev silent : World (Unit {0})
silent = record (world [] []) { reporting = false }

abbrev handed_out : Metadata
handed_out = record (live (codes "c")) { labels = (codes "session_id", codes "s") ∷ [] }

served : (create calm policy request silent).0 ≡ ok handed_out
unfolding create normalize_create_defaults warm_image warm_memory warm_enabled
    allocate_from_warm_pool sql acquire_warm_pool_entry oldest_fit fits select order_by insert_by
    text_lt delete_where update_sandbox_assignment update_sandbox_status update_sandbox has_sandbox
    any update_where emit_session_aggregate record_managed_image_usage read_clock
    session_id_from_labels label trim_space ◌==◌
served = refl

create-Registered_example :
    Registered
      (session_id_from_labels request.labels)
      (codes "c")
      (create calm policy request silent).1.db
create-Registered_example = create-Registered calm policy request silent handed_out served

-- Two weeks before any time.
abbrev weeks_before : ℤ → Text → Text
weeks_before days now = codes "2024-01-18"

pool_box_there : Present (codes "b") silent.db
unfolding any ◌==◌
pool_box_there = refl

pool_box_not_idle :
    any (λ r. (r.id == codes "b") && is_idle (codes "2024-01-18") r) silent.db.sandboxes ≡ false
unfolding any is_idle ◌==◌
pool_box_not_idle = refl

cleanup_idle_sandboxes_example :
    Present (codes "b") (cleanup_idle_sandboxes calm weeks_before policy silent).1.db
cleanup_idle_sandboxes_example =
    cleanup_idle_sandboxes-Present calm (codes "b") weeks_before policy silent pool_box_there
      pool_box_not_idle
