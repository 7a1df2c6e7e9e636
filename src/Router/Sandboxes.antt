-- ===== src/Router/Sandboxes.antt =====
-- router.go: the handlers of sandboxes, snapshots, memory, mounts, exec tasks and the warm pool.
use sleigh.Prelude.{
  Text, Bool, true, false, none, [], ◌∷◌, ◌++◌, codes, trim_space, to_lower, ◌==◌, if◌then◌else◌,
}
use sleigh.Action.{pure, ◌>>=◌, ◌>>◌, attempt}
use sleigh.Store.Schema.{Labels, label}
use sleigh.Service.Types.{Backend, Policy, Metadata}
use sleigh.Service.Access.{get, delete}
use sleigh.Service.Execs.{get_exec, cancel_exec}
use sleigh.Service.Memory.{get_memory_pressure}
use sleigh.Service.Mounts.{list_mounts, unmount_path}
use sleigh.Service.Pool.{warm_pool_status, refill_warm_pool}
use sleigh.Router.Limits.{clamp_exec_result_output}
use sleigh.Errors.{Result, ok, err, message}
use sleigh.Service.Effects.{new_id, read_clock}
use sleigh.Router.Replies.{
  reply, Request, Handler, with_sandbox, with_sandbox_and, nothing, a_sandbox, exec_result,
  pressure, mounts, pool_stats, write_error, new_session,
}

-- What the monitor says of the host's memory: no report, or the ratio, as a text, below 10 % and 15 %.
pub data HostMemory : Type 0 where
  unknown enough : HostMemory
  low tight : (ratio : Text) → HostMemory

unfoldable pub allow_auto_expand : HostMemory → Text → Bool × Text
allow_auto_expand unknown operation = (true, [])
allow_auto_expand enough operation = (true, [])
allow_auto_expand (low ratio) operation = (
  false,
  codes "host memory available ratio "
      ++ ratio
      ++ codes "% is below 10%; "
      ++ operation
      ++ codes " is blocked",
)
allow_auto_expand (tight ratio) operation = (
  true,
  codes "host memory available ratio "
      ++ ratio
      ++ codes "% is below 15%; operation succeeded but host is under pressure",
)

-- m[k] = v
abbrev pub set_label : Text → Text → Labels → Labels
set_label k v [] = (k, v) ∷ []
set_label k v ((j, u) ∷ m) = if k == j then (j, v) ∷ m else (j, u) ∷ set_label k v m

abbrev pub wants_expansion : Metadata → Bool
wants_expansion meta =
    to_lower (trim_space (label meta.labels (codes "auto_expand_memory"))) == codes "true"

module _ {R : Type 0} (b : Backend R) (policy : Policy) where
  unfoldable pub handle_get_sandbox : Request → Handler R
  handle_get_sandbox req =
      with_sandbox req
        (λ session_id sandbox_id. do meta ← get b sandbox_id; pure (reply 200 (a_sandbox meta)))

  unfoldable pub handle_delete_sandbox : Request → Handler R
  handle_delete_sandbox req =
      with_sandbox req (λ session_id sandbox_id. do delete b sandbox_id; pure (reply 204 nothing))

  unfoldable pub handle_get_memory_pressure : Request → Handler R
  handle_get_memory_pressure req = with_sandbox req (λ session_id sandbox_id. do
    p ← get_memory_pressure b sandbox_id
    pure (reply 200 (pressure p)))

  unfoldable pub handle_list_mounts : Request → Handler R
  handle_list_mounts req =
      with_sandbox req (λ session_id sandbox_id. do
        items ← list_mounts sandbox_id
        pure (reply 200 (mounts items)))

  unfoldable pub handle_unmount_path : Request → Handler R
  handle_unmount_path req =
      with_sandbox_and req req.path_mount_id (codes "sandbox id and mount id are required")
        (λ sandbox_id mount_id. do unmount_path b sandbox_id mount_id; pure (reply 204 nothing))

  unfoldable pub handle_get_exec_result : Request → Handler R
  unfolding clamp_exec_result_output
  handle_get_exec_result req =
      with_sandbox_and req req.path_exec_id (codes "sandbox id and exec id are required")
        (λ sandbox_id exec_id. do
          result ← get_exec sandbox_id exec_id
          pure (reply 200 (exec_result (clamp_exec_result_output result) none)))

  unfoldable pub handle_cancel_exec : Request → Handler R
  unfolding clamp_exec_result_output
  handle_cancel_exec req =
      with_sandbox_and req req.path_exec_id (codes "sandbox id and exec id are required")
        (λ sandbox_id exec_id. do
          result ← cancel_exec sandbox_id exec_id
          pure (reply 200 (exec_result (clamp_exec_result_output result) none)))

  unfoldable pub handle_get_warm_pool : Handler R
  handle_get_warm_pool = do stats ← warm_pool_status b policy; pure (reply 200 (pool_stats stats))

  unfoldable pub handle_refill_warm_pool : Handler R
  handle_refill_warm_pool = do
    stats ← refill_warm_pool b policy
    pure (reply 200 (pool_stats stats))

module _ {R : Type 0} where
  abbrev token_reply : Result Text → Handler R
  token_reply (err e) = pure (write_error 500 (codes "create session token failed: " ++ message e))
  token_reply (ok token) = do now ← read_clock; pure (reply 201 (new_session token now))

  unfoldable pub handle_create_session_token : Handler R
  unfolding new_id read_clock
  handle_create_session_token = do token ← attempt (new_id (codes "sess_")); token_reply token
