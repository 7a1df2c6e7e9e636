-- ===== src/Router/Guarded/Routes.antt =====
-- router.go: the handlers of one sandbox, by route as NewHandler registers them.
use sleigh.Prelude.{ℕ, Text, Bool, Option, trim_space}
use sleigh.Prelude.Int.{ℤ}
use sleigh.Errors.{Result}
use sleigh.Service.Types.{World, Svc, Backend, Policy}
use sleigh.Service.Mounts.{Files}
use sleigh.Service.Snapshots.{Disk}
use sleigh.Router.Replies.{
  RollbackBody, ExecBody, MountBody, ReadBody, Request, Handler, session_token_from_request, answer,
}
use sleigh.Router.Sandboxes.{
  HostMemory, handle_get_sandbox, handle_delete_sandbox, handle_get_memory_pressure,
  handle_list_mounts, handle_unmount_path, handle_get_exec_result, handle_cancel_exec,
}
use sleigh.Router.Changes.{handle_list_snapshots, handle_create_snapshot, handle_rollback_sandbox}
use sleigh.Router.Reads.{handle_read_op}
use sleigh.Router.Tasks.{handle_exec_sandbox, handle_mount_path}
use sleigh.Router.Guarded.{Guard}
use sleigh.Router.Guarded.Heads.{
  body_session, with_sandbox-Guard, with_sandbox_and-Guard, with_body-Guard,
}

-- What the handlers use beside the service's state.
pub record Server (R : Type 0) : Type 0 where
  pub backend : Backend R
  pub policy : Policy
  pub disk : Disk R
  pub files : Files
  pub memory : HostMemory
  pub overflow : ℤ
  pub scheme : Text → Option Text
  pub client_pause : Svc R Bool
  pub poll_pause : Svc R (Unit {0})
  pub rounds : ℤ → ℕ

-- The routes of one sandbox that check the session before they do anything else.
pub data Route : Type 0 where
  get_route delete_route snapshots_route snapshot_route pressure_route mounts_route : Route
  unmount_route exec_result_route cancel_route : Route
  rollback_route : Result RollbackBody → Route
  exec_route : Result ExecBody → Route
  mount_route : Result MountBody → Route
  read_route : Result ReadBody → Route

unfoldable pub serve : {R : Type 0} → Server R → Route → Request → Handler R
serve server get_route req = handle_get_sandbox server.backend server.policy req
serve server delete_route req = handle_delete_sandbox server.backend server.policy req
serve server snapshots_route req =
    handle_list_snapshots server.backend server.policy server.client_pause req
serve server snapshot_route req =
    handle_create_snapshot server.backend server.policy server.disk req
serve server pressure_route req = handle_get_memory_pressure server.backend server.policy req
serve server mounts_route req = handle_list_mounts server.backend server.policy req
serve server unmount_route req = handle_unmount_path server.backend server.policy req
serve server exec_result_route req = handle_get_exec_result server.backend server.policy req
serve server cancel_route req = handle_cancel_exec server.backend server.policy req
serve server (rollback_route body) req =
    handle_rollback_sandbox server.backend server.policy server.disk server.overflow server.memory
      req body
serve server (exec_route body) req =
    handle_exec_sandbox server.poll_pause server.rounds server.scheme req body
serve server (read_route body) req = handle_read_op server.poll_pause server.rounds req body
serve server (mount_route body) req =
    handle_mount_path server.backend server.files server.policy req body

-- The session that a request names: in its body or query, or, where the handler decodes a body, there.
unfoldable pub session_of_route : Route → Request → Result Text
session_of_route (rollback_route decoded) req = body_session (λ body. body.session_token) decoded
session_of_route (exec_route decoded) req = body_session (λ body. body.session_token) decoded
session_of_route (mount_route decoded) req = body_session (λ body. body.session_token) decoded
session_of_route (read_route decoded) req = body_session (λ body. body.session_token) decoded
session_of_route _ req = session_token_from_request req

module _ {R : Type 0} (server : Server R) where
  -- Whatever the driver, the runtime, the host and the request's body are, each handler of one
  -- sandbox but expandMemory, codeWrite and copyEnvironment either has a request whose session owns
  -- the sandbox, or replies with an error status and leaves the tables, the runtime, the tasks, the
  -- jobs and the events as they were.
  pub serve-Guard :
      (route : Route) (req : Request) (w : World R)
      → Guard
          (session_of_route route req)
          (trim_space req.path_id)
          w
          (answer (serve server route req) w)
  unfolding serve session_of_route handle_get_sandbox handle_delete_sandbox handle_list_snapshots
      handle_create_snapshot handle_get_memory_pressure handle_list_mounts handle_unmount_path
      handle_get_exec_result handle_cancel_exec handle_rollback_sandbox handle_exec_sandbox
      handle_mount_path handle_read_op
  serve-Guard get_route req w = with_sandbox-Guard req _ w
  serve-Guard delete_route req w = with_sandbox-Guard req _ w
  serve-Guard snapshots_route req w = with_sandbox-Guard req _ w
  serve-Guard snapshot_route req w = with_sandbox-Guard req _ w
  serve-Guard pressure_route req w = with_sandbox-Guard req _ w
  serve-Guard mounts_route req w = with_sandbox-Guard req _ w
  serve-Guard unmount_route req w = with_sandbox_and-Guard req _ _ _ w
  serve-Guard exec_result_route req w = with_sandbox_and-Guard req _ _ _ w
  serve-Guard cancel_route req w = with_sandbox_and-Guard req _ _ _ w
  serve-Guard (rollback_route decoded) req w = with_body-Guard req decoded _ _ w
  serve-Guard (exec_route decoded) req w = with_body-Guard req decoded _ _ w
  serve-Guard (mount_route decoded) req w = with_body-Guard req decoded _ _ w
  serve-Guard (read_route decoded) req w = with_body-Guard req decoded _ _ w
