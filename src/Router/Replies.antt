-- ===== src/Router/Replies.antt =====
-- router.go: requests and replies, sessionTokenFromRequest, writeError, writeDomainError, and the checks
-- at the head of the handlers. A body is what decodeJSON makes of it for the handler's type.
use sleigh.Prelude.{
  ℕ, Text, Bool, true, false, not, ◌||◌, Option, none, some, List, [], ◌∷◌, codes, trim_space, ◌==◌,
  if◌then◌else◌,
}
use sleigh.Prelude.Int.{ℤ}
use sleigh.Errors.{
  Error, Result, ok, err, bad_request, is_not_found, is_bad_request, is_forbidden, message,
}
use sleigh.Action.{pure, raise, lift, ◌>>=◌, ◌>>◌}
use sleigh.Store.Schema.{Labels}
use sleigh.Service.Types.{
  World, Svc, Metadata, Snapshot, ExecResult, MountSpec, MemoryPressure, AutoExpandResult,
}
use sleigh.Service.Pool.{WarmPoolStats}
use sleigh.Service.Access.{authorize_sandbox_access}

-- The outcome of a subscription that came with an exec request.
pub data SubSummary : Type 0 where
  refused : (error : Text) → SubSummary
  subscribed : (created delivered_immediately : Bool) (exec_status : Text) → SubSummary

pub record ReadReply : Type 0 where
  pub status : Text
  pub timed_out : Bool
  pub truncated : Bool
  pub exec_id : Text
  pub stdout : Text
  pub stderr : Text
  pub exit_code : Option ℤ
  pub error : Text
  pub omitted_bytes : ℕ
  pub next_offset : ℤ

-- What a reply carries.
pub data Payload : Type 0 where
  error_text : Text → Payload
  image_pull_needed : (image : Text) → Payload
  nothing : Payload
  a_sandbox : Metadata → Payload
  sandboxes : List Metadata → Payload
  a_snapshot : Snapshot → Payload
  snapshots : List Snapshot → Payload
  exec_result : ExecResult → Option SubSummary → Payload
  exec_results : List ExecResult → (cursor : Text) → Payload
  subscription : (created delivered_immediately : Bool) → ExecResult → Payload
  pressure : MemoryPressure → Payload
  expansion : AutoExpandResult → Payload
  a_mount : MountSpec → Payload
  mounts : List MountSpec → Payload
  pool_stats : WarmPoolStats → Payload
  read_result : ReadReply → Payload
  new_session : (session_token issued_at : Text) → Payload
  cleaned : (deleted : ℕ) (before : Text) → Payload

pub record Reply : Type 0 where
  pub status : ℕ
  pub payload : Payload

abbrev pub reply : ℕ → Payload → Reply
reply status payload = record { status = status; payload = payload }

abbrev pub write_error : ℕ → Text → Reply
write_error status text = reply status (error_text text)

-- writeDomainError
unfoldable pub status_of : Error → ℕ
unfolding is_not_found is_bad_request is_forbidden
status_of e =
    if is_not_found e
    then 404
    else if is_bad_request e
    then 400
    else if is_forbidden e
    then 403
    else 500

abbrev pub write_domain_error : Error → Reply
write_domain_error e = write_error (status_of e) (message e)

pub record CreateBody : Type 0 where
  pub session_token : Text
  pub image : Text
  pub labels : Labels
  pub memory_limit_mb : ℤ
  pub confirm_low_memory : Bool
  pub auto_expand_memory : Bool
  pub image_pull_policy : Text

pub record RollbackBody : Type 0 where
  pub session_token : Text
  pub snapshot_id : Text
  pub auto_expand : Bool

pub record ExecBody : Type 0 where
  pub session_token : Text
  pub command : Text
  pub wait : Bool
  pub wait_timeout_seconds : ℤ
  pub webhook_url : Text

pub record SubscribeBody : Type 0 where
  pub session_token : Text
  pub sandbox_id : Text
  pub exec_id : Text
  pub webhook_url : Text

pub record ExpandBody : Type 0 where
  pub session_token : Text
  pub target_mb : ℤ
  pub auto_expand : Bool

pub record MountBody : Type 0 where
  pub session_token : Text
  pub workspace_path : Text
  pub container_path : Text

pub record ReadBody : Type 0 where
  pub session_token : Text
  pub command : Text
  pub args : List Text
  pub cwd : Text
  pub timeout_seconds : ℤ
  pub max_output_bytes : ℤ
  pub max_lines : ℤ
  pub output_offset : ℤ

-- `body_token` is the session token of the body, if it is JSON that has one; the values of the path and
-- the query are texts, empty where they are not there.
pub record Request : Type 0 where
  pub readable : Bool
  pub body_token : Option Text
  pub query_token : Text
  pub query_limit : Text
  pub query_cursor : Text
  pub path_id : Text
  pub path_exec_id : Text
  pub path_mount_id : Text
  pub path_session_id : Text

abbrev token_or_query : Text → Text → Result Text
token_or_query [] query = if trim_space query == [] then err bad_request else ok (trim_space query)
token_or_query (c ∷ s) query = ok (c ∷ s)

abbrev body_or_query : Option Text → Text → Result Text
body_or_query none query = token_or_query [] query
body_or_query (some token) query = token_or_query (trim_space token) query

unfoldable pub session_token_from_request : Request → Result Text
session_token_from_request req =
    if not req.readable then err bad_request else body_or_query req.body_token req.query_token

-- A handler gives a reply, or the error that writeDomainError writes.
abbrev pub Handler : Type 0 → Type 0
Handler R = Svc R Reply

abbrev pub render : Result Reply → Reply
render (ok r) = r
render (err e) = write_domain_error e

module _ {R : Type 0} where
  -- The reply to a request.
  abbrev pub answer : Handler R → World R → Reply × World R
  answer h w = let (r, w') = h w in (render r, w')

  -- `if !b { writeError(…); return }`
  abbrev pub require : Bool → ℕ → Text → Handler R → Handler R
  require true status text h = h
  require false status text h = pure (write_error status text)

  -- The head of the handlers that take the token from anywhere in the request.
  unfoldable pub with_sandbox : Request → (Text → Text → Handler R) → Handler R
  unfolding session_token_from_request
  with_sandbox req h = do
    session_id ← lift (session_token_from_request req)
    let sandbox_id = trim_space req.path_id
    require (not (sandbox_id == [])) 400 (codes "sandbox id is required")
        (do authorize_sandbox_access session_id sandbox_id; h session_id sandbox_id)

  -- The same where the path names a second thing of the sandbox.
  unfoldable pub with_sandbox_and : Request → Text → Text → (Text → Text → Handler R) → Handler R
  unfolding session_token_from_request
  with_sandbox_and req other text h = do
    session_id ← lift (session_token_from_request req)
    let sandbox_id = trim_space req.path_id
    let other_id = trim_space other
    require (not (sandbox_id == [] || other_id == [])) 400 text
        (do authorize_sandbox_access session_id sandbox_id; h sandbox_id other_id)

  abbrev pub decoded_or : {B : Type 0} → Result B → (B → Handler R) → Handler R
  decoded_or (ok body) h = h body
  decoded_or (err e) h = pure (write_error 400 (message e))

  -- The head of the handlers that decode a body and take the token from it.
  unfoldable pub with_body :
      {B : Type 0} → Request → Result B → (B → Text) → (Text → Text → B → Handler R) → Handler R
  with_body req body token h =
      let sandbox_id = trim_space req.path_id in
      require (not (sandbox_id == [])) 400 (codes "sandbox id is required") (
        decoded_or body (λ b. do
          let session_id = trim_space (token b)
          if session_id == []
              then raise bad_request
              else authorize_sandbox_access session_id sandbox_id
          h session_id sandbox_id b))
