-- ===== src/Router/Tasks.antt =====
-- router.go: execSandbox with waitExecResult, subscribeExecWebhook, listSessionExecTasks,
-- cleanupExecTasks and mountPath.
use sleigh.Prelude.{
  ℕ, zero, suc, Text, Bool, true, false, not, ◌||◌, Option, none, some, [], ◌∷◌, ◌++◌, map, codes,
  trim_space, ◌==◌, if◌then◌else◌,
}
use sleigh.Prelude.Int.{ℤ, pos, leb_ℤ, ltb_ℤ}
use sleigh.Prelude.Decimal.{decimal_ℤ, parse_int64}
use sleigh.Errors.{Result, ok, err, bad_request, forbidden, message}
use sleigh.Action.{pure, raise, lift, attempt, ◌>>=◌, ◌>>◌}
use sleigh.Service.Types.{Svc, Backend, Policy, ExecResult}
use sleigh.Service.Execs.{execute, get_exec, is_exec_terminal_status}
use sleigh.Service.Webhooks.{subscribe_exec_webhook}
use sleigh.Service.History.{Codec, list_exec_history}
use sleigh.Service.Cleanup.{cleanup_exec_history}
use sleigh.Service.Mounts.{Files, mount_path}
use sleigh.Router.Limits.{clamp_exec_result_output}
use sleigh.Router.Paths.{resolve_workspace_path}
use sleigh.Router.Replies.{
  SubSummary, reply, write_error, ExecBody, SubscribeBody, MountBody, Request, Handler,
  session_token_from_request, require, with_body, decoded_or, refused, subscribed, exec_result,
  exec_results, subscription, a_mount, cleaned,
}

-- `waitSeconds` is 10 where the request gives none.
abbrev pub wait_seconds : ℤ → ℤ
wait_seconds n = if leb_ℤ n (pos 0) then pos 10 else n

abbrev still_running : ℤ → ExecResult → ExecResult
still_running seconds current = record current {
  error =
      codes "still running after wait timeout ("
      ++ decimal_ℤ seconds
      ++ codes "s); call get_exec with exec_id="
      ++ current.id
      ++ codes " to continue polling";
}

abbrev noted_timeout : ℤ → ExecResult × Bool → ExecResult
noted_timeout seconds (current, true) = still_running seconds current
noted_timeout seconds (current, false) = current

abbrev summary : Result (Bool × ExecResult × Bool) → SubSummary
summary (ok (created, result, delivered)) = subscribed created delivered result.status
summary (err e) = refused (message e)

abbrev limit_of_value : Option ℤ → ℤ
limit_of_value none = pos 20
limit_of_value (some n) = if ltb_ℤ (pos 0) n then n else pos 20

-- `limit`: 20 unless strconv.Atoi makes a number of the text that is more than 0.
abbrev page_limit : Text → ℤ
page_limit raw =
    let s = trim_space raw in if s == [] then pos 20 else limit_of_value (parse_int64 s)

abbrev session_or : Text → Text → Text
session_or [] token = token
session_or (c ∷ s) token = c ∷ s

module _ {R : Type 0} where
  -- `pause` is the sleep of 250 ms: what the others do meanwhile. `rounds` is how often the clock is
  -- before the deadline. The answer says whether the wait timed out.
  unfoldable pub wait_exec_result :
      Svc R (Unit {0}) → ℕ → Text → ExecResult → Svc R (ExecResult × Bool)
  unfolding is_exec_terminal_status
  wait_exec_result pause zero sandbox_id current =
      pure (current, not (is_exec_terminal_status current.status))
  wait_exec_result pause (suc rounds) sandbox_id current =
      let again : ExecResult → Svc R (ExecResult × Bool) =
        λ next. wait_exec_result pause rounds sandbox_id next in
      if is_exec_terminal_status current.status
      then pure (current, false)
      else do pause; next ← get_exec sandbox_id current.id; again next

  -- `scheme` is that of a URL that parses.
  abbrev subscribe_if : (Text → Option Text) → Text → Text → Text → Text → Svc R (Option SubSummary)
  subscribe_if scheme session_id sandbox_id exec_id [] = pure none
  subscribe_if scheme session_id sandbox_id exec_id (c ∷ url) = do
    answer ← attempt (subscribe_exec_webhook scheme session_id sandbox_id exec_id (c ∷ url))
    pure (some (summary answer))

  abbrev answer_exec :
      Svc R (Unit {0}) → (ℤ → ℕ) → Text → Bool → ℤ → ExecResult → Option SubSummary → Handler R
  answer_exec pause rounds sandbox_id false seconds result sub =
      pure (reply 202 (exec_result result sub))
  answer_exec pause rounds sandbox_id true seconds result sub = do
    waited ← wait_exec_result pause (rounds seconds) sandbox_id result
    pure (reply 200 (exec_result (clamp_exec_result_output (noted_timeout seconds waited)) sub))

  -- `rounds` is how often the clock is read before a deadline so many seconds away.
  unfoldable pub handle_exec_sandbox :
      Svc R (Unit {0}) → (ℤ → ℕ) → (Text → Option Text) → Request → Result ExecBody → Handler R
  unfolding clamp_exec_result_output
  handle_exec_sandbox pause rounds scheme req decoded =
      with_body req decoded (λ body. body.session_token)
        (λ session_id sandbox_id body. do
          result ← execute sandbox_id body.command
          sub ← subscribe_if scheme session_id sandbox_id result.id (trim_space body.webhook_url)
          answer_exec pause rounds sandbox_id body.wait (wait_seconds body.wait_timeout_seconds)
              (clamp_exec_result_output result) sub)

  unfoldable pub handle_subscribe_exec_webhook :
      (Text → Option Text) → Result SubscribeBody → Handler R
  handle_subscribe_exec_webhook scheme decoded = decoded_or decoded (λ body.
      let session_id = trim_space body.session_token in
      let sandbox_id = trim_space body.sandbox_id in
      let exec_id = trim_space body.exec_id in
      let webhook_url = trim_space body.webhook_url in
      if session_id == []
      then raise bad_request
      else require (not (sandbox_id == [] || exec_id == [] || webhook_url == [])) 400
          (codes "sandbox_id, exec_id and webhook_url are required")
          (do
            (created, result, delivered) ←
                subscribe_exec_webhook scheme session_id sandbox_id exec_id webhook_url
            pure (reply 201 (subscription created delivered result))))

  -- `now` is time.Now().Unix(), and `codec` how a cursor is written.
  unfoldable pub handle_list_session_exec_tasks : Codec → Policy → ℤ → Request → Handler R
  unfolding session_token_from_request clamp_exec_result_output
  handle_list_session_exec_tasks codec policy now req = do
    token ← lift (session_token_from_request req)
    let session_id = session_or (trim_space req.path_session_id) token
    if token == session_id then pure tt else raise forbidden
    (items, cursor) ←
        list_exec_history codec policy now session_id (page_limit req.query_limit)
          (trim_space req.query_cursor)
    pure (reply 200 (exec_results (map clamp_exec_result_output items) cursor))

  unfoldable pub handle_cleanup_exec_tasks : (ℤ → Text → Text) → Policy → Handler R
  handle_cleanup_exec_tasks days_before policy = do
    (deleted, before) ← cleanup_exec_history days_before policy
    pure (reply 200 (cleaned deleted before))

  module _ (b : Backend R) (files : Files) (policy : Policy) where
    abbrev mount_checked : Text → Text → Text → Handler R
    mount_checked sandbox_id host_path container_path =
        require (not (container_path == [])) 400 (codes "container_path is required") (
          require (files.is_abs container_path) 400
            (codes "container_path must be an absolute path")
            (do
              result ← mount_path b files policy sandbox_id (record {
                host_path = host_path;
                container_path = container_path;
                mode = codes "ro";
              })
              pure (reply 201 (a_mount result))))

    abbrev mount_resolved : Text → Text → Result Text → Handler R
    mount_resolved sandbox_id container_path (err e) = pure (write_error 400 (message e))
    mount_resolved sandbox_id container_path (ok host_path) =
        mount_checked sandbox_id host_path (trim_space container_path)

    unfoldable pub handle_mount_path : Request → Result MountBody → Handler R
    handle_mount_path req decoded =
        with_body req decoded (λ body. body.session_token)
          (λ session_id sandbox_id body.
            mount_resolved sandbox_id body.container_path
              (resolve_workspace_path files policy.mount_allowed_root body.workspace_path))
