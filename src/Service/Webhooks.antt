-- ===== src/Service/Webhooks.antt =====
-- service.go: SubscribeExecWebhook, deliverExecWebhookNotifications, sendExecWebhook and
-- truncateWebhookTailRunes. The URL parser and the HTTP client are parameters.
pub mod Delivered
use sleigh.Prelude.{
  ℕ, ◌+◌, ◌-◌, Text, Bool, true, false, not, ◌||◌, leb, Option, none, some, List, [], ◌∷◌, ◌++◌,
  codes, trim_space, is_blank, length, drop, ◌==◌, if◌then◌else◌,
}
use sleigh.Prelude.Int.{ℤ}
use sleigh.Prelude.Decimal.{decimal}
use sleigh.Errors.{Result, ok, err, bad_request}
use sleigh.Action.{Action, pure, guard, attempt, ignore, ◌>>=◌, ◌>>◌}
use sleigh.Store.Schema.{ExecWebhookSubscriptionRecord}
use sleigh.Store.Webhooks.{
  create_exec_webhook_subscription, list_pending_exec_webhook_subscriptions,
  mark_exec_webhook_subscription_delivered,
}
use sleigh.Service.Types.{Svc, Job, deliver_webhooks, ExecResult}
use sleigh.Service.Effects.{sql, call, spawn, new_id, read_clock}
use sleigh.Service.Access.{authorize_sandbox_access}
use sleigh.Service.Execs.{get_exec, is_exec_terminal_status, exec_result_to_webhook_status}

unfoldable pub truncate_webhook_tail_runes : Text → ℕ → Text
truncate_webhook_tail_runes s max_runes =
    if leb max_runes 0 || s == [] || leb (length s) max_runes
    then s
    else codes "...(truncated webhook field: omitted "
      ++ decimal (length s - max_runes)
      ++ codes " runes, showing last "
      ++ decimal max_runes
      ++ codes ")\n"
      ++ drop (length s - max_runes) s

pub record WebhookPayload : Type 0 where
  pub status : Text
  pub exec_id : Text
  pub sandbox_id : Text
  pub exec_status : Text
  pub command : Text
  pub started_at : Text
  pub completed_at : Text
  pub exit_code : Option ℤ
  pub error : Option Text

unfoldable pub payload_of : ExecResult → WebhookPayload
unfolding exec_result_to_webhook_status truncate_webhook_tail_runes
payload_of r = record {
  status = exec_result_to_webhook_status r;
  exec_id = r.id;
  sandbox_id = r.sandbox_id;
  exec_status = r.status;
  command = truncate_webhook_tail_runes r.command 2048;
  started_at = r.started_at;
  completed_at = r.completed_at;
  exit_code = r.exit_code;
  error = if is_blank r.error then none else some (truncate_webhook_tail_runes r.error 4096);
}

-- What comes of a POST: no request could be built, no response came, or one with a status code.
pub data Response : Type 0 where
  unbuilt unsent : (reason : Text) → Response
  responded : (code : ℕ) → Response

-- The delivery status, and the error's text or "".
unfoldable pub delivery_of : ExecResult → Response → Text × Text
unfolding exec_result_to_webhook_status
delivery_of r (unbuilt reason) = (codes "err", codes "build webhook request failed: " ++ reason)
delivery_of r (unsent reason) = (codes "timeout", codes "send webhook failed: " ++ reason)
delivery_of r (responded code) =
    if leb 300 code
    then (codes "err", codes "webhook returned status " ++ decimal code)
    else (exec_result_to_webhook_status r, [])

abbrev pub is_http : Option Text → Bool
is_http none = false
is_http (some scheme) = scheme == codes "http" || scheme == codes "https"

module _ {R : Type 0} where
  abbrev pub deliver_if : Bool → Text → Text → ExecResult → Svc R (Unit {0})
  deliver_if true sandbox_id exec_id result = spawn (deliver_webhooks sandbox_id exec_id result)
  deliver_if false sandbox_id exec_id result = pure tt

  module _ (post : Text → WebhookPayload → R → Response × R) where
    abbrev answer_of : ExecResult → Response × R → Result (Text × Text) × R
    answer_of result (response, x) = (ok (delivery_of result response), x)

    unfoldable pub send_exec_webhook : Text → ExecResult → Action R (Text × Text)
    unfolding payload_of delivery_of
    send_exec_webhook url result x = answer_of result (post url (payload_of result) x)

    unfoldable pub deliver_one : ExecResult → ExecWebhookSubscriptionRecord → Svc R (Unit {0})
    unfolding send_exec_webhook
    deliver_one result sub = do
      delivery ← call (send_exec_webhook sub.webhook_url result)
      now ← read_clock
      ignore (sql (mark_exec_webhook_subscription_delivered now sub.id delivery.0 delivery.1))

    unfoldable pub deliver_all : ExecResult → List ExecWebhookSubscriptionRecord → Svc R (Unit {0})
    unfolding deliver_one
    deliver_all result [] = pure tt
    deliver_all result (sub ∷ subs) = do deliver_one result sub; deliver_all result subs

    abbrev pub deliver_items :
        ExecResult → Result (List ExecWebhookSubscriptionRecord) → Svc R (Unit {0})
    deliver_items result (err e) = pure tt
    deliver_items result (ok items) = deliver_all result items

    unfoldable pub deliver_exec_webhook_notifications : Text → Text → ExecResult → Svc R (Unit {0})
    unfolding deliver_all
    deliver_exec_webhook_notifications sandbox_id exec_id result = do
      items ← attempt (sql (list_pending_exec_webhook_subscriptions sandbox_id exec_id))
      deliver_items result items

  -- `scheme` is the scheme of a URL that parses. The answer: whether the subscription is new, the
  -- task, and whether it has ended and the delivery was started at once.
  unfoldable pub subscribe_exec_webhook :
      (Text → Option Text) → Text → Text → Text → Text → Svc R (Bool × ExecResult × Bool)
  unfolding is_exec_terminal_status
  subscribe_exec_webhook scheme session sandbox exec url = do
    let session_id = trim_space session
    let sandbox_id = trim_space sandbox
    let exec_id = trim_space exec
    let webhook_url = trim_space url
    guard (not (session_id == [] || sandbox_id == [] || exec_id == [] || webhook_url == []))
        bad_request
    guard (is_http (scheme webhook_url)) bad_request
    authorize_sandbox_access session_id sandbox_id
    result ← get_exec sandbox_id exec_id
    subscription_id ← new_id (codes "whs_")
    now ← read_clock
    created ← sql (
        create_exec_webhook_subscription (record {
          id = subscription_id;
          session_id = session_id;
          sandbox_id = sandbox_id;
          exec_id = exec_id;
          webhook_url = webhook_url;
          delivered_status = [];
          delivered_at = [];
          last_error = [];
          created_at = now;
          updated_at = now;
        }))
    deliver_if (is_exec_terminal_status result.status) sandbox_id exec_id result
    pure (created, result, is_exec_terminal_status result.status)
