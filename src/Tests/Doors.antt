-- ===== src/Tests/Doors.antt =====
-- The theorems on access and webhooks at a concrete world.
use sleigh.Prelude.{ℕ, ◌≡◌, refl, Text, false, [], ◌∷◌, codes, any, find?, trim_space, ◌==◌}
use sleigh.Errors.{ok}
use sleigh.Store.Schema.{ExecWebhookSubscriptionRecord}
use sleigh.Store.Sandboxes.{get_sandbox}
use sleigh.Store.Webhooks.{is_pending}
use sleigh.Service.Types.{World}
use sleigh.Service.Effects.{sql, read_clock}
use sleigh.Service.Access.{authorize_sandbox_access}
use sleigh.Service.Access.Owner.{
  IsOwner, access_answer, authorize_sandbox_access_lem, authorize_sandbox_access-IsOwner,
}
use sleigh.Service.Webhooks.{
  Response, responded, WebhookPayload, deliver_exec_webhook_notifications,
}
use sleigh.Service.Webhooks.Delivered.{deliver_exec_webhook_notifications_lem}
use sleigh.Tests.Data.{world, task}

abbrev quiet : World (Unit {0})
quiet = world [] []

authorize_sandbox_access_example :
    (authorize_sandbox_access (codes " s") (codes "a") quiet).0
    ≡ access_answer (codes " s") (codes "a") quiet.db.sandboxes
authorize_sandbox_access_example = authorize_sandbox_access_lem (codes " s") (codes "a") quiet refl

let_in : (authorize_sandbox_access (codes " s") (codes "a") quiet).0 ≡ ok tt
unfolding authorize_sandbox_access trim_space ◌==◌ sql get_sandbox find? read_clock
let_in = refl

authorize-IsOwner_example : IsOwner (codes " s") (codes "a") quiet.db.sandboxes
authorize-IsOwner_example = authorize_sandbox_access-IsOwner (codes " s") (codes "a") quiet let_in

abbrev subscription : ExecWebhookSubscriptionRecord
subscription = record {
  id = codes "w";
  session_id = codes "s";
  sandbox_id = codes "a";
  exec_id = codes "e1";
  webhook_url = codes "http://x";
  delivered_status = [];
  delivered_at = [];
  last_error = [];
  created_at = codes "1";
  updated_at = codes "1";
}

abbrev waiting : World (Unit {0})
waiting = record quiet { db = record quiet.db { subscriptions = subscription ∷ [] } }

-- A receiver that answers with 500.
abbrev refuse : Text → WebhookPayload → Unit {0} → Response × Unit {0}
refuse url payload x = (responded 500, x)

time_shown : (n : ℕ) → (waiting.clock n == []) ≡ false
unfolding ◌==◌
time_shown n = refl

deliver_exec_webhook_example :
    any
      (is_pending (codes "a") (codes "e1"))
      (deliver_exec_webhook_notifications refuse
        (codes "a")
        (codes "e1")
        (task (codes "e1") (codes "failed")).result
        waiting).1.db.subscriptions
    ≡ false
deliver_exec_webhook_example =
    deliver_exec_webhook_notifications_lem (codes "a") (codes "e1") refuse
      (task (codes "e1") (codes "failed")).result waiting refl time_shown
