-- ===== src/Store/Webhooks.antt =====
-- The exec_webhook_subscriptions table of internal/store/sqlite/store.go.
use sleigh.Prelude.{
  Text, Bool, true, false, ◌&&◌, ◌||◌, List, [], ◌∷◌, ◌++◌, ◌==◌, codes, text_lt, any, select,
  update_where, order_by, if◌then◌else◌,
}
use sleigh.Errors.{ok, err, not_found, failure}
use sleigh.Action.{Action}
use sleigh.Store.Schema.{Db, ExecWebhookSubscriptionRecord, has_sandbox, has_exec_task}

-- PRIMARY KEY (id), UNIQUE (exec_id, webhook_url)
unfoldable pub conflicts : ExecWebhookSubscriptionRecord → ExecWebhookSubscriptionRecord → Bool
conflicts r x = (x.id == r.id) || ((x.exec_id == r.exec_id) && (x.webhook_url == r.webhook_url))

-- INSERT OR IGNORE: a conflict inserts nothing; a missing sandbox or task is an error.
unfoldable pub create_exec_webhook_subscription : ExecWebhookSubscriptionRecord → Action Db Bool
unfolding conflicts has_sandbox has_exec_task any
create_exec_webhook_subscription r db =
    if any (conflicts r) db.subscriptions
    then (ok false, db)
    else if has_sandbox db r.sandbox_id && has_exec_task db r.exec_id
    then (ok true, record db { subscriptions = db.subscriptions ++ r ∷ [] })
    else (
      err (failure (codes "insert exec webhook subscription: FOREIGN KEY constraint failed")),
      db,
    )

-- sandbox_id = ? AND exec_id = ? AND delivered_at = ''
unfoldable pub is_pending : Text → Text → ExecWebhookSubscriptionRecord → Bool
is_pending sandbox_id exec_id r =
    (r.sandbox_id == sandbox_id) && (r.exec_id == exec_id) && (r.delivered_at == [])

unfoldable pub list_pending_exec_webhook_subscriptions :
    Text → Text → Action Db (List ExecWebhookSubscriptionRecord)
unfolding is_pending select order_by
list_pending_exec_webhook_subscriptions sandbox_id exec_id db = (
  ok (
      order_by (λ a b. text_lt a.created_at b.created_at)
        (select (is_pending sandbox_id exec_id) db.subscriptions)),
  db,
)

unfoldable pub mark_delivered :
    Text → Text → Text → ExecWebhookSubscriptionRecord → ExecWebhookSubscriptionRecord
mark_delivered now status last_error r = record r {
  delivered_status = status;
  delivered_at = now;
  last_error = last_error;
  updated_at = now;
}

-- `now` is the time text of the call.
unfoldable pub mark_exec_webhook_subscription_delivered :
    Text → Text → Text → Text → Action Db (Unit {0})
unfolding mark_delivered any update_where
mark_exec_webhook_subscription_delivered now id status last_error db =
    if any (λ r. r.id == id) db.subscriptions
    then (
      ok tt,
      record db {
        subscriptions =
            update_where (λ r. r.id == id) (mark_delivered now status last_error) db.subscriptions;
      },
    )
    else (err not_found, db)
