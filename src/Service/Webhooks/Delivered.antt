-- ===== src/Service/Webhooks/Delivered.antt =====
-- deliverExecWebhookNotifications of service.go leaves no subscription of its task pending.
use sleigh.Prelude.{
  ℕ, Text, ◌==◌, ◌≡◌, refl, sym, subst, ◌∙◌, Bool, true, false, not, ◌&&◌, List, [], ◌∷◌, arith,
  any, select, order_by, update_where, text_lt, Bool-cases, inl, inr, text_eq_iff, text_eq_refl,
}
use sleigh.Prelude.Rows.{any-false}
use sleigh.Prelude.Sorting.{any-order_by}
use sleigh.Store.Schema.{Db, ExecWebhookSubscriptionRecord}
use sleigh.Store.Webhooks.{
  is_pending, mark_delivered, mark_exec_webhook_subscription_delivered,
  list_pending_exec_webhook_subscriptions,
}
use sleigh.Service.Types.{World, ExecResult}
use sleigh.Service.Effects.{sql, read_clock}
use sleigh.Service.Webhooks.{
  WebhookPayload, Response, send_exec_webhook, deliver_one, deliver_all,
  deliver_exec_webhook_notifications,
}

abbrev Sub : Type 0
Sub = ExecWebhookSubscriptionRecord

-- A subscription of this id is among the items.
unfoldable pub listed : List Sub → Sub → Bool
listed items r = any (λ i. i.id == r.id) items

-- The rows that a query selects are all listed.
covered :
    (p : Sub → Bool) (xs ys : List Sub)
    → ((r : Sub) → listed (select p xs) r ≡ true → listed ys r ≡ true)
    → any (λ r. p r && not (listed ys r)) xs ≡ false
unfolding listed any select
covered p [] ys h = refl
covered p (x ∷ xs) ys h = elim (Bool-cases (p x)) [
  | inl e ↦
      rw (e, h x (rw (e, text_eq_refl x.id) refl))
        (covered p xs ys (λ r k. h r (rw (e, k) (ground arith))))
  | inr e ↦ rw e (covered p xs ys (λ r k. h r (rw (e, k) refl)))
]

module _ {A : Type 0} (p p' q : A → Bool) where
  any-unless :
      (xs : List A)
      → ((x : A) → q x ≡ false → p x ≡ true → p' x ≡ true)
      → any q xs ≡ false
      → any p' xs ≡ false
      → any p xs ≡ false
  unfolding any
  any-unless [] h k l = refl
  any-unless (x ∷ xs) h k l = ground (arith, h x, any-unless xs h)

  any-update_where_unless :
      (f : A → A) (xs : List A)
      → ((x : A) → p (f x) ≡ false)
      → ((x : A) → q x ≡ false → p x ≡ true → p' x ≡ true)
      → any p' xs ≡ false
      → any p (update_where q f xs) ≡ false
  unfolding any update_where
  any-update_where_unless f [] g h l = refl
  any-update_where_unless f (x ∷ xs) g h l =
      ground (arith, g x, h x, any-update_where_unless f xs g h)

module _ (sandbox_id exec_id : Text) where
  -- A subscription of the task that is pending and not among the items still to be delivered.
  unfoldable pub is_missed : List Sub → Sub → Bool
  is_missed items r = is_pending sandbox_id exec_id r && not (listed items r)

  missed-step :
      (sub : Sub) (items : List Sub) (r : Sub)
      → (r.id == sub.id) ≡ false
      → is_missed items r ≡ true
      → is_missed (sub ∷ items) r ≡ true
  unfolding is_missed listed any
  missed-step sub items r h k =
      ground (arith, h, k, text_eq_iff r.id sub.id, text_eq_iff sub.id r.id)

  marked-missed :
      (now status last_error : Text) (items : List Sub) (r : Sub)
      → (now == []) ≡ false
      → is_missed items (mark_delivered now status last_error r) ≡ false
  unfolding is_missed is_pending mark_delivered
  marked-missed now status last_error items r h = ground (arith, h)

  mark-missed :
      (now status last_error : Text) (sub : Sub) (items : List Sub) (db : Db)
      → (now == []) ≡ false
      → any (is_missed (sub ∷ items)) db.subscriptions ≡ false
      → any
          (is_missed items)
          (mark_exec_webhook_subscription_delivered now sub.id status last_error db).1.subscriptions
        ≡ false
  unfolding mark_exec_webhook_subscription_delivered
  mark-missed now status last_error sub items db h k =
      elim (Bool-cases (any (λ r. r.id == sub.id) db.subscriptions)) [
        | inr e ↦ rw e (
            any-unless (is_missed items) (is_missed (sub ∷ items)) (λ r. r.id == sub.id)
              db.subscriptions (missed-step sub items) e k)
        | inl e ↦ rw e (
            any-update_where_unless (is_missed items) (is_missed (sub ∷ items))
              (λ r. r.id == sub.id) (mark_delivered now status last_error) db.subscriptions
              (λ r. marked-missed now status last_error items r h) (missed-step sub items) k)
      ]

  module _ {R : Type 0} (post : Text → WebhookPayload → R → Response × R) (result : ExecResult)
      (clock : ℕ → Text) (shown : (n : ℕ) → (clock n == []) ≡ false) where
    -- The database answers, the clock is `clock`, and what is pending is among the items.
    abbrev Due : List Sub → World R → Type 0
    Due items w =
        (w.faults ≡ []) × (w.clock ≡ clock) × (any (is_missed items) w.db.subscriptions ≡ false)

    deliver_one-Due :
        (sub : Sub) (items : List Sub) (w : World R)
        → Due (sub ∷ items) w
        → Due items (deliver_one post result sub w).1
    unfolding deliver_one send_exec_webhook read_clock sql
    deliver_one-Due sub items w (f, c, m) = rw f (
      refl,
      c,
      mark-missed (w.clock w.ticks) _ _ sub items w.db
          (subst (λ k. (k w.ticks == []) ≡ false) (sym c) (shown w.ticks)) m,
    )

    deliver_all-Due :
        (items : List Sub) (w : World R) → Due items w → Due [] (deliver_all post result items w).1
    unfolding deliver_all deliver_one send_exec_webhook read_clock
    deliver_all-Due [] w h = h
    deliver_all-Due (sub ∷ items) w h =
        deliver_all-Due items (deliver_one post result sub w).1 (deliver_one-Due sub items w h)

  start-covered :
      (db : Db)
      → any
          (is_missed (
            order_by
              (λ a b. text_lt a.created_at b.created_at)
              (select (is_pending sandbox_id exec_id) db.subscriptions)))
          db.subscriptions
        ≡ false
  unfolding is_missed listed
  start-covered db =
      covered (is_pending sandbox_id exec_id) db.subscriptions _
        (λ r k. any-order_by (λ a b. text_lt a.created_at b.created_at) (λ i. i.id == r.id) _ ∙ k)

  -- While the driver fails no call and the clock shows a time, deliverExecWebhookNotifications
  -- leaves no subscription to the task pending, whatever the receivers answer.
  pub deliver_exec_webhook_notifications_lem :
      {R : Type 0} (post : Text → WebhookPayload → R → Response × R) (result : ExecResult)
      (w : World R)
      → w.faults ≡ []
      → ((n : ℕ) → (w.clock n == []) ≡ false)
      → any
          (is_pending sandbox_id exec_id)
          (deliver_exec_webhook_notifications post sandbox_id exec_id result w).1.db.subscriptions
        ≡ false
  unfolding deliver_exec_webhook_notifications list_pending_exec_webhook_subscriptions sql
  deliver_exec_webhook_notifications_lem post result w f shown =
      let due = deliver_all-Due post result w.clock shown _ w (f, refl, start-covered w.db) in
      rw f (
        any-false (is_missed []) (is_pending sandbox_id exec_id) _
          (λ r k. unfold is_missed in unfold listed in unfold any in ground (arith, k))
          (rw f at due.2))
