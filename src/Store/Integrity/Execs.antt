-- ===== src/Store/Integrity/Execs.antt =====
-- The queries on exec tasks, webhook subscriptions, event sequences and images keep the store
-- integral.
use sleigh.Prelude.{
  Text, ◌==◌, refl, ◌∙◌, ◌&&◌, List, [], ◌∷◌, arith, any, Bool-cases, inl, inr, is_blank, Option,
  none, some,
}
use sleigh.Prelude.Rows.{
  any-append, any-update_where, any-delete_where, All-mono, All-append, All-delete_where,
  All-update_where, Distinct-append, Distinct-delete_where, Distinct-update_where,
}
use sleigh.Action.Keeps.{Keeps}
use sleigh.Store.Schema.{
  ExecTaskRecord, ExecWebhookSubscriptionRecord, SequenceRow, has_sandbox, has_exec_task,
}
use sleigh.Store.Execs.{
  row_of_record, create_exec_task, set_outcome, is_exec_task, update_exec_task, completed_before,
  follows_completed, cleanup_exec_tasks_before,
}
use sleigh.Store.Webhooks.{
  conflicts, create_exec_webhook_subscription, mark_delivered,
  mark_exec_webhook_subscription_delivered,
}
use sleigh.Store.Sequences.{
  upsert_sequence, increment_sequence, find_sequence, commit_sequence, next_session_sequence,
}
use sleigh.Store.Images.{
  record_managed_image_pull, touch_managed_image_if_tracked, delete_managed_image,
}
use sleigh.Store.Integrity.{
  IsIntegral, with_exec_tasks, with_subscriptions, with_sequences, with_managed_images,
}

pub create_exec_task-IsIntegral : (r : ExecTaskRecord) → Keeps IsIntegral (create_exec_task r)
unfolding create_exec_task has_exec_task
create_exec_task-IsIntegral r = record {
  at = λ db h. elim (Bool-cases (any (λ t. t.id == r.id) db.exec_tasks)) [
    | inl e ↦ rw e h
    | inr e ↦ elim (Bool-cases (any (λ x. x.id == r.sandbox_id) db.sandboxes)) [
      | inr k ↦ rw (e, k) h
      | inl k ↦
          rw (e, k)
            (with_exec_tasks db h _ db.subscriptions
              (All-append _ db.exec_tasks (row_of_record r ∷ []) h.exec_tasks (k, tt))
              (Distinct-append (λ t. t.id) db.exec_tasks (row_of_record r) e h.exec_ids)
              h.subscribed
              (All-mono _ _ db.subscriptions
                (λ x w. ground (
                  arith,
                  w,
                  any-append (λ t. t.id == x.exec_id) db.exec_tasks (row_of_record r ∷ []),
                ))
                h.watched))
    ]
  ];
}

pub update_exec_task-IsIntegral : (r : ExecTaskRecord) → Keeps IsIntegral (update_exec_task r)
unfolding update_exec_task has_exec_task
update_exec_task-IsIntegral r = record {
  at = λ db h. elim (Bool-cases (any (is_exec_task r.sandbox_id r.id) db.exec_tasks)) [
    | inr e ↦ rw e h
    | inl e ↦ rw e (
        with_exec_tasks db h _ db.subscriptions
          (All-update_where _ _ _ (set_outcome r) db.exec_tasks (λ x k. k) (λ x k. k) h.exec_tasks)
          (Distinct-update_where (λ t. t.id) _ (set_outcome r) db.exec_tasks (λ x. refl) h.exec_ids)
          h.subscribed
          (All-mono _ _ db.subscriptions
            (λ x w.
              any-update_where (λ t. t.id == x.exec_id) _ (set_outcome r) db.exec_tasks (λ y. refl)
              ∙ w)
            h.watched))
  ];
}

pub cleanup_exec_tasks_before-IsIntegral :
    (before : Text) → Keeps IsIntegral (cleanup_exec_tasks_before before)
unfolding cleanup_exec_tasks_before has_exec_task
cleanup_exec_tasks_before-IsIntegral before = record {
  at = λ db h.
      with_exec_tasks db h _ _
        (All-delete_where _ _ (completed_before before) db.exec_tasks (λ x _ k. k) h.exec_tasks)
        (Distinct-delete_where (λ t. t.id) (completed_before before) db.exec_tasks h.exec_ids)
        (All-delete_where _ _ (follows_completed before db.exec_tasks) db.subscriptions (λ x _ k. k)
          h.subscribed)
        (All-delete_where _ _ (follows_completed before db.exec_tasks) db.subscriptions
          (λ x k w.
            any-delete_where (λ t. t.id == x.exec_id) (completed_before before) db.exec_tasks w k)
          h.watched);
}

pub create_exec_webhook_subscription-IsIntegral :
    (r : ExecWebhookSubscriptionRecord) → Keeps IsIntegral (create_exec_webhook_subscription r)
unfolding create_exec_webhook_subscription
create_exec_webhook_subscription-IsIntegral r = record {
  at = λ db h. elim (Bool-cases (any (conflicts r) db.subscriptions)) [
    | inl e ↦ rw e h
    | inr e ↦ elim (Bool-cases (has_sandbox db r.sandbox_id && has_exec_task db r.exec_id)) [
      | inr k ↦ rw (e, k) h
      | inl k ↦
          rw (e, k)
            (with_subscriptions db h _
              (All-append _ db.subscriptions (r ∷ []) h.subscribed (ground arith, tt))
              (All-append _ db.subscriptions (r ∷ []) h.watched (ground arith, tt)))
    ]
  ];
}

pub mark_exec_webhook_subscription_delivered-IsIntegral :
    (now id status last_error : Text)
    → Keeps IsIntegral (mark_exec_webhook_subscription_delivered now id status last_error)
unfolding mark_exec_webhook_subscription_delivered
mark_exec_webhook_subscription_delivered-IsIntegral now id status last_error = record {
  at = λ db h. elim (Bool-cases (any (λ r. r.id == id) db.subscriptions)) [
    | inr e ↦ rw e h
    | inl e ↦ rw e (
        with_subscriptions db h _
          (All-update_where _ _ _ (mark_delivered now status last_error) db.subscriptions (λ x k. k)
            (λ x k. k) h.subscribed)
          (All-update_where _ _ _ (mark_delivered now status last_error) db.subscriptions (λ x k. k)
            (λ x k. k) h.watched))
  ];
}

commit_sequence-IsIntegral :
    (rows : List SequenceRow) (o : Option SequenceRow) → Keeps IsIntegral (commit_sequence rows o)
commit_sequence-IsIntegral rows none = record { at = λ db h. h }
commit_sequence-IsIntegral rows (some r) = record { at = λ db h. with_sequences db h rows }

pub next_session_sequence-IsIntegral : (s : Text) → Keeps IsIntegral (next_session_sequence s)
unfolding next_session_sequence
next_session_sequence-IsIntegral s = record {
  at = λ db h.
      let rows = increment_sequence s (upsert_sequence s db.sequences) in
      (commit_sequence-IsIntegral rows (find_sequence s rows)).at db h;
}

pub record_managed_image_pull-IsIntegral :
    (now image used_at : Text) → Keeps IsIntegral (record_managed_image_pull now image used_at)
unfolding record_managed_image_pull
record_managed_image_pull-IsIntegral now image used_at = record {
  at = λ db h. elim (Bool-cases (is_blank image)) [
    | inl e ↦ rw e h
    | inr e ↦ elim (Bool-cases (any (λ r. r.image == image) db.managed_images)) [
      | inl k ↦ rw (e, k) (with_managed_images db h _)
      | inr k ↦ rw (e, k) (with_managed_images db h _)
    ]
  ];
}

pub touch_managed_image_if_tracked-IsIntegral :
    (now image used_at : Text) → Keeps IsIntegral (touch_managed_image_if_tracked now image used_at)
unfolding touch_managed_image_if_tracked
touch_managed_image_if_tracked-IsIntegral now image used_at = record {
  at = λ db h. elim (Bool-cases (is_blank image)) [
    | inl e ↦ rw e h
    | inr e ↦ rw e (with_managed_images db h _)
  ];
}

pub delete_managed_image-IsIntegral : (image : Text) → Keeps IsIntegral (delete_managed_image image)
unfolding delete_managed_image
delete_managed_image-IsIntegral image = record { at = λ db h. with_managed_images db h _ }
