-- ===== src/Orders/Webhook/Tables.antt =====
-- What razorpay_webhook reads and writes: update_pay_completion_get_orderid,
-- webhook_error_recorded, get_pay_record_by_provider_orderid, update_order_status,
-- emit_outbox_event and create_commit_intent of backend/orders/repository.py,
-- mark_webhook_received, mark_webhook_processed and load_order_items_pid_qty of
-- backend/orders/services.py. Ids are drawn from 1 on, so an id that is found is never falsy.
-- Topics determine the aggregate type.
use phyllonix.Base.{
  ℕ, Bool, true, false, ◌&&◌, not, Option, none, some, List, [], ◌∷◌, ◌++◌, ltb, ◌==◌,
  if◌then◌else◌, find_where, select_where, update_where, sum_where, is_some, Action, crash, gets,
  modify, pure, raise, raise_if, ◌>>=◌, ◌>>◌,
}
use phyllonix.Schema.{
  OrderStatus, PaymentStatus, payment_value, Payment, PaymentWebhookEvent, Topic, OutboxEvent,
  OutboxEventStatus, Line, OrderItem, CommitIntent, CommitIntentStatus, Orders,
}
use phyllonix.Orders.Shop.{Shop, fresh}

-- `column == value`; a comparison with None is IS NULL
abbrev pub opt_eq : Option ℕ → Option ℕ → Bool
opt_eq none none = true
opt_eq (some a) (some b) = a == b
opt_eq _ _ = false

-- `one_or_none`: several rows raise MultipleResultsFound.
abbrev pub one_or_none : List Payment → Action Shop (Option Payment)
one_or_none [] = pure none
one_or_none (p ∷ []) = pure (some p)
one_or_none (p ∷ q ∷ ps) = raise crash

unfoldable pub get_pay_record_by_provider_orderid : Option ℕ → Action Shop (Option Payment)
get_pay_record_by_provider_orderid provider_order_id = do
  rows ←
      gets (λ d.
        select_where (λ (p : Payment). opt_eq p.provider_order_id provider_order_id) d.payments)
  one_or_none rows

abbrev pub has_event : ℕ → PaymentWebhookEvent → Bool
has_event provider_event_id e = opt_eq e.provider_event_id (some provider_event_id)

-- INSERT … ON CONFLICT DO NOTHING RETURNING; `pay_status or RECEIVED` is pay_status, as RECEIVED
-- is 0
unfoldable pub insert_event :
    ℕ → Option ℕ → ℕ → ℕ → Option PaymentWebhookEvent → Action Shop (Option PaymentWebhookEvent)
insert_event event_id order_id status id (some _) = pure none
insert_event event_id order_id status id none =
    let e : PaymentWebhookEvent = record {
      id = id;
      provider_event_id = some event_id;
      order_id = order_id;
      status = status;
      attempts = 1;
      last_error = not (is_some order_id);
      processed_at = none;
    } in
    (do modify (λ d. record d { webhook_events = d.webhook_events ++ e ∷ [] }); pure (some e))

-- The two calls that pass `pay_status`: the one without an order records an error.
unfoldable pub mark_webhook_received : ℕ → Option ℕ → ℕ → Action Shop (Option PaymentWebhookEvent)
unfolding insert_event
mark_webhook_received event_id order_id status = do
  id ← fresh
  existing ← gets (λ d. find_where (has_event event_id) d.webhook_events)
  insert_event event_id order_id status id existing

unfoldable pub mark_webhook_processed : ℕ → ℕ → Action Shop (Unit {0})
mark_webhook_processed now ev_id = modify (λ d. record d {
  webhook_events =
      update_where (λ e. e.id == ev_id)
        (λ e. record e { processed_at = some now; last_error = false }) d.webhook_events;
})

unfoldable pub webhook_error_recorded : ℕ → Action Shop (Unit {0})
webhook_error_recorded ev_id = modify (λ d. record d {
  webhook_events =
      update_where (λ e. e.id == ev_id) (λ e. record e { last_error = true }) d.webhook_events;
})

-- `Payment.id == pay_id, Payment.status < payment_status`
abbrev pub advances : ℕ → PaymentStatus → Payment → Bool
advances pay_id status p = p.id == pay_id && ltb (payment_value p.status) (payment_value status)

-- Another payment with the provider's id: the unique key is violated and the statement raises.
abbrev pub takes_id : ℕ → ℕ → Payment → Bool
takes_id pay_id provider_payment_id p =
    not (p.id == pay_id) && opt_eq p.provider_payment_id (some provider_payment_id)

abbrev pub completed : ℕ → ℕ → PaymentStatus → Payment → Payment
completed now provider_payment_id status p = record p {
  status = status;
  paid_at = some now;
  provider_payment_id = some provider_payment_id;
}

-- The UPDATE of a row that was found.
unfoldable pub complete_payment :
    ℕ → ℕ → ℕ → PaymentStatus → Option Payment → Action Shop (Option ℕ)
complete_payment now pay_id provider_payment_id status none = pure none
complete_payment now pay_id provider_payment_id status (some p) = do
  taken ← gets (λ d. sum_where (takes_id pay_id provider_payment_id) (λ _. 1) d.payments)
  raise_if (ltb 0 taken) crash
  modify (λ d. record d {
    payments =
        update_where (advances pay_id status) (completed now provider_payment_id status) d.payments;
  })
  pure (some p.order_id)

unfoldable pub update_pay_completion_get_orderid :
    ℕ → ℕ → ℕ → PaymentStatus → Action Shop (Option ℕ)
unfolding complete_payment
update_pay_completion_get_orderid now pay_id provider_payment_id payment_status = do
  row ← gets (λ d. find_where (advances pay_id payment_status) d.payments)
  complete_payment now pay_id provider_payment_id payment_status row

unfoldable pub update_order_status : ℕ → OrderStatus → Action Shop (Unit {0})
update_order_status order_id status = modify (λ d. record d {
  orders =
      update_where (λ (o : Orders). o.id == order_id) (λ o. record o { status = status }) d.orders;
})

unfoldable pub load_lines : ℕ → List OrderItem → List Line
load_lines order_id [] = []
load_lines order_id (i ∷ items) =
    let rest = load_lines order_id items in
    if i.order_id == order_id
    then record { product_id = i.product_id; quantity = i.quantity } ∷ rest
    else rest

unfoldable pub load_order_items_pid_qty : ℕ → Action Shop (List Line)
unfolding load_lines
load_order_items_pid_qty order_id = gets (λ d. load_lines order_id d.order_items)

-- The unique key (reason, aggregate_type, aggregate_id); the reason and the type are constants here.
abbrev pub intent_of : ℕ → CommitIntent → Bool
intent_of order_id c = c.aggregate_id == order_id

abbrev insert_intent : ℕ → ℕ → List Line → Option CommitIntent → Action Shop ℕ
insert_intent id order_id lines (some c) = pure c.id
insert_intent id order_id lines none = do
  modify (λ d. record d {
    intents =
        d.intents
        ++ record {
          id = id;
          aggregate_id = order_id;
          status = CommitIntentStatus.pending;
          payload = lines;
          attempts = 0;
          next_retry_at = none;
        }
          ∷ [];
  })
  pure id

unfoldable pub create_commit_intent : ℕ → List Line → Action Shop ℕ
create_commit_intent order_id payload = do
  id ← fresh
  existing ← gets (λ d. find_where (intent_of order_id) d.intents)
  insert_intent id order_id payload existing

abbrev pub same_topic : Topic → Topic → Bool
same_topic Topic.order_paid Topic.order_paid = true
same_topic Topic.order_pending_payment Topic.order_pending_payment = true
same_topic Topic.order_payment_pending Topic.order_payment_pending = true
same_topic Topic.order_confirm_intent_created Topic.order_confirm_intent_created = true
same_topic Topic.product_image_uploaded Topic.product_image_uploaded = true
same_topic Topic.image_uploaded Topic.image_uploaded = true
same_topic _ _ = false

abbrev pub outbox_of : Topic → ℕ → OutboxEvent → Bool
outbox_of topic aggregate_id e = same_topic e.topic topic && e.aggregate_id == aggregate_id

abbrev insert_outbox : ℕ → Topic → ℕ → Option OutboxEvent → Action Shop ℕ
insert_outbox id topic aggregate_id (some e) = pure e.id
insert_outbox id topic aggregate_id none = do
  modify (λ d. record d {
    outbox =
        d.outbox
        ++ record {
          id = id;
          topic = topic;
          aggregate_id = aggregate_id;
          status = OutboxEventStatus.pending;
          attempts = 0;
          next_retry_at = none;
          sent_at = none;
        }
          ∷ [];
  })
  pure id

unfoldable pub emit_outbox_event : Topic → ℕ → Action Shop ℕ
emit_outbox_event topic aggregate_id = do
  id ← fresh
  existing ← gets (λ d. find_where (outbox_of topic aggregate_id) d.outbox)
  insert_outbox id topic aggregate_id existing
