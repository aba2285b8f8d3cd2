-- ===== src/Orders/Webhook/Effects.antt =====
-- What single webhook requests do: the first capture, a repeated event, a failure on the way.
use phyllonix.Base.{
  ◌≤◌, ◌∙◌, ap, length, Result-cases, inl, inr, ℕ, ◌+◌, ◌<◌, ◌≡◌, ◌≢◌, refl, true, false, Option,
  none, some, List, [], ◌∷◌, ◌++◌, arith, ◌==◌, find_where, update_where, select_where, sum_where,
  All, in_session, ok, err, Error,
}
use phyllonix.Base.Text.{is_substring}
use phyllonix.Schema.{
  Payment, PaymentStatus, PaymentWebhookEvent, OrderStatus, Orders, CommitIntent, OutboxEvent,
  Topic, OutboxEventStatus, CommitIntentStatus,
}
use phyllonix.Orders.Shop.{Shop}
use phyllonix.Orders.PayStatus.{
  after_failed, after_success, after_unknown, Note, StatusUpdate, pay_order_status_util,
}
use phyllonix.Orders.Webhook.Tables.{
  opt_eq, has_event, advances, takes_id, completed, complete_payment,
  update_pay_completion_get_orderid, get_pay_record_by_provider_orderid, mark_webhook_received,
  insert_event, update_order_status, load_lines, create_commit_intent, emit_outbox_event,
  mark_webhook_processed, webhook_error_recorded, load_order_items_pid_qty, intent_of, outbox_of,
}
use phyllonix.Orders.Webhook.Handler.{
  Payload, Request, status_note, outbox_published, intent_published, or_else, critical, settle,
  emit_for, process_event, handle_payment, handle_record, or_record_error, process_request,
  verify_razorpay_signature, reply_of, Reply, razorpay_webhook,
}
use phyllonix.Orders.Webhook.Publish.{pair_eq, razorpay_webhook-tables, razorpay_webhook-ok}
use phyllonix.Orders.Webhook.Steps.{opened}

pub process_request-repeated :
    (hmac : ℕ → ℕ) (loads : ℕ → Option Payload) (now event_id : ℕ) (req : Request) (d : Shop)
    (e : PaymentWebhookEvent)
    → req.event_id ≡ some event_id
    → find_where (has_event event_id) d.webhook_events ≡ some e
    → (in_session (process_request hmac loads now req) d).1 ≡ d
unfolding process_request verify_razorpay_signature get_pay_record_by_provider_orderid handle_record
    handle_payment mark_webhook_received insert_event process_event
process_request-repeated hmac loads now event_id req d e he h = ground arith

update_where-none :
    (id now : ℕ) (es : List PaymentWebhookEvent)
    → All (λ (e : PaymentWebhookEvent). e.id < id) es
    → update_where (λ e. e.id == id) (λ e. record e { last_error = true }) es ≡ es
update_where-none id now [] h = refl
update_where-none id now (e ∷ es) h = ground (arith, update_where-none id now es h.1)

abbrev pub new_intent : ℕ → Payment → Shop → CommitIntent
new_intent id pay d = record {
  id = id;
  aggregate_id = pay.order_id;
  status = CommitIntentStatus.pending;
  payload = load_lines pay.order_id d.order_items;
  attempts = 0;
  next_retry_at = none;
}

abbrev pub new_outbox : ℕ → Topic → Payment → OutboxEvent
new_outbox id topic pay = record {
  id = id;
  topic = topic;
  aggregate_id = pay.order_id;
  status = OutboxEventStatus.pending;
  attempts = 0;
  next_retry_at = none;
  sent_at = none;
}

abbrev pub stored_event : ℕ → ℕ → Payment → PaymentWebhookEvent
stored_event id event_id pay = record {
  id = id;
  provider_event_id = some event_id;
  order_id = some pay.order_id;
  status = 30;
  attempts = 1;
  last_error = false;
  processed_at = none;
}

abbrev captured_update : StatusUpdate
captured_update = record {
  payment_status = PaymentStatus.captured;
  order_status = OrderStatus.confirmed;
  is_valid_event = true;
  note = Note.captured;
}

-- The tables after the first capture of a payment, from those with the event stored.
abbrev pub captured_shop : ℕ → ℕ → ℕ → Payment → Shop → Shop
captured_shop now ev_id pid pay d = record d {
  next_id = d.next_id + 1 + 1;
  payments =
      update_where (advances pay.id PaymentStatus.captured)
        (completed now pid PaymentStatus.captured) d.payments;
  orders =
      update_where (λ (o : Orders). o.id == pay.order_id)
        (λ o. record o { status = OrderStatus.confirmed }) d.orders;
  intents = d.intents ++ new_intent d.next_id pay d ∷ [];
  outbox = d.outbox ++ new_outbox (d.next_id + 1) Topic.order_paid pay ∷ [];
  webhook_events =
      update_where (λ e. e.id == ev_id)
        (λ e. record e { processed_at = some now; last_error = false }) d.webhook_events;
}

-- The tables in which a payment is captured for the first time.
pub record Capturable (event_id pid : ℕ) (pay : Payment) (d : Shop) : Type 0 where
  pub not_captured : find_where (advances pay.id PaymentStatus.captured) d.payments ≡ some pay
  pub id_free : sum_where (takes_id pay.id pid) (λ _. 1) d.payments ≡ 0
  pub no_intent : find_where (intent_of pay.order_id) d.intents ≡ none
  pub no_outbox : find_where (outbox_of Topic.order_paid pay.order_id) d.outbox ≡ none
  pub new_event : find_where (has_event event_id) d.webhook_events ≡ none

critical-captured :
    (now ev_id event_id pid : ℕ) (pay : Payment) (w c : Shop)
    → find_where (advances pay.id PaymentStatus.captured) w.payments ≡ some pay
    → sum_where (takes_id pay.id pid) (λ _. 1) w.payments ≡ 0
    → find_where (intent_of pay.order_id) w.intents ≡ none
    → find_where (outbox_of Topic.order_paid pay.order_id) w.outbox ≡ none
    → critical now pay.id pid ev_id captured_update (record { work = w; committed = c }) ≡ (
      ok (
          some (record {
            order_id = pay.order_id;
            topic = some Topic.order_paid;
            outbox_event_id = some (w.next_id + 1);
            commit_int_id = some w.next_id;
          })),
      opened (captured_shop now ev_id pid pay w),
    )
unfolding critical settle update_pay_completion_get_orderid complete_payment emit_for
    update_order_status create_commit_intent emit_outbox_event mark_webhook_processed
    load_order_items_pid_qty
critical-captured now ev_id event_id pid pay w c h1 h2 h3 h4 = ground arith

captured_run :
    pay_order_status_util (some "captured") (some "payment.captured") ≡ ok captured_update
unfolding pay_order_status_util after_failed after_success after_unknown is_substring
captured_run = refl

abbrev pub with_event : ℕ → Payment → Shop → Shop
with_event event_id pay d = record d {
  next_id = d.next_id + 1;
  webhook_events = d.webhook_events ++ stored_event d.next_id event_id pay ∷ [];
}

process-captured :
    (now event_id pid : ℕ) (pay : Payment) (d : Shop)
    → Capturable event_id pid pay d
    → process_event now pay.id pid captured_update
        (some (stored_event d.next_id event_id pay))
        (record { work = with_event event_id pay d; committed = d })
      ≡ (
        ok (record {
          note = status_note Note.captured;
          published =
              outbox_published Topic.order_paid (d.next_id + 1 + 1)
              ∷ intent_published (d.next_id + 1) pay.order_id
              ∷ [];
        }),
        opened (captured_shop now d.next_id pid pay (with_event event_id pay d)),
      )
unfolding process_event or_record_error reply_of
process-captured now event_id pid pay d h = ground (
  arith,
  critical-captured now d.next_id event_id pid pay (with_event event_id pay d) d h.not_captured
      h.id_free h.no_intent h.no_outbox,
)

handle-captured :
    (now event_id pid : ℕ) (pay : Payment) (payload : Payload) (d : Shop)
    → Capturable event_id pid pay d
    → or_else payload.entity_id payload.entity_payment_id ≡ some pid
    → payload.entity_status ≡ some "captured"
    → payload.event ≡ some "payment.captured"
    → handle_payment now event_id payload pay (opened d)
      ≡ process_event now pay.id pid captured_update
          (some (stored_event d.next_id event_id pay))
          (record { work = with_event event_id pay d; committed = d })
unfolding handle_payment mark_webhook_received insert_event
handle-captured now event_id pid pay payload d h hp hs he =
    ground (arith, captured_run, h.new_event)

pub process_request-captures :
    (hmac : ℕ → ℕ) (loads : ℕ → Option Payload) (now event_id pid : ℕ) (req : Request)
    (payload : Payload) (pay : Payment) (d : Shop)
    → req.signature ≡ some (hmac req.body)
    → loads req.body ≡ some payload
    → req.event_id ≡ some event_id
    → select_where (λ (p : Payment). opt_eq p.provider_order_id payload.entity_order_id) d.payments
      ≡ pay ∷ []
    → pay.order_id ≢ 0
    → or_else payload.entity_id payload.entity_payment_id ≡ some pid
    → payload.entity_status ≡ some "captured"
    → payload.event ≡ some "payment.captured"
    → Capturable event_id pid pay d
    → in_session (process_request hmac loads now req) d ≡ (
      ok (record {
        note = status_note Note.captured;
        published =
            outbox_published Topic.order_paid (d.next_id + 1 + 1)
            ∷ intent_published (d.next_id + 1) pay.order_id
            ∷ [];
      }),
      captured_shop now d.next_id pid pay (with_event event_id pay d),
    )
unfolding process_request verify_razorpay_signature get_pay_record_by_provider_orderid handle_record
process_request-captures hmac loads now event_id pid req payload pay d hs hl he hq hn hp hst hev h =
    ground (
      arith,
      handle-captured now event_id pid pay payload d h hp hst hev,
      process-captured now event_id pid pay d h,
    )

pub process_request-atomic :
    (hmac : ℕ → ℕ) (loads : ℕ → Option Payload) (now : ℕ) (req : Request) (d : Shop) (x : Error)
    → All (λ (e : PaymentWebhookEvent). e.id < d.next_id) d.webhook_events
    → (in_session (process_request hmac loads now req) d).0 ≡ err x
    → (in_session (process_request hmac loads now req) d).1 ≡ d
unfolding process_request verify_razorpay_signature get_pay_record_by_provider_orderid handle_record
    handle_payment mark_webhook_received insert_event process_event critical settle
    update_pay_completion_get_orderid complete_payment emit_for update_order_status
    create_commit_intent emit_outbox_event mark_webhook_processed load_order_items_pid_qty
    or_record_error webhook_error_recorded
process_request-atomic hmac loads now req d x h he =
    ground (arith, update_where-none d.next_id now d.webhook_events h)

-- At most two rows are handed to the queue.
process_request-publishes :
    (hmac : ℕ → ℕ) (loads : ℕ → Option Payload) (now : ℕ) (req : Request) (d : Shop) (r : Reply)
    → (in_session (process_request hmac loads now req) d).0 ≡ ok r
    → length r.published ≤ 2
unfolding process_request verify_razorpay_signature get_pay_record_by_provider_orderid handle_record
    handle_payment mark_webhook_received insert_event process_event or_record_error reply_of
    webhook_error_recorded
process_request-publishes hmac loads now req d r h = ground arith

-- A request whose event id is already stored changes no table, whatever its content.
pub repeated-event :
    (hmac : ℕ → ℕ) (loads : ℕ → Option Payload) (room now event_id : ℕ) (req : Request) (d : Shop)
    (e : PaymentWebhookEvent)
    → req.event_id ≡ some event_id
    → find_where (has_event event_id) d.webhook_events ≡ some e
    → (in_session (razorpay_webhook hmac loads room now req) d).1 ≡ d
repeated-event hmac loads room now event_id req d e he h =
    razorpay_webhook-tables hmac loads room now req d
    ∙ process_request-repeated hmac loads now event_id req d e he h

-- A signed capture event for a known payment that is not captured yet, with an event id that is
-- not stored, while the queue has room for two: the request succeeds, and in one commit the
-- payment becomes captured with the provider's id, its order confirmed, a pending commit intent
-- with the lines of the order and an outbox event are added, and the event is stored as
-- processed; both new rows are then published.
pub webhook-captures :
    (hmac : ℕ → ℕ) (loads : ℕ → Option Payload) (room now event_id pid : ℕ) (req : Request)
    (payload : Payload) (pay : Payment) (d : Shop)
    → 2 ≤ room
    → req.signature ≡ some (hmac req.body)
    → loads req.body ≡ some payload
    → req.event_id ≡ some event_id
    → select_where (λ (p : Payment). opt_eq p.provider_order_id payload.entity_order_id) d.payments
      ≡ pay ∷ []
    → pay.order_id ≢ 0
    → or_else payload.entity_id payload.entity_payment_id ≡ some pid
    → payload.entity_status ≡ some "captured"
    → payload.event ≡ some "payment.captured"
    → Capturable event_id pid pay d
    → in_session (razorpay_webhook hmac loads room now req) d ≡ (
      ok (record {
        note = status_note Note.captured;
        published =
            outbox_published Topic.order_paid (d.next_id + 1 + 1)
            ∷ intent_published (d.next_id + 1) pay.order_id
            ∷ [];
      }),
      captured_shop now d.next_id pid pay (with_event event_id pay d),
    )
webhook-captures hmac loads room now event_id pid req payload pay d two hs hl he hq hn hp hst hev
      h =
    let done =
      process_request-captures hmac loads now event_id pid req payload pay d hs hl he hq hn hp hst
        hev h in
    pair_eq (in_session (razorpay_webhook hmac loads room now req) d) _ _
      (razorpay_webhook-ok hmac loads room now req d _ (ap (λ q. q.0) done) two)
      (razorpay_webhook-tables hmac loads room now req d ∙ ap (λ q. q.1) done)

-- A request that ends in an error while the queue has room for two changes no table, if the ids of
-- the stored events are below the next one: in particular the error that the handler records is lost
-- with the event.
pub webhook-atomic :
    (hmac : ℕ → ℕ) (loads : ℕ → Option Payload) (room now : ℕ) (req : Request) (d : Shop)
    (x : Error)
    → 2 ≤ room
    → All (λ (e : PaymentWebhookEvent). e.id < d.next_id) d.webhook_events
    → (in_session (razorpay_webhook hmac loads room now req) d).0 ≡ err x
    → (in_session (razorpay_webhook hmac loads room now req) d).1 ≡ d
webhook-atomic hmac loads room now req d x two h he =
    razorpay_webhook-tables hmac loads room now req d
    ∙ elim (Result-cases (in_session (process_request hmac loads now req) d).0) [
      | inr (e, failed) ↦ process_request-atomic hmac loads now req d e h failed
      | inl (r, done) ↦
          let bound = process_request-publishes hmac loads now req d r done in
          absurd (cc (razorpay_webhook-ok hmac loads room now req d r done (omega arith)))
    ]
