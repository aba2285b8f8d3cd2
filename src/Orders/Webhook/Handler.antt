-- ===== src/Orders/Webhook/Handler.antt =====
-- razorpay_webhook of backend/orders/webhooks.py and verify_razorpay_signature of
-- backend/orders/services.py. The HMAC and json.loads are parameters; `loads` gives none where
-- json.loads raises. mark_webhook_received takes no argument named `status`, so each call that
-- passes one raises a TypeError before it touches the database: `raise crash` below.
use Prim.Native.String.{String}
use phyllonix.Base.{
  ℕ, not, Option, none, some, List, [], ◌∷◌, ◌==◌, if◌then◌else◌, is_some, Action, Session, Result,
  leb, length, ok, err, crash, pure, raise, raise_if, or_raise, commit, rollback, ◌>>=◌, ◌>>◌,
}
use phyllonix.Schema.{PaymentStatus, payment_value, Payment, PaymentWebhookEvent, Topic}
use phyllonix.Orders.Shop.{Shop}
use phyllonix.Orders.PayStatus.{Note, StatusUpdate, pay_order_status_util}
use phyllonix.Orders.Webhook.Tables.{
  get_pay_record_by_provider_orderid, mark_webhook_received, mark_webhook_processed,
  webhook_error_recorded, update_pay_completion_get_orderid, update_order_status,
  load_order_items_pid_qty, create_commit_intent, emit_outbox_event,
}

-- The fields of the payload that the handler reads.
pub record Payload : Type 0 where
  pub event : Option String
  pub entity_id : Option ℕ
  pub entity_payment_id : Option ℕ
  pub entity_order_id : Option ℕ
  pub entity_status : Option String

pub record Request : Type 0 where
  pub signature : Option ℕ
  pub event_id : Option ℕ
  pub body : ℕ

pub data WebNote : Type 0 where
  not_found no_valid_event already_processed not_in_order : WebNote
  status_note : Note → WebNote

-- What the handler hands to the in-process queue after it committed.
pub data Published : Type 0 where
  outbox_published : Topic → ℕ → Published
  intent_published : ℕ → ℕ → Published

pub record Reply : Type 0 where
  pub note : WebNote
  pub published : List Published

abbrev pub reply : WebNote → Reply
reply n = record { note = n; published = [] }

-- What the critical section leaves for the publishing after it.
pub record Emitted : Type 0 where
  pub order_id : ℕ
  pub topic : Option Topic
  pub outbox_event_id : Option ℕ
  pub commit_int_id : Option ℕ

abbrev pub or_else : Option ℕ → Option ℕ → Option ℕ
or_else (some a) _ = some a
or_else none b = b

unfoldable pub verify_razorpay_signature : (ℕ → ℕ) → Request → Action Shop (Unit {0})
verify_razorpay_signature hmac req = elim req.signature [
  | none ↦ raise crash
  | some sig ↦ raise_if (not (hmac req.body == sig)) crash
]

-- The part of the critical section that depends on the payment's new status.
unfoldable pub emit_for : ℕ → PaymentStatus → Action Shop Emitted
unfolding load_order_items_pid_qty create_commit_intent emit_outbox_event
emit_for order_id PaymentStatus.captured = do
  items ← load_order_items_pid_qty order_id
  ci ← create_commit_intent order_id items
  ev ← emit_outbox_event Topic.order_paid order_id
  pure (record {
    order_id = order_id;
    topic = some Topic.order_paid;
    outbox_event_id = some ev;
    commit_int_id = some ci;
  })
emit_for order_id PaymentStatus.failed = do
  ev ← emit_outbox_event Topic.order_pending_payment order_id
  pure (record {
    order_id = order_id;
    topic = some Topic.order_pending_payment;
    outbox_event_id = some ev;
    commit_int_id = none;
  })
emit_for order_id _ =
    pure
      (record { order_id = order_id; topic = none; outbox_event_id = none; commit_int_id = none })

-- The rest of the critical section once the payment's row was updated, if it was.
unfoldable pub settle : ℕ → ℕ → StatusUpdate → Option ℕ → Action Shop (Option Emitted)
unfolding update_order_status emit_for mark_webhook_processed
settle now ev_id u none = pure none
settle now ev_id u (some order_id) = do
  update_order_status order_id u.order_status
  e ← emit_for order_id u.payment_status
  mark_webhook_processed now ev_id
  commit
  pure (some e)

-- the body of the `try`
unfoldable pub critical : ℕ → ℕ → ℕ → ℕ → StatusUpdate → Action Shop (Option Emitted)
unfolding update_pay_completion_get_orderid settle
critical now pay_id provider_payment_id ev_id u = do
  order_id ← update_pay_completion_get_orderid now pay_id provider_payment_id u.payment_status
  settle now ev_id u order_id

-- the `except`: it rolls back, records the error, commits, and raises again
unfoldable pub or_record_error :
    ℕ → Result (Option Emitted) × Session Shop → Result (Option Emitted) × Session Shop
unfolding webhook_error_recorded
or_record_error ev_id (ok r, s) = (ok r, s)
or_record_error ev_id (err e, s) = (do rollback; webhook_error_recorded ev_id; commit; raise e) s

abbrev pub published_of : Emitted → List Published
published_of e = elim e.topic [
  | none ↦ []
  | some topic ↦ elim e.outbox_event_id [
    | none ↦ []
    | some ev ↦
        outbox_published topic ev
        ∷ elim e.commit_int_id [ none ↦ [] | some ci ↦ intent_published ci e.order_id ∷ [] ]
  ]
]

unfoldable pub reply_of : Note → Option Emitted → Reply
reply_of note none = reply not_in_order
reply_of note (some e) = record { note = status_note note; published = published_of e }

-- `ev["id"]` of None raises a TypeError.
unfoldable pub process_event :
    ℕ → ℕ → ℕ → StatusUpdate → Option PaymentWebhookEvent → Action Shop Reply
unfolding critical or_record_error reply_of
process_event now pay_id provider_payment_id u none =
    if u.is_valid_event then raise crash else pure (reply no_valid_event)
process_event now pay_id provider_payment_id u (some ev) =
    if u.is_valid_event
    then (if is_some ev.processed_at
        then pure (reply already_processed)
        else (λ s. or_record_error ev.id (critical now pay_id provider_payment_id ev.id u s))
          >>= λ e. pure (reply_of u.note e))
    else pure (reply no_valid_event)

abbrev pub lift : Result StatusUpdate → Action Shop StatusUpdate
lift (ok u) = pure u
lift (err e) = raise e

-- A payment entity with a matching row.
unfoldable pub handle_payment : ℕ → ℕ → Payload → Payment → Action Shop Reply
unfolding mark_webhook_received process_event
handle_payment now event_id payload pay = do
  pid ← or_raise (or_else payload.entity_id payload.entity_payment_id) crash
  u ← lift (pay_order_status_util payload.entity_status payload.event)
  ev ← mark_webhook_received event_id (some pay.order_id) (payment_value u.payment_status)
  process_event now pay.id pid u ev

unfoldable pub handle_record : ℕ → ℕ → Payload → Option Payment → Action Shop Reply
unfolding mark_webhook_received handle_payment
handle_record now event_id payload none = do
  _ ← mark_webhook_received event_id none 10
  pure (reply not_found)
handle_record now event_id payload (some pay) =
    if pay.order_id == 0
    then (do _ ← mark_webhook_received event_id none 10; pure (reply not_found))
    else handle_payment now event_id payload pay

-- The handler up to its publishing.
unfoldable pub process_request : (ℕ → ℕ) → (ℕ → Option Payload) → ℕ → Request → Action Shop Reply
unfolding verify_razorpay_signature get_pay_record_by_provider_orderid handle_record
process_request hmac loads now req = do
  verify_razorpay_signature hmac req
  payload ← or_raise (loads req.body) crash
  event_id ← or_raise req.event_id crash
  pay_record ← get_pay_record_by_provider_orderid payload.entity_order_id
  handle_record now event_id payload pay_record

-- app.state.pubsub_pub, with this much room in the queue: publish raises QueueFull where it runs
-- out.
unfoldable pub publish_all : ℕ → Reply → Action Shop Reply
publish_all room r = if leb (length r.published) room then pure r else raise crash

unfoldable pub razorpay_webhook :
    (ℕ → ℕ) → (ℕ → Option Payload) → ℕ → ℕ → Request → Action Shop Reply
unfolding process_request publish_all
razorpay_webhook hmac loads room now req = process_request hmac loads now req >>= publish_all room
