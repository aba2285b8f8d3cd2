-- ===== src/Tests/Webhook.antt =====
-- The webhook theorems at a shop with one order and its pending payment.
use phyllonix.Base.{
  ℕ, ◌+◌, ◌≤◌, ◌≡◌, refl, some, none, [], ◌∷◌, arith, ok, err, crash, in_session, find_where, false,
}
use phyllonix.Schema.{
  Payment, PaymentStatus, payment_value, Orders, OrderStatus, PaymentWebhookEvent, Topic,
}
use phyllonix.Orders.Shop.{Shop}
use phyllonix.Orders.PayStatus.{Note, pay_order_status_util}
use phyllonix.Base.Text.{is_substring}
use phyllonix.Orders.Webhook.Handler.{
  Payload, Request, razorpay_webhook, publish_all, status_note, outbox_published, intent_published,
}
use phyllonix.Orders.Webhook.Safety.{with_id, unsigned-changes_nothing, razorpay_webhook-monotone}
use phyllonix.Orders.Webhook.Paid.{Paid, deliver, deliver-Paid}
use phyllonix.Orders.Webhook.Effects.{
  Capturable, captured_shop, with_event, webhook-captures, webhook-atomic, repeated-event,
}

abbrev payment : Payment
payment = record {
  id = 40;
  public_id = 41;
  order_id = 30;
  provider_payment_id = none;
  provider_order_id = some 500;
  status = PaymentStatus.accepted;
  amount = 306;
  paid_at = none;
}

abbrev order : Orders
order = record {
  id = 30;
  public_id = 31;
  ik_id = 25;
  user_id = 4;
  status = OrderStatus.pending_payment;
  subtotal = 300;
  tax = 6;
  shipping = 0;
  discount = 0;
  total = 306;
}

abbrev stored : PaymentWebhookEvent
stored = record {
  id = 9;
  provider_event_id = some 77;
  order_id = some 30;
  status = 10;
  attempts = 1;
  last_error = false;
  processed_at = some 900;
}

abbrev shop : Shop
shop = record {
  next_id = 100;
  products = [];
  carts = [];
  cart_items = [];
  checkouts = [];
  reservations = [];
  idempotency_keys = [];
  orders = order ∷ [];
  order_items = [];
  payments = payment ∷ [];
  attempts = [];
  webhook_events = stored ∷ [];
  outbox = [];
  intents = [];
}

abbrev hmac : ℕ → ℕ
hmac b = b + 1

abbrev payload : Payload
payload = record {
  event = some "payment.captured";
  entity_id = some 600;
  entity_payment_id = none;
  entity_order_id = some 500;
  entity_status = some "captured";
}

abbrev signed : ℕ → Request
signed event_id = record { signature = some 4; event_id = some event_id; body = 3 }

abbrev forged : Request
forged = record { signature = some 5; event_id = some 78; body = 3 }

unsigned-changes_nothing_example :
    in_session (razorpay_webhook hmac (λ _. some payload) 1000 1000 forged) shop ≡ (err crash, shop)
unsigned-changes_nothing_example =
    unsigned-changes_nothing hmac (λ _. some payload) 1000 1000 forged shop (λ e. cc e)

razorpay_webhook-monotone_example :
    (q : Payment) × (find_where
        (with_id 40)
        (in_session
          (razorpay_webhook hmac (λ _. some payload) 1000 1000 (signed 78))
          shop).1.payments
      ≡ some q)
    × (5 ≤ payment_value q.status)
razorpay_webhook-monotone_example =
    razorpay_webhook-monotone hmac (λ _. some payload) 1000 1000 (signed 78) shop 40 payment refl

shop-Paid : Paid shop
shop-Paid = record { unique = (tt, tt); confirmed = λ id p h e o ho. ground arith }

deliver-Paid_example : Paid (
    deliver hmac (λ _. some payload) (record { at = 1000; room = 1000; req = signed 78 } ∷ []) shop)
deliver-Paid_example =
    deliver-Paid hmac (λ _. some payload) (record { at = 1000; room = 1000; req = signed 78 } ∷ [])
      shop shop-Paid

repeated-event_example :
    (in_session (razorpay_webhook hmac (λ _. some payload) 1000 1000 (signed 77)) shop).1 ≡ shop
repeated-event_example =
    repeated-event hmac (λ _. some payload) 1000 1000 77 (signed 77) shop stored refl refl

shop-Capturable : Capturable 78 600 payment shop
shop-Capturable = record {
  not_captured = refl;
  id_free = refl;
  no_intent = refl;
  no_outbox = refl;
  new_event = refl;
}

webhook-captures_example :
    in_session (razorpay_webhook hmac (λ _. some payload) 1000 1000 (signed 78)) shop ≡ (
      ok (record {
        note = status_note Note.captured;
        published = outbox_published Topic.order_paid 102 ∷ intent_published 101 30 ∷ [];
      }),
      captured_shop 1000 100 600 payment (with_event 78 payment shop),
    )
webhook-captures_example =
    webhook-captures hmac (λ _. some payload) 1000 1000 78 600 (signed 78) payload payment shop
      (omega arith) refl refl refl refl (omega arith) refl refl refl shop-Capturable

-- The second request with an event id runs into `ev["id"]` of None.
repeated_run :
    (in_session (razorpay_webhook hmac (λ _. some payload) 1000 1000 (signed 77)) shop).0
    ≡ err crash
unfolding razorpay_webhook publish_all pay_order_status_util is_substring
repeated_run = refl

webhook-atomic_example :
    (in_session (razorpay_webhook hmac (λ _. some payload) 1000 1000 (signed 77)) shop).1 ≡ shop
webhook-atomic_example =
    webhook-atomic hmac (λ _. some payload) 1000 1000 (signed 77) shop crash (omega arith)
      (omega arith, tt) repeated_run

-- With no room in the queue the request fails after its commit.
full_queue_run :
    in_session (razorpay_webhook hmac (λ _. some payload) 0 1000 (signed 78)) shop
    ≡ (err crash, captured_shop 1000 100 600 payment (with_event 78 payment shop))
unfolding razorpay_webhook publish_all pay_order_status_util is_substring
full_queue_run = refl
