-- ===== src/Orders/Shop.antt =====
-- The tables that the order code reads and writes. `next_id` is the next value of every sequence and
-- the next uuid7; each is drawn once.
use phyllonix.Base.{ℕ, ◌+◌, List, Action, ok}
use phyllonix.Schema.{
  Product, Cart, CartItem, CheckoutSession, InventoryReservation, IdempotencyKey, Orders, OrderItem,
  Payment, PaymentAttempt, PaymentWebhookEvent, OutboxEvent, CommitIntent,
}

pub record Shop : Type 0 where
  pub next_id : ℕ
  pub products : List Product
  pub carts : List Cart
  pub cart_items : List CartItem
  pub checkouts : List CheckoutSession
  pub reservations : List InventoryReservation
  pub idempotency_keys : List IdempotencyKey
  pub orders : List Orders
  pub order_items : List OrderItem
  pub payments : List Payment
  pub attempts : List PaymentAttempt
  pub webhook_events : List PaymentWebhookEvent
  pub outbox : List OutboxEvent
  pub intents : List CommitIntent

-- nextval of a sequence, or uuid7()
abbrev pub fresh : Action Shop ℕ
fresh s = (ok s.work.next_id, record s { work = record (s.work) { next_id = s.work.next_id + 1 } })
