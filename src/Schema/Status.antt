-- ===== src/Schema/Status.antt =====
-- The IntEnums of backend/schema/full_schema.py; `value` is the integer that a column holds.
use phyllonix.Base.{ℕ}

pub data OrderStatus : Type 0 where
  pending_payment confirmed cancelled fulfilled out_for_delivery delivered returned : OrderStatus

pub data InventoryReserveStatus : Type 0 where
  active commited released expired : InventoryReserveStatus

pub data OrderIdempotencyStatus : Type 0 where
  pending success failure : OrderIdempotencyStatus

pub data PaymentStatus : Type 0 where
  pending accepted authorized failed captured refunded : PaymentStatus

pub data PaymentAttemptStatus : Type 0 where
  pending unknown retrying success failed : PaymentAttemptStatus

pub data PaymentEventStatus : Type 0 where
  received inconsistent authorized captured failed processed : PaymentEventStatus

pub data OutboxEventStatus : Type 0 where
  pending sent done failed : OutboxEventStatus

pub data CommitIntentStatus : Type 0 where
  pending processing failed done : CommitIntentStatus

pub data ImageUploadStatus : Type 0 where
  pending_uploaded uploaded processing ready failed : ImageUploadStatus

abbrev pub payment_value : PaymentStatus → ℕ
payment_value PaymentStatus.pending = 0
payment_value PaymentStatus.accepted = 5
payment_value PaymentStatus.authorized = 10
payment_value PaymentStatus.failed = 20
payment_value PaymentStatus.captured = 30
payment_value PaymentStatus.refunded = 40

abbrev pub reserve_value : InventoryReserveStatus → ℕ
reserve_value InventoryReserveStatus.active = 0
reserve_value InventoryReserveStatus.commited = 10
reserve_value InventoryReserveStatus.released = 20
reserve_value InventoryReserveStatus.expired = 30

abbrev pub intent_value : CommitIntentStatus → ℕ
intent_value CommitIntentStatus.pending = 0
intent_value CommitIntentStatus.processing = 10
intent_value CommitIntentStatus.failed = 20
intent_value CommitIntentStatus.done = 30

abbrev pub outbox_value : OutboxEventStatus → ℕ
outbox_value OutboxEventStatus.pending = 0
outbox_value OutboxEventStatus.sent = 10
outbox_value OutboxEventStatus.done = 20
outbox_value OutboxEventStatus.failed = 30

abbrev pub event_value : PaymentEventStatus → ℕ
event_value PaymentEventStatus.received = 0
event_value PaymentEventStatus.inconsistent = 10
event_value PaymentEventStatus.authorized = 20
event_value PaymentEventStatus.captured = 30
event_value PaymentEventStatus.failed = 50
event_value PaymentEventStatus.processed = 60
