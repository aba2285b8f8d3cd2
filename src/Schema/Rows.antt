-- ===== src/Schema/Rows.antt =====
-- The rows of the shop's tables in backend/schema/full_schema.py.
use phyllonix.Base.{ℕ, Bool, Option, List}
use phyllonix.Schema.Status.{
  OrderStatus, InventoryReserveStatus, OrderIdempotencyStatus, PaymentStatus, PaymentAttemptStatus,
  OutboxEventStatus, CommitIntentStatus,
}

-- The values of `payment_method` that the code accepts.
pub data PayMethod : Type 0 where
  upi cod : PayMethod

-- An item of a cart snapshot (a dict built by capture_cart_snapshot).
pub record Item : Type 0 where
  pub cart_item_id : ℕ
  pub product_id : ℕ
  pub quantity : ℕ
  pub prod_base_price : ℕ
  pub product_stock : ℕ

pub record Product : Type 0 where
  pub id : ℕ
  pub public_id : ℕ
  pub stock_qty : ℕ
  pub base_price : ℕ

pub record Cart : Type 0 where
  pub id : ℕ
  pub user_id : Option ℕ
  pub session_id : Option ℕ

pub record CartItem : Type 0 where
  pub id : ℕ
  pub cart_id : ℕ
  pub product_id : ℕ
  pub quantity : ℕ

pub record CheckoutSession : Type 0 where
  pub id : ℕ
  pub public_id : ℕ
  pub user_id : ℕ
  pub cart_snapshot : Option (List Item)
  pub selected_payment_method : Option PayMethod
  pub is_active : Bool
  pub expires_at : ℕ

pub record InventoryReservation : Type 0 where
  pub id : ℕ
  pub product_id : ℕ
  pub checkout_id : ℕ
  pub quantity : ℕ
  pub reserved_until : ℕ
  pub status : InventoryReserveStatus

-- What update_order_idempotency_record and update_idempotent_response store as JSON.
pub record OrderResponse : Type 0 where
  pub order_public_id : ℕ
  pub order_id : ℕ
  pub pay_public_id : Option ℕ
  pub provider_order_id : Option ℕ

pub data OwnerType : Type 0 where
  pay_now order_confirm : OwnerType

pub record IdempotencyKey : Type 0 where
  pub id : ℕ
  pub key : ℕ
  pub cs_id : ℕ
  pub created_by : ℕ
  pub owner_type : Option OwnerType
  pub owner_id : Option ℕ
  pub response_code : Option ℕ
  pub response_body : Option OrderResponse
  pub status : OrderIdempotencyStatus
  pub expires_at : ℕ

pub record Orders : Type 0 where
  pub id : ℕ
  pub public_id : ℕ
  pub ik_id : ℕ
  pub user_id : ℕ
  pub status : OrderStatus
  pub subtotal : ℕ
  pub tax : ℕ
  pub shipping : ℕ
  pub discount : ℕ
  pub total : ℕ

pub record OrderItem : Type 0 where
  pub id : ℕ
  pub order_id : ℕ
  pub product_id : ℕ
  pub quantity : ℕ
  pub unit_price_snapshot : ℕ
  pub tax_snapshot : ℕ
  pub discount_snapshot : ℕ

-- The one provider is "razorpay".
pub record Payment : Type 0 where
  pub id : ℕ
  pub public_id : ℕ
  pub order_id : ℕ
  pub provider_payment_id : Option ℕ
  pub provider_order_id : Option ℕ
  pub status : PaymentStatus
  pub amount : ℕ
  pub paid_at : Option ℕ

pub record PaymentAttempt : Type 0 where
  pub id : ℕ
  pub payment_id : ℕ
  pub attempt_no : ℕ
  pub status : PaymentAttemptStatus

-- The status column holds a PaymentStatus or a PaymentEventStatus, as an integer.
pub record PaymentWebhookEvent : Type 0 where
  pub id : ℕ
  pub provider_event_id : Option ℕ
  pub order_id : Option ℕ
  pub status : ℕ
  pub attempts : ℕ
  pub last_error : Bool
  pub processed_at : Option ℕ

-- The topics that the code publishes or subscribes to.
pub data Topic : Type 0 where
  order_paid order_pending_payment order_payment_pending : Topic
  order_confirm_intent_created product_image_uploaded image_uploaded : Topic

pub record OutboxEvent : Type 0 where
  pub id : ℕ
  pub topic : Topic
  pub aggregate_id : ℕ
  pub status : OutboxEventStatus
  pub attempts : ℕ
  pub next_retry_at : Option ℕ
  pub sent_at : Option ℕ

-- The products and quantities that the payload of a commit intent lists.
pub record Line : Type 0 where
  pub product_id : ℕ
  pub quantity : ℕ

pub record CommitIntent : Type 0 where
  pub id : ℕ
  pub aggregate_id : ℕ
  pub status : CommitIntentStatus
  pub payload : List Line
  pub attempts : ℕ
  pub next_retry_at : Option ℕ
