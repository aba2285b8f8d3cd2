-- ===== src/Orders.antt =====
-- backend/orders: checkout, order placement, payments and the payment webhook.
pub mod Totals
pub mod LockKey
pub mod PayStatus
pub mod Shop
pub mod Stock
pub mod Checkout
pub mod Webhook
pub mod Place
