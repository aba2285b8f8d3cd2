-- ===== src/Orders/Webhook.antt =====
-- backend/orders/webhooks.py: the payment provider's webhook.
pub mod Tables
pub mod Handler
pub mod Steps
pub mod Publish
pub mod Safety
pub mod Paid
pub mod Effects
