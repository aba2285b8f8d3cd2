-- ===== src/Images.antt =====
-- The images of products: the batch that opens uploads and the provider's webhook
-- (backend/image_uploads), and the worker that the webhook hands an uploaded image to
-- (backend/background_workers/image_tansform_handler.py).
pub mod Tables
pub mod Webhook
pub mod Transform
pub mod Batch
pub mod Opened
pub mod BatchOutcome
pub mod Pipeline
