-- ===== src/Orders/Place.antt =====
-- The final confirmation of a checkout: place_order of backend/orders/routes.py with the repository
-- and service functions that it calls.
pub mod Tables
pub mod Attempts
pub mod Retries
pub mod Handler
pub mod Once
pub mod Created
