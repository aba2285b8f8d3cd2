-- ===== src/Tests.antt =====
-- Runs of the definitions at concrete inputs, and the theorems applied there.
mod Orders
mod Webhook
mod Place
mod Access
mod Cursor
mod Catalogue
mod Queue
mod Accounts
mod Admin
mod Images
mod Uploads
