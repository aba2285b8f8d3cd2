-- ===== src/Lib.antt =====
-- phyllonix is the backend of a shop: carts, checkout sessions that reserve stock, orders with
-- payments by a provider, a webhook that confirms them, and workers that take the stock out.
--
-- How the parts interact. A client fills a cart (backend/cart), opens a checkout session and asks
-- for its summary, which snapshots the cart and reserves the stock (backend/orders, initiate_buy_now
-- and get_order_summary). It confirms with an idempotency key (place_order), which creates the order
-- and, for UPI, a payment at the provider. The provider calls the webhook (razorpay_webhook), which
-- captures the payment, confirms the order and stores a commit intent and an outbox event. A worker
-- takes the items of a commit intent out of the stock (order_confirm_commitintent_handler). Requests
-- carry tokens that are rotated on refresh (backend/auth), are counted per window
-- (backend/rate_limiting) and reach the database under a circuit breaker (backend/common). The
-- catalogue is read in pages (backend/products) through caches in Redis (backend/cache). Handlers hand
-- slow work to an in-process queue (backend/background_workers).
--
-- The files.
--   Base: tests on numbers, tables as lists (Base/Lists), handlers as actions on a database session
--     with committed and uncommitted tables (Base/Outcome), the double arithmetic of int(x * 0.02)
--     (Base/Double), texts (Base/Text).
--   Schema: the enumerations and rows of backend/schema/full_schema.py.
--   Orders/Shop: the tables as one state. Orders/Totals, Orders/LockKey, Orders/PayStatus: the pure
--     functions of backend/orders/utils.py and compute_final_total of backend/orders/repository.py.
--   Orders/Stock, Orders/Checkout: capture_cart_snapshot, items_avblty, reserve_inventory, the
--     checkout session and the handlers initiate_buy_now and get_order_summary, with the proofs in
--     Stock/Bounds, Checkout/Reserve and Checkout/Session.
--   Orders/Place: Tables (backend/orders/repository.py), Attempts (retry_payments and
--     create_payment_intent of backend/orders/services.py), Handler (place_order of
--     backend/orders/routes.py), and the proofs in Retries, Once and Created.
--   Orders/Webhook: Tables, Handler (backend/orders/webhooks.py), and the proofs in Steps, Publish,
--     Safety, Paid and Effects.
--   Workers/CommitIntents: backend/background_workers/order_confirm_inv_handler.py.
--   Auth: backend/auth/repository.py and backend/auth/services.py, the refresh of tokens.
--   Accounts: the roles of a user (Roles) and the password (Passwords) of backend/user, with the test of
--     backend/middlewares/authorization_middleware.py and the proofs in Stale, Kept and
--     Passwords/Change.
--   Common: backend/common/circuit_breaker.py and backend/common/retries.py.
--   RateLimit: backend/rate_limiting/rate_limit_fixed_window.py, its script in lua_scripts.py and
--     _ensure_lua_loaded of backend/rate_limiting/utils.py.
--   Cart: backend/cart/repository.py.
--   Products: the listing of backend/products. Products/Pages: keyset_filter, fetch_prods and the loader
--     of get_products, with the proofs in Sorting, Slices, LastRow and Complete. Products/Cursor: the
--     signed cursor of backend/products/utils.py, its base64 (Base64) and the proofs (RoundTrip).
--     Products/Route: get_products with its tokens and its cache of pages, and a client that
--     follows the tokens (Browse).
--     Products/Admin: create_product and update_product, with the proofs in Created and Updated.
--   Cache: backend/cache. Cache/Details and Cache/Listings: the two read-through caches, each the next
--     command of one request, with the laws of the lock protocol (Laws). Cache/Protocol: any number of
--     requests on one key, interleaved, for every cache with those laws, with the proofs in Lock and
--     Progress. Cache/Uncached and Cache/Answers: what is cached and what is answered.
--   Queue: BasePubSubWorker of backend/background_workers/base_pubsub_interface.py as turns of its
--     workers, with the proofs in Fifo and Drained.
--   Images: the batch that opens uploads of backend/image_uploads (Batch), with the proofs in Opened
--     and BatchOutcome; its webhook (Webhook), the worker of
--     backend/background_workers/image_tansform_handler.py (Transform), and the two together (Pipeline).
--   Tests: runs, and the theorems applied at concrete inputs.
--
-- How code became definitions. A handler is an Action: it maps a session to a result and a session.
-- `modify` is a statement that writes, `commit` copies the work to what is committed, and
-- `in_session` runs a handler as a request does, dropping what was not committed. An HTTPException is
-- `http` with its status, any other exception `crash`. A SELECT by a unique key is find_where, an
-- UPDATE is update_where, a SUM is sum_where, an INSERT ON CONFLICT DO NOTHING looks for the key first.
-- Identifiers, keys, uuids and hashes are natural numbers; next_id stands for every sequence. A handler
-- reads the clock once, in seconds. Where a request sleeps or waits for a lock, a function `others` on
-- the tables is what other requests commit meanwhile. Texts are without the character 0. How much room
-- the in-process queue has when a webhook request publishes is an argument, and so is what the cache of
-- pages holds when a page is asked for.
--
-- Bounds and fuel. Base/Double looks for at most 1024 surplus bits, enough for numbers below 2 ^ 1077.
-- Recursion is otherwise on lists or on the number of attempts left. Amounts are natural numbers; the
-- lock key is a signed 64-bit integer, written out. The polling loops of the caches add doubles for at
-- most 200 and 300 rounds, and a loop that had not ended by then would poll on; they end after 121 and
-- 181. The client of the listing needs one request more
-- than there are products.
--
-- Not modelled: the outbox publisher (it reads a column that its table does not have, and nothing
-- starts it), avatars, sign-up and login, the other middlewares, the sliding window, logging and
-- configuration. HMAC, SHA-256, password hashes, character classes, json.dumps and json.loads,
-- base64's decoder, the payment provider, the ORM's second read of a row and the classification of
-- exceptions are parameters.
pub mod Base
pub mod Schema
pub mod Orders
pub mod Workers
pub mod Auth
pub mod Accounts
pub mod Common
pub mod RateLimit
pub mod Cart
pub mod Products
pub mod Cache
pub mod Queue
pub mod Images
mod Tests
