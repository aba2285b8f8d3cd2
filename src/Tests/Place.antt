-- ===== src/Tests/Place.antt =====
-- The theorems on placing an order, on its worker, on carts and on requests per window.
use Prim.Native.Nat.{min}
use phyllonix.Base.{
  Result, update_where, false, ℕ, if◌then◌else◌, ◌==◌, ◌+◌, ◌≤◌, ◌≡◌, ◌⊎◌, refl, some, none, [],
  ◌∷◌, arith, ok, true, in_session, find_where,
}
use phyllonix.Schema.{
  Payment, Item, Product, upi, CheckoutSession, IdempotencyKey, OwnerType, OrderIdempotencyStatus,
  OrderResponse, CartItem, CommitIntent, CommitIntentStatus,
}
use phyllonix.Orders.Shop.{Shop}
use phyllonix.Orders.Place.Attempts.{
  paid_response, PspOutcome, responded, transient, Tried, retry_payments,
}
use phyllonix.Orders.Place.Handler.{Placed, place_order, replayed, created}
use phyllonix.Orders.Totals.{compute_final_total}
use phyllonix.Orders.Place.Tables.{new_order, new_payment, order_rows, response_of}
use phyllonix.Orders.Place.Created.{accept, payment_id_of, place_order-creates}
use phyllonix.Orders.Place.Retries.{FirstAnswer, retry_payments-FirstAnswer}
use phyllonix.Orders.Place.Once.{orders_of, place_order-replays, place_order-AtMostOne}
use phyllonix.Workers.CommitIntents.{
  intent_is, without_errors, order_confirm_commitintent_handler, product_is, take_items,
}
use phyllonix.Workers.CommitIntents.Stock.{ordered, handler-stock, handler-once}
use phyllonix.Workers.CommitIntents.Retry.{Postponed, handler-Postponed}
use phyllonix.Cart.{add_item_to_cart}
use phyllonix.Cart.Quantities.{Tidy, add_item_to_cart-Tidy}
use phyllonix.RateLimit.{
  sliding_window, redis_allow, evaluate, ensure_lua_loaded, allowance, let_through,
  redis_allow-window,
}

abbrev item : Item
item = record {
  cart_item_id = 1;
  product_id = 7;
  quantity = 3;
  prod_base_price = 100;
  product_stock = 6;
}

abbrev session : CheckoutSession
session = record {
  id = 20;
  public_id = 21;
  user_id = 4;
  cart_snapshot = some (item ∷ []);
  selected_payment_method = some upi;
  is_active = true;
  expires_at = 5000;
}

abbrev response : OrderResponse
response = record {
  order_public_id = 31;
  order_id = 30;
  pay_public_id = some 41;
  provider_order_id = some 500;
}

abbrev key : IdempotencyKey
key = record {
  id = 25;
  key = 88;
  cs_id = 20;
  created_by = 4;
  owner_type = some OwnerType.pay_now;
  owner_id = some 30;
  response_code = some 200;
  response_body = some response;
  status = OrderIdempotencyStatus.pending;
  expires_at = 90000;
}

abbrev product : Product
product = record { id = 7; public_id = 70; stock_qty = 6; base_price = 100 }

abbrev intent : CommitIntent
intent = record {
  id = 60;
  aggregate_id = 30;
  status = CommitIntentStatus.pending;
  payload = record { product_id = 7; quantity = 3 } ∷ [];
  attempts = 0;
  next_retry_at = none;
}

abbrev cart_item : CartItem
cart_item = record { id = 1; cart_id = 2; product_id = 7; quantity = 3 }

abbrev shop : Shop
shop = record {
  next_id = 100;
  products = product ∷ [];
  carts = [];
  cart_items = cart_item ∷ [];
  checkouts = session ∷ [];
  reservations = [];
  idempotency_keys = key ∷ [];
  orders = [];
  order_items = [];
  payments = [];
  attempts = [];
  webhook_events = [];
  outbox = [];
  intents = intent ∷ [];
}

-- The provider fails once and then answers.
abbrev psp : ℕ → PspOutcome
psp k = if k == 1 then transient else responded (some 500)

place_order-replays_example :
    in_session (place_order psp (λ d. d) 1000 4 21 (some 88)) shop ≡ (ok (replayed response), shop)
place_order-replays_example =
    place_order-replays psp (λ d. d) 1000 4 21 88 shop session upi item [] key response refl
      (omega arith) refl refl refl (omega arith) refl refl

place_order-AtMostOne_example :
    orders_of 100 (in_session (place_order psp (λ d. d) 1000 4 21 (some 89)) shop).1.orders ≤ 1
place_order-AtMostOne_example =
    place_order-AtMostOne 100 psp (λ d. d) (λ d h. h) 1000 89 4 21 shop (omega arith)

retry_payments-FirstAnswer_example :
    (t : Tried) × ((retry_payments psp 40 (record { work = shop; committed = shop })).0 ≡ ok t)
    × FirstAnswer psp 0 3 t
retry_payments-FirstAnswer_example =
    retry_payments-FirstAnswer psp 40 (record { work = shop; committed = shop })

handler-stock_example :
    ((order_confirm_commitintent_handler 1000 (some 60) shop).products ≡ shop.products)
    ⊎ ((pid : ℕ) (p : Product)
        → find_where (product_is pid) shop.products ≡ some p
        → (q : Product) × (find_where
              (product_is pid)
              (order_confirm_commitintent_handler 1000 (some 60) shop).products
            ≡ some q)
          × (q.stock_qty + ordered pid intent.payload ≡ p.stock_qty))
handler-stock_example = handler-stock 1000 60 intent shop refl

handler-once_example :
    order_confirm_commitintent_handler 2000
      (some 60)
      (order_confirm_commitintent_handler 1000 (some 60) shop)
    ≡ order_confirm_commitintent_handler 1000 (some 60) shop
unfolding take_items
handler-once_example = handler-once 1000 2000 60 intent shop refl (λ e. cc e)

shop-Tidy : Tidy 1000 shop.cart_items
shop-Tidy = record { bounded = (omega arith, tt); single = λ c p. ground arith }

add_item_to_cart-Tidy_example :
    Tidy 1000 (in_session (add_item_to_cart 1000 2 product) shop).1.cart_items
add_item_to_cart-Tidy_example = add_item_to_cart-Tidy 1000 2 product shop (omega arith) shop-Tidy

redis_allow-window_example :
    let_through
      (λ _. true)
      2
      60
      (1000 ∷ 2000 ∷ 3000 ∷ [])
      (record { key = none; script_sha = none })
    ≡ min 2 3
redis_allow-window_example =
    redis_allow-window (λ _. true) 2 60 1000 (2000 ∷ 3000 ∷ []) none (omega arith) refl
      (omega arith, (omega arith, tt))

-- Once the sliding window's script was loaded, every request is let through.
sliding_run :
    let_through
      (λ _. true)
      2
      60
      (1000 ∷ 2000 ∷ 3000 ∷ [])
      (record { key = none; script_sha = some sliding_window })
    ≡ 3
unfolding redis_allow evaluate ensure_lua_loaded allowance
sliding_run = refl

abbrev large : CommitIntent
large = record intent { payload = record { product_id = 7; quantity = 9 } ∷ [] }

abbrev short_shop : Shop
short_shop = record shop { intents = large ∷ [] }

large-fails : without_errors (take_items large.payload short_shop.products false) ≡ none
unfolding take_items
large-fails = refl

handler-Postponed_example :
    ((order_confirm_commitintent_handler 1000 (some 60) short_shop).products ≡ short_shop.products)
    × ((c : CommitIntent) × (find_where
            (intent_is 60)
            (order_confirm_commitintent_handler 1000 (some 60) short_shop).intents
          ≡ some c)
        × Postponed 1000 large c)
handler-Postponed_example = handler-Postponed 1000 60 large short_shop refl refl large-fails

abbrev placed : Result Placed × Shop
placed = in_session (place_order (λ _. responded (some 500)) (λ d. d) 1000 4 21 (some 89)) shop

place_order-creates_example :
    (placed.0
      ≡ ok (
          created
            (paid_response (response_of 101 102 (some (payment_id_of shop (item ∷ []) + 1))) 500)))
    × (placed.1.orders ≡ new_order 101 102 100 4 upi (compute_final_total (item ∷ []) upi) ∷ [])
    × (placed.1.order_items ≡ order_rows 103 101 (item ∷ []))
    × (placed.1.payments
        ≡ update_where
            (λ (p : Payment). p.id == payment_id_of shop (item ∷ []))
            (accept 500)
            (new_payment
                (payment_id_of shop (item ∷ []))
                (payment_id_of shop (item ∷ []) + 1)
                101
                (compute_final_total (item ∷ []) upi).total
              ∷ []))
    × (placed.1.checkouts
        ≡ update_where (λ c. c.id == 20) (λ c. record c { is_active = false }) (session ∷ []))
place_order-creates_example =
    place_order-creates (λ _. responded (some 500)) (λ d. d) 1000 4 21 89 500 shop session item []
      refl (omega arith) refl refl refl refl refl refl refl refl refl
