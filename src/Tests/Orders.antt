-- ===== src/Tests/Orders.antt =====
-- The order theorems at a shop with one product, one cart and two checkout sessions.
use phyllonix.Base.{
  ◌≤◌, ℕ, ◌+◌, ◌/◌, ◌%◌, ◌≡◌, refl, true, none, some, List, [], ◌∷◌, arith, ok, in_session,
}
use phyllonix.Schema.{Item, cod, OrderStatus, PaymentStatus}
use phyllonix.Base.Text.{is_substring}
use phyllonix.Orders.Totals.{
  compute_final_total, compute_order_totals, sum_items, final_total-summary,
  compute_final_total-exact,
}
use phyllonix.Orders.LockKey.{FitsBigint, idempotency_lock_key, lock_key-FitsBigint}
use phyllonix.Orders.PayStatus.{Note, pay_order_status_util}
use phyllonix.Orders.Shop.{Shop}
use phyllonix.Orders.Stock.{cart_rows, reserved_qty}
use phyllonix.Orders.Stock.Bounds.{Distinct}
use phyllonix.Orders.Checkout.{get_order_summary, initiate_buy_now}
use phyllonix.Orders.Checkout.Session.{active_of, initiate_buy_now-one_active}
use phyllonix.Orders.Checkout.Reserve.{WithinStock, get_order_summary-WithinStock}

abbrev snacks : List Item
snacks =
    record {
      cart_item_id = 1;
      product_id = 7;
      quantity = 3;
      prod_base_price = 100;
      product_stock = 6;
    }
    ∷ []

final_total-summary_example :
    ((compute_final_total snacks cod).subtotal ≡ (compute_order_totals snacks cod).subtotal)
    × ((compute_final_total snacks cod).tax ≡ (compute_order_totals snacks cod).tax)
    × ((compute_final_total snacks cod).cod_fee ≡ (compute_order_totals snacks cod).cod_fee)
    × ((compute_final_total snacks cod).total + 50 ≡ (compute_order_totals snacks cod).total)
final_total-summary_example = final_total-summary snacks cod

compute_final_total-exact_example :
    ((compute_final_total snacks cod).tax ≡ sum_items snacks / 50)
    × ((compute_final_total snacks cod).total ≡ sum_items snacks + sum_items snacks / 50 + 50)
unfolding sum_items
compute_final_total-exact_example = compute_final_total-exact snacks cod (omega arith)

-- A digest of eight bytes with the sign bit set.
abbrev digest : ℕ → List ℕ
digest k = 255 ∷ 0 ∷ 0 ∷ 0 ∷ 0 ∷ 0 ∷ 0 ∷ (k % 256) ∷ []

lock_key-FitsBigint_example : FitsBigint (idempotency_lock_key digest 5)
lock_key-FitsBigint_example = lock_key-FitsBigint digest 5 (omega arith)

captured_run :
    pay_order_status_util (some "captured") (some "payment.captured")
    ≡ ok (record {
      payment_status = PaymentStatus.captured;
      order_status = OrderStatus.confirmed;
      is_valid_event = true;
      note = Note.captured;
    })
unfolding pay_order_status_util is_substring
captured_run = refl

-- User 4 has three of product 7 in the cart, six are in stock, and session 20 is open.
abbrev shop : Shop
shop = record {
  next_id = 100;
  products = record { id = 7; public_id = 70; stock_qty = 6; base_price = 100 } ∷ [];
  carts = record { id = 2; user_id = some 4; session_id = none } ∷ [];
  cart_items = record { id = 1; cart_id = 2; product_id = 7; quantity = 3 } ∷ [];
  checkouts =
      record {
        id = 20;
        public_id = 21;
        user_id = 4;
        cart_snapshot = none;
        selected_payment_method = none;
        is_active = true;
        expires_at = 5000;
      }
      ∷ [];
  reservations = [];
  idempotency_keys = [];
  orders = [];
  order_items = [];
  payments = [];
  attempts = [];
  webhook_events = [];
  outbox = [];
  intents = [];
}

abbrev fresh_shop : Shop
fresh_shop = record shop { checkouts = [] }

shop-WithinStock : WithinStock 1000 shop
unfolding reserved_qty
shop-WithinStock = record { at = λ pid. omega arith }

shop-Distinct : Distinct (cart_rows 4 shop shop.cart_items)
unfolding cart_rows
shop-Distinct = (tt, tt)

get_order_summary-WithinStock_example :
    WithinStock 1000 (in_session (get_order_summary 1000 4 21 (some "UPI")) shop).1
get_order_summary-WithinStock_example =
    get_order_summary-WithinStock 1000 4 21 (some "UPI") shop shop-WithinStock shop-Distinct

initiate_buy_now-one_active_example :
    active_of 4 (in_session (initiate_buy_now 1000 4) shop).1.checkouts ≤ 1
initiate_buy_now-one_active_example = initiate_buy_now-one_active 1000 4 4 shop (omega arith)
