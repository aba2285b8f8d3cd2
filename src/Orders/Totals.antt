-- ===== src/Orders/Totals.antt =====
-- compute_final_total and the item rows of backend/orders/repository.py, and compute_order_totals of
-- backend/orders/utils.py. Prices, quantities and totals are natural numbers, as their columns'
-- checks demand; `int(x * 0.02)` is two_percent.
use phyllonix.Base.{
  ℕ, ◌+◌, ◌-◌, ◌*◌, ◌/◌, ◌<◌, ◌≡◌, Bool, true, false, List, [], ◌∷◌, arith, if◌then◌else◌,
}
use phyllonix.Base.Double.{two_percent, two_percent-eq}
use phyllonix.Schema.{Item, PayMethod, upi, cod}

pub record Totals : Type 0 where
  pub items : List Item
  pub subtotal : ℕ
  pub tax : ℕ
  pub shipping : ℕ
  pub cod_fee : ℕ
  pub discount : ℕ
  pub total : ℕ

abbrev pub is_cod : PayMethod → Bool
is_cod cod = true
is_cod upi = false

-- the loop `for it in items: subtotal += …`
unfoldable pub subtotal_loop : ℕ → List Item → ℕ
subtotal_loop acc [] = acc
subtotal_loop acc (it ∷ items) = subtotal_loop (acc + it.prod_base_price * it.quantity) items

unfoldable pub compute_final_total : List Item → PayMethod → Totals
compute_final_total items payment_method =
    let subtotal = subtotal_loop 0 items in
    let tax = two_percent subtotal in
    let cod_fee : ℕ = if is_cod payment_method then 50 else 0 in
    record {
      items = items;
      subtotal = subtotal;
      tax = tax;
      shipping = 0;
      cod_fee = cod_fee;
      discount = 0;
      total = subtotal + tax + 0 + cod_fee - 0;
    }

-- the generator under `sum`
unfoldable pub sum_items : List Item → ℕ
sum_items [] = 0
sum_items (it ∷ items) = it.prod_base_price * it.quantity + sum_items items

-- The expiry that the function extends for UPI is not in what it returns.
unfoldable pub compute_order_totals : List Item → PayMethod → Totals
compute_order_totals items payment_method =
    let subtotal = sum_items items in
    let tax = two_percent subtotal in
    let cod_fee : ℕ = if is_cod payment_method then 50 else 0 in
    record {
      items = items;
      subtotal = subtotal;
      tax = tax;
      shipping = 50;
      cod_fee = cod_fee;
      discount = 0;
      total = subtotal + tax + 50 + cod_fee - 0;
    }

subtotal_loop-eq : (acc : ℕ) (items : List Item) → subtotal_loop acc items ≡ acc + sum_items items
unfolding subtotal_loop sum_items
subtotal_loop-eq acc [] = omega arith
subtotal_loop-eq acc (it ∷ items) =
    omega (arith, subtotal_loop-eq (acc + it.prod_base_price * it.quantity) items)

-- The order that is placed has the subtotal, the tax and the COD fee of the summary that the client
-- was shown, and a total that is lower by exactly the 50 of shipping that only the summary charges.
pub final_total-summary :
    (items : List Item) (m : PayMethod)
    → ((compute_final_total items m).subtotal ≡ (compute_order_totals items m).subtotal)
      × ((compute_final_total items m).tax ≡ (compute_order_totals items m).tax)
      × ((compute_final_total items m).cod_fee ≡ (compute_order_totals items m).cod_fee)
      × ((compute_final_total items m).total + 50 ≡ (compute_order_totals items m).total)
unfolding compute_final_total compute_order_totals
final_total-summary items m = rw (subtotal_loop-eq 0 items) (grind arith)

-- While the subtotal is below 2 ^ 50, the tax of an order is the whole part of a fiftieth of the sum
-- of price times quantity over its items, and the total is that sum, the tax and the COD fee of 50.
pub compute_final_total-exact :
    (items : List Item) (m : PayMethod)
    → sum_items items < 1125899906842624
    → ((compute_final_total items m).tax ≡ sum_items items / 50)
      × ((compute_final_total items m).total
          ≡ sum_items items + sum_items items / 50 + (if is_cod m then 50 else 0))
unfolding compute_final_total
compute_final_total-exact items m h =
    let s : subtotal_loop 0 items ≡ sum_items items = omega (arith, subtotal_loop-eq 0 items) in
    rw (s, two_percent-eq (sum_items items) h) (grind arith)
