-- ===== src/Orders/Stock.antt =====
-- capture_cart_snapshot, items_avblty and reserve_inventory of backend/orders/repository.py, and
-- validate_items_avblty of backend/orders/services.py. The product rows are locked from the
-- snapshot to the commit, so a session sees one stock.
pub mod Bounds
use phyllonix.Base.{
  ℕ, ◌+◌, ◌-◌, Bool, true, false, ◌&&◌, ◌||◌, Option, none, some, List, [], ◌∷◌, ◌++◌, ltb, ◌==◌,
  if◌then◌else◌, find_where, sum_where, length, Action, Result, ok, http, crash, gets, modify,
  raise, pure, raise_if, ◌>>=◌, ◌>>◌,
}
use phyllonix.Schema.{
  Item, Product, Cart, CartItem, InventoryReservation, InventoryReserveStatus, reserve_value,
}
use phyllonix.Orders.Shop.{Shop}

-- `Cart.user_id == user_id`; NULL equals nothing
abbrev pub opt_is : Option ℕ → ℕ → Bool
opt_is none n = false
opt_is (some m) n = m == n

-- How many carts join the item with the user: one, or none.
abbrev pub in_carts : ℕ → Shop → CartItem → ℕ
in_carts user d ci =
    sum_where (λ (c : Cart). c.id == ci.cart_id && opt_is c.user_id user) (λ _. 1) d.carts

abbrev pub joined : CartItem → Option Product → Option Item
joined ci none = none
joined ci (some p) = some (record {
  cart_item_id = ci.id;
  product_id = p.id;
  quantity = ci.quantity;
  prod_base_price = p.base_price;
  product_stock = p.stock_qty;
})

-- The joined row of a cart item, if its cart is the user's and its product exists.
unfoldable pub join_row : ℕ → Shop → CartItem → Option Item
join_row user d ci =
    if ltb 0 (in_carts user d ci)
    then joined ci (find_where (λ (p : Product). p.id == ci.product_id) d.products)
    else none

abbrev pub keep : Option Item → List Item → List Item
keep none rest = rest
keep (some it) rest = it ∷ rest

unfoldable pub cart_rows : ℕ → Shop → List CartItem → List Item
unfolding join_row
cart_rows user d [] = []
cart_rows user d (ci ∷ cis) = keep (join_row user d ci) (cart_rows user d cis)

-- `rows[0]` of an empty result raises an IndexError.
abbrev or_index_error : List Item → Action Shop (List Item)
or_index_error [] = raise crash
or_index_error (it ∷ items) = pure (it ∷ items)

unfoldable pub capture_cart_snapshot : ℕ → Action Shop (List Item)
unfolding cart_rows
capture_cart_snapshot user = do
  rows ← gets (λ d. cart_rows user d d.cart_items)
  or_index_error rows

-- SUM of the quantities of a product's active reservations that end after `now`
abbrev pub holds : ℕ → ℕ → InventoryReservation → Bool
holds now pid r = r.product_id == pid && (reserve_value r.status == 0 && ltb now r.reserved_until)

unfoldable pub reserved_qty : ℕ → ℕ → List InventoryReservation → ℕ
reserved_qty now pid = sum_where (holds now pid) (λ r. r.quantity)

-- An entry of the dict `product_data`.
pub record Demand : Type 0 where
  pub pid : ℕ
  pub stock_qty : ℕ
  pub requested_qty : ℕ

-- `product_data[pid] = …`
pub put_demand : Demand → List Demand → List Demand
put_demand e [] = e ∷ []
put_demand e (x ∷ xs) = if x.pid == e.pid then e ∷ xs else x ∷ put_demand e xs

pub product_data : List Demand → List Item → List Demand
unfolding put_demand
product_data acc [] = acc
product_data acc (it ∷ items) =
    product_data
      (put_demand
        (record { pid = it.product_id; stock_qty = it.product_stock; requested_qty = it.quantity })
        acc)
      items

-- `requested_qty > max(0, stock_qty - reserved_qty)`; `-` stops at 0, as max does
abbrev pub is_short : ℕ → List InventoryReservation → Demand → Bool
is_short now rs e = ltb (e.stock_qty - reserved_qty now e.pid rs) e.requested_qty

unfoldable pub any_short : ℕ → List InventoryReservation → List Demand → Bool
any_short now rs [] = false
any_short now rs (e ∷ es) = is_short now rs e || any_short now rs es

unfoldable pub items_avblty : ℕ → List Demand → Action Shop (Unit {0})
unfolding any_short
items_avblty now demands = do
  rs ← gets (λ d. d.reservations)
  raise_if (any_short now rs demands) (http 409)

unfoldable pub validate_items_avblty : ℕ → List Item → Action Shop (Unit {0})
unfolding items_avblty product_data
validate_items_avblty now cart_items = items_avblty now (product_data [] cart_items)

-- The unique key (product_id, checkout_id).
abbrev pub same_key : ℕ → ℕ → InventoryReservation → Bool
same_key pid cs_id r = r.product_id == pid && r.checkout_id == cs_id

-- INSERT … ON CONFLICT DO NOTHING of one row
unfoldable pub insert_reservation :
    ℕ → ℕ → ℕ → Item → List InventoryReservation → List InventoryReservation
insert_reservation id cs_id reserved_until it rs =
    if ltb 0 (sum_where (same_key it.product_id cs_id) (λ _. 1) rs)
    then rs
    else rs
      ++ record {
        id = id;
        product_id = it.product_id;
        checkout_id = cs_id;
        quantity = it.quantity;
        reserved_until = reserved_until;
        status = InventoryReserveStatus.active;
      }
        ∷ []

unfoldable pub insert_reservations :
    ℕ → ℕ → ℕ → List Item → List InventoryReservation → List InventoryReservation
unfolding insert_reservation
insert_reservations id cs_id reserved_until [] rs = rs
insert_reservations id cs_id reserved_until (it ∷ items) rs =
    insert_reservations (id + 1) cs_id reserved_until items
      (insert_reservation id cs_id reserved_until it rs)

-- The sequence gives an id to every row of the VALUES, also to one that conflicts.
unfoldable pub reserve_inventory : List Item → ℕ → ℕ → Action Shop (Unit {0})
unfolding insert_reservations
reserve_inventory cart_items cs_id reserved_until = modify (λ d. record d {
  next_id = d.next_id + length cart_items;
  reservations = insert_reservations d.next_id cs_id reserved_until cart_items d.reservations;
})
