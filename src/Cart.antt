-- ===== src/Cart.antt =====
-- backend/cart: get_or_create_cart, get_product_data and add_item_to_cart of repository.py. A commit
-- that runs into the unique key of a concurrent cart reads that cart; `others` is what other
-- requests commit before this one inserts.
pub mod Quantities
use phyllonix.Base.{
  ℕ, ◌+◌, ◌-◌, Bool, true, false, ◌&&◌, Option, none, some, List, [], ◌∷◌, ◌++◌, ltb, ◌==◌,
  if◌then◌else◌, find_where, update_where, Action, ok, http, gets, modify, raise, pure, or_raise,
  commit, ◌>>=◌, ◌>>◌,
}
use phyllonix.Schema.{Cart, CartItem, Product}
use phyllonix.Orders.Shop.{Shop, fresh}
use phyllonix.Orders.Stock.{opt_is}

abbrev pub cart_of_user : ℕ → Cart → Bool
cart_of_user user c = opt_is c.user_id user

abbrev pub cart_of_session : ℕ → Cart → Bool
cart_of_session sid c = opt_is c.session_id sid

unfoldable pub interfere : (Shop → Shop) → Action Shop (Unit {0})
interfere others s = (ok tt, record { work = others s.work; committed = others s.committed })

-- The insert and its commit, or the cart that was there first.
unfoldable pub create_cart : Option ℕ → Option ℕ → Option Cart → Action Shop ℕ
create_cart user sid (some c) = pure c.id
create_cart user sid none = do
  id ← fresh
  modify (λ d. record d {
    carts = d.carts ++ record { id = id; user_id = user; session_id = sid } ∷ [];
  })
  commit
  pure id

unfoldable pub found_or_create :
    (Shop → Shop) → (Cart → Bool) → Option ℕ → Option ℕ → Option Cart → Action Shop ℕ
unfolding interfere create_cart
found_or_create others is_mine user sid (some c) = pure c.id
found_or_create others is_mine user sid none = do
  interfere others
  c ← gets (λ d. find_where is_mine d.carts)
  create_cart user sid c

unfoldable pub get_or_create_cart : (Shop → Shop) → Option ℕ → Option ℕ → Action Shop ℕ
unfolding found_or_create
get_or_create_cart others (some user) sid = do
  c ← gets (λ d. find_where (cart_of_user user) d.carts)
  found_or_create others (cart_of_user user) (some user) sid c
get_or_create_cart others none (some sid) = do
  c ← gets (λ d. find_where (cart_of_session sid) d.carts)
  found_or_create others (cart_of_session sid) none (some sid) c
get_or_create_cart others none none = raise (http 400)

unfoldable pub get_product_data : ℕ → Action Shop Product
get_product_data product_pid = do
  p ← gets (λ d. find_where (λ (x : Product). x.public_id == product_pid) d.products)
  or_raise p (http 404)

pub record Added : Type 0 where
  pub id : ℕ
  pub quantity : ℕ
  pub is_new : Bool

abbrev pub item_of : ℕ → ℕ → CartItem → Bool
item_of cart_id product_id ci = ci.cart_id == cart_id && ci.product_id == product_id

-- The assignment for a product without stock is overwritten by the next line.
abbrev pub next_qty : ℕ → ℕ → ℕ
next_qty max_item_qty existing_qty =
    if ltb max_item_qty (existing_qty + 1) then max_item_qty else existing_qty + 1

-- A new row takes the column's default quantity, 1.
unfoldable pub put_item : ℕ → ℕ → ℕ → Option CartItem → Action Shop Added
put_item max_item_qty cart_id product_id (some ci) = do
  modify (λ d. record d {
    cart_items =
        update_where (λ (x : CartItem). x.id == ci.id)
          (λ x. record x { quantity = next_qty max_item_qty ci.quantity }) d.cart_items;
  })
  commit
  pure (record { id = ci.id; quantity = next_qty max_item_qty ci.quantity; is_new = false })
put_item max_item_qty cart_id product_id none = do
  id ← fresh
  modify (λ d. record d {
    cart_items =
        d.cart_items
        ++ record { id = id; cart_id = cart_id; product_id = product_id; quantity = 1 } ∷ [];
  })
  commit
  pure (record { id = id; quantity = 1; is_new = true })

unfoldable pub add_item_to_cart : ℕ → ℕ → Product → Action Shop Added
unfolding put_item
add_item_to_cart max_item_qty cart_id product_data = do
  row ← gets (λ d. find_where (item_of cart_id product_data.id) d.cart_items)
  put_item max_item_qty cart_id product_data.id row
