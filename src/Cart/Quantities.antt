-- ===== src/Cart/Quantities.antt =====
-- Items of a cart: one row per product, never more than the maximum.
use phyllonix.Base.{
  Bool-cases, ◌&&◌, ℕ, ◌≤◌, ◌≡◌, refl, true, Option, none, some, List, [], ◌∷◌, ◌++◌, ◌==◌,
  find_where, update_where, sum_where, sum_where-append, All, All-append, All-update_where,
  in_session, arith, inl, inr,
}
use phyllonix.Schema.{CartItem, Product}
use phyllonix.Orders.Shop.{Shop}
use phyllonix.Cart.{item_of, next_qty, put_item, add_item_to_cart}

-- The rows of a product in a cart.
abbrev pub rows_of : ℕ → ℕ → List CartItem → ℕ
rows_of cart_id product_id = sum_where (item_of cart_id product_id) (λ _. 1)

-- Every quantity is at most the maximum and no product has two rows in one cart.
pub record Tidy (max_item_qty : ℕ) (cis : List CartItem) : Type 0 where
  pub bounded : All (λ (ci : CartItem). ci.quantity ≤ max_item_qty) cis
  pub single : (cart_id product_id : ℕ) → rows_of cart_id product_id cis ≤ 1

no_row :
    (cart_id product_id : ℕ) (cis : List CartItem)
    → find_where (item_of cart_id product_id) cis ≡ none
    → rows_of cart_id product_id cis ≡ 0
no_row cart_id product_id [] h = refl
no_row cart_id product_id (ci ∷ cis) h = ground (arith, no_row cart_id product_id cis)

abbrev added_row : ℕ → ℕ → ℕ → CartItem
added_row id cart_id product_id = record {
  id = id;
  cart_id = cart_id;
  product_id = product_id;
  quantity = 1;
}

same_pair : (a b c d : ℕ) → (a == c && b == d) ≡ true → (a ≡ c) × (b ≡ d)
same_pair a b c d h = ground arith

rows_added :
    (id c p cart_id product_id : ℕ) (cis : List CartItem)
    → rows_of c p cis ≡ 0
    → rows_of cart_id product_id cis ≤ 1
    → rows_of cart_id product_id (cis ++ added_row id c p ∷ []) ≤ 1
rows_added id c p cart_id product_id cis z h =
    elim (Bool-cases (item_of cart_id product_id (added_row id c p))) [
      | inl t ↦
          let (e, f) = same_pair c p cart_id product_id t in
          let z' : rows_of cart_id product_id cis ≡ 0 = rw (← e, ← f) z in
          rw (sum_where-append (item_of cart_id product_id) (λ _. 1) cis (added_row id c p ∷ []), t)
            (omega (arith, z'))
      | inr f ↦
          rw (sum_where-append (item_of cart_id product_id) (λ _. 1) cis (added_row id c p ∷ []), f)
            (omega arith)
    ]

rows_kept :
    (id n cart_id product_id : ℕ) (cis : List CartItem)
    → rows_of cart_id product_id
        (update_where (λ (x : CartItem). x.id == id) (λ x. record x { quantity = n }) cis)
      ≡ rows_of cart_id product_id cis
rows_kept id n cart_id product_id [] = refl
rows_kept id n cart_id product_id (ci ∷ cis) = ground (arith, rows_kept id n cart_id product_id cis)

put_item-Tidy :
    (max_item_qty cart_id product_id : ℕ) (row : Option CartItem) (d : Shop)
    → 1 ≤ max_item_qty
    → find_where (item_of cart_id product_id) d.cart_items ≡ row
    → Tidy max_item_qty d.cart_items
    → Tidy max_item_qty (in_session (put_item max_item_qty cart_id product_id row) d).1.cart_items
unfolding put_item
put_item-Tidy max_item_qty cart_id product_id (some ci) d m h t = record {
  bounded =
      All-update_where (λ (x : CartItem). x.quantity ≤ max_item_qty)
        (λ (x : CartItem). x.id == ci.id)
        (λ x. record x { quantity = next_qty max_item_qty ci.quantity }) d.cart_items
        (λ x b. ground arith) t.bounded;
  single = λ c p.
      rw (rows_kept ci.id (next_qty max_item_qty ci.quantity) c p d.cart_items) (t.single c p);
}
put_item-Tidy max_item_qty cart_id product_id none d m h t = record {
  bounded =
      All-append (λ (x : CartItem). x.quantity ≤ max_item_qty) d.cart_items
        (added_row d.next_id cart_id product_id ∷ []) t.bounded (m, tt);
  single = λ c p.
      rows_added d.next_id cart_id product_id c p d.cart_items
        (no_row cart_id product_id d.cart_items h) (t.single c p);
}

-- Adding a product to a cart keeps every quantity at most the maximum and one row per cart and
-- product, whatever the cart, the product and its stock.
pub add_item_to_cart-Tidy :
    (max_item_qty cart_id : ℕ) (product_data : Product) (d : Shop)
    → 1 ≤ max_item_qty
    → Tidy max_item_qty d.cart_items
    → Tidy max_item_qty
        (in_session (add_item_to_cart max_item_qty cart_id product_data) d).1.cart_items
unfolding add_item_to_cart
add_item_to_cart-Tidy max_item_qty cart_id product_data d m t =
    put_item-Tidy max_item_qty cart_id product_data.id
      (find_where (item_of cart_id product_data.id) d.cart_items) d m refl t
