-- ===== src/Orders/Checkout/Reserve.antt =====
-- get_order_summary never lets the active reservations of a product exceed its stock.
use Prim.Native.String.{String}
use mathlib.Core.Path.{subst}
use mathlib.Core.Option.{some-injective}
use phyllonix.Base.{
  ℕ, ◌≤◌, ◌≡◌, refl, sym, ap, inl, inr, ◌⊎◌, Bool-cases, false, Option, none, some, List, [], ◌∷◌,
  arith, ◌==◌, find_where, find_where-holds, ==_iff, ltb, All, in_session, Option-cases,
}
use phyllonix.Schema.{Item, Product, CartItem, CheckoutSession, PayMethod}
use phyllonix.Orders.Shop.{Shop}
use phyllonix.Orders.Stock.{
  reserved_qty, cart_rows, join_row, joined, keep, in_carts, insert_reservations, any_short,
  product_data,
}
use phyllonix.Orders.Stock.Bounds.{Distinct, Carries, reserve_within_stock}
use phyllonix.Orders.Checkout.{
  parse_method, is_checkout, or_gone, update_checkout_activeness, reserve_summary, summary_by,
  get_order_summary, get_checkout_details,
}

-- The stock of a product; one that is not there has none.
abbrev stock_at : Option Product → ℕ
stock_at none = 0
stock_at (some p) = p.stock_qty

abbrev stock_in : List Product → ℕ → ℕ
stock_in products pid = stock_at (find_where (λ (p : Product). p.id == pid) products)

abbrev pub stock_of : Shop → ℕ → ℕ
stock_of d = stock_in d.products

-- What the active reservations of every product add up to is in stock.
pub record WithinStock (now : ℕ) (d : Shop) : Type 0 where
  pub at : (pid : ℕ) → reserved_qty now pid d.reservations ≤ stock_of d pid

-- The found product has the id that was asked for.
stock_found :
    (products : List Product) (pid : ℕ) (p : Product)
    → find_where (λ (x : Product). x.id == pid) products ≡ some p
    → p.stock_qty ≡ stock_in products p.id
stock_found products pid p h =
    let e : p.id ≡ pid = (==_iff p.id pid).0 (find_where-holds (λ x. x.id == pid) products p h) in
    rw e (sym (ap stock_at h))

joined-Carries :
    (d : Shop) (pid : ℕ) (o : Option Product) (ci : CartItem) (it : Item)
    → find_where (λ (x : Product). x.id == pid) d.products ≡ o
    → joined ci o ≡ some it
    → Carries (stock_of d) it
joined-Carries d pid none ci it h e = cc
joined-Carries d pid (some p) ci it h e =
    subst (Carries (stock_of d)) (some-injective _ _ e) (stock_found d.products pid p h)

join_row-Carries :
    (user : ℕ) (d : Shop) (ci : CartItem) (it : Item)
    → join_row user d ci ≡ some it
    → Carries (stock_of d) it
unfolding join_row
join_row-Carries user d ci it h = elim (Bool-cases (ltb 0 (in_carts user d ci))) [
  | inl yours ↦ joined-Carries d ci.product_id _ ci it refl (rw yours at h)
  | inr other ↦ cc (rw other at h)
]

keep-All :
    (P : Item → Type 0) (o : Option Item) (rest : List Item)
    → ((it : Item) → o ≡ some it → P it)
    → All P rest
    → All P (keep o rest)
keep-All P none rest h r = r
keep-All P (some it) rest h r = (h it refl, r)

-- Every item of a snapshot carries the stock of its product.
cart_rows-Carries :
    (user : ℕ) (d : Shop) (cis : List CartItem) → All (Carries (stock_of d)) (cart_rows user d cis)
unfolding cart_rows
cart_rows-Carries user d [] = tt
cart_rows-Carries user d (ci ∷ cis) =
    keep-All (Carries (stock_of d)) (join_row user d ci) (cart_rows user d cis)
      (join_row-Carries user d ci) (cart_rows-Carries user d cis)

-- Where the test of availability passed, storing the reservations keeps them within the stock.
stored_within :
    (now id cs_id ru user : ℕ) (d : Shop)
    → WithinStock now d
    → Distinct (cart_rows user d d.cart_items)
    → any_short now d.reservations (product_data [] (cart_rows user d d.cart_items)) ≡ false
    → (d' : Shop) → d'.products ≡ d.products
    → d'.reservations
      ≡ insert_reservations id cs_id ru (cart_rows user d d.cart_items) d.reservations
    → WithinStock now d'
stored_within now id cs_id ru user d w dist ok d' p r = record {
  at = λ pid.
      rw (p, r)
        (reserve_within_stock (stock_of d) now id cs_id ru d.reservations
          (cart_rows user d d.cart_items) dist (cart_rows-Carries user d d.cart_items) ok pid
          (w.at pid));
}

abbrev after_summary : ℕ → ℕ → PayMethod → CheckoutSession → Shop → Shop
after_summary now user m cs d = (in_session (reserve_summary now user m cs) d).1

-- The first summary of a session fails and changes nothing, or it passed the test and reserved.
reserve_summary-cases :
    (now user : ℕ) (m : PayMethod) (cs : CheckoutSession) (d : Shop)
    → (after_summary now user m cs d ≡ d)
      ⊎ ((any_short now d.reservations (product_data [] (cart_rows user d d.cart_items)) ≡ false)
          × ((after_summary now user m cs d).products ≡ d.products)
          × ((after_summary now user m cs d).reservations
              ≡ insert_reservations d.next_id cs.id cs.expires_at
                  (cart_rows user d d.cart_items)
                  d.reservations))
unfolding reserve_summary
reserve_summary-cases now user m cs d = ground arith

reserve_summary-WithinStock :
    (now user : ℕ) (m : PayMethod) (cs : CheckoutSession) (d : Shop)
    → WithinStock now d
    → Distinct (cart_rows user d d.cart_items)
    → WithinStock now (after_summary now user m cs d)
reserve_summary-WithinStock now user m cs d w dist = elim (reserve_summary-cases now user m cs d) [
  | inl same ↦ rw same w
  | inr (ok, products, reservations) ↦
      stored_within now d.next_id cs.id cs.expires_at user d w dist ok _ products reservations
]

abbrev after_request : ℕ → ℕ → ℕ → Option String → Shop → Shop
after_request now user checkout_id pm d =
    (in_session (get_order_summary now user checkout_id pm) d).1

-- A request with a method and a live session either leaves stock and reservations alone or does the
-- work of a first summary.
request-cases :
    (now user checkout_id : ℕ) (pm : Option String) (m : PayMethod) (cs : CheckoutSession)
    (d : Shop)
    → parse_method pm ≡ some m
    → find_where (is_checkout checkout_id user) d.checkouts ≡ some cs
    → (((after_request now user checkout_id pm d).products ≡ d.products)
        × ((after_request now user checkout_id pm d).reservations ≡ d.reservations))
      ⊎ (after_request now user checkout_id pm d ≡ after_summary now user m cs d)
unfolding get_order_summary get_checkout_details or_gone update_checkout_activeness summary_by
request-cases now user checkout_id pm m cs d hm hc = ground arith

request-refused :
    (now user checkout_id : ℕ) (pm : Option String) (d : Shop)
    → (parse_method pm ≡ none) ⊎ (find_where (is_checkout checkout_id user) d.checkouts ≡ none)
    → after_request now user checkout_id pm d ≡ d
unfolding get_order_summary get_checkout_details
request-refused now user checkout_id pm d h = ground arith

-- Whatever the request and however it ends, if no product's active reservations exceeded its stock
-- before it and the user's cart lists no product twice, none do after it.
pub get_order_summary-WithinStock :
    (now user checkout_id : ℕ) (pm : Option String) (d : Shop)
    → WithinStock now d
    → Distinct (cart_rows user d d.cart_items)
    → WithinStock now (in_session (get_order_summary now user checkout_id pm) d).1
get_order_summary-WithinStock now user checkout_id pm d w dist =
    elim (Option-cases (parse_method pm)) [
      | inl bad ↦ rw (request-refused now user checkout_id pm d (inl bad)) w
      | inr (m, hm) ↦ elim (Option-cases (find_where (is_checkout checkout_id user) d.checkouts)) [
        | inl missing ↦ rw (request-refused now user checkout_id pm d (inr missing)) w
        | inr (cs, hc) ↦ elim (request-cases now user checkout_id pm m cs d hm hc) [
          | inl (p, r) ↦ record { at = λ pid. rw (p, r) (w.at pid) }
          | inr same ↦ rw same (reserve_summary-WithinStock now user m cs d w dist)
        ]
      ]
    ]
