-- ===== src/Orders/Stock/Bounds.antt =====
-- Reservations never promise more than the stock.
use mathlib.Core.Path.{subst}
use phyllonix.Base.{
  ℕ, ◌+◌, ◌-◌, ◌≤◌, ◌≡◌, ◌≢◌, refl, sym, inl, inr, ==_iff, ==_refl, Bool-cases, false, List, [],
  ◌∷◌, arith, ◌==◌, if◌then◌else◌, sum_where, sum_where-append, All,
}
use phyllonix.Schema.{Item, InventoryReservation, active}
use phyllonix.Orders.Stock.{
  reserved_qty, insert_reservation, insert_reservations, Demand, put_demand, product_data,
  any_short, holds,
}

-- The quantity of a product over all the items of a cart.
abbrev pub wanted : ℕ → List Item → ℕ
wanted pid = sum_where (λ (it : Item). it.product_id == pid) (λ it. it.quantity)

-- One insert adds at most the item's quantity, and only to its product.
reserved-insert_reservation :
    (now pid id cs_id reserved_until : ℕ) (it : Item) (rs : List InventoryReservation)
    → reserved_qty now pid (insert_reservation id cs_id reserved_until it rs)
      ≤ reserved_qty now pid rs + (if it.product_id == pid then it.quantity else 0)
unfolding reserved_qty insert_reservation
reserved-insert_reservation now pid id cs_id reserved_until it rs = ground (
  arith,
  sum_where-append (holds now pid) (λ r. r.quantity) rs
      (record {
        id = id;
        product_id = it.product_id;
        checkout_id = cs_id;
        quantity = it.quantity;
        reserved_until = reserved_until;
        status = active;
      }
        ∷ []),
)

pub reserved-insert_reservations :
    (now pid id cs_id reserved_until : ℕ) (items : List Item) (rs : List InventoryReservation)
    → reserved_qty now pid (insert_reservations id cs_id reserved_until items rs)
      ≤ reserved_qty now pid rs + wanted pid items
unfolding insert_reservations
reserved-insert_reservations now pid id cs_id ru [] rs = omega arith
reserved-insert_reservations now pid id cs_id ru (it ∷ items) rs = omega (
  arith,
  reserved-insert_reservations now pid (id + 1) cs_id ru items
      (insert_reservation id cs_id ru it rs),
  reserved-insert_reservation now pid id cs_id ru it rs,
)

-- No product stands in two items; the unique key (cart_id, product_id) of cart items ensures it.
abbrev pub Distinct : List Item → Type 0
Distinct [] = Unit
Distinct (it ∷ items) = All (λ (x : Item). x.product_id ≢ it.product_id) items × Distinct items

abbrev Fresh : ℕ → List Demand → Type 0
Fresh k = All (λ e. e.pid ≢ k)

-- What the availability test established for one item.
abbrev pub Fits : ℕ → List InventoryReservation → Item → Type 0
Fits now rs it = it.quantity ≤ it.product_stock - reserved_qty now it.product_id rs

Fresh-put_demand :
    (k : ℕ) (e : Demand) (acc : List Demand) → e.pid ≢ k → Fresh k acc → Fresh k (put_demand e acc)
unfolding put_demand
Fresh-put_demand k e [] ne h = (ne, tt)
Fresh-put_demand k e (x ∷ acc) ne h = ground (arith, Fresh-put_demand k e acc ne h.1)

any_short-put_demand :
    (now : ℕ) (rs : List InventoryReservation) (e : Demand) (acc : List Demand)
    → Fresh e.pid acc
    → any_short now rs (put_demand e acc) ≡ false
    → (any_short now rs acc ≡ false) × (e.requested_qty ≤ e.stock_qty - reserved_qty now e.pid rs)
unfolding any_short put_demand
any_short-put_demand now rs e [] f h = (refl, ground arith)
any_short-put_demand now rs e (x ∷ acc) f h = ground (arith, any_short-put_demand now rs e acc f.1)

abbrev demand_of : Item → Demand
demand_of it = record {
  pid = it.product_id;
  stock_qty = it.product_stock;
  requested_qty = it.quantity;
}

All-Fresh-put :
    (it : Item) (items : List Item) (acc : List Demand)
    → All (λ (x : Item). x.product_id ≢ it.product_id) items
    → All (λ (x : Item). Fresh x.product_id acc) items
    → All (λ (x : Item). Fresh x.product_id (put_demand (demand_of it) acc)) items
All-Fresh-put it [] acc d f = tt
All-Fresh-put it (x ∷ items) acc d f = (
  Fresh-put_demand x.product_id (demand_of it) acc (λ e. d.0 (sym e)) f.0,
  All-Fresh-put it items acc d.1 f.1,
)

All-any : (items : List Item) → All (λ (x : Item). Fresh x.product_id []) items
All-any [] = tt
All-any (it ∷ items) = (tt, All-any items)

-- With no product twice the dict holds a demand for every item, so a passed test fits them all.
product_data-Fits :
    (now : ℕ) (rs : List InventoryReservation) (acc : List Demand) (items : List Item)
    → Distinct items
    → All (λ (x : Item). Fresh x.product_id acc) items
    → any_short now rs (product_data acc items) ≡ false
    → (any_short now rs acc ≡ false) × All (Fits now rs) items
unfolding product_data
product_data-Fits now rs acc [] d f h = (h, tt)
product_data-Fits now rs acc (it ∷ items) d f h =
    let (short, rest) =
      product_data-Fits now rs (put_demand (demand_of it) acc) items d.1
        (All-Fresh-put it items acc d.0 f.1) h in
    let (old, fits) = any_short-put_demand now rs (demand_of it) acc f.0 short in
    (old, (fits, rest))

wanted-zero :
    (pid : ℕ) (items : List Item)
    → All (λ (x : Item). x.product_id ≢ pid) items
    → wanted pid items ≡ 0
wanted-zero pid [] h = refl
wanted-zero pid (it ∷ items) h = ground (arith, wanted-zero pid items h.1)

-- The stock that an item carries is that of its product.
abbrev pub Carries : (ℕ → ℕ) → Item → Type 0
Carries stock it = it.product_stock ≡ stock it.product_id

-- The stock covers a product's reservations and what the cart wants of it.
abbrev Covers : (ℕ → ℕ) → ℕ → List InventoryReservation → List Item → ℕ → Type 0
Covers stock now rs items pid = reserved_qty now pid rs + wanted pid items ≤ stock pid

Covers-head :
    (stock : ℕ → ℕ) (now : ℕ) (rs : List InventoryReservation) (it : Item) (items : List Item)
    → All (λ (x : Item). x.product_id ≢ it.product_id) items
    → Carries stock it
    → Fits now rs it
    → reserved_qty now it.product_id rs ≤ stock it.product_id
    → Covers stock now rs (it ∷ items) it.product_id
Covers-head stock now rs it items d c f h =
    let none_left = wanted-zero it.product_id items d in
    rw (==_refl it.product_id, none_left) (omega (arith, c))

wanted-Fits :
    (stock : ℕ → ℕ) (now pid : ℕ) (rs : List InventoryReservation) (items : List Item)
    → Distinct items
    → All (Carries stock) items
    → All (Fits now rs) items
    → reserved_qty now pid rs ≤ stock pid
    → Covers stock now rs items pid
wanted-Fits stock now pid rs [] d c f h = omega arith
wanted-Fits stock now pid rs (it ∷ items) d c f h = elim (Bool-cases (it.product_id == pid)) [
  | inl same ↦
      subst (λ p. reserved_qty now p rs ≤ stock p → Covers stock now rs (it ∷ items) p)
        ((==_iff it.product_id pid).0 same) (Covers-head stock now rs it items d.0 c.0 f.0) h
  | inr other ↦ rw other (omega (arith, wanted-Fits stock now pid rs items d.1 c.1 f.1 h))
]

-- A cart that passed the availability test leaves every product's reservations within its stock.
pub reserve_within_stock :
    (stock : ℕ → ℕ) (now id cs_id reserved_until : ℕ) (rs : List InventoryReservation)
    (items : List Item)
    → Distinct items
    → All (Carries stock) items
    → any_short now rs (product_data [] items) ≡ false
    → (pid : ℕ) → reserved_qty now pid rs ≤ stock pid
    → reserved_qty now pid (insert_reservations id cs_id reserved_until items rs) ≤ stock pid
reserve_within_stock stock now id cs_id ru rs items d c ok pid h =
    let fits = (product_data-Fits now rs [] items d (All-any items) ok).1 in
    omega (
      arith,
      reserved-insert_reservations now pid id cs_id ru items rs,
      wanted-Fits stock now pid rs items d c fits h,
    )
