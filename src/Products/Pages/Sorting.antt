-- ===== src/Products/Pages/Sorting.antt =====
-- ORDER BY of the listing: the order of the rows, and how sorting and filtering commute.
use phyllonix.Base.{
  ◌≡◌, ◌≢◌, refl, Bool, true, false, List, [], ◌∷◌, if◌then◌else◌, select_where, All, All-map,
  arith, Bool-cases, inl, inr,
}
use phyllonix.Products.Pages.{ProductRow, position, keyset_filter, insert, order_by}

-- b stands after a in the listing.
abbrev pub After : ProductRow → ProductRow → Type 0
After a b = keyset_filter (position a) b ≡ true

abbrev pub OtherId : ProductRow → ProductRow → Type 0
OtherId a b = a.id ≢ b.id

-- The primary key.
abbrev pub DistinctIds : List ProductRow → Type 0
DistinctIds [] = Unit
DistinctIds (x ∷ xs) = All (OtherId x) xs × DistinctIds xs

abbrev pub IsListed : List ProductRow → Type 0
IsListed [] = Unit
IsListed (x ∷ xs) = All (After x) xs × IsListed xs

pub After-trans : (a b c : ProductRow) → After a b → After b c → After a c
unfolding keyset_filter
After-trans a b c h k = ground arith

pub After-irrefl : (a : ProductRow) → keyset_filter (position a) a ≡ false
unfolding keyset_filter
After-irrefl a = ground arith

pub After-asym : (a b : ProductRow) → After a b → keyset_filter (position b) a ≡ false
unfolding keyset_filter
After-asym a b h = ground arith

After-total : (a b : ProductRow) → OtherId a b → keyset_filter (position a) b ≡ false → After b a
unfolding keyset_filter
After-total a b d h = ground arith

pub All-insert :
    (P : ProductRow → Type 0) (x : ProductRow) (xs : List ProductRow)
    → P x
    → All P xs
    → All P (insert x xs)
All-insert P x [] hx h = (hx, tt)
All-insert P x (y ∷ ys) hx h = elim (Bool-cases (keyset_filter (position x) y)) [
  | inl t ↦ rw t (hx, h)
  | inr f ↦ rw f (h.0, All-insert P x ys hx h.1)
]

pub All-order_by : (P : ProductRow → Type 0) (xs : List ProductRow) → All P xs → All P (order_by xs)
All-order_by P [] h = tt
All-order_by P (x ∷ xs) h = All-insert P x (order_by xs) h.0 (All-order_by P xs h.1)

After-All :
    (x y : ProductRow) (ys : List ProductRow) → After x y → All (After y) ys → All (After x) ys
After-All x y ys h k = All-map (After y) (After x) ys (λ z. After-trans x y z h) k

insert-IsListed :
    (x : ProductRow) (xs : List ProductRow)
    → All (OtherId x) xs
    → IsListed xs
    → IsListed (insert x xs)
insert-IsListed x [] d h = (tt, tt)
insert-IsListed x (y ∷ ys) d h = elim (Bool-cases (keyset_filter (position x) y)) [
  | inl t ↦ rw t ((t, After-All x y ys t h.0), h)
  | inr f ↦
      rw f (All-insert (After y) x ys (After-total x y d.0 f) h.0, insert-IsListed x ys d.1 h.1)
]

pub order_by-IsListed : (xs : List ProductRow) → DistinctIds xs → IsListed (order_by xs)
order_by-IsListed [] d = tt
order_by-IsListed (x ∷ xs) d =
    insert-IsListed x (order_by xs) (All-order_by (OtherId x) xs d.0) (order_by-IsListed xs d.1)

module _ (p : ProductRow → Bool) where
  pub All-select_where :
      (P : ProductRow → Type 0) (xs : List ProductRow) → All P xs → All P (select_where p xs)
  All-select_where P [] h = tt
  All-select_where P (x ∷ xs) h = elim (Bool-cases (p x)) [
    | inl t ↦ rw t (h.0, All-select_where P xs h.1)
    | inr f ↦ rw f (All-select_where P xs h.1)
  ]

  pub select_where-IsListed : (xs : List ProductRow) → IsListed xs → IsListed (select_where p xs)
  select_where-IsListed [] h = tt
  select_where-IsListed (x ∷ xs) h = elim (Bool-cases (p x)) [
    | inl t ↦ rw t (All-select_where (After x) xs h.0, select_where-IsListed xs h.1)
    | inr f ↦ rw f (select_where-IsListed xs h.1)
  ]

  select_where-DistinctIds :
      (xs : List ProductRow) → DistinctIds xs → DistinctIds (select_where p xs)
  select_where-DistinctIds [] h = tt
  select_where-DistinctIds (x ∷ xs) h = elim (Bool-cases (p x)) [
    | inl t ↦ rw t (All-select_where (OtherId x) xs h.0, select_where-DistinctIds xs h.1)
    | inr f ↦ rw f (select_where-DistinctIds xs h.1)
  ]

insert_first : (x : ProductRow) (xs : List ProductRow) → All (After x) xs → insert x xs ≡ x ∷ xs
insert_first x [] h = refl
insert_first x (y ∷ ys) h = rw h.0

select_where-insert :
    (p : ProductRow → Bool) (x : ProductRow) (xs : List ProductRow)
    → IsListed xs
    → select_where p (insert x xs)
      ≡ (if p x then insert x (select_where p xs) else select_where p xs)
select_where-insert p x [] h = refl
select_where-insert p x (y ∷ ys) h = elim (Bool-cases (keyset_filter (position x) y)) [
  | inl t ↦ rw (
    t,
    insert_first x (select_where p (y ∷ ys))
        (All-select_where p (After x) (y ∷ ys) (t, After-All x y ys t h.0)),
  )
  | inr f ↦ ground (arith, select_where-insert p x ys h.1)
]

-- Filtering before the sort is filtering after it.
pub select_where-order_by :
    (p : ProductRow → Bool) (xs : List ProductRow)
    → DistinctIds xs
    → order_by (select_where p xs) ≡ select_where p (order_by xs)
select_where-order_by p [] d = refl
select_where-order_by p (x ∷ xs) d = ground (
  arith,
  select_where-order_by p xs d.1,
  select_where-insert p x (order_by xs) (order_by-IsListed xs d.1),
)
