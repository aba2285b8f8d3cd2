-- ===== src/Products/Pages/LastRow.antt =====
-- The last row of a page, `page_rows[-1]`, and the rows after it.
use phyllonix.Base.{
  ℕ, zero, suc, ◌≤◌, ◌≡◌, refl, some, List, [], ◌∷◌, length, take, select_where, All, arith,
}
use mathlib.Core.Path.{subst}
use mathlib.Core.Option.{some-injective}
use phyllonix.Products.Pages.{ProductRow, position, keyset_filter, last_row}
use phyllonix.Products.Pages.Slices.{drop, select_where-every}
use phyllonix.Products.Pages.Sorting.{After, IsListed, After-irrefl, After-asym}

pub All-last_row :
    (P : ProductRow → Type 0) (xs : List ProductRow) (a : ProductRow)
    → All P xs
    → last_row xs ≡ some a
    → P a
All-last_row P [] a h e = cc
All-last_row P (x ∷ []) a h e = subst P (some-injective _ _ e) h.0
All-last_row P (x ∷ y ∷ ys) a h e = All-last_row P (y ∷ ys) a h.1 e

pub All-take :
    (P : ProductRow → Type 0) (n : ℕ) (xs : List ProductRow) → All P xs → All P (take n xs)
All-take P zero xs h = tt
All-take P (suc n) [] h = tt
All-take P (suc n) (x ∷ xs) h = (h.0, All-take P n xs h.1)

select_where-first :
    (x a : ProductRow) (xs : List ProductRow)
    → All (After x) xs
    → x ≡ a
    → select_where (keyset_filter (position a)) (x ∷ xs) ≡ xs
select_where-first x a xs h e =
    subst (λ b. select_where (keyset_filter (position b)) (x ∷ xs) ≡ xs) e
      (rw (After-irrefl x) (select_where-every (keyset_filter (position x)) xs h))

-- The rows after the last of the first n are the others.
pub select_where-last :
    (n : ℕ) (xs : List ProductRow) (a : ProductRow)
    → IsListed xs
    → last_row (take n xs) ≡ some a
    → select_where (keyset_filter (position a)) xs ≡ drop n xs
select_where-last zero xs a h e = cc
select_where-last (suc n) [] a h e = cc
select_where-last (suc zero) (x ∷ xs) a h e = select_where-first x a xs h.0 (some-injective _ _ e)
select_where-last (suc (suc n)) (x ∷ []) a h e =
    select_where-first x a [] h.0 (some-injective _ _ e)
select_where-last (suc (suc n)) (x ∷ y ∷ ys) a h e =
    rw
      (After-asym x a (
        All-last_row (After x) (take (suc n) (y ∷ ys)) a (All-take (After x) (suc n) (y ∷ ys) h.0)
          e))
      (select_where-last (suc n) (y ∷ ys) a h.1 e)

pub last_row-found :
    (n : ℕ) (xs : List ProductRow)
    → 1 ≤ n
    → 1 ≤ length xs
    → (a : ProductRow) × (last_row (take n xs) ≡ some a)
last_row-found zero xs h k = absurd (omega arith)
last_row-found (suc n) [] h k = absurd (omega arith)
last_row-found (suc zero) (x ∷ xs) h k = (x, refl)
last_row-found (suc (suc n)) (x ∷ []) h k = (x, refl)
last_row-found (suc (suc n)) (x ∷ y ∷ ys) h k =
    last_row-found (suc n) (y ∷ ys) (omega arith) (omega arith)
