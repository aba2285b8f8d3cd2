-- ===== src/Products/Pages.antt =====
-- The pages of the catalogue: keyset_filter and fetch_prods of products/repository.py, the loader of
-- get_products in products/routes.py, and a client that follows next_cursor to the end.
pub mod LastRow
pub mod Slices
pub mod Sorting
pub mod Complete
use Prim.Native.String.{String}
use phyllonix.Base.{
  ℕ, zero, suc, ◌+◌, Bool, true, false, ◌&&◌, ◌||◌, Option, none, some, List, [], ◌∷◌, ◌++◌, map,
  ltb, ◌==◌, if◌then◌else◌, length, take, select_where,
}

-- What the SELECT reads of a product.
pub record ProductRow : Type 0 where
  pub id : ℕ
  pub public_id : ℕ
  pub name : String
  pub base_price : ℕ
  pub created_at : ℕ

-- The last row a client has seen: created_at and id.
abbrev pub Position : Type 0
Position = ℕ × ℕ

abbrev pub position : ProductRow → Position
position p = (p.created_at, p.id)

unfoldable pub keyset_filter : Position → ProductRow → Bool
keyset_filter (created_at_val, last_id) p =
    ltb p.created_at created_at_val || (p.created_at == created_at_val && ltb last_id p.id)

-- `if cursor_vals: … where(…)`
abbrev pub in_window : Option Position → ProductRow → Bool
in_window none p = true
in_window (some c) p = keyset_filter c p

-- ORDER BY created_at DESC, id
abbrev pub insert : ProductRow → List ProductRow → List ProductRow
insert x [] = x ∷ []
insert x (y ∷ ys) =
    let rest = insert x ys in if keyset_filter (position x) y then x ∷ y ∷ ys else y ∷ rest

abbrev pub order_by : List ProductRow → List ProductRow
order_by [] = []
order_by (x ∷ xs) = insert x (order_by xs)

unfoldable pub fetch_prods : List ProductRow → Option Position → ℕ → List ProductRow
fetch_prods table cursor_vals limit =
    take (suc limit) (order_by (select_where (in_window cursor_vals) table))

-- `page_rows[-1]`, with nothing where Python raises IndexError
abbrev pub last_row : List ProductRow → Option ProductRow
last_row [] = none
last_row (x ∷ []) = some x
last_row (x ∷ y ∷ ys) = last_row (y ∷ ys)

pub record Page : Type 0 where
  pub items : List ProductRow
  pub next_cursor : Option Position
  pub has_more : Bool

unfoldable pub load_page : ℕ → List ProductRow → Page
load_page limit rows = record {
  items = take limit rows;
  next_cursor =
      if ltb limit (length rows)
      then elim (last_row (take limit rows)) [ none ↦ none | some p ↦ some (position p) ]
      else none;
  has_more = ltb limit (length rows);
}

unfoldable pub loader : List ProductRow → ℕ → Option Position → Page
loader table limit cursor_vals = load_page limit (fetch_prods table cursor_vals limit)

-- A client that asks for pages until there is no next cursor, at most `fuel` of them.
unfoldable pub browse : ℕ → List ProductRow → ℕ → Option Position → Option (List ProductRow)
browse zero table limit cursor_vals = none
browse (suc fuel) table limit cursor_vals = elim ((loader table limit cursor_vals).next_cursor) [
  | none ↦ some (loader table limit cursor_vals).items
  | some c ↦ elim (browse fuel table limit (some c)) [
    | none ↦ none
    | some rest ↦ some ((loader table limit cursor_vals).items ++ rest)
  ]
]
