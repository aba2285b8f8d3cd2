-- ===== src/Products/Pages/Complete.antt =====
-- Following next_cursor from the first page: each page, and the whole walk.
use phyllonix.Base.{
  ℕ, zero, suc, ◌≤◌, ◌<◌, ◌≡◌, refl, ap, ◌∙◌, sym, true, false, Option, none, some, List, [], ◌∷◌,
  ◌++◌, if◌then◌else◌, ltb, length, take, select_where, arith, Bool-cases, is_some, inl, inr,
}
use mathlib.Core.List.{Perm, append-nil}
use mathlib.Core.List.Perm
use phyllonix.Products.Pages.{
  ProductRow, Position, position, keyset_filter, in_window, insert, order_by, fetch_prods, last_row,
  load_page, loader, browse,
}
use phyllonix.Products.Pages.LastRow.{All-last_row, All-take, select_where-last, last_row-found}
use phyllonix.Products.Pages.Slices.{
  drop, take-drop, length-drop, take-take, take_whole, more_than, select_where-narrow,
  select_where-All,
}
use phyllonix.Products.Pages.Sorting.{
  After, DistinctIds, IsListed, order_by-IsListed, select_where-IsListed, select_where-order_by,
}

module _ (limit : ℕ) (xs : List ProductRow) where
  load_page-last :
      length xs ≤ limit
      → load_page limit (take (suc limit) xs)
        ≡ record { items = xs; next_cursor = none; has_more = false }
  unfolding load_page
  load_page-last h = ground (arith, take-take limit xs, take_whole limit xs h, more_than limit xs)

  load_page-more :
      (a : ProductRow)
      → limit < length xs
      → last_row (take limit xs) ≡ some a
      → load_page limit (take (suc limit) xs)
        ≡ record { items = take limit xs; next_cursor = some (position a); has_more = true }
  unfolding load_page
  load_page-more a h e = ground (arith, take-take limit xs, more_than limit xs)

-- The rows that a client at this position has not seen, in the listing's order.
abbrev pub unseen : List ProductRow → Option Position → List ProductRow
unseen table c = select_where (in_window c) (order_by table)

in_window_trans :
    (c : Option Position) (a x : ProductRow)
    → in_window c a ≡ true
    → After a x
    → in_window c x ≡ true
unfolding keyset_filter
in_window_trans none a x h k = refl
in_window_trans (some c) a x h k = ground arith

module _ (table : List ProductRow) (limit : ℕ) (distinct : DistinctIds table) where
  fetch_prods-unseen :
      (c : Option Position) → fetch_prods table c limit ≡ take (suc limit) (unseen table c)
  unfolding fetch_prods
  fetch_prods-unseen c = ap (take (suc limit)) (select_where-order_by (in_window c) table distinct)

  -- The last page: what is left, and no next cursor.
  loader-last :
      (c : Option Position)
      → length (unseen table c) ≤ limit
      → loader table limit c
        ≡ record { items = unseen table c; next_cursor = none; has_more = false }
  unfolding loader
  loader-last c h = rw (fetch_prods-unseen c) (load_page-last limit (unseen table c) h)

  -- A page before the last: the first `limit` rows that are left, and the last of them as cursor.
  loader-more :
      (c : Option Position) (a : ProductRow)
      → limit < length (unseen table c)
      → last_row (take limit (unseen table c)) ≡ some a
      → loader table limit c ≡ record {
        items = take limit (unseen table c);
        next_cursor = some (position a);
        has_more = true;
      }
  unfolding loader
  loader-more c a h e = rw (fetch_prods-unseen c) (load_page-more limit (unseen table c) a h e)

  -- After that page, the unseen rows are the others.
  unseen-next :
      (c : Option Position) (a : ProductRow)
      → last_row (take limit (unseen table c)) ≡ some a
      → unseen table (some (position a)) ≡ drop limit (unseen table c)
  unseen-next c a e =
      sym (
        select_where-narrow (in_window c) (keyset_filter (position a)) (order_by table)
          (λ x. in_window_trans c a x here))
      ∙ select_where-last limit (unseen table c) a
          (select_where-IsListed (in_window c) (order_by table) (order_by-IsListed table distinct))
          e
    where
      here : in_window c a ≡ true
      here =
          All-last_row (λ x. in_window c x ≡ true) (take limit (unseen table c)) a
            (All-take (λ x. in_window c x ≡ true) limit (unseen table c)
              (select_where-All (in_window c) (order_by table)))
            e

  browse-unseen :
      (fuel : ℕ) (c : Option Position)
      → 1 ≤ limit
      → length (unseen table c) < fuel
      → browse fuel table limit c ≡ some (unseen table c)
  unfolding browse
  browse-unseen zero c h k = absurd (omega arith)
  browse-unseen (suc fuel) c h k = elim (Bool-cases (ltb limit (length (unseen table c)))) [
    | inl more ↦
        let (a, e) = last_row-found limit (unseen table c) h (ground arith) in
        let others = unseen-next c a e in
        let count = length-drop limit (unseen table c) (ground arith) in
        rw (
          browse,
          loader-more c a (ground arith) e,
          browse-unseen fuel (some (position a)) h (rw others (omega arith)),
          others,
          loader-more c a (ground arith) e,
          take-drop limit (unseen table c),
        )
    | inr last ↦ rw (browse, loader-last c (ground arith), loader-last c (ground arith))
  ]

insert-Perm : (x : ProductRow) (xs : List ProductRow) → Perm (insert x xs) (x ∷ xs)
insert-Perm x [] = Perm.rfl
insert-Perm x (y ∷ ys) = elim (Bool-cases (keyset_filter (position x) y)) [
  | inl t ↦ rw t Perm.rfl
  | inr f ↦ rw f (Perm.trans (Perm.cons y (insert-Perm x ys)) (Perm.swap x y ys))
]

order_by-Perm : (xs : List ProductRow) → Perm (order_by xs) xs
order_by-Perm [] = Perm.rfl
order_by-Perm (x ∷ xs) = Perm.trans (insert-Perm x (order_by xs)) (Perm.cons x (order_by-Perm xs))

length-insert : (x : ProductRow) (xs : List ProductRow) → length (insert x xs) ≡ suc (length xs)
length-insert x [] = refl
length-insert x (y ∷ ys) = ground (arith, length-insert x ys)

length-order_by : (xs : List ProductRow) → length (order_by xs) ≡ length xs
length-order_by [] = refl
length-order_by (x ∷ xs) = length-insert x (order_by xs) ∙ ap suc (length-order_by xs)

unseen_all : (table : List ProductRow) → unseen table none ≡ order_by table
unseen_all table = every (order_by table)
  where
    every : (xs : List ProductRow) → select_where (in_window none) xs ≡ xs
    every [] = refl
    every (x ∷ xs) = ap (◌∷◌ x) (every xs)

-- The pages from the first to the last, in order, are a sorted rearrangement of the table.
pub browse_lem :
    (table : List ProductRow) (limit fuel : ℕ)
    → DistinctIds table
    → 1 ≤ limit
    → length table < fuel
    → (rows : List ProductRow) × (browse fuel table limit none ≡ some rows)
      × IsListed rows
      × Perm rows table
browse_lem table limit fuel distinct h k = (
  order_by table,
  rw (← unseen_all table) (
      browse-unseen table limit distinct fuel none h
        (rw (unseen_all table, length-order_by table) k)),
  order_by-IsListed table distinct,
  order_by-Perm table,
)

-- For every cursor and every limit of at least one, in a table with distinct ids: a page holds the
-- first `limit` of the rows after the cursor, has_more tells whether there is a next cursor, and the
-- page and the rows after its next cursor make up the rows after the cursor it was asked with.
pub loader_lem :
    (table : List ProductRow) (limit : ℕ) (c : Option Position)
    → DistinctIds table
    → 1 ≤ limit
    → let page = loader table limit c in
      (page.items ≡ take limit (unseen table c))
      × (page.has_more ≡ is_some page.next_cursor)
      × (unseen table c
          ≡ page.items ++ (if page.has_more then unseen table page.next_cursor else []))
loader_lem table limit c distinct h = elim (Bool-cases (ltb limit (length (unseen table c)))) [
  | inl more ↦
      let (a, e) = last_row-found limit (unseen table c) h (ground arith) in
      rw
        (
          loader-more table limit distinct c a (ground arith) e,
          unseen-next table limit distinct c a e,
        )
        (refl, refl, sym (take-drop limit (unseen table c)))
  | inr last ↦ rw (loader-last table limit distinct c (ground arith)) (
    sym (take_whole limit (unseen table c) (ground arith)),
    refl,
    sym (append-nil (unseen table c)),
  )
]
