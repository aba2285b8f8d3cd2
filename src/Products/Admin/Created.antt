-- ===== src/Products/Admin/Created.antt =====
-- When a product is created, and what is then in the tables.
use mathlib.Core.List.{append_assoc, append-nil}
use phyllonix.Base.{
  ℕ, suc, ◌<◌, ◌≡◌, ◌≢◌, ◌⊎◌, inl, inr, refl, sym, ap, ◌∙◌, Bool, true, false, ◌&&◌, not, none,
  List, [], ◌∷◌, ◌++◌, ◌==◌, length, find_where, find_where-append, select_where, is_some, map, All,
  Error, ok, err, http, crash, in_session, arith, Bool-cases,
}
use phyllonix.Products.Cursor.{same_text}
use phyllonix.Products.Cursor.Base64.{Text}
use phyllonix.Products.Admin.{
  CatalogueProduct, ProductCategory, ProductCategoryLink, Catalogue, ProductCreateIn, permits,
  require_permissions, stripped, named_in, link_of, is_link, insert_links, add_product_categories,
  new_product, is_short_name, fits_product, insert_product, product_create, create_product,
}

abbrev is_permitted : List ℕ → Catalogue → Bool
is_permitted roles d =
    is_some (find_where (permits product_create roles d.permissions) d.role_permissions)

abbrev is_taken : Text → Catalogue → Bool
is_taken name d = is_some (find_where (λ (q : CatalogueProduct). same_text q.name name) d.products)

abbrev pub requested : (ℕ → Bool) → List Text → Catalogue → List ProductCategory
requested isspace [] d = []
requested isspace (n ∷ ns) d = select_where (named_in (stripped isspace (n ∷ ns))) d.categories

abbrev all_exist : (ℕ → Bool) → List Text → Catalogue → Bool
all_exist isspace [] d = true
all_exist isspace (n ∷ ns) d =
    length (requested isspace (n ∷ ns) d) == length (stripped isspace (n ∷ ns))

-- The caller may create products, the columns take the values, the name is free, and every
-- category named exists.
abbrev pub is_creatable : (ℕ → Bool) → List ℕ → ProductCreateIn → Catalogue → Bool
is_creatable isspace roles payload d =
    is_permitted roles d
    && (is_short_name payload.name
        && (fits_product payload
            && (not (is_taken payload.name d) && all_exist isspace payload.category_names d)))

create_product-cases :
    (isspace : ℕ → Bool) (roles : List ℕ) (user : ℕ) (payload : ProductCreateIn) (d : Catalogue)
    → ((e : Error) × (in_session (create_product isspace roles user payload) d ≡ (err e, d))
        × (is_creatable isspace roles payload d ≡ false))
      ⊎ ((is_creatable isspace roles payload d ≡ true)
          × (in_session (create_product isspace roles user payload) d ≡ (
            ok (new_product payload user d),
            record d {
              products = d.products ++ new_product payload user d ∷ [];
              links =
                  insert_links
                    (map (link_of d.next_id) (requested isspace payload.category_names d))
                    d.links;
              next_id = suc d.next_id;
              next_pid = suc d.next_pid;
            },
          )))
unfolding create_product require_permissions insert_product add_product_categories
create_product-cases isspace roles user payload d = elim (Bool-cases (is_permitted roles d)) [
  | inr denied ↦ inl (http 401, ground (arith, denied), ground (arith, denied))
  | inl may ↦ elim (Bool-cases (is_short_name payload.name)) [
    | inr long ↦ inl (http 422, ground (arith, may, long), ground (arith, long))
    | inl short ↦ elim (Bool-cases (fits_product payload)) [
      | inr over ↦ inl (crash, ground (arith, may, short, over), ground (arith, over))
      | inl fits ↦ elim (Bool-cases (is_taken payload.name d)) [
        | inl taken ↦ inl (http 409, ground (arith, may, short, fits, taken), ground (arith, taken))
        | inr new ↦ elim (Bool-cases (all_exist isspace payload.category_names d)) [
          | inr missing ↦
              inl
                (http 409, ground (arith, may, short, fits, new, missing), ground (arith, missing))
          | inl exist ↦ inr (
            ground (arith, may, short, fits, new, exist),
            ground (arith, may, short, fits, new, exist),
          )
        ]
      ]
    ]
  ]
]

-- The primary key of the categories.
abbrev pub DistinctCategories : List ProductCategory → Type 0
DistinctCategories [] = Unit
DistinctCategories (c ∷ cs) = All (λ (x : ProductCategory). c.id ≢ x.id) cs × DistinctCategories cs

All-select :
    (P : ProductCategory → Type 0) (p : ProductCategory → Bool) (cs : List ProductCategory)
    → All P cs
    → All P (select_where p cs)
All-select P p [] h = tt
All-select P p (c ∷ cs) h = elim (Bool-cases (p c)) [
  | inl t ↦ rw t (h.0, All-select P p cs h.1)
  | inr f ↦ rw f (All-select P p cs h.1)
]

DistinctCategories-select :
    (p : ProductCategory → Bool) (cs : List ProductCategory)
    → DistinctCategories cs
    → DistinctCategories (select_where p cs)
DistinctCategories-select p [] h = tt
DistinctCategories-select p (c ∷ cs) h = elim (Bool-cases (p c)) [
  | inl t ↦ rw t (All-select (λ x. c.id ≢ x.id) p cs h.0, DistinctCategories-select p cs h.1)
  | inr f ↦ rw f (DistinctCategories-select p cs h.1)
]

-- Not among the links yet.
abbrev IsNewLink : List ProductCategoryLink → ℕ → ProductCategory → Type 0
IsNewLink links id c = find_where (is_link (link_of id c)) links ≡ none

unlinked :
    (id : ℕ) (links : List ProductCategoryLink) (c : ProductCategory)
    → All (λ (l : ProductCategoryLink). l.product_id < id) links
    → IsNewLink links id c
unlinked id [] c h = refl
unlinked id (l ∷ ls) c h = ground (arith, unlinked id ls c h.1, h.0)

IsNewLink-All :
    (id : ℕ) (links : List ProductCategoryLink) (cs : List ProductCategory)
    → All (λ (l : ProductCategoryLink). l.product_id < id) links
    → All (IsNewLink links id) cs
IsNewLink-All id links [] h = tt
IsNewLink-All id links (c ∷ cs) h = (unlinked id links c h, IsNewLink-All id links cs h)

IsNewLink-append :
    (id : ℕ) (links : List ProductCategoryLink) (c : ProductCategory) (cs : List ProductCategory)
    → All (λ (x : ProductCategory). c.id ≢ x.id) cs
    → All (IsNewLink links id) cs
    → All (IsNewLink (links ++ link_of id c ∷ []) id) cs
IsNewLink-append id links c [] h k = tt
IsNewLink-append id links c (x ∷ xs) h k = (
  find_where-append (is_link (link_of id x)) links (link_of id c ∷ []) k.0 ∙ ground (arith, h.0),
  IsNewLink-append id links c xs h.1 k.1,
)

insert_links-new :
    (id : ℕ) (cs : List ProductCategory) (links : List ProductCategoryLink)
    → DistinctCategories cs
    → All (IsNewLink links id) cs
    → insert_links (map (link_of id) cs) links ≡ links ++ map (link_of id) cs
insert_links-new id [] links d h = sym (append-nil links)
insert_links-new id (c ∷ cs) links d h =
    rw (insert_links, h.0)
      (insert_links-new id cs (links ++ link_of id c ∷ []) d.1
          (IsNewLink-append id links c cs d.0 h.1)
        ∙ append_assoc links (link_of id c ∷ []) (map (link_of id) cs))

requested-Distinct :
    (isspace : ℕ → Bool) (names : List Text) (d : Catalogue)
    → DistinctCategories d.categories
    → DistinctCategories (requested isspace names d)
requested-Distinct isspace [] d h = tt
requested-Distinct isspace (n ∷ ns) d h =
    DistinctCategories-select (named_in (stripped isspace (n ∷ ns))) d.categories h

-- Where no link is to a product still to come and the ids of the categories are distinct: a
-- request to create a product, whose texts are without the character 0, succeeds exactly when the
-- caller may create products, the name has at most 255 characters, the sku, if any, at most 128,
-- the price and the stock are below 2 ^ 31, no product has the name, and every category it names
-- exists. Then the product, with the caller as its owner, and one link to each of these
-- categories are added, and nothing else; otherwise it ends in an error, and no table changes.
pub create_product_lem :
    (isspace : ℕ → Bool) (roles : List ℕ) (user : ℕ) (payload : ProductCreateIn) (d : Catalogue)
    → All (λ (l : ProductCategoryLink). l.product_id < d.next_id) d.links
    → DistinctCategories d.categories
    → let out = in_session (create_product isspace roles user payload) d in
      ((e : Error) × (out ≡ (err e, d)) × (is_creatable isspace roles payload d ≡ false))
      ⊎ ((is_creatable isspace roles payload d ≡ true)
          × (out ≡ (
            ok (new_product payload user d),
            record d {
              products = d.products ++ new_product payload user d ∷ [];
              links =
                  d.links ++ map (link_of d.next_id) (requested isspace payload.category_names d);
              next_id = suc d.next_id;
              next_pid = suc d.next_pid;
            },
          )))
create_product_lem isspace roles user payload d coming distinct =
    let cats = requested isspace payload.category_names d in
    elim (create_product-cases isspace roles user payload d) [
      | inl failed ↦ inl failed
      | inr (right, done) ↦ inr (
        right,
        done
            ∙ ap
                (λ links. (
                  ok (new_product payload user d),
                  record d {
                    products = d.products ++ new_product payload user d ∷ [];
                    links = links;
                    next_id = suc d.next_id;
                    next_pid = suc d.next_pid;
                  },
                ))
                (insert_links-new d.next_id cats d.links
                  (requested-Distinct isspace payload.category_names d distinct)
                  (IsNewLink-All d.next_id d.links cats coming)),
      )
    ]
