-- ===== src/Products/Admin.antt =====
-- create_product and update_product of products/routes.py with create_product_with_catgs of
-- products/services.py, the repository functions they call and require_permissions of
-- products/dependency.py. Names are texts; the optional description, sku and specs are left out.
pub mod Created
pub mod Updated
use phyllonix.Base.{
  ltb, leb, ℕ, suc, ◌+◌, Bool, true, false, ◌&&◌, ◌||◌, not, Option, none, some, List, [], ◌∷◌,
  ◌++◌, ◌==◌, if◌then◌else◌, length, find_where, update_where, select_where, is_some, map, Action,
  ok, http, crash, gets, modify, raise, raise_if, or_raise, pure, commit, ◌>>=◌, ◌>>◌,
}
use phyllonix.Accounts.Passwords.{lstrip, strip_end}
use phyllonix.Accounts.Roles.{member}
use phyllonix.Products.Cursor.{same_text}
use phyllonix.Products.Cursor.Base64.{Text}

pub record CatalogueProduct : Type 0 where
  pub id : ℕ
  pub public_id : ℕ
  pub name : Text
  pub base_price : ℕ
  pub stock_qty : ℕ
  pub owner_id : Option ℕ
  pub deleted_at : Option ℕ

pub record ProductCategory : Type 0 where
  pub id : ℕ
  pub name : Text

pub record ProductCategoryLink : Type 0 where
  pub product_id : ℕ
  pub prod_category_id : ℕ

pub record RolePermission : Type 0 where
  pub role_id : ℕ
  pub permission_id : ℕ

pub record Permission : Type 0 where
  pub id : ℕ
  pub name : ℕ

-- next_id is the sequence of the products' ids, next_pid the source of their public ids.
pub record Catalogue : Type 0 where
  pub products : List CatalogueProduct
  pub categories : List ProductCategory
  pub links : List ProductCategoryLink
  pub role_permissions : List RolePermission
  pub permissions : List Permission
  pub next_id : ℕ
  pub next_pid : ℕ

pub record ProductCreateIn : Type 0 where
  pub name : Text
  pub base_price : ℕ
  pub stock_qty : ℕ
  pub sku : Option Text
  pub category_names : List Text

-- max_length=255
abbrev pub is_short_name : Text → Bool
is_short_name name = leb (length name) 255

-- An Integer column has 32 bits.
abbrev pub fits_integer : ℕ → Bool
fits_integer n = ltb n 2147483648

-- A String(128) column that may be null.
abbrev pub fits_sku : Option Text → Bool
fits_sku none = true
fits_sku (some sku) = leb (length sku) 128

abbrev pub fits_product : ProductCreateIn → Bool
fits_product payload =
    fits_integer payload.base_price && (fits_integer payload.stock_qty && fits_sku payload.sku)

-- The join of role permissions with the permission of this name.
abbrev pub permits : ℕ → List ℕ → List Permission → RolePermission → Bool
permits perm roles ps r =
    is_some (find_where (λ (p : Permission). p.id == r.permission_id && p.name == perm) ps)
    && member r.role_id roles

unfoldable pub require_permissions : ℕ → List ℕ → Action Catalogue (Unit {0})
require_permissions perm user_roles = do
  found ← gets (λ d. find_where (permits perm user_roles d.permissions) d.role_permissions)
  raise_if (not (is_some found)) (http 401)

abbrev pub has_text : Text → List Text → Bool
has_text x [] = false
has_text x (y ∷ ys) = same_text x y || has_text x ys

-- `{name.strip() for name in cat_names}`
abbrev pub stripped : (ℕ → Bool) → List Text → List Text
stripped isspace [] = []
stripped isspace (n ∷ ns) =
    let name = strip_end isspace (lstrip isspace n) in
    let rest = stripped isspace ns in if has_text name rest then rest else name ∷ rest

abbrev pub named_in : List Text → ProductCategory → Bool
named_in names c = has_text c.name names

abbrev pub link_of : ℕ → ProductCategory → ProductCategoryLink
link_of product_id c = record { product_id = product_id; prod_category_id = c.id }

abbrev pub is_link : ProductCategoryLink → ProductCategoryLink → Bool
is_link l k = l.product_id == k.product_id && l.prod_category_id == k.prod_category_id

-- INSERT … ON CONFLICT DO NOTHING, row by row
abbrev pub insert_links :
    List ProductCategoryLink → List ProductCategoryLink → List ProductCategoryLink
insert_links [] links = links
insert_links (l ∷ ls) links =
    insert_links ls (if is_some (find_where (is_link l) links) then links else links ++ l ∷ [])

abbrev pub link_found : ℕ → List Text → List ProductCategory → Action Catalogue (Unit {0})
link_found product_id cat_names cats =
    raise_if (not (length cats == length cat_names)) (http 409)
    >> modify (λ d. record d { links = insert_links (map (link_of product_id) cats) d.links })

unfoldable pub add_product_categories : (ℕ → Bool) → ℕ → List Text → Action Catalogue (Unit {0})
add_product_categories isspace product_id cat_names =
    gets (λ d. select_where (named_in (stripped isspace cat_names)) d.categories)
    >>= link_found product_id (stripped isspace cat_names)

abbrev pub new_product : ProductCreateIn → ℕ → Catalogue → CatalogueProduct
new_product payload user_id d = record {
  id = d.next_id;
  public_id = d.next_pid;
  name = payload.name;
  base_price = payload.base_price;
  stock_qty = payload.stock_qty;
  owner_id = some user_id;
  deleted_at = none;
}

-- The row, unless the name is taken.
abbrev pub insert_row : ProductCreateIn → ℕ → Action Catalogue (Option CatalogueProduct)
insert_row payload user_id s =
    let p = new_product payload user_id s.work in
    if is_some
      (find_where (λ (q : CatalogueProduct). same_text q.name payload.name) s.work.products)
    then (ok none, s)
    else (
      ok (some p),
      record s {
        work = record s.work {
          products = s.work.products ++ p ∷ [];
          next_id = suc s.work.next_id;
          next_pid = suc s.work.next_pid;
        };
      },
    )

-- A value that a column refuses is an error of the statement.
unfoldable pub insert_product : ProductCreateIn → ℕ → Action Catalogue (Option CatalogueProduct)
insert_product payload user_id =
    raise_if (not (fits_product payload)) crash >> insert_row payload user_id

abbrev pub categorised :
    (ℕ → Bool) → List Text → CatalogueProduct → Action Catalogue CatalogueProduct
categorised isspace [] p = pure p
categorised isspace (n ∷ ns) p = add_product_categories isspace p.id (n ∷ ns) >> pure p

abbrev pub with_categories :
    (ℕ → Bool) → List Text → Option CatalogueProduct → Action Catalogue CatalogueProduct
with_categories isspace names row = or_raise row (http 409) >>= categorised isspace names

unfoldable pub create_product_with_catgs :
    (ℕ → Bool) → ProductCreateIn → ℕ → Action Catalogue CatalogueProduct
unfolding insert_product add_product_categories
create_product_with_catgs isspace payload user_id =
    insert_product payload user_id >>= with_categories isspace payload.category_names

abbrev pub product_create : ℕ
product_create = 0

abbrev pub committed_product : CatalogueProduct → Action Catalogue CatalogueProduct
committed_product p = commit >> pure p

unfoldable pub create_product :
    (ℕ → Bool) → List ℕ → ℕ → ProductCreateIn → Action Catalogue CatalogueProduct
unfolding require_permissions create_product_with_catgs
create_product isspace user_roles user_id payload =
    require_permissions product_create user_roles
    >> raise_if (not (is_short_name payload.name)) (http 422)
    >> (create_product_with_catgs isspace payload user_id >>= committed_product)

-- A field of a request that was not sent, sent as null, or sent with a value.
pub data Sent (A : Type 0) : Type 0 where
  unset null : Sent A
  value : A → Sent A

pub record ProductUpdateIn : Type 0 where
  pub name : Sent Text
  pub base_price : Sent ℕ
  pub stock_qty : Sent ℕ
  pub sku : Sent Text
  pub category_names : List Text

abbrev pub is_short_sent : Sent Text → Bool
is_short_sent (value name) = is_short_name name
is_short_sent unset = true
is_short_sent null = true

-- What a column that is not null takes.
abbrev pub takes : {A : Type 0} → (A → Bool) → Sent A → Bool
takes fits unset = true
takes fits null = false
takes fits (value a) = fits a

abbrev pub takes_sku : Sent Text → Bool
takes_sku unset = true
takes_sku null = true
takes_sku (value sku) = leb (length sku) 128

abbrev pub fits_updates : ProductUpdateIn → Bool
fits_updates updates =
    takes (λ n. true) updates.name
    && (takes fits_integer updates.base_price
        && (takes fits_integer updates.stock_qty && takes_sku updates.sku))

abbrev pub has_named : List ProductCategory → Text → Bool
has_named cats name = is_some (find_where (λ (c : ProductCategory). same_text c.name name) cats)

abbrev pub every_named : List ProductCategory → List Text → Bool
every_named cats [] = true
every_named cats (n ∷ ns) = has_named cats n && every_named cats ns

-- `missing` is empty; with no names there is nothing to ask
unfoldable pub validate_categories_by_names : (ℕ → Bool) → List Text → Action Catalogue (Unit {0})
validate_categories_by_names isspace category_names = do
  cats ← gets (λ d. d.categories)
  raise_if (not (every_named cats (stripped isspace category_names))) (http 422)

abbrev pub is_present : ℕ → CatalogueProduct → Bool
is_present product_pid p = p.public_id == product_pid && not (is_some p.deleted_at)

unfoldable pub find_product_by_pid : ℕ → Action Catalogue CatalogueProduct
find_product_by_pid product_pid = do
  found ← gets (λ d. find_where (is_present product_pid) d.products)
  or_raise found (http 404)

abbrev pub is_owner : Option ℕ → ℕ → Bool
is_owner none user_id = false
is_owner (some o) user_id = o == user_id

abbrev pub is_patched : ℕ → ℕ → CatalogueProduct → Bool
is_patched product_id user_id p =
    p.id == product_id && (is_owner p.owner_id user_id && not (is_some p.deleted_at))

abbrev pub or_kept : {A : Type 0} → Sent A → A → A
or_kept unset a = a
or_kept null a = a
or_kept (value b) a = b

-- The fields that were set, none of which is null.
abbrev pub patched : ProductUpdateIn → CatalogueProduct → CatalogueProduct
patched updates p = record p {
  name = or_kept updates.name p.name;
  base_price = or_kept updates.base_price p.base_price;
  stock_qty = or_kept updates.stock_qty p.stock_qty;
}

-- The name is another product's: the IntegrityError is not caught.
abbrev pub clashes : ProductUpdateIn → ℕ → List CatalogueProduct → Bool
clashes updates product_id ps = elim updates.name [
  | unset ↦ false
  | null ↦ false
  | value name ↦
      is_some (
        find_where (λ (q : CatalogueProduct). same_text q.name name && not (q.id == product_id)) ps)
]

unfoldable pub patch_product : ProductUpdateIn → ℕ → ℕ → Action Catalogue CatalogueProduct
patch_product updates user_id product_id = do
  target ← gets (λ d. find_where (is_patched product_id user_id) d.products)
  p ← or_raise target (http 404)
  raise_if (not (fits_updates updates)) crash
  clash ← gets (λ d. clashes updates product_id d.products)
  raise_if clash crash
  modify (λ d. record d {
    products = update_where (is_patched product_id user_id) (patched updates) d.products;
  })
  pure p

abbrev pub product_update : ℕ
product_update = 1

unfoldable pub update_product :
    (ℕ → Bool) → List ℕ → ℕ → ℕ → ProductUpdateIn → Action Catalogue (Unit {0})
unfolding require_permissions validate_categories_by_names find_product_by_pid patch_product
update_product isspace user_roles user_id product_public_id payload = do
  require_permissions product_update user_roles
  raise_if (not (is_short_sent payload.name)) (http 422)
  validate_categories_by_names isspace payload.category_names
  product ← find_product_by_pid product_public_id
  raise_if (not (is_owner product.owner_id user_id)) (http 403)
  _ ← patch_product payload user_id product.id
  commit
