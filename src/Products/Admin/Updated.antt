-- ===== src/Products/Admin/Updated.antt =====
-- When a product is updated, and which rows change.
use phyllonix.Base.{ℕ, Bool, false, ◌&&◌, not, Option, none, some, List, find_where, is_some}
use phyllonix.Products.Admin.{
  CatalogueProduct, Catalogue, ProductUpdateIn, permits, stripped, every_named, is_present,
  is_owner, is_patched, is_short_sent, fits_updates, clashes, product_update,
}

abbrev is_permitted : List ℕ → Catalogue → Bool
is_permitted roles d =
    is_some (find_where (permits product_update roles d.permissions) d.role_permissions)

abbrev found_mine : ℕ → ProductUpdateIn → Catalogue → Option CatalogueProduct → Bool
found_mine user payload d none = false
found_mine user payload d (some p) =
    is_owner p.owner_id user
    && (is_some (find_where (is_patched p.id user) d.products)
        && (fits_updates payload && not (clashes payload p.id d.products)))

-- The caller may update products, the columns take the values, the categories named exist, the
-- product is there and the caller's, and no other product has the new name.
abbrev pub is_updatable : (ℕ → Bool) → List ℕ → ℕ → ℕ → ProductUpdateIn → Catalogue → Bool
is_updatable isspace roles user pid payload d =
    is_permitted roles d
    && (is_short_sent payload.name
        && (every_named d.categories (stripped isspace payload.category_names)
            && found_mine user payload d (find_where (is_present pid) d.products)))
