-- ===== src/Tests/Admin.antt =====
-- The creation and the update of a product at concrete tables.
use phyllonix.Base.{
  ℕ, suc, ◌≡◌, ◌⊎◌, refl, Bool, true, false, some, none, [], ◌∷◌, ◌++◌, Error, ok, err, http, crash,
  in_session, ◌==◌, arith, map,
}
use phyllonix.Products.Cursor.{same_text}
use phyllonix.Products.Admin.{
  Catalogue, ProductCreateIn, ProductUpdateIn, unset, null, value, link_of, new_product,
  create_product, update_product,
}
use phyllonix.Products.Admin.Created.{requested, is_creatable, create_product_lem}

-- Role 2 may create and update products; user 5 owns tea (product 1).
abbrev catalogue : Catalogue
catalogue = record {
  products =
      record {
        id = 1;
        public_id = 10;
        name = 116 ∷ [];
        base_price = 100;
        stock_qty = 3;
        owner_id = some 5;
        deleted_at = none;
      }
      ∷ [];
  categories = record { id = 3; name = 99 ∷ [] } ∷ record { id = 4; name = 100 ∷ [] } ∷ [];
  links = record { product_id = 1; prod_category_id = 3 } ∷ [];
  role_permissions =
      record { role_id = 2; permission_id = 0 } ∷ record { role_id = 2; permission_id = 1 } ∷ [];
  permissions = record { id = 0; name = 0 } ∷ record { id = 1; name = 1 } ∷ [];
  next_id = 2;
  next_pid = 20;
}

abbrev isspace : ℕ → Bool
isspace c = c == 32

-- Coffee, with one category named twice, once with a blank.
abbrev coffee : ProductCreateIn
coffee = record {
  name = 107 ∷ [];
  base_price = 300;
  stock_qty = 8;
  sku = none;
  category_names = (100 ∷ []) ∷ (32 ∷ 100 ∷ []) ∷ [];
}

created_run :
    (in_session (create_product isspace (2 ∷ []) 5 coffee) catalogue).1.links
    ≡ record { product_id = 1; prod_category_id = 3 }
      ∷ record { product_id = 2; prod_category_id = 4 }
      ∷ []
unfolding create_product same_text
created_run = refl

create_product_lem_example :
    let out = in_session (create_product isspace (2 ∷ []) 5 coffee) catalogue in
    ((e : Error) × (out ≡ (err e, catalogue))
      × (is_creatable isspace (2 ∷ []) coffee catalogue ≡ false))
    ⊎ ((is_creatable isspace (2 ∷ []) coffee catalogue ≡ true)
        × (out ≡ (
          ok (new_product coffee 5 catalogue),
          record catalogue {
            products = catalogue.products ++ new_product coffee 5 catalogue ∷ [];
            links =
                catalogue.links
                ++ map
                    (link_of catalogue.next_id)
                    (requested isspace coffee.category_names catalogue);
            next_id = suc catalogue.next_id;
            next_pid = suc catalogue.next_pid;
          },
        )))
create_product_lem_example =
    create_product_lem isspace (2 ∷ []) 5 coffee catalogue (omega arith) (omega arith)

abbrev cheaper : ProductUpdateIn
cheaper = record {
  name = unset;
  base_price = value 90;
  stock_qty = unset;
  sku = null;
  category_names = (99 ∷ []) ∷ [];
}

-- A price that is sent as null reaches a column that refuses it.
null_price_run :
    (in_session
      (update_product isspace (2 ∷ []) 5 10 (record cheaper { base_price = null }))
      catalogue).0
    ≡ err crash
unfolding update_product same_text
null_price_run = refl

updated_run :
    (in_session (update_product isspace (2 ∷ []) 6 10 cheaper) catalogue).0 ≡ err (http 403)
unfolding update_product same_text
updated_run = refl
