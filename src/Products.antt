-- ===== src/Products.antt =====
-- backend/products: the listing of the catalogue (fetch_prods and keyset_filter of repository.py,
-- the loader of get_products in routes.py) and the signed cursor of utils.py that ties its pages.
pub mod Pages
pub mod Cursor
pub mod Route
pub mod Admin
