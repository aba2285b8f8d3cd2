-- ===== src/Tests/Uploads.antt =====
-- Batches of uploads at concrete files.
use phyllonix.Base.{◌+◌, ◌≡◌, refl, Bool, true, false, some, none, [], ◌∷◌, err, crash, in_session}
use phyllonix.Orders.LockKey.{pos}
use phyllonix.Products.Admin.{CatalogueProduct}
use phyllonix.Images.Batch.{
  ContentType, jpeg, other_type, validate_file, create_product_image_intent,
  update_prod_image_storage_key, InitImageItem, UploadsDb, Outside, init_images_upload_batch,
}
use phyllonix.Images.BatchOutcome.{outcome, init_images_upload_batch_lem}

abbrev product : CatalogueProduct
product = record {
  id = 3;
  public_id = 30;
  name = [];
  base_price = 100;
  stock_qty = 2;
  owner_id = some 8;
  deleted_at = none;
}

abbrev uploads : UploadsDb
uploads = record { products = product ∷ []; images = []; next_id = 5 }

abbrev photo : ContentType → InitImageItem
photo content_type = record {
  filename = 97 ∷ 46 ∷ 106 ∷ [];
  content_type = content_type;
  filesize = pos 4096;
  sort_order = some (pos 1);
}

abbrev outside : (constructs : Bool) → Outside
outside constructs = record {
  uuid7 = λ id. id + 1000;
  hmac = λ public_id. public_id + 7;
  api_sign_request = λ name now. name.suffix + now;
  constructs = λ p. constructs;
}

-- pydantic's ValidationError has no constructor: it raises a TypeError.
type_error_run :
    in_session
      (init_images_upload_batch (outside false) 50 8 30 (photo jpeg ∷ photo other_type ∷ []))
      uploads
    ≡ (err crash, uploads)
unfolding init_images_upload_batch validate_file create_product_image_intent
    update_prod_image_storage_key
type_error_run = refl

no_order_run :
    in_session
      (init_images_upload_batch
        (outside false)
        50
        8
        30
        (record (photo jpeg) { sort_order = none } ∷ []))
      uploads
    ≡ (err crash, uploads)
unfolding init_images_upload_batch validate_file create_product_image_intent
no_order_run = refl

init_images_upload_batch_example :
    in_session
      (init_images_upload_batch (outside true) 50 8 30 (photo jpeg ∷ photo other_type ∷ []))
      uploads
    ≡ outcome (outside true) 50 8 (some product) (photo jpeg ∷ photo other_type ∷ []) uploads
init_images_upload_batch_example =
    init_images_upload_batch_lem (outside true) 50 8 30 (photo jpeg ∷ photo other_type ∷ []) uploads
      tt
