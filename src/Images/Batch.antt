-- ===== src/Images/Batch.antt =====
-- ImageUpload of image_uploads/services.py and init_images_upload_batch of image_uploads/routes.py.
-- uuid7, the HMAC of a public id, Cloudinary's api_sign_request and what constructing pydantic's
-- ValidationError raises are parameters. A text is the list of its code points.
use phyllonix.Base.{
  ℕ, suc, Bool, true, false, ◌&&◌, not, Option, none, some, List, [], ◌∷◌, ◌++◌, length, ltb, leb,
  ◌==◌, if◌then◌else◌, find_where, update_where, is_some, Action, crash, http, gets, modify, raise,
  raise_if, or_raise, pure, commit, ◌>>=◌, ◌>>◌,
}
use phyllonix.Orders.LockKey.{ℤ, pos, negsuc}
use phyllonix.Products.Admin.{CatalogueProduct, is_present, is_owner}

pub data ContentType : Type 0 where
  jpeg : ContentType
  png : ContentType
  webp : ContentType
  jpg : ContentType
  other_type : ContentType

pub record InitImageItem : Type 0 where
  pub filename : List ℕ
  pub content_type : ContentType
  pub filesize : ℤ
  pub sort_order : Option ℤ

-- The public id and the suffix that storage_key and Cloudinary's public_id join.
pub record StorageName : Type 0 where
  pub image_public_id : ℕ
  pub suffix : ℕ

pub record IntendedImage : Type 0 where
  pub id : ℕ
  pub product_id : ℕ
  pub public_id : ℕ
  pub item : InitImageItem
  pub storage_key : Option StorageName

pub record UploadsDb : Type 0 where
  pub products : List CatalogueProduct
  pub images : List IntendedImage
  pub next_id : ℕ

-- The message of the ValidationError.
pub data Problem : Type 0 where
  no_filename : Problem
  not_positive : Problem
  type_not_allowed : Problem
  too_large : Problem

pub record UploadParams : Type 0 where
  pub timestamp : ℕ
  pub signature : ℕ
  pub public_id : StorageName

pub record Opened : Type 0 where
  pub image_public_id : ℕ
  pub filename : List ℕ
  pub upload_params : UploadParams

pub record Reported : Type 0 where
  pub filename : List ℕ
  pub detail : Problem

pub record Report : Type 0 where
  pub items : List Opened
  pub errors : List Reported

-- uuid7's answer for the row drawn, the HMAC's first 24 digits, api_sign_request on the name and the
-- time, and whether constructing ValidationError with a message gives a ValidationError.
pub record Outside : Type 0 where
  pub uuid7 : ℕ → ℕ
  pub hmac : ℕ → ℕ
  pub api_sign_request : StorageName → ℕ → ℕ
  pub constructs : Problem → Bool

abbrev pub max_upload_bytes : ℕ
max_upload_bytes = 5242880

abbrev pub is_allowed : ContentType → Bool
is_allowed jpeg = true
is_allowed png = true
is_allowed webp = true
is_allowed jpg = true
is_allowed other_type = false

abbrev pub is_positive : ℤ → Bool
is_positive (pos n) = ltb 0 n
is_positive (negsuc n) = false

abbrev pub is_over : ℤ → Bool
is_over (pos n) = ltb max_upload_bytes n
is_over (negsuc n) = false

abbrev pub is_empty : List ℕ → Bool
is_empty [] = true
is_empty (c ∷ cs) = false

-- _validate_file: the first test that fails.
unfoldable pub validate_file : InitImageItem → Option Problem
validate_file img =
    if is_empty img.filename
    then some no_filename
    else if not (is_positive img.filesize)
    then some not_positive
    else if not (is_allowed img.content_type)
    then some type_not_allowed
    else if is_over img.filesize
    then some too_large
    else none

-- sort_order is a NOT NULL int4, orig_filename has at most 255 characters.
abbrev pub fits_int4 : Option ℤ → Bool
fits_int4 none = false
fits_int4 (some (pos n)) = ltb n 2147483648
fits_int4 (some (negsuc n)) = ltb n 2147483648

abbrev pub fits_row : InitImageItem → Bool
fits_row img = fits_int4 img.sort_order && leb (length img.filename) 255

abbrev pub intended : Outside → ℕ → ℕ → InitImageItem → IntendedImage
intended o id product_id img = record {
  id = id;
  product_id = product_id;
  public_id = o.uuid7 id;
  item = img;
  storage_key = none;
}

-- The insert, or what the database raises when a column refuses its value.
unfoldable pub create_product_image_intent :
    Outside → InitImageItem → ℕ → Action UploadsDb IntendedImage
create_product_image_intent o img product_id = do
  raise_if (not (fits_row img)) crash
  id ← gets (λ d. d.next_id)
  modify
      (λ d. record d { images = d.images ++ intended o id product_id img ∷ []; next_id = suc id })
  pure (intended o id product_id img)

abbrev pub build_unq_img_key : Outside → ℕ → ℕ
build_unq_img_key o prod_image_public_id = o.hmac prod_image_public_id

abbrev pub has_image_id : ℕ → IntendedImage → Bool
has_image_id id i = i.id == id

abbrev pub keyed : StorageName → IntendedImage → IntendedImage
keyed name i = record i { storage_key = some name }

unfoldable pub update_prod_image_storage_key : ℕ → StorageName → Action UploadsDb (Unit {0})
update_prod_image_storage_key id name = do
  modify (λ d. record d { images = update_where (has_image_id id) (keyed name) d.images })
  updated ← gets (λ d. is_some (find_where (has_image_id id) d.images))
  raise_if (not updated) crash

abbrev pub build_cloudinary_upload_params : Outside → ℕ → StorageName → UploadParams
build_cloudinary_upload_params o now name = record {
  timestamp = now;
  signature = o.api_sign_request name now;
  public_id = name;
}

abbrev pub storage_name : Outside → ℕ → StorageName
storage_name o public_id = record {
  image_public_id = public_id;
  suffix = build_unq_img_key o public_id;
}

abbrev pub upload_opened : Outside → ℕ → InitImageItem → ℕ → Opened
upload_opened o now img public_id = record {
  image_public_id = public_id;
  filename = img.filename;
  upload_params = build_cloudinary_upload_params o now (storage_name o public_id);
}

abbrev pub open_upload : Outside → ℕ → ℕ → InitImageItem → Action UploadsDb Opened
open_upload o now product_id img = do
  image ← create_product_image_intent o img product_id
  update_prod_image_storage_key image.id (storage_name o image.public_id)
  pure (upload_opened o now img image.public_id)

abbrev pub with_item : Opened → Report → Report
with_item i r = record r { items = i ∷ r.items }

abbrev pub with_error : Reported → Report → Report
with_error e r = record r { errors = e ∷ r.errors }

-- What the constructor raises is reported only if it is a ValidationError.
abbrev pub reported : Outside → InitImageItem → Problem → Action UploadsDb Reported
reported o img p =
    if o.constructs p then pure (record { filename = img.filename; detail = p }) else raise crash

-- One turn of the loop and, unless it raises, the rest.
abbrev pub init_image :
    Outside
    → ℕ
    → ℕ
    → InitImageItem
    → Action UploadsDb Report
    → Option Problem
    → Action UploadsDb Report
init_image o now product_id img others none = do
  item ← open_upload o now product_id img
  rest ← others
  pure (with_item item rest)
init_image o now product_id img others (some p) = do
  error ← reported o img p
  rest ← others
  pure (with_error error rest)

abbrev pub init_images : Outside → ℕ → ℕ → List InitImageItem → Action UploadsDb Report
init_images o now product_id [] = pure (record { items = []; errors = [] })
init_images o now product_id (img ∷ imgs) =
    init_image o now product_id img (init_images o now product_id imgs) (validate_file img)

abbrev pub committed_report : Report → Action UploadsDb Report
committed_report r = commit >> pure r

unfoldable pub init_images_upload_batch :
    Outside → ℕ → ℕ → ℕ → List InitImageItem → Action UploadsDb Report
init_images_upload_batch o now user_identifier product_public_id imgs = do
  found ← gets (λ d. find_where (is_present product_public_id) d.products)
  product ← or_raise found (http 404)
  raise_if (not (is_owner product.owner_id user_identifier)) (http 401)
  r ← init_images o now product.id imgs
  committed_report r
