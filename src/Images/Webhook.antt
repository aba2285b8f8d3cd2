-- ===== src/Images/Webhook.antt =====
-- validate_upload_signature of image_uploads/dependency.py, create_webhook_event,
-- get_image_by_cloud_pkey and update_prod_image_upload_status of image_uploads/repository.py, and
-- cloudinary_webhook of image_uploads/webhooks.py. The SHA-1 signature, json.loads and the LIKE
-- of the database are parameters. What a request enqueues is its result.
use phyllonix.Base.{
  ℕ, suc, ◌-◌, Bool, true, false, ◌&&◌, ◌||◌, not, Option, none, some, List, [], ◌∷◌, ◌++◌, ltb,
  ◌==◌, if◌then◌else◌, find_where, update_where, select_where, is_some, Action, Result, ok, err,
  http, crash, gets, modify, raise, or_raise, pure, commit, ◌>>=◌, ◌>>◌,
}
use phyllonix.Schema.{ImageUploadStatus}
use phyllonix.Images.Tables.{ProductImage, UploadId, asset, named, UploadEvent, ImageDb}

-- The timestamp header: its text, and what int() reads, if it reads a number.
pub record TimestampHeader : Type 0 where
  pub header : ℕ
  pub seconds : Option ℕ

pub record UploadRequest : Type 0 where
  pub body : ℕ
  pub signature : Option ℕ
  pub timestamp : Option TimestampHeader

-- `folder` is `images/<public id>` or something else.
pub data Folder : Type 0 where
  images_folder : ℕ → Folder
  other_folder : Folder

pub record UploadPayload : Type 0 where
  pub asset_id : Option ℕ
  pub display_name : Option ℕ
  pub version : Option ℕ
  pub folder : Folder

-- What the worker gets: the event's id and the image as it was read.
pub record UploadTask : Type 0 where
  pub event_id : ℕ
  pub product_image : ProductImage

abbrev pub is_stale : ℕ → ℕ → Bool
is_stale now_ts ts = ltb 7200 (now_ts - ts) || ltb 7200 (ts - now_ts)

abbrev pub fresh_timestamp : ℕ → TimestampHeader → Bool
fresh_timestamp now_ts h = elim h.seconds [ none ↦ false | some ts ↦ not (is_stale now_ts ts) ]

abbrev pub right_signature : (ℕ → ℕ → ℕ) → ℕ → ℕ → TimestampHeader → Result (Unit {0})
right_signature sha1 body sig h = if sig == sha1 body h.header then ok tt else err (http 403)

abbrev pub checked_headers :
    (ℕ → ℕ → ℕ) → ℕ → ℕ → Option ℕ → Option TimestampHeader → Result (Unit {0})
checked_headers sha1 now_ts body none ts = err (http 400)
checked_headers sha1 now_ts body (some sig) none = err (http 400)
checked_headers sha1 now_ts body (some sig) (some h) =
    if fresh_timestamp now_ts h then right_signature sha1 body sig h else err (http 400)

unfoldable pub validate_upload_signature : (ℕ → ℕ → ℕ) → ℕ → UploadRequest → Result (Unit {0})
validate_upload_signature sha1 now_ts r = checked_headers sha1 now_ts r.body r.signature r.timestamp

abbrev pub same_opt : Option ℕ → Option ℕ → Bool
same_opt none none = true
same_opt none (some b) = false
same_opt (some a) none = false
same_opt (some a) (some b) = a == b

abbrev pub same_upload : UploadId → UploadId → Bool
same_upload (asset a) (asset b) = a == b
same_upload (asset a) (named b c) = false
same_upload (named a b) (asset c) = false
same_upload (named a b) (named c d) = same_opt a c && same_opt b d

abbrev pub upload_id : UploadPayload → UploadId
upload_id p = elim p.asset_id [ none ↦ named p.display_name p.version | some a ↦ asset a ]

abbrev pub is_upload : UploadId → UploadEvent → Bool
is_upload pid e = same_upload e.provider_event_id pid

abbrev pub new_upload : UploadId → ImageDb → UploadEvent
new_upload pid d = record {
  id = d.next_id;
  provider_event_id = pid;
  processed_at = none;
  attempts = 0;
}

-- INSERT … ON CONFLICT DO NOTHING into these rows: the new row, or the one that is there
unfoldable pub insert_upload :
    UploadId → List UploadEvent → Option UploadEvent → Action ImageDb UploadEvent
insert_upload pid es (some e) s = pure e s
insert_upload pid es none s = (
  ok (new_upload pid s.work),
  record s {
    work = record s.work {
      providerwebhookevent = some (es ++ new_upload pid s.work ∷ []);
      next_id = suc s.work.next_id;
    };
  },
)

abbrev pub committed_event : UploadEvent → Action ImageDb UploadEvent
committed_event e = commit >> pure e

-- Without the table the statement raises a DatabaseError, which becomes a 500.
abbrev pub stored_upload : UploadId → Option (List UploadEvent) → Action ImageDb UploadEvent
stored_upload pid none = raise (http 500)
stored_upload pid (some es) =
    insert_upload pid es (find_where (is_upload pid) es) >>= committed_event

unfoldable pub create_webhook_event : UploadId → Action ImageDb UploadEvent
unfolding insert_upload
create_webhook_event pid = gets (λ d. d.providerwebhookevent) >>= stored_upload pid

-- scalar_one_or_none
abbrev pub at_most_one : List ProductImage → Action ImageDb (Option ProductImage)
at_most_one [] = pure none
at_most_one (i ∷ []) = pure (some i)
at_most_one (i ∷ j ∷ is) = raise crash

abbrev pub by_public_id : Folder → ImageDb → List ProductImage
by_public_id (images_folder pid) d =
    select_where (λ (i : ProductImage). i.public_id == pid) d.images
by_public_id other_folder d = []

abbrev pub by_storage_key : (ℕ → ℕ → Bool) → Option ℕ → ImageDb → List ProductImage
by_storage_key like none d = []
by_storage_key like (some public_id) d =
    select_where
      (λ (i : ProductImage). elim i.storage_key [ none ↦ false | some k ↦ like k public_id ])
      d.images

abbrev pub or_by_key :
    (ℕ → ℕ → Bool) → Option ℕ → Option ProductImage → Action ImageDb (Option ProductImage)
or_by_key like public_id (some i) = pure (some i)
or_by_key like public_id none = gets (by_storage_key like public_id) >>= at_most_one

unfoldable pub get_image_by_cloud_pkey :
    (ℕ → ℕ → Bool) → Option ℕ → Folder → Action ImageDb (Option ProductImage)
get_image_by_cloud_pkey like public_id folder =
    (gets (by_public_id folder) >>= at_most_one) >>= or_by_key like public_id

abbrev pub marked : ImageUploadStatus → ProductImage → ProductImage
marked status i = record i { status = status }

-- The UPDATE and its commit; the row may be gone.
unfoldable pub update_prod_image_upload_status : ProductImage → Action ImageDb Bool
update_prod_image_upload_status image =
    modify (λ d. record d {
      images =
          update_where (λ (i : ProductImage). i.id == image.id) (marked ImageUploadStatus.uploaded)
            d.images;
    })
    >> (commit
        >> gets (λ d. is_some (find_where (λ (i : ProductImage). i.id == image.id) d.images)))

-- The exception for a row that is gone is caught; either way the answer is 200.
abbrev pub enqueued : UploadEvent → ProductImage → Bool → Action ImageDb (Option UploadTask)
enqueued e image true = pure (some (record { event_id = e.id; product_image = image }))
enqueued e image false = pure none

abbrev pub with_image : UploadEvent → Option ProductImage → Action ImageDb (Option UploadTask)
with_image e none = pure none
with_image e (some image) = update_prod_image_upload_status image >>= enqueued e image

abbrev pub with_upload :
    (ℕ → ℕ → Bool) → UploadPayload → UploadEvent → Action ImageDb (Option UploadTask)
with_upload like p e =
    if is_some e.processed_at
    then pure none
    else get_image_by_cloud_pkey like p.display_name p.folder >>= with_image e

abbrev pub with_payload : (ℕ → ℕ → Bool) → UploadPayload → Action ImageDb (Option UploadTask)
with_payload like p = create_webhook_event (upload_id p) >>= with_upload like p

abbrev pub if_valid :
    Result (Unit {0}) → Action ImageDb (Option UploadTask) → Action ImageDb (Option UploadTask)
if_valid (ok t) k = k
if_valid (err e) k = raise e

unfoldable pub cloudinary_webhook :
    (ℕ → ℕ → ℕ)
    → (ℕ → Option UploadPayload)
    → (ℕ → ℕ → Bool)
    → ℕ
    → UploadRequest
    → Action ImageDb (Option UploadTask)
unfolding validate_upload_signature create_webhook_event get_image_by_cloud_pkey
    update_prod_image_upload_status
cloudinary_webhook sha1 loads like now_ts r =
    if_valid (validate_upload_signature sha1 now_ts r)
      (or_raise (loads r.body) (http 400) >>= with_payload like)
