-- ===== src/Images/Transform.antt =====
-- ImageTransformHandler of background_workers/image_tansform_handler.py. What each download gives, a
-- checksum or a failure, is an argument.
use phyllonix.Base.{
  ℕ, suc, ◌+◌, Bool, true, false, ◌&&◌, not, Option, none, some, List, [], ◌∷◌, ◌++◌, ◌==◌,
  if◌then◌else◌, find_where, update_where, is_some, Action, crash, gets, modify, raise, raise_if,
  or_raise, pure, commit, rollback, ◌>>=◌, ◌>>◌,
}
use phyllonix.Schema.{ImageUploadStatus}
use phyllonix.Images.Tables.{ProductImage, ImageContent, UploadEvent, ImageDb}
use phyllonix.Images.Webhook.{UploadTask}

abbrev pub is_event_id : ℕ → UploadEvent → Bool
is_event_id id e = e.id == id

abbrev pub processed : ℕ → UploadEvent → UploadEvent
processed now e = record e { processed_at = some now }

abbrev pub failed_again : UploadEvent → UploadEvent
failed_again e = record e { attempts = e.attempts + 1 }

-- UPDATE providerwebhookevent, which raises where the table is gone.
abbrev pub update_provider_event : ℕ → (UploadEvent → UploadEvent) → Action ImageDb (Unit {0})
update_provider_event evt_id f = do
  table ← gets (λ d. d.providerwebhookevent)
  es ← or_raise table crash
  modify (λ d. record d { providerwebhookevent = some (update_where (is_event_id evt_id) f es) })

abbrev pub is_ready : ImageUploadStatus → Bool
is_ready ImageUploadStatus.ready = true
is_ready _ = false

-- Its `return` leaves this function only; the handler goes on.
unfoldable pub is_image_processed : ℕ → ProductImage → ℕ → Action ImageDb (Unit {0})
is_image_processed now image evt_id =
    if is_some image.content_id && is_ready image.status
    then update_provider_event evt_id (processed now) >> commit
    else pure tt

-- `range(http_retries + 1)`, with two retries
abbrev pub first_download : List (Option ℕ) → Option ℕ
first_download [] = none
first_download (some checksum ∷ ds) = some checksum
first_download (none ∷ ds) = first_download ds

-- After three failures the function returns None, which the handler cannot unpack.
abbrev pub or_failed : ℕ → Option ℕ → Action ImageDb ℕ
or_failed evt_id (some checksum) = pure checksum
or_failed evt_id none = (update_provider_event evt_id failed_again >> commit) >> raise crash

unfoldable pub download_n_checksum : Option ℕ → Option ℕ → Option ℕ → ℕ → Action ImageDb ℕ
download_n_checksum first second third evt_id =
    or_failed evt_id (first_download (first ∷ second ∷ third ∷ []))

abbrev pub has_checksum : ℕ → ImageContent → Bool
has_checksum checksum c = c.checksum == checksum

-- The insert and its commit, or the row with this checksum after the rollback.
unfoldable pub insert_content : ℕ → Option ImageContent → Action ImageDb ℕ
insert_content checksum (some c) s = (rollback >> pure c.id) s
insert_content checksum none s =
    (modify (λ d. record d {
      contents = d.contents ++ record { id = d.next_id; checksum = checksum } ∷ [];
      next_id = suc d.next_id;
    })
        >> (commit >> pure s.work.next_id))
      s

unfoldable pub image_content_insert : ℕ → Action ImageDb ℕ
unfolding insert_content
image_content_insert checksum =
    gets (λ d. find_where (has_checksum checksum) d.contents) >>= insert_content checksum

abbrev pub linked : ℕ → ProductImage → ProductImage
linked content_id i = record i { content_id = some content_id; status = ImageUploadStatus.ready }

abbrev pub has_content_of : ℕ → ℕ → ProductImage → Bool
has_content_of content_id image_id i =
    not (i.id == image_id) && elim i.content_id [ none ↦ false | some c ↦ c == content_id ]

-- uq_product_image_content_id: one image for each content
unfoldable pub link_to_prod_img : ℕ → ProductImage → ℕ → ℕ → Action ImageDb (Unit {0})
link_to_prod_img now image evt_id content_id = do
  taken ← gets (λ d. is_some (find_where (has_content_of content_id image.id) d.images))
  raise_if taken crash
  modify (λ d. record d {
    images = update_where (λ (i : ProductImage). i.id == image.id) (linked content_id) d.images;
    uploadswebhookevent = update_where (is_event_id evt_id) (processed now) d.uploadswebhookevent;
  })
  commit

abbrev pub transformed : Option ℕ → Option ℕ → Option ℕ → ℕ → UploadTask → Action ImageDb (Unit {0})
transformed first second third now task = do
  is_image_processed now task.product_image task.event_id
  checksum ← download_n_checksum first second third task.event_id
  content_id ← image_content_insert checksum
  link_to_prod_img now task.product_image task.event_id content_id

abbrev pub with_row :
    Option ℕ → Option ℕ → Option ℕ → ℕ → UploadTask → Option UploadEvent → Action ImageDb (Unit {0})
with_row first second third now task none = pure tt
with_row first second third now task (some e) =
    if is_some e.processed_at then pure tt else transformed first second third now task

-- compute_checksum_and_update_status
unfoldable pub transform :
    Option ℕ → Option ℕ → Option ℕ → ℕ → UploadTask → Action ImageDb (Unit {0})
unfolding is_image_processed download_n_checksum image_content_insert link_to_prod_img
transform first second third now task =
    gets (λ d. find_where (is_event_id task.event_id) d.uploadswebhookevent)
    >>= with_row first second third now task
