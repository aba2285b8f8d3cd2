-- ===== src/Tests/Images.antt =====
-- The images' webhook and worker at concrete requests.
use phyllonix.Base.{
  ℕ, ◌+◌, ◌≡◌, refl, Bool, some, none, [], ◌∷◌, List, Option, ok, err, http, in_session, ◌==◌,
}
use phyllonix.Schema.{ImageUploadStatus}
use phyllonix.Images.Tables.{ProductImage, asset, ImageDb}
use phyllonix.Images.Webhook.{UploadRequest, UploadPayload, images_folder, cloudinary_webhook}
use phyllonix.Images.Transform.{transform}
use phyllonix.Images.Pipeline.{Step, webhook, worker, run, IsStuck, run-IsStuck}

abbrev image : ProductImage
image = record {
  id = 1;
  public_id = 70;
  storage_key = none;
  content_id = none;
  status = ImageUploadStatus.pending_uploaded;
}

abbrev images : ImageDb
images = record {
  images = image ∷ [];
  contents = [];
  providerwebhookevent = some [];
  uploadswebhookevent = [];
  next_id = 9;
}

abbrev sha1 : ℕ → ℕ → ℕ
sha1 body header = body + header

abbrev loads : ℕ → Option UploadPayload
loads body = some (record {
  asset_id = some body;
  display_name = none;
  version = none;
  folder = images_folder 70;
})

abbrev like : ℕ → ℕ → Bool
like a b = a == b

abbrev request : UploadRequest
request = record {
  body = 5;
  signature = some 105;
  timestamp = some (record { header = 100; seconds = some 8000 });
}

uploaded_run :
    (in_session (cloudinary_webhook sha1 loads like 9000 request) images).0
    ≡ ok (some (record { event_id = 9; product_image = image }))
unfolding cloudinary_webhook
uploaded_run = refl

-- After the migration that drops the table.
dropped_run :
    in_session
      (cloudinary_webhook sha1 loads like 9000 request)
      (record images { providerwebhookevent = none })
    ≡ (err (http 500), record images { providerwebhookevent = none })
unfolding cloudinary_webhook
dropped_run = refl

stale_run :
    (in_session (cloudinary_webhook sha1 loads like 16000 request) images).0 ≡ err (http 400)
unfolding cloudinary_webhook
stale_run = refl

-- With the event where the worker looks, the image would become ready.
ready_run :
    (in_session
      (transform none (some 44) none 9100 (record { event_id = 9; product_image = image }))
      (record images {
        uploadswebhookevent =
            record { id = 9; provider_event_id = asset 5; processed_at = none; attempts = 0 } ∷ [];
        next_id = 10;
      })).1.images
    ≡ record image { content_id = some 10; status = ImageUploadStatus.ready } ∷ []
unfolding transform
ready_run = refl

abbrev upload : List Step
upload =
    webhook 9000 request
    ∷ worker (some 44) none none 9100 (record { event_id = 9; product_image = image })
    ∷ []

run-IsStuck_example : IsStuck (run sha1 loads like images upload)
run-IsStuck_example = run-IsStuck sha1 loads like upload images (refl, (refl, tt))
