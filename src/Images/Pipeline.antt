-- ===== src/Images/Pipeline.antt =====
-- The webhook and the worker one after the other: the events that one stores are not those that the
-- other looks for.
use phyllonix.Base.{
  ℕ, ◌≡◌, refl, ap, Bool, true, false, Option, none, some, List, [], ◌∷◌, ◌==◌, find_where,
  update_where, All, All-update_where, Session, in_session, Result, ok, err, http, or_raise, gets,
  Action, ◌>>=◌, Keeps, Keeps->>=, or_raise-Keeps, is_some, Bool-cases, inl, inr,
}
use phyllonix.Schema.{ImageUploadStatus}
use phyllonix.Images.Tables.{ProductImage, UploadId, UploadEvent, ImageDb}
use phyllonix.Images.Webhook.{
  UploadRequest, UploadPayload, UploadTask, Folder, validate_upload_signature, if_valid,
  cloudinary_webhook, insert_upload, committed_event, create_webhook_event, stored_upload,
  at_most_one, by_public_id, by_storage_key, or_by_key, get_image_by_cloud_pkey,
  update_prod_image_upload_status, marked, enqueued, with_image, with_upload, with_payload,
  upload_id, is_upload,
}
use phyllonix.Images.Transform.{transform, is_ready, is_event_id}

-- A webhook request, or a run of the worker on a task, with what its downloads give.
pub data Step : Type 0 where
  webhook : ℕ → UploadRequest → Step
  worker : Option ℕ → Option ℕ → Option ℕ → ℕ → UploadTask → Step

abbrev NotReady : ProductImage → Type 0
NotReady i = is_ready i.status ≡ false

abbrev pub IsStuck : ImageDb → Type 0
IsStuck d = (d.uploadswebhookevent ≡ []) × All NotReady d.images

abbrev opened : ImageDb → Session ImageDb
opened d = record { work = d; committed = d }

abbrev BothStuck : Session ImageDb → Type 0
BothStuck s = IsStuck s.work × IsStuck s.committed

module _ (sha1 : ℕ → ℕ → ℕ) (loads : ℕ → Option UploadPayload) (like : ℕ → ℕ → Bool) where
  abbrev pub step : ImageDb → Step → ImageDb
  step d (webhook now_ts r) = (in_session (cloudinary_webhook sha1 loads like now_ts r) d).1
  step d (worker first second third now task) =
      (in_session (transform first second third now task) d).1

  abbrev pub run : ImageDb → List Step → ImageDb
  run d [] = d
  run d (x ∷ xs) = run (step d x) xs

insert_upload-BothStuck :
    (pid : UploadId) (es : List UploadEvent) (e : Option UploadEvent)
    → Keeps BothStuck (insert_upload pid es e)
unfolding insert_upload
insert_upload-BothStuck pid es (some e) s h = h
insert_upload-BothStuck pid es none s h = h

stored_upload-BothStuck :
    (pid : UploadId) (table : Option (List UploadEvent)) → Keeps BothStuck (stored_upload pid table)
stored_upload-BothStuck pid none s h = h
stored_upload-BothStuck pid (some es) s h =
    Keeps->>= BothStuck (insert_upload pid es (find_where (is_upload pid) es)) committed_event
      (insert_upload-BothStuck pid es (find_where (is_upload pid) es)) (λ e s h. (h.0, h.0)) s h

create_webhook_event-BothStuck : (pid : UploadId) → Keeps BothStuck (create_webhook_event pid)
unfolding create_webhook_event
create_webhook_event-BothStuck pid s h = stored_upload-BothStuck pid s.work.providerwebhookevent s h

at_most_one-BothStuck : (is : List ProductImage) → Keeps BothStuck (at_most_one is)
at_most_one-BothStuck [] s h = h
at_most_one-BothStuck (i ∷ []) s h = h
at_most_one-BothStuck (i ∷ j ∷ is) s h = h

or_by_key-BothStuck :
    (like : ℕ → ℕ → Bool) (public_id : Option ℕ) (found : Option ProductImage)
    → Keeps BothStuck (or_by_key like public_id found)
or_by_key-BothStuck like public_id (some i) s h = h
or_by_key-BothStuck like public_id none s h =
    at_most_one-BothStuck (by_storage_key like public_id s.work) s h

get_image-BothStuck :
    (like : ℕ → ℕ → Bool) (public_id : Option ℕ) (folder : Folder)
    → Keeps BothStuck (get_image_by_cloud_pkey like public_id folder)
unfolding get_image_by_cloud_pkey
get_image-BothStuck like public_id folder =
    Keeps->>= BothStuck (gets (by_public_id folder) >>= at_most_one) (or_by_key like public_id)
      (λ s h. at_most_one-BothStuck (by_public_id folder s.work) s h)
      (or_by_key-BothStuck like public_id)

update_prod_image-BothStuck :
    (image : ProductImage) → Keeps BothStuck (update_prod_image_upload_status image)
unfolding update_prod_image_upload_status
update_prod_image-BothStuck image s h = (now, now)
  where
    now : IsStuck (record s.work {
      images =
          update_where
            (λ (i : ProductImage). i.id == image.id)
            (marked ImageUploadStatus.uploaded)
            s.work.images;
    })
    now = (
      h.0.0,
      All-update_where NotReady (λ (i : ProductImage). i.id == image.id)
          (marked ImageUploadStatus.uploaded) s.work.images (λ i k. refl) h.0.1,
    )

enqueued-BothStuck :
    (e : UploadEvent) (image : ProductImage) (there : Bool)
    → Keeps BothStuck (enqueued e image there)
enqueued-BothStuck e image true s h = h
enqueued-BothStuck e image false s h = h

with_image-BothStuck :
    (e : UploadEvent) (found : Option ProductImage) → Keeps BothStuck (with_image e found)
with_image-BothStuck e none = λ s h. h
with_image-BothStuck e (some image) =
    Keeps->>= BothStuck (update_prod_image_upload_status image) (enqueued e image)
      (update_prod_image-BothStuck image) (enqueued-BothStuck e image)

with_upload-BothStuck :
    (like : ℕ → ℕ → Bool) (p : UploadPayload) (e : UploadEvent)
    → Keeps BothStuck (with_upload like p e)
with_upload-BothStuck like p e s h = elim (Bool-cases (is_some e.processed_at)) [
  | inl done ↦ rw done h
  | inr fresh ↦ rw fresh (
      Keeps->>= BothStuck (get_image_by_cloud_pkey like p.display_name p.folder) (with_image e)
        (get_image-BothStuck like p.display_name p.folder) (with_image-BothStuck e) s h)
]

if_valid-BothStuck :
    (v : Result (Unit {0})) (k : Action ImageDb (Option UploadTask))
    → Keeps BothStuck k
    → Keeps BothStuck (if_valid v k)
if_valid-BothStuck (ok t) k keeps s h = keeps s h
if_valid-BothStuck (err e) k keeps s h = h

cloudinary_webhook-BothStuck :
    (sha1 : ℕ → ℕ → ℕ) (loads : ℕ → Option UploadPayload) (like : ℕ → ℕ → Bool) (now_ts : ℕ)
    (r : UploadRequest)
    → Keeps BothStuck (cloudinary_webhook sha1 loads like now_ts r)
unfolding cloudinary_webhook
cloudinary_webhook-BothStuck sha1 loads like now_ts r =
    if_valid-BothStuck (validate_upload_signature sha1 now_ts r)
      (or_raise (loads r.body) (http 400) >>= with_payload like)
      (Keeps->>= BothStuck (or_raise (loads r.body) (http 400)) (with_payload like)
        (or_raise-Keeps BothStuck (loads r.body) (http 400))
        (λ p.
          Keeps->>= BothStuck (create_webhook_event (upload_id p)) (with_upload like p)
            (create_webhook_event-BothStuck (upload_id p)) (with_upload-BothStuck like p)))

transform-BothStuck :
    (first second third : Option ℕ) (now : ℕ) (task : UploadTask)
    → Keeps BothStuck (transform first second third now task)
unfolding transform
transform-BothStuck first second third now task s h = rw nothing h
  where
    nothing : find_where (is_event_id task.event_id) s.work.uploadswebhookevent ≡ none
    nothing = ap (find_where (is_event_id task.event_id)) h.0.0

module _ (sha1 : ℕ → ℕ → ℕ) (loads : ℕ → Option UploadPayload) (like : ℕ → ℕ → Bool) where
  step-IsStuck : (d : ImageDb) (x : Step) → IsStuck d → IsStuck (step sha1 loads like d x)
  step-IsStuck d (webhook now_ts r) h =
      (cloudinary_webhook-BothStuck sha1 loads like now_ts r (opened d) (h, h)).1
  step-IsStuck d (worker first second third now task) h =
      (transform-BothStuck first second third now task (opened d) (h, h)).1

  -- With no row in uploadswebhookevent and no image ready, no sequence of webhook requests and
  -- worker runs, whatever is sent and downloaded, makes an image ready, whether or not the table
  -- providerwebhookevent, the only one that the webhook writes its events to, is there.
  pub run-IsStuck : (xs : List Step) (d : ImageDb) → IsStuck d → IsStuck (run sha1 loads like d xs)
  run-IsStuck [] d h = h
  run-IsStuck (x ∷ xs) d h = run-IsStuck xs (step sha1 loads like d x) (step-IsStuck d x h)
