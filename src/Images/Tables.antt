-- ===== src/Images/Tables.antt =====
-- The tables of the images. The webhook stores its events in providerwebhookevent, by SQL text; the
-- worker and the ORM read uploadswebhookevent.
use phyllonix.Base.{ℕ, Option, List}
use phyllonix.Schema.{ImageUploadStatus}

pub record ProductImage : Type 0 where
  pub id : ℕ
  pub public_id : ℕ
  pub storage_key : Option ℕ
  pub content_id : Option ℕ
  pub status : ImageUploadStatus

pub record ImageContent : Type 0 where
  pub id : ℕ
  pub checksum : ℕ

-- `asset_id`, or the display name and the version joined
pub data UploadId : Type 0 where
  asset : ℕ → UploadId
  named : Option ℕ → Option ℕ → UploadId

pub record UploadEvent : Type 0 where
  pub id : ℕ
  pub provider_event_id : UploadId
  pub processed_at : Option ℕ
  pub attempts : ℕ

pub record ImageDb : Type 0 where
  pub images : List ProductImage
  pub contents : List ImageContent
  -- none where the migration 813e9a7e41a9 has dropped the table
  pub providerwebhookevent : Option (List UploadEvent)
  pub uploadswebhookevent : List UploadEvent
  pub next_id : ℕ
