-- ===== src/Gc.antt =====
-- libs/domains/src/gc/gc.service.ts: the abandoned uploads are aborted, and the blobs that no row
-- refers to are deleted. Times are in milliseconds.
pub mod Sweep
pub mod Safety
use simple_storage_service.Prelude.{
  ℕ, ◌+◌, ◌-◌, ◌*◌, ◌≡◌, Bool, true, false, not, ◌&&◌, ◌||◌, Option, none, some, List, [], ◌∷◌,
  ◌++◌, map,
}
use simple_storage_service.Prelude.Tests.{ltb, leb, ◌==◌, if◌then◌else◌}
use simple_storage_service.Prelude.Lists.{any, filter, length}
use simple_storage_service.Prelude.Text.{Text}
use simple_storage_service.Prelude.Result.{Result, ok, err}
use simple_storage_service.Database.{ObjectVersionRow, MultipartUploadRow, MultipartPartRow}
use simple_storage_service.Storage.Cipher.{Bytes}
use simple_storage_service.Storage.Blobs.{Files, delete}
use simple_storage_service.Usage.{Tables, in_progress}
use simple_storage_service.Objects.{ObjectsError}
use simple_storage_service.Objects.Versions.{storage_paths}
use simple_storage_service.Objects.Put.{State}
use simple_storage_service.Objects.Multipart.Upload.{part_path, abort_multipart_upload}

pub record Config : Type 0 where
  pub multipart_max_age_hours : ℕ
  pub blob_min_age_hours : ℕ

pub record GcResult : Type 0 where
  pub aborted_uploads : ℕ
  pub deleted_blobs : ℕ
  pub reclaimed_bytes : ℕ
  pub skipped_young_blobs : ℕ

abbrev pub hour_ms : ℕ
hour_ms = 3600000

pub record BlobEntry : Type 0 where
  pub storage_path : ℕ
  pub modified_at : ℕ
  pub size : ℕ

-- `listBlobs` of libs/domains/src/storage/storage.service.ts; `modified` is the time that the file
-- system keeps for a path.
unfoldable pub list_blobs : (ℕ → ℕ) → Files → List BlobEntry
list_blobs modified [] = []
list_blobs modified ((path, bytes) ∷ files) =
    record { storage_path = path; modified_at = modified path; size = length bytes }
    ∷ list_blobs modified files

-- `referencedStoragePaths`, as a list for a set.
unfoldable pub referenced_storage_paths : Tables → List ℕ
referenced_storage_paths t = storage_paths t.catalog.version ++ map part_path t.part

abbrev pub is_member : List ℕ → ℕ → Bool
is_member paths path = any (λ p. p == path) paths

abbrev pub is_stale : ℕ → MultipartUploadRow → Bool
is_stale deadline upload = in_progress upload.status && ltb upload.created_at deadline

-- The loop over the stale uploads: one that cannot be aborted is passed over.
unfoldable pub abort_each : List MultipartUploadRow → State → ℕ × State
abort_each [] s = (0, s)
abort_each (upload ∷ uploads) s =
    elim (abort_multipart_upload s upload.bucket_guid upload.upload_id) [
      | err e ↦ abort_each uploads s
      | ok s' ↦ (let (aborted, s'') = abort_each uploads s' in (aborted + 1, s''))
    ]

pub record Counts : Type 0 where
  pub deleted : ℕ
  pub reclaimed : ℕ
  pub young : ℕ

pub no_counts : Counts
no_counts = record { deleted = 0; reclaimed = 0; young = 0 }

-- `blob.modifiedAt > youngerThan`.
abbrev pub is_young : ℕ → BlobEntry → Bool
is_young younger_than blob = ltb younger_than blob.modified_at

-- The deletion of a path may fail, and then the blob stays.
module _ (config : Config) (modified : ℕ → ℕ) (fails : ℕ → Bool) where
  unfoldable pub abort_abandoned_uploads : ℕ → State → ℕ × State
  abort_abandoned_uploads now s =
      abort_each
        (filter (is_stale (now - config.multipart_max_age_hours * hour_ms)) s.tables.upload) s

  -- Whether the sweep deletes a listed blob.
  unfoldable pub is_collected : List ℕ → ℕ → BlobEntry → Bool
  is_collected referenced younger_than blob =
      not (is_member referenced blob.storage_path)
      && not (is_young younger_than blob)
      && not (fails blob.storage_path)

  unfoldable pub counted : List ℕ → ℕ → BlobEntry → Counts → Counts
  unfolding is_collected
  counted referenced younger_than blob counts =
      if is_collected referenced younger_than blob
      then record counts { deleted = counts.deleted + 1; reclaimed = counts.reclaimed + blob.size }
      else if not (is_member referenced blob.storage_path) && is_young younger_than blob
      then record counts { young = counts.young + 1 }
      else counts

  unfoldable pub sweep : List ℕ → ℕ → List BlobEntry → Files → Counts → Files × Counts
  unfolding is_collected counted
  sweep referenced younger_than [] files counts = (files, counts)
  sweep referenced younger_than (blob ∷ blobs) files counts =
      sweep referenced younger_than blobs
        (if is_collected referenced younger_than blob
          then delete files blob.storage_path
          else files)
        (counted referenced younger_than blob counts)

  -- `running` is whether a run is under way; the flag falls again whatever happens in between.
  unfoldable pub collect : Bool → ℕ → State → State × GcResult
  unfolding no_counts
  collect true now s = (
    s,
    record { aborted_uploads = 0; deleted_blobs = 0; reclaimed_bytes = 0; skipped_young_blobs = 0 },
  )
  collect false now s =
      let (aborted, s') = abort_abandoned_uploads now s in
      let (files, counts) =
        sweep (referenced_storage_paths s'.tables) (now - config.blob_min_age_hours * hour_ms)
          (list_blobs modified s'.files) s'.files no_counts in
      (
        record s' { files = files },
        record {
          aborted_uploads = aborted;
          deleted_blobs = counts.deleted;
          reclaimed_bytes = counts.reclaimed;
          skipped_young_blobs = counts.young;
        },
      )
