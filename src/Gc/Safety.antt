-- ===== src/Gc/Safety.antt =====
-- A whole run of the collector of libs/domains/src/gc/gc.service.ts.
use simple_storage_service.Prelude.{
  ℕ, ◌-◌, ◌*◌, ◌≡◌, ap, ◌∙◌, refl, Bool, true, false, not, none, List, [], ◌∷◌, map, arith, inl,
  inr,
}
use simple_storage_service.Prelude.Tests.{ltb, ◌==◌, if◌then◌else◌}
use simple_storage_service.Prelude.Lists.{any-append, filter}
use simple_storage_service.Prelude.Table.{lookup}
use simple_storage_service.Prelude.Result.{ok, Result-cases}
use simple_storage_service.Database.{MultipartUploadRow, MultipartPartRow}
use simple_storage_service.Usage.{Tables}
use simple_storage_service.Objects.{Catalog}
use simple_storage_service.Objects.Versions.{storage_paths}
use simple_storage_service.Objects.Versions.References.{occurrences}
use simple_storage_service.Objects.Put.{State}
use simple_storage_service.Objects.Put.Roundtrip.{lookup-delete_blobs}
use simple_storage_service.Objects.Multipart.Upload.{
  part_path, part_of_upload, abort_tables, abort_multipart_upload,
}
use simple_storage_service.Objects.Multipart.Upload.Ending.{upload_paths, abort-after}
use simple_storage_service.Gc.{
  Config, no_counts, hour_ms, referenced_storage_paths, is_member, abort_each,
  abort_abandoned_uploads, collect,
}
use simple_storage_service.Gc.Sweep.{is_garbage, lookup-sweep}

unused-filter :
    (path : ℕ) (p : MultipartPartRow → Bool) (parts : List MultipartPartRow)
    → occurrences path (map part_path parts) ≡ 0
    → occurrences path (map part_path (filter p parts)) ≡ 0
unused-filter path p [] h = refl
unused-filter path p (part ∷ parts) h =
    let rest = unused-filter path p parts (ground arith) in ground arith

-- What an abort does not touch: the catalog, and a blob that is of no part.
record Keeps (path : ℕ) (s s' : State) : Type 0 where
  same_catalog : s'.tables.catalog ≡ s.tables.catalog
  still_no_part : occurrences path (map part_path s'.tables.part) ≡ 0
  same_blob : lookup path s'.files ≡ lookup path s.files

abort-Keeps :
    (s s' : State) (upload : MultipartUploadRow) (path : ℕ)
    → occurrences path (map part_path s.tables.part) ≡ 0
    → abort_multipart_upload s upload.bucket_guid upload.upload_id ≡ ok s'
    → Keeps path s s'
unfolding abort_tables
abort-Keeps s s' upload path no_part h =
    let (found, _, after) = abort-after s s' upload.bucket_guid upload.upload_id h in
    rw after (record {
      same_catalog = refl;
      still_no_part =
          unused-filter path (λ p. not (part_of_upload found.guid p)) s.tables.part no_part;
      same_blob =
          lookup-delete_blobs (upload_paths s.tables found.guid) path s.files
            (unused-filter path (part_of_upload found.guid) s.tables.part no_part);
    })

abort_each-Keeps :
    (uploads : List MultipartUploadRow) (s : State) (path : ℕ)
    → occurrences path (map part_path s.tables.part) ≡ 0
    → Keeps path s (abort_each uploads s).1
unfolding abort_each
abort_each-Keeps [] s path no_part = record {
  same_catalog = refl;
  still_no_part = no_part;
  same_blob = refl;
}
abort_each-Keeps (upload ∷ uploads) s path no_part =
    elim (Result-cases (abort_multipart_upload s upload.bucket_guid upload.upload_id)) [
      | inr (e, failed) ↦ rw (failed, abort_each) (abort_each-Keeps uploads s path no_part)
      | inl (s', done) ↦
          let first = abort-Keeps s s' upload path no_part done in
          let rest = abort_each-Keeps uploads s' path first.still_no_part in
          rw (done, abort_each)
            (record {
              same_catalog = rest.same_catalog ∙ first.same_catalog;
              still_no_part = rest.still_no_part;
              same_blob = rest.same_blob ∙ first.same_blob;
            })
    ]

module _ (config : Config) (modified : ℕ → ℕ) (fails : ℕ → Bool) where
  collect-files :
      (now : ℕ) (s : State) (path : ℕ)
      → let s' = (abort_abandoned_uploads config modified fails now s).1 in
        lookup path (collect config modified fails false now s).0.files ≡ (
          if is_garbage config modified fails
            (referenced_storage_paths s'.tables)
            (now - config.blob_min_age_hours * hour_ms)
            path
          then none
          else lookup path s'.files)
  unfolding collect
  collect-files now s path =
      lookup-sweep config modified fails _ _
        (abort_abandoned_uploads config modified fails now s).1.files no_counts path

  referenced-kept :
      (t : Tables) (younger_than path : ℕ)
      → is_member (storage_paths t.catalog.version) path ≡ true
      → is_garbage config modified fails (referenced_storage_paths t) younger_than path ≡ false
  unfolding is_garbage referenced_storage_paths
  referenced-kept t younger_than path there =
      rw (any-append (λ p. p == path) (storage_paths t.catalog.version) (map part_path t.part))
        (rw there refl)

  -- No run loses data: where a version refers to a blob, and no part of an upload does, the run
  -- leaves the blob, whatever its age and whatever uploads are aborted, and the keys and versions
  -- are as they were.
  pub collect-keeps :
      (running : Bool) (now : ℕ) (s : State) (path : ℕ)
      → is_member (storage_paths s.tables.catalog.version) path ≡ true
      → occurrences path (map part_path s.tables.part) ≡ 0
      → let s' = (collect config modified fails running now s).0 in
        (lookup path s'.files ≡ lookup path s.files) × (s'.tables.catalog ≡ s.tables.catalog)
  unfolding collect abort_abandoned_uploads
  collect-keeps true now s path there no_part = (refl, refl)
  collect-keeps false now s path there no_part =
      let s' = (abort_abandoned_uploads config modified fails now s).1 in
      let kept = abort_each-Keeps _ s path no_part in
      let still : is_member (storage_paths s'.tables.catalog.version) path ≡ true =
        ap (λ (c : Catalog). is_member (storage_paths c.version) path) kept.same_catalog ∙ there in
      let spared =
        referenced-kept s'.tables (now - config.blob_min_age_hours * hour_ms) path still in
      (
        collect-files now s path
            ∙ ap (λ (g : Bool). if g then none else lookup path s'.files) spared
            ∙ kept.same_blob,
        kept.same_catalog,
      )

  all_garbage :
      (referenced : List ℕ) (younger_than path : ℕ)
      → is_member referenced path ≡ false
      → ltb younger_than (modified path) ≡ false
      → fails path ≡ false
      → is_garbage config modified fails referenced younger_than path ≡ true
  unfolding is_garbage
  all_garbage referenced younger_than path free old works = rw (free, old, works) refl

  -- Every run that is not skipped reclaims what it may: a path that no row refers to behind it,
  -- whose blob is not younger than the margin and whose deletion does not fail, holds no blob.
  pub collect-reclaims :
      (now : ℕ) (s : State) (path : ℕ)
      → is_member
          (referenced_storage_paths (collect config modified fails false now s).0.tables)
          path
        ≡ false
      → ltb (now - config.blob_min_age_hours * hour_ms) (modified path) ≡ false
      → fails path ≡ false
      → lookup path (collect config modified fails false now s).0.files ≡ none
  unfolding collect
  collect-reclaims now s path free old works =
      let s' = (abort_abandoned_uploads config modified fails now s).1 in
      collect-files now s path
      ∙ ap (λ (g : Bool). if g then none else lookup path s'.files)
          (all_garbage (referenced_storage_paths s'.tables) _ path free old works)
