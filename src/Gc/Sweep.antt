-- ===== src/Gc/Sweep.antt =====
-- Which blobs a sweep of libs/domains/src/gc/gc.service.ts deletes.
use simple_storage_service.Prelude.{
  ℕ, ◌≡◌, ap, ◌∙◌, refl, Bool, true, false, not, ◌&&◌, none, List, [], ◌∷◌, arith, inl, inr,
}
use simple_storage_service.Prelude.Tests.{ltb, ◌==◌, ==_iff, if◌then◌else◌, Bool-cases}
use simple_storage_service.Prelude.Lists.{any, length}
use simple_storage_service.Prelude.Table.{lookup, remove, lookup-remove}
use simple_storage_service.Storage.Blobs.{Files, delete}
use simple_storage_service.Gc.{
  Config, BlobEntry, Counts, list_blobs, is_member, is_collected, counted, sweep,
}

module _ (config : Config) (modified : ℕ → ℕ) (fails : ℕ → Bool) where
  -- A path that the sweep gives up: no row refers to it, its blob is old, and deleting it works.
  unfoldable pub is_garbage : List ℕ → ℕ → ℕ → Bool
  is_garbage referenced younger_than path =
      not (is_member referenced path) && not (ltb younger_than (modified path)) && not (fails path)

  -- A listed blob at the path that is collected.
  abbrev hits : List ℕ → ℕ → ℕ → BlobEntry → Bool
  hits referenced younger_than path blob =
      is_collected config modified fails referenced younger_than blob && (blob.storage_path == path)

  sweep_cons :
      (referenced : List ℕ) (younger_than : ℕ) (blob : BlobEntry) (blobs : List BlobEntry)
      (files : Files) (counts : Counts)
      → sweep config modified fails referenced younger_than (blob ∷ blobs) files counts
        ≡ sweep config modified fails referenced younger_than blobs
            (if is_collected config modified fails referenced younger_than blob
              then remove blob.storage_path files
              else files)
            (counted config modified fails referenced younger_than blob counts)
  unfolding sweep delete
  sweep_cons referenced younger_than blob blobs files counts = refl

  lookup-sweep_listed :
      (referenced : List ℕ) (younger_than : ℕ) (blobs : List BlobEntry) (files : Files)
      (counts : Counts) (path : ℕ)
      → lookup path (sweep config modified fails referenced younger_than blobs files counts).0
        ≡ (if any (hits referenced younger_than path) blobs then none else lookup path files)
  lookup-sweep_listed referenced younger_than [] files counts path = unfold sweep in refl
  lookup-sweep_listed referenced younger_than (blob ∷ blobs) files counts path =
      let counts' = counted config modified fails referenced younger_than blob counts in
      let gone = lookup-remove blob.storage_path path files in
      rw (sweep_cons referenced younger_than blob blobs files counts)
        (elim (Bool-cases (is_collected config modified fails referenced younger_than blob)) [
          | inl taken ↦ rw taken (
              lookup-sweep_listed referenced younger_than blobs (remove blob.storage_path files)
                counts' path
              ∙ (ground arith))
          | inr left ↦
              rw left (lookup-sweep_listed referenced younger_than blobs files counts' path)
        ])

  at_path :
      (referenced : List ℕ) (younger_than p size path : ℕ)
      → (p == path) ≡ true
      → is_collected config modified fails referenced younger_than
          (record { storage_path = p; modified_at = modified p; size = size })
        ≡ is_garbage referenced younger_than path
  unfolding is_garbage is_collected
  at_path referenced younger_than p size path same =
      ap
        (λ (q : ℕ).
          not (is_member referenced q) && not (ltb younger_than (modified q)) && not (fails q))
        ((==_iff p path).0 same)

  kept-unlisted :
      (referenced : List ℕ) (younger_than : ℕ) (files : Files) (path : ℕ)
      → is_garbage referenced younger_than path ≡ false
      → any (hits referenced younger_than path) (list_blobs modified files) ≡ false
  unfolding list_blobs
  kept-unlisted referenced younger_than [] path kept = refl
  kept-unlisted referenced younger_than ((p, bytes) ∷ files) path kept =
      let rest = kept-unlisted referenced younger_than files path kept in
      elim (Bool-cases (p == path)) [
        | inl same ↦
            let here = at_path referenced younger_than p (length bytes) path same ∙ kept in
            rw (here, rest) refl
        | inr other ↦ rw (other, rest) (ground arith)
      ]

  garbage-listed :
      (referenced : List ℕ) (younger_than : ℕ) (files : Files) (path : ℕ)
      → is_garbage referenced younger_than path ≡ true
      → (if any (hits referenced younger_than path) (list_blobs modified files)
          then none
          else lookup path files)
        ≡ none
  unfolding list_blobs lookup
  garbage-listed referenced younger_than [] path garbage = refl
  garbage-listed referenced younger_than ((p, bytes) ∷ files) path garbage =
      elim (Bool-cases (p == path)) [
        | inl same ↦
            let here = at_path referenced younger_than p (length bytes) path same ∙ garbage in
            rw (same, here) refl
        | inr other ↦
            let rest = garbage-listed referenced younger_than files path garbage in
            rw other (ground arith)
      ]

  -- A sweep of the blobs on the disk deletes exactly the garbage: a blob to which no row refers,
  -- that is not younger than the margin and whose deletion does not fail. All others stay.
  pub lookup-sweep :
      (referenced : List ℕ) (younger_than : ℕ) (files : Files) (counts : Counts) (path : ℕ)
      → lookup path
          (sweep config modified fails referenced younger_than
            (list_blobs modified files)
            files
            counts).0
        ≡ (if is_garbage referenced younger_than path then none else lookup path files)
  lookup-sweep referenced younger_than files counts path =
      lookup-sweep_listed referenced younger_than (list_blobs modified files) files counts path
      ∙ elim (Bool-cases (is_garbage referenced younger_than path)) [
        | inl garbage ↦ rw garbage (garbage-listed referenced younger_than files path garbage)
        | inr kept ↦ rw (kept, kept-unlisted referenced younger_than files path kept) refl
      ]
