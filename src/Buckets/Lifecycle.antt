-- ===== src/Buckets/Lifecycle.antt =====
-- Creating and deleting buckets.
use simple_storage_service.Prelude.{
  ℕ, ◌≡◌, refl, ap, ◌∙◌, Bool, true, false, none, some, List, [], ◌∷◌, arith,
}
use simple_storage_service.Prelude.Lists.{any, find}
use simple_storage_service.Prelude.Query.{update_where}
use simple_storage_service.Prelude.Text.{Text, text_eq, text_eq_refl}
use simple_storage_service.Prelude.Result.{ok, err}
use simple_storage_service.Database.{BucketRow}
use simple_storage_service.Buckets.Names.{is_valid_name}
use simple_storage_service.Buckets.{
  Store, bucket_already_exists, is_live_name, has_guid, find_by_name, new_bucket, is_name_taken,
  create, delete,
}

create-parts :
    (s : Store) (guid now : ℕ) (name : Text) (owner : ℕ) (region : Text)
    {result : BucketRow × Store}
    → create s guid now name owner region ≡ ok result
    → let created : BucketRow = new_bucket guid now name owner region in
      (is_valid_name name ≡ true)
      × (is_name_taken s name ≡ false)
      × (result ≡ (created, record s { bucket = created ∷ s.bucket }))
unfolding create
create-parts s guid now name owner region {result} h = ground arith

not_found_of_unused :
    (name : Text) (rows : List BucketRow)
    → any (λ (row : BucketRow). text_eq row.name name) rows ≡ false
    → find (is_live_name name) rows ≡ none
not_found_of_unused name [] h = refl
not_found_of_unused name (row ∷ rows) h = ground (arith, not_found_of_unused name rows)

-- A bucket just created is found by its name, and by no other name is anything found that was
-- not found before; the name is valid, and nothing was found by it.
pub find_by_name-create :
    (s : Store) (guid now : ℕ) (name : Text) (owner : ℕ) (region : Text) (created : BucketRow)
    (s' : Store)
    → create s guid now name owner region ≡ ok (created, s')
    → (is_valid_name name ≡ true)
      × (find_by_name s name ≡ none)
      × (find_by_name s' name ≡ some created)
      × ((other : Text) → text_eq name other ≡ false → find_by_name s' other ≡ find_by_name s other)
unfolding find_by_name is_name_taken
find_by_name-create s guid now name owner region created s' h =
    let (valid, unused, same) = create-parts s guid now name owner region h in
    let row : created ≡ new_bucket guid now name owner region =
      ap (λ (r : BucketRow × Store). r.0) same in
    let store : s' ≡ record s { bucket = new_bucket guid now name owner region ∷ s.bucket } =
      ap (λ (r : BucketRow × Store). r.1) same in
    (
      valid,
      not_found_of_unused name s.bucket unused,
      rw (store, row, text_eq_refl name),
      λ other differs. rw (store, differs),
    )

named : Text → List BucketRow → Bool
named name rows = any (λ (row : BucketRow). text_eq row.name name) rows

named-update :
    (name : Text) (now guid : ℕ) (rows : List BucketRow)
    → named name (update_where (has_guid guid) (λ row. record row { deleted_at = some now }) rows)
      ≡ named name rows
unfolding named
named-update name now guid [] = refl
named-update name now guid (row ∷ rows) = ground (arith, named-update name now guid rows)

-- Deleting a bucket does not free its name: a name that was taken before the deletion is
-- refused after it, whoever asks.
pub create-delete :
    (s s' : Store) (now guid : ℕ) (name : Text)
    → delete s now guid ≡ ok s'
    → is_name_taken s name ≡ true
    → is_valid_name name ≡ true
    → (fresh later owner : ℕ) (region : Text)
    → create s' fresh later name owner region ≡ err bucket_already_exists
unfolding create delete is_name_taken named
create-delete s s' now guid name h used valid fresh later owner region =
    let stored : record s {
      bucket = update_where (has_guid guid) (λ row. record row { deleted_at = some now }) s.bucket;
    }
        ≡ s' =
      ground arith in
    let kept : named name s'.bucket ≡ true =
      rw (← stored) (named-update name now guid s.bucket ∙ used) in
    rw (valid, kept)
