-- ===== src/Users/LastAdmin.antt =====
-- The safeguard against a deployment that nobody can manage.
use simple_storage_service.Prelude.{
  ℕ, ◌≤◌, ◌≡◌, Bool, true, false, not, ◌&&◌, Option, none, some, arith, inl, inr,
}
use simple_storage_service.Prelude.Tests.{leb, Bool-cases, Option-cases}
use simple_storage_service.Prelude.Lists.{find, find-holds}
use simple_storage_service.Prelude.Query.{count}
use simple_storage_service.Prelude.Rows.{find-wider, count-update_one, count-update_kept, count-le}
use simple_storage_service.Prelude.Text.{Text}
use simple_storage_service.Prelude.Result.{ok, ◌>>◌, guard, >>=-succeeds, >>-succeeds, ok-injective}
use simple_storage_service.Database.{UserRole, UserStatus, UserRow}
use simple_storage_service.Users.{
  last_admin, last_admin_demoted, Accounts, has_guid, is_live_guid, is_admin, is_active, same_role,
  is_working_admin, count_admins, or_missing, get, demotes, set_name, set_role, change, update,
  set_status, delete,
}

-- The guid of an account is its primary key.
abbrev pub IsKeyed : Accounts → Type 0
IsKeyed a = (guid : ℕ) → count (has_guid guid) a.user ≤ 1

get-found :
    (a : Accounts) (guid : ℕ) {user : UserRow}
    → get a guid ≡ ok user
    → find (is_live_guid guid) a.user ≡ some user
unfolding get or_missing
get-found a guid {user} h = elim (Option-cases (find (is_live_guid guid) a.user)) [
  | inl missing ↦ absurd (let h' = rw (missing, or_missing) at h in cc)
  | inr (row, found) ↦
      let same : row ≡ user = ok-injective (rw (found, or_missing) at h) in rw (← same) found
]

live_once : (a : Accounts) (guid : ℕ) → IsKeyed a → count (is_live_guid guid) a.user ≤ 1
live_once a guid keyed =
    let narrow = count-le (is_live_guid guid) (has_guid guid) a.user (λ x h. ground arith) in
    let once = keyed guid in omega arith

-- An update of one account keeps an admin, if there are two, or if the account stays one.
admin_left :
    (a : Accounts) (p : UserRow → Bool) (f : UserRow → UserRow) (user : UserRow)
    → count p a.user ≤ 1
    → find p a.user ≡ some user
    → (leb (count_admins a) 1 ≡ true
        → is_working_admin user ≡ true
        → is_working_admin (f user) ≡ true)
    → 1 ≤ count_admins a
    → 1 ≤ count_admins (change a p f)
unfolding count_admins
admin_left a p f user once found keeps some_admin =
    elim (Bool-cases (leb (count is_working_admin a.user) 1)) [
      | inl few ↦
          let kept = count-update_kept is_working_admin p f a.user user found once (keeps few) in
          omega arith
      | inr more ↦ let lost = count-update_one is_working_admin p f a.user once in ground arith
    ]

role_kept :
    (role : Option UserRole) (name : Option (Option Text)) (user : UserRow)
    → demotes role user.role ≡ false
    → is_working_admin user ≡ true
    → is_working_admin (set_role role (set_name name user)) ≡ true
unfolding demotes
role_kept none none user h works = works
role_kept none (some n) user h works = works
role_kept (some UserRole.admin) none user h works = unfold is_admin in ground arith
role_kept (some UserRole.admin) (some n) user h works = unfold is_admin in ground arith
role_kept (some UserRole.user) none user h works = unfold same_role is_admin in ground arith
role_kept (some UserRole.user) (some n) user h works = unfold same_role is_admin in ground arith

module _ (a a' : Accounts) (guid : ℕ) (keyed : IsKeyed a) (some_admin : 1 ≤ count_admins a) where
  update-kept :
      (name : Option (Option Text)) (role : Option UserRole)
      → update a guid name role ≡ ok a'
      → 1 ≤ count_admins a'
  unfolding update
  update-kept name role h =
      let f : UserRow → UserRow = (λ row. set_role role (set_name name row)) in
      let test : UserRow → Bool =
        (λ user. not (demotes role user.role && leb (count_admins a) 1)) in
      let (user, got, later) =
        >>=-succeeds (get a guid)
          (λ user. guard (test user) last_admin_demoted >> ok (change a (is_live_guid guid) f)) h in
      let (allowed, done) = >>-succeeds (guard (test user) last_admin_demoted) _ later in
      rw (← ok-injective done) (
        admin_left a (is_live_guid guid) f user (live_once a guid keyed) (get-found a guid got)
          (λ few works. role_kept role name user (ground arith) works) some_admin)

  set_status-kept : (status : UserStatus) → set_status a guid status ≡ ok a' → 1 ≤ count_admins a'
  unfolding set_status
  set_status-kept status h =
      let f : UserRow → UserRow = (λ row. record row { status = status }) in
      let test : UserRow → Bool =
        (λ user. not (not (is_active status) && is_admin user.role && leb (count_admins a) 1)) in
      let (user, got, later) =
        >>=-succeeds (get a guid)
          (λ user. guard (test user) last_admin_demoted >> ok (change a (is_live_guid guid) f)) h in
      let (allowed, done) = >>-succeeds (guard (test user) last_admin_demoted) _ later in
      rw (← ok-injective done) (
        admin_left a (is_live_guid guid) f user (live_once a guid keyed) (get-found a guid got)
          (λ few works. ground arith) some_admin)

  delete-kept : (now : ℕ) → delete a now guid ≡ ok a' → 1 ≤ count_admins a'
  unfolding delete
  delete-kept now h =
      let f : UserRow → UserRow = (λ row. record row { deleted_at = some now }) in
      let test : UserRow → Bool = (λ user. not (is_admin user.role && leb (count_admins a) 1)) in
      let (user, got, later) =
        >>=-succeeds (get a guid)
          (λ user. guard (test user) last_admin >> ok (change a (has_guid guid) f)) h in
      let (allowed, done) = >>-succeeds (guard (test user) last_admin) _ later in
      let found = get-found a guid got in
      let itself : has_guid guid user ≡ true =
        (let holds = find-holds (is_live_guid guid) a.user found in ground arith) in
      rw (← ok-injective done) (
        admin_left a (has_guid guid) f user (keyed guid)
          (find-wider (is_live_guid guid) (has_guid guid) a.user user (λ y e. ground arith) found
            itself (keyed guid))
          (λ few works. ground arith) some_admin)

  -- A deployment with a working admin - one who is active and not deleted - keeps one through every
  -- change of role or name, every change of status and every deletion that is let through, the guid
  -- of an account being its primary key.
  pub count_admins-kept :
      (now : ℕ) (name : Option (Option Text)) (role : Option UserRole) (status : UserStatus)
      → ((update a guid name role ≡ ok a') → 1 ≤ count_admins a')
        × ((set_status a guid status ≡ ok a') → 1 ≤ count_admins a')
        × ((delete a now guid ≡ ok a') → 1 ≤ count_admins a')
  count_admins-kept now name role status =
      (update-kept name role, set_status-kept status, delete-kept now)
