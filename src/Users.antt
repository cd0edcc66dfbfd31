-- ===== src/Users.antt =====
-- libs/domains/src/users/users.service.ts: accounts, with `revokeSessions` of
-- libs/domains/src/auth/auth.service.ts.
pub mod LastAdmin
pub mod Passwords
use simple_storage_service.Prelude.{
  ℕ, ◌≡◌, Bool, true, false, not, ◌&&◌, ◌||◌, Option, none, some, List, [], ◌∷◌, map,
}
use simple_storage_service.Prelude.Tests.{ltb, leb, ◌==◌, if◌then◌else◌, is_some}
use simple_storage_service.Prelude.Lists.{any, find, filter, length}
use simple_storage_service.Prelude.Query.{update_where, count}
use simple_storage_service.Prelude.Text.{Text, text_eq, lower_unit}
use simple_storage_service.Prelude.Result.{Result, ok, err, ◌>>=◌, ◌>>◌, guard}
use simple_storage_service.Database.{UserRole, UserStatus, UserRow, UserSessionRow}

pub data UsersError : Type 0 where
  user_not_found email_already_used last_admin invalid_current_password last_admin_demoted :
      UsersError

pub record Accounts : Type 0 where
  pub user : List UserRow
  pub session : List UserSessionRow

abbrev pub is_live : UserRow → Bool
is_live row = not (is_some row.deleted_at)

abbrev pub has_guid : ℕ → UserRow → Bool
has_guid guid row = row.guid == guid

abbrev pub is_live_guid : ℕ → UserRow → Bool
is_live_guid guid row = row.guid == guid && is_live row

unfoldable pub is_admin : UserRole → Bool
is_admin UserRole.admin = true
is_admin UserRole.user = false

unfoldable pub is_active : UserStatus → Bool
is_active UserStatus.active = true
is_active UserStatus.disabled = false

unfoldable pub same_role : UserRole → UserRole → Bool
same_role UserRole.admin UserRole.admin = true
same_role UserRole.user UserRole.user = true
same_role _ _ = false

-- An admin who could still sign in.
abbrev pub is_working_admin : UserRow → Bool
is_working_admin row = is_admin row.role && is_active row.status && is_live row

unfoldable pub count_admins : Accounts → ℕ
count_admins a = count is_working_admin a.user

or_missing : Option UserRow → Result UsersError UserRow
or_missing none = err user_not_found
or_missing (some row) = ok row

unfoldable pub get : Accounts → ℕ → Result UsersError UserRow
unfolding or_missing
get a guid = or_missing (find (is_live_guid guid) a.user)

-- The unique index on `email` covers deleted accounts too.
unfoldable pub is_email_taken : Accounts → Text → Bool
is_email_taken a email = any (λ (row : UserRow). text_eq row.email email) a.user

-- `guid` and `now` are drawn by the database, and `password_hash` by `hashPassword`.
unfoldable pub create :
    Accounts → ℕ → ℕ → Text → Text → Option Text → UserRole → Result UsersError (UserRow × Accounts)
create a guid now email password_hash name role = do
  guard (not (is_email_taken a (map lower_unit email))) email_already_used
  let created : UserRow = record {
    guid = guid;
    email = map lower_unit email;
    name = name;
    password_hash = password_hash;
    role = role;
    status = UserStatus.active;
    quota_bytes = none;
    last_login_at = none;
    created_at = now;
    deleted_at = none;
  }
  ok (created, record a { user = created ∷ a.user })

-- `role && role !== user.role && user.role === UserRole.admin`.
unfoldable pub demotes : Option UserRole → UserRole → Bool
demotes none current = false
demotes (some role) current = not (same_role role current) && is_admin current

-- A column that is set only if its value is given; `some none` clears the name.
abbrev pub set_name : Option (Option Text) → UserRow → UserRow
set_name none row = row
set_name (some name) row = record row { name = name }

abbrev pub set_role : Option UserRole → UserRow → UserRow
set_role none row = row
set_role (some role) row = record row { role = role }

abbrev pub change : Accounts → (UserRow → Bool) → (UserRow → UserRow) → Accounts
change a p f = record a { user = update_where p f a.user }

-- The row that `get` found is still there for the update behind it.
unfoldable pub update :
    Accounts → ℕ → Option (Option Text) → Option UserRole → Result UsersError Accounts
update a guid name role = do
  user ← get a guid
  guard (not (demotes role user.role && leb (count_admins a) 1)) last_admin_demoted
  ok (change a (is_live_guid guid) (λ row. set_role role (set_name name row)))

unfoldable pub set_status : Accounts → ℕ → UserStatus → Result UsersError Accounts
set_status a guid status = do
  user ← get a guid
  guard (not (not (is_active status) && is_admin user.role && leb (count_admins a) 1))
      last_admin_demoted
  ok (change a (is_live_guid guid) (λ row. record row { status = status }))

unfoldable pub set_quota : Accounts → ℕ → Option ℕ → Result UsersError Accounts
set_quota a guid quota_bytes = do
  user ← get a guid
  ok (change a (is_live_guid guid) (λ row. record row { quota_bytes = quota_bytes }))

unfoldable pub delete : Accounts → ℕ → ℕ → Result UsersError Accounts
delete a now guid = do
  user ← get a guid
  guard (not (is_admin user.role && leb (count_admins a) 1)) last_admin
  ok (change a (has_guid guid) (λ row. record row { deleted_at = some now }))

-- `revokeSessions`: every session of the account that is not revoked yet.
unfoldable pub revoke_sessions : Accounts → ℕ → ℕ → Accounts
revoke_sessions a now user_guid = record a {
  session =
      update_where (λ (s : UserSessionRow). s.user_guid == user_guid && not (is_some s.revoked_at))
        (λ s. record s { revoked_at = some now }) a.session;
}

-- `verify` is `verifyPassword`, and `password_hash` what `hashPassword` makes of the new password.
module _ (verify : Text → Text → Bool) where
  abbrev pub or_empty : Option Text → Text
  or_empty none = []
  or_empty (some text) = text

  unfoldable pub set_password :
      Accounts → ℕ → ℕ → Text → Option Text → ℕ → Result UsersError Accounts
  set_password a now guid password_hash current_password actor_guid = do
    found ← get a guid
    guard (not (actor_guid == guid && not (verify (or_empty current_password) found.password_hash)))
        invalid_current_password
    ok (
        revoke_sessions
          (change a (has_guid guid) (λ row. record row { password_hash = password_hash })) now guid)
