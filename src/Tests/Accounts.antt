-- ===== src/Tests/Accounts.antt =====
-- Accounts.
use simple_storage_service.Prelude.{ℕ, ◌≤◌, ◌≡◌, refl, Bool, none, some, [], ◌∷◌, arith}
use simple_storage_service.Prelude.Text.{Text, str, text_eq}
use simple_storage_service.Prelude.Result.{ok, err}
use simple_storage_service.Database.{UserRole, UserStatus, UserRow, UserSessionRow}
use simple_storage_service.Users.{
  last_admin_demoted, Accounts, count_admins, is_admin, is_active, same_role, get, demotes, update,
  set_status, delete, revoke_sessions, set_password,
}
use simple_storage_service.Users.LastAdmin.{IsKeyed, count_admins-kept}

abbrev pub account : ℕ → UserRole → UserRow
account guid role = record {
  guid = guid;
  email = guid ∷ [];
  name = none;
  password_hash = str "h";
  role = role;
  status = UserStatus.active;
  quota_bytes = none;
  last_login_at = none;
  created_at = 0;
  deleted_at = none;
}

abbrev session : UserSessionRow
session = record {
  guid = 50;
  user_guid = 2;
  refresh_token_hash = [];
  user_agent = none;
  expires_at = 9;
  revoked_at = none;
}

abbrev accounts : Accounts
accounts = record {
  user = account 1 UserRole.admin ∷ account 2 UserRole.admin ∷ [];
  session = session ∷ [];
}

abbrev one_admin : Accounts
one_admin = record accounts { user = account 1 UserRole.admin ∷ account 2 UserRole.user ∷ [] }

pub accounts-IsKeyed : IsKeyed accounts
accounts-IsKeyed guid = ground arith

pub two_admins : 1 ≤ count_admins accounts
unfolding count_admins is_admin is_active
two_admins = omega arith

last_admin_stays : update one_admin 1 none (some UserRole.user) ≡ err last_admin_demoted
unfolding update get demotes same_role is_admin is_active count_admins
last_admin_stays = refl

count_admins-kept_example :
    ((update accounts 2 none (some UserRole.user) ≡ ok one_admin) → 1 ≤ count_admins one_admin)
    × ((set_status accounts 2 UserStatus.disabled ≡ ok one_admin) → 1 ≤ count_admins one_admin)
    × ((delete accounts 7 2 ≡ ok one_admin) → 1 ≤ count_admins one_admin)
count_admins-kept_example =
    count_admins-kept accounts one_admin 2 accounts-IsKeyed two_admins 7 none (some UserRole.user)
      UserStatus.disabled

abbrev matches : Text → Text → Bool
matches password hash = text_eq password hash

abbrev changed : Accounts
changed = record {
  user =
      account 1 UserRole.admin
      ∷ record (account 2 UserRole.admin) { password_hash = str "new" }
      ∷ [];
  session = record session { revoked_at = some 8 } ∷ [];
}

pub change_password : set_password matches accounts 8 2 (str "new") (some (str "h")) 2 ≡ ok changed
unfolding set_password get revoke_sessions str text_eq
change_password = refl
