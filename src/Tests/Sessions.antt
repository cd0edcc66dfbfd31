-- ===== src/Tests/Sessions.antt =====
-- Sessions and hashes of passwords.
use simple_storage_service.Prelude.{◌≡◌, ◌↔◌, refl, true, false, none, some, List, [], ◌∷◌, arith}
use simple_storage_service.Prelude.Text.{Text, str, text_eq}
use simple_storage_service.Prelude.Result.{ok, err}
use simple_storage_service.Database.{UserRole, UserRow, UserSessionRow}
use simple_storage_service.Users.{Accounts, is_active}
use simple_storage_service.Sessions.{
  access_payload, AuthConfig, Jwt, SessionDraw, Tokens, invalid_refresh_token, or_refused,
  new_session, hash_password, verify_password, issue_tokens, check_refresh, rotate, refresh,
}
use simple_storage_service.Sessions.Rotation.{Exchanges, IsAdded, refresh-continues, rotate-twice}
use simple_storage_service.Sessions.Requests.{Event, refreshes, log_out, run}
use simple_storage_service.Sessions.Replay.{replay-refused}
use simple_storage_service.Sessions.Hashes.{verify_password-hash_password}
use simple_storage_service.Tests.Accounts.{account}
use simple_storage_service.Tests.Codec.{scrypt, scrypt-IsScrypt}

abbrev jwt : Jwt
jwt = record { sign = λ payload now ttl. payload.email; verify = λ token now. none }

abbrev same_text : Text → Text
same_text text = text

abbrev config : AuthConfig
config = record { access_ttl = 900; refresh_ttl = 10 }

abbrev user : UserRow
user = account 2 UserRole.user

abbrev session : UserSessionRow
session = record {
  guid = 50;
  user_guid = 2;
  refresh_token_hash = str "t";
  user_agent = none;
  expires_at = 9;
  revoked_at = none;
}

abbrev accounts : Accounts
accounts = record { user = user ∷ []; session = session ∷ [] }

abbrev draw_u : SessionDraw
draw_u = record { guid = 51; refresh_token = str "u" }

abbrev draw_v : SessionDraw
draw_v = record { guid = 52; refresh_token = str "v" }

abbrev tokens : Tokens
tokens = record { access_token = 2 ∷ []; refresh_token = str "u"; expires_in = 900 }

abbrev refreshed : Accounts
refreshed = record {
  user = user ∷ [];
  session =
      new_session jwt same_text config 5 draw_u user none
      ∷ record session { revoked_at = some 5 }
      ∷ [];
}

pub checked_t : check_refresh jwt same_text config accounts 5 (str "t") ≡ ok (session, user)
unfolding check_refresh or_refused is_active text_eq str
checked_t = refl

pub refresh_t : refresh jwt same_text config accounts 5 draw_u (str "t") ≡ ok (tokens, refreshed)
unfolding refresh check_refresh or_refused rotate issue_tokens is_active text_eq str
refresh_t = refl

refresh_expired :
    refresh jwt same_text config accounts 10 draw_u (str "t") ≡ err invalid_refresh_token
unfolding refresh check_refresh or_refused text_eq str
refresh_expired = refl

refresh-continues_example :
    (found : UserSessionRow) × (owner : UserRow) × (tokens' : Tokens) × (a : Accounts) × Exchanges
      same_text accounts 5
      (str "t")
      found
      owner
    × (owner.guid ≡ found.user_guid)
    × (refresh jwt same_text config refreshed 10005 draw_v (str "u") ≡ ok (tokens', a))
    × (tokens.access_token ≡ jwt.sign (access_payload jwt same_text config owner) 5 900)
    × (tokens'.access_token ≡ jwt.sign (access_payload jwt same_text config owner) 10005 900)
    × IsAdded jwt same_text config refreshed owner (str "u")
    × IsAdded jwt same_text config a owner tokens'.refresh_token
refresh-continues_example =
    refresh-continues jwt same_text config accounts 5 draw_u (str "t") tokens refreshed 10005 draw_v
      refresh_t (omega arith)

abbrev events : List Event
events = refreshes 6 draw_v (str "u") ∷ log_out 7 (str "v") ∷ []

pub fresh_u : text_eq (same_text (str "u")) (same_text (str "t")) ≡ false
unfolding text_eq str
fresh_u = refl

pub fresh_v : text_eq (same_text (str "v")) (same_text (str "t")) ≡ false
unfolding text_eq str
fresh_v = refl

replay-refused_example :
    refresh jwt same_text config
      (run jwt same_text config scrypt refreshed events)
      8
      draw_v
      (str "t")
    ≡ err invalid_refresh_token
unfolding text_eq str
replay-refused_example =
    replay-refused jwt same_text config scrypt accounts 5 draw_u (str "t") tokens refreshed events 8
      draw_v (omega arith) refresh_t fresh_u (fresh_v, (tt, tt))

pub other_token : text_eq (same_text (str "v")) (same_text (str "u")) ≡ false
unfolding text_eq str
other_token = refl

rotate-twice_example :
    let (one, a1) = rotate jwt same_text config accounts 5 draw_u session user in
    let (two, a2) = rotate jwt same_text config a1 5 draw_v session user in
    Exchanges same_text a2 5 one.refresh_token
      (new_session jwt same_text config 5 draw_u user none)
      user
    × Exchanges same_text a2 5 two.refresh_token
        (new_session jwt same_text config 5 draw_v user none)
        user
rotate-twice_example =
    rotate-twice jwt same_text config accounts 5 draw_u draw_v (str "t") session user checked_t refl
      other_token

verify_password-hash_password_example :
    (verify_password scrypt (str "no") (hash_password scrypt (str "yes") (1 ∷ [])) ≡ true)
    ↔ (scrypt.derive (str "yes") (1 ∷ []) 64 ≡ scrypt.derive (str "no") (1 ∷ []) 64)
unfolding str
verify_password-hash_password_example =
    verify_password-hash_password scrypt scrypt-IsScrypt (str "yes") (str "no") (1 ∷ [])
      (omega arith) (omega arith)
