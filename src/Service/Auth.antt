-- ===== src/Service/Auth.antt =====
-- internal/service/local_auth_service.go
pub mod Rotation
pub mod Access
pub mod Logout
pub mod Passwords
pub mod Verify
pub mod Register
use Prim.Native.String.{len}
use todo_chat_app.Prelude.{
  ℕ, ◌+◌, ◌-◌, ◌*◌, ◌/◌, String, Bool, true, false, not, ◌||◌, Option, none, some, ltb, str_eq,
  ◌==◌, if◌then◌else◌,
}
use todo_chat_app.Prelude.Int.{ℤ, pos, negsuc, mul_int}
use todo_chat_app.Prelude.Text.{trim_space, to_lower, is_empty}
use todo_chat_app.Outcome.{
  Error, Answer, answer, fails, Outcome, ok, err, Action, pure, raise, ◌>>=◌, ◌>>◌, ask, ask_or,
  ask_else, ask_optional, ignore_error, look, refuse_if, email_required, password_too_short,
  email_taken, rollback_failed, verification_email_rate_limited, invalid_credentials,
  no_password_set, email_not_verified, invalid_verification_token, invalid_pending_token,
  link_conflict, password_already_set, is_not_found, rename, expect,
}
use todo_chat_app.Model.{
  User, RefreshToken, EmailVerificationToken, UserIdentity, Uuid, Time, is_nil, hour, minute,
}
use todo_chat_app.Gorm.{Db}
use todo_chat_app.Repository.User as users
use todo_chat_app.Repository.Token
use todo_chat_app.Repository.Verification
use todo_chat_app.Repository.Identity
use todo_chat_app.Service.Libs.{Formats, Host, no_claims}
use todo_chat_app.Service.User.{provider_from_subject, new_identity}

abbrev pub local_issuer : String
local_issuer = "kashflow"

abbrev pub link_issuer : String
link_issuer = "kashflow-link"

abbrev pub verification_token_expiry : Time
verification_token_expiry = 24 * hour

abbrev pub resend_verification_cooldown : Time
resend_verification_cooldown = 1 * minute

-- `t.Unix()`
abbrev pub unix : Time → ℕ
unix t = t / 1000000000

pub record TokenPair : Type 0 where
  pub access_token : String
  pub refresh_token : String

-- `t.Add(d)`; a time before the epoch is the epoch.
abbrev pub add_time : Time → ℤ → Time
add_time t (pos n) = t + n
add_time t (negsuc n) = t - (n + 1)

-- What `NewLocalAuthService` takes from the configuration.
pub record Settings : Type 0 where
  pub jwt_secret : String
  pub access_expiry : ℤ
  pub refresh_expiry : ℤ

-- `NewLocalAuthService`, with the secret, the minutes and the days of the configuration. A
-- `time.Duration` is an `int64`, and its products wrap around.
unfoldable pub new_local_auth_service : String → ℤ → ℤ → Option Settings
new_local_auth_service secret minutes days =
    if is_empty (trim_space secret)
    then none
    else some (record {
      jwt_secret = secret;
      access_expiry = mul_int minutes (pos minute);
      refresh_expiry = mul_int (mul_int days (pos 24)) (pos hour);
    })

abbrev pub is_some : {A : Type 0} → Option A → Bool
is_some none = false
is_some (some a) = true

-- The structs that the service hands to the repositories.
abbrev pub registered : String → String → String → User
registered email name hash = record {
  id = 0;
  email = email;
  display_name = name;
  avatar_url = "";
  status_text = "";
  is_active = false;
  email_verified = false;
  password_hash = some hash;
  created_at = 0;
  updated_at = 0;
}

abbrev pub new_refresh_token : Uuid → String → Time → RefreshToken
new_refresh_token user hash expires = record {
  id = 0;
  user_id = user;
  token_hash = hash;
  expires_at = expires;
  created_at = 0;
}

abbrev pub new_verification : Uuid → String → Time → EmailVerificationToken
new_verification user hash expires = record {
  id = 0;
  user_id = user;
  token_hash = hash;
  expires_at = expires;
  created_at = 0;
}

-- `latest != nil && time.Since(latest.CreatedAt) < resendVerificationCooldown`
abbrev pub is_recent : Time → Option EmailVerificationToken → Bool
is_recent now none = false
is_recent now (some t) = ltb now (t.created_at + resend_verification_cooldown)

-- `hashToken`
unfoldable pub hash_token : Formats → String → String
hash_token f raw = f.hex (f.sha256 raw)

module _ {W : Type 0} (db : Db W) (host : Host W) (f : Formats) (s : Settings) where
  -- `generateRandomToken`
  unfoldable pub generate_random_token : Action W String
  generate_random_token = do bytes ← host.rand_read 32; pure (f.hex bytes)

  unfoldable pub send_verification_email : User → Action W (Unit {0})
  send_verification_email user = do
    raw ← generate_random_token
    ignore_error (Verification.delete_by_user_id db user.id)
    now ← look host.now
    Verification.create db
        (new_verification user.id (hash_token f raw) (now + verification_token_expiry))
    host.send_verification_email user.email raw

  unfoldable pub issue_token_pair : Uuid → Action W TokenPair
  issue_token_pair user = do
    now ← look host.now
    access ← ask (
        host.sign s.jwt_secret (record no_claims {
          sub = f.show_uuid user;
          iss = local_issuer;
          iat = unix now;
          exp = unix (add_time now s.access_expiry);
        }))
    raw ← generate_random_token
    Token.save db (new_refresh_token user (hash_token f raw) (add_time now s.refresh_expiry))
    pure (record { access_token = access; refresh_token = raw })

  -- The last part of `Register`: a user whose mail cannot be sent is deleted again.
  abbrev pub undo_result : Error → Outcome W (Unit {0}) → Outcome W User
  undo_result e (ok a v) = err e v
  undo_result e (err x v) = err (rollback_failed e) v

  abbrev pub mailed_or_undone : User → Outcome W (Unit {0}) → Outcome W User
  mailed_or_undone user (ok a v) = ok user v
  mailed_or_undone user (err e v) = undo_result e (users.delete_by_id db user.id v)

  unfoldable pub mail_or_undo : User → Action W User
  mail_or_undo user w = mailed_or_undone user (send_verification_email user w)

  unfoldable pub register : String → String → String → Action W User
  register raw_email password raw_name = do
    let email = to_lower f.unicode (trim_space raw_email)
    let name = trim_space raw_name
    refuse_if (is_empty email) email_required
    refuse_if (ltb (len password) 8) password_too_short
    taken ← ask_optional (users.find_by_email db email)
    refuse_if (is_some taken) email_taken
    hash ← host.generate_from_password password
    user ← users.create db (registered email (if is_empty name then email else name) hash)
    mail_or_undo user

  unfoldable pub resend_to : Option User → Action W (Unit {0})
  resend_to none = pure tt
  resend_to (some user) = if is_nil user.id || user.email_verified then pure tt else (do
    latest ← ask_optional (Verification.find_latest_by_user_id db user.id)
    now ← look host.now
    refuse_if (is_recent now latest) verification_email_rate_limited
    send_verification_email user)

  unfoldable pub resend_verification : String → Action W (Unit {0})
  resend_verification raw = do
    let email = to_lower f.unicode (trim_space raw)
    refuse_if (is_empty email) email_required
    user ← ask_optional (users.find_by_email db email)
    resend_to user

  unfoldable pub login : String → String → Action W (User × TokenPair)
  login raw password = do
    let email = to_lower f.unicode (trim_space raw)
    user ← ask_or invalid_credentials (users.find_by_email db email)
    hash ← expect no_password_set user.password_hash
    refuse_if (not (host.password_matches hash password)) invalid_credentials
    refuse_if (not user.email_verified) email_not_verified
    pair ← issue_token_pair user.id
    pure (user, pair)

  -- The error of `ConsumeValidByHash` that says that there is no such token.
  abbrev pub no_token : Outcome W Uuid → Outcome W Uuid
  no_token (ok user v) = ok user v
  no_token (err e v) = err (rename invalid_verification_token e) v

  unfoldable pub consume : String → Time → Action W Uuid
  consume hash now w = no_token (Verification.consume_valid_by_hash db hash now w)

  unfoldable pub verify_email : String → Action W (User × TokenPair)
  verify_email raw = do
    now ← look host.now
    id ← consume (hash_token f raw) now
    user ← ask (users.find_by_id db id)
    verified ← users.update db (record user { email_verified = true })
    pair ← issue_token_pair user.id
    pure (verified, pair)

  -- An expired token is deleted, whether that works or not, and refused.
  unfoldable pub rotate : String → RefreshToken → Time → Action W TokenPair
  rotate hash stored now =
      if ltb stored.expires_at now
      then (do ignore_error (Token.delete_by_hash db hash); raise invalid_credentials)
      else (do Token.delete_by_hash db hash; issue_token_pair stored.user_id)

  unfoldable pub refresh : String → Action W TokenPair
  refresh raw = do
    stored ← ask_else invalid_credentials (Token.find_by_hash db (hash_token f raw))
    now ← look host.now
    rotate (hash_token f raw) stored now

  unfoldable pub logout : String → Action W (Unit {0})
  logout raw = ignore_error (Token.delete_by_hash db (hash_token f raw))

  -- What `ConfirmAccountLink` makes of an identity that it could not create.
  abbrev pub linked_before : User → Error → Answer UserIdentity → Action W (Unit {0})
  linked_before user e (fails x) = raise e
  linked_before user e (answer i) =
      if is_nil i.user_id
      then raise e
      else if i.user_id == user.id
      then pure tt
      else raise link_conflict

  abbrev pub linked : User → String → Outcome W (Unit {0}) → Outcome W (Unit {0})
  linked user subject (ok a v) = ok tt v
  linked user subject (err e v) =
      linked_before user e (Identity.find_by_provider_subject db subject v) v

  unfoldable pub link_identity : User → UserIdentity → Action W (Unit {0})
  link_identity user i w = linked user i.provider_subject (Identity.create db i w)

  unfoldable pub confirm_verified : User → Action W User
  confirm_verified user =
      if user.email_verified
      then pure user
      else users.update db (record user { email_verified = true })

  unfoldable pub confirm_account_link : String → String → Action W (User × TokenPair)
  confirm_account_link pending password = do
    claims ← ask_else invalid_pending_token (host.parse_hs256 s.jwt_secret pending)
    refuse_if (not (str_eq claims.iss link_issuer)) invalid_pending_token
    refuse_if (is_empty claims.sub || is_empty claims.email) invalid_pending_token
    user ← ask_else invalid_pending_token (users.find_by_email db claims.email)
    refuse_if (is_nil user.id) invalid_pending_token
    hash ← expect no_password_set user.password_hash
    refuse_if (not (host.password_matches hash password)) invalid_credentials
    provider ← expect invalid_pending_token (provider_from_subject f.unicode claims.sub)
    link_identity user (new_identity user.id provider claims.sub claims.email false)
    confirmed ← confirm_verified user
    pair ← issue_token_pair user.id
    pure (confirmed, pair)

  unfoldable pub set_password : Uuid → String → Action W (Unit {0})
  set_password id password = do
    refuse_if (ltb (len password) 8) password_too_short
    user ← ask (users.find_by_id db id)
    refuse_if (is_some user.password_hash) password_already_set
    hash ← host.generate_from_password password
    _ ← users.update db (record user { password_hash = some hash })
    pure tt
