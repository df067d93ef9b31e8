-- ===== src/Service/User.antt =====
-- internal/service/user_service.go
pub mod Profile
pub mod Consent
use Prim.Native.String.{len, [], ◌∷◌}
use Prim.Native.Char.{Char, code}
use todo_chat_app.Prelude.{
  ℕ, String, Bool, true, false, not, ◌&&◌, ◌||◌, Option, none, some, ltb, str_eq, ◌==◌,
  if◌then◌else◌,
}
use todo_chat_app.Prelude.Text.{Unicode, trim_space, to_lower, to_upper, is_empty}
use todo_chat_app.Outcome.{
  Error, Answer, answer, fails, Outcome, ok, err, Action, pure, raise, ◌>>=◌, ◌>>◌, ask,
  ask_optional, refuse_if, user_email_not_verified, user_not_found, user_invalid_input,
  subject_required, user_id_required, first_email_required, link_required, invalid_subject, expect,
}
use todo_chat_app.Model.{User, UserIdentity, Uuid, is_nil}
use todo_chat_app.Gorm.{Db}
use todo_chat_app.Repository.User as users
use todo_chat_app.Repository.Identity
use todo_chat_app.Service.Libs.{Formats}

-- `strings.SplitN(subject, "|", 2)`: the two parts, or none where there is no bar.
abbrev pub in_front : Char → Option (String × String) → Option (String × String)
in_front c none = none
in_front c (some parts) = some (c ∷ parts.0, parts.1)

unfoldable pub split_bar : String → Option (String × String)
split_bar [] = none
split_bar (c ∷ s) =
    let rest = split_bar s in if code c == b'|' then some ([], s) else in_front c rest

abbrev pub provider_of : Unicode → Option (String × String) → Option String
provider_of u none = none
provider_of u (some parts) = if is_empty parts.0 then none else some (to_upper u parts.0)

-- `providerFromSubject`
unfoldable pub provider_from_subject : Unicode → String → Option String
provider_from_subject u subject = provider_of u (split_bar subject)

-- `if v != "" && user.Field != v { user.Field = v; changed = true }`
abbrev pub differs : String → String → Bool
differs v old = not (is_empty v) && not (str_eq old v)

abbrev pub take_if : Bool → String → String → String
take_if b v old = if b then v else old

-- The struct that `SyncAuth0User` hands to the repository for a new user.
abbrev pub new_user : String → String → String → User
new_user email name avatar = record {
  id = 0;
  email = email;
  display_name = name;
  avatar_url = avatar;
  status_text = "";
  is_active = false;
  email_verified = true;
  password_hash = none;
  created_at = 0;
  updated_at = 0;
}

abbrev pub new_identity : Uuid → String → String → String → Bool → UserIdentity
new_identity user provider subject email primary = record {
  id = 0;
  user_id = user;
  provider = provider;
  provider_subject = subject;
  email_at_link_time = email;
  is_primary = primary;
  linked_at = 0;
  created_at = 0;
}

-- An optional text after `strings.TrimSpace`.
abbrev pub trimmed : Option String → Option String
trimmed none = none
trimmed (some s) = some (trim_space s)

-- `url.ParseRequestURI`, as far as it is asked for the scheme.
abbrev pub is_web : Option String → Bool
is_web none = false
is_web (some scheme) = str_eq scheme "http" || str_eq scheme "https"

abbrev pub is_bad_avatar : (String → Option String) → Option String → Bool
is_bad_avatar scheme none = false
is_bad_avatar scheme (some url) = not (is_empty url) && not (is_web (scheme url))

abbrev pub is_bad_status : Option String → Bool
is_bad_status none = false
is_bad_status (some text) = ltb 150 (len text)

-- `if update && user.Field != v`
abbrev pub differs_some : Option String → String → Bool
differs_some none old = false
differs_some (some v) old = not (str_eq old v)

abbrev pub take_some : Option String → String → String
take_some none old = old
take_some (some v) old = v

module _ {W : Type 0} (db : Db W) where
  -- `updateUserProfile`, with the user as it leaves it
  unfoldable pub update_user_profile : User → String → String → String → Action W User
  update_user_profile user email name avatar =
      let new_email = differs email user.email in
      let new_name = differs name user.display_name in
      let new_avatar = differs avatar user.avatar_url in
      let changed = record user {
        email = take_if new_email email user.email;
        display_name = take_if new_name name user.display_name;
        avatar_url = take_if new_avatar avatar user.avatar_url;
      } in
      if new_email || new_name || new_avatar then users.update db changed else pure user

  unfoldable pub get_by_auth0_id : String → Action W User
  get_by_auth0_id raw = do
    let subject = trim_space raw
    refuse_if (is_empty subject) subject_required
    identity ← ask (Identity.find_by_provider_subject db subject)
    ask (users.find_by_id db identity.user_id)

  unfoldable pub get_by_id : Uuid → Action W User
  get_by_id id = do refuse_if (is_nil id) user_id_required; ask (users.find_by_id db id)

  -- The fields of `UpdateProfile` after its checks, with the user as it leaves it.
  unfoldable pub store_profile : User → String → Option String → Option String → Action W User
  store_profile user name avatar status =
      let new_name = differs name user.display_name in
      let new_avatar = differs_some avatar user.avatar_url in
      let new_status = differs_some status user.status_text in
      let changed = record user {
        display_name = take_if new_name name user.display_name;
        avatar_url = take_some avatar user.avatar_url;
        status_text = take_some status user.status_text;
      } in
      if new_name || new_avatar || new_status then users.update db changed else pure user

  unfoldable pub update_profile :
      (String → Option String) → Uuid → String → Option String → Option String → Action W User
  update_profile scheme id raw avatar status = do
    refuse_if (is_nil id) user_not_found
    let name = trim_space raw
    refuse_if (ltb 100 (len name)) user_invalid_input
    refuse_if (is_bad_avatar scheme (trimmed avatar)) user_invalid_input
    refuse_if (is_bad_status (trimmed status)) user_invalid_input
    user ← ask (users.find_by_id db id)
    store_profile user name (trimmed avatar) (trimmed status)

  -- Concurrent create: fall back to the existing row.
  abbrev pub or_existing : Error → Answer User → W → Outcome W User
  or_existing e (answer user) v = ok user v
  or_existing e (fails x) v = err e v

  abbrev pub created_or_existing : String → Outcome W User → Outcome W User
  created_or_existing email (ok user v) = ok user v
  created_or_existing email (err e v) = or_existing e (users.find_by_email db email v) v

  unfoldable pub create_or_find : String → User → Action W User
  create_or_find email user w = created_or_existing email (users.create db user w)

  -- The identity is there already: its user, unless nothing is found.
  abbrev pub owner_of : Error → Answer UserIdentity → Action W User
  owner_of e (answer identity) = ask (users.find_by_id db identity.user_id)
  owner_of e (fails x) = raise e

  abbrev pub linked_or_owner : User → String → Outcome W (Unit {0}) → Outcome W User
  linked_or_owner user subject (ok a v) = ok user v
  linked_or_owner user subject (err e v) =
      owner_of e (Identity.find_by_provider_subject db subject v) v

  unfoldable pub link_or_find : User → UserIdentity → Action W User
  link_or_find user identity w =
      linked_or_owner user identity.provider_subject (Identity.create db identity w)

  unfoldable pub refuse_existing : String → Option User → Action W (Unit {0})
  refuse_existing subject none = pure tt
  refuse_existing subject (some user) = raise (link_required subject user.email)

  -- The part of `SyncAuth0User` for a subject that is known, and the part for a new one.
  unfoldable pub sync_known :
      String → String → String → String → String → Option UserIdentity → Action W User
  sync_known provider subject email name avatar (some identity) = do
    existing ← ask (users.find_by_id db identity.user_id)
    update_user_profile existing email name avatar
  sync_known provider subject email name avatar none = do
    refuse_if (is_empty email) first_email_required
    by_email ← ask_optional (users.find_by_email db email)
    refuse_existing subject by_email
    let display = if is_empty name then email else name
    user ← create_or_find email (new_user email display avatar)
    link_or_find user (new_identity user.id provider subject email true)

  unfoldable pub sync_auth0_user :
      Formats → String → String → String → String → Bool → Action W User
  sync_auth0_user f raw_subject raw_email raw_name raw_avatar verified = do
    let subject = trim_space raw_subject
    let email = to_lower f.unicode (trim_space raw_email)
    refuse_if (is_empty subject) subject_required
    provider ← expect invalid_subject (provider_from_subject f.unicode subject)
    refuse_if (not verified) user_email_not_verified
    known ← ask_optional (Identity.find_by_provider_subject db subject)
    sync_known provider subject email (trim_space raw_name) (trim_space raw_avatar) known
