-- ===== src/Tests/Account.antt =====
-- The theorems on accounts at concrete calls.
use Prim.Native.String.{len}
use todo_chat_app.Prelude.{
  ◌≡◌, ◌≢◌, ◌≤◌, ◌↔◌, ◌⊎◌, refl, sym, ap, ◌∙◌, str_eq_iff, true, String, none, some, List, [], ◌∷◌,
  Has,
}
use todo_chat_app.Prelude.Text.{trim_space, to_lower}
use todo_chat_app.Prelude.Int.{pos}
use todo_chat_app.Outcome.{ok}
use todo_chat_app.Outcome.Rules.{Post}
use todo_chat_app.Model.{User, UserIdentity}
use todo_chat_app.Gorm.Laws.{ReadLaws, EditLaws, WriteLaws, Keeps}
use todo_chat_app.Gorm.Memory.{memory_table, memory-ReadLaws, memory-EditLaws, memory-WriteLaws}
use todo_chat_app.Service.Auth.{Settings, register, set_password, send_verification_email}
use todo_chat_app.Service.Auth.Passwords.{StoresUser, PasswordLaws, set_password-matches}
use todo_chat_app.Service.Auth.Register.{RegisterLaws, Undone, register-Undone}
use todo_chat_app.Service.User.{update_profile, sync_auth0_user}
use todo_chat_app.Service.User.Profile.{SavesAll, Profiled, Stored, update_profile-Profiled}
use todo_chat_app.Service.User.Consent.{
  StoresAddress, StoresIdentity, SyncLaws, Known, Fresh, sync_auth0_user-consent,
}
use todo_chat_app.Tests.Run.{running}
use todo_chat_app.Tests.World.{World, db, formats, host, start, user}

abbrev settings : Settings
settings = record { jwt_secret = "k"; access_expiry = pos 900; refresh_expiry = pos 7000 }

abbrev users : World → List User
users w = w.users

abbrev identities : World → List UserIdentity
identities w = w.identities

user_reads : ReadLaws db.users.reader users
user_reads = memory-ReadLaws _ _ _ _

abbrev StoresEmail : User → User → Type 0
StoresEmail r s = s.email ≡ r.email

email_writes : WriteLaws db.users users (λ u. u.id) StoresEmail
email_writes = memory-WriteLaws _ _ _ _ StoresEmail (λ l w. refl) (λ r w. refl) (λ r. refl)

mail_apart : (u : User) → Keeps users (send_verification_email db host formats settings u)
unfolding running
mail_apart u w = refl

register_laws : RegisterLaws db host formats settings users StoresEmail
register_laws = record { writes = email_writes; hash_apart = λ p w. refl; mail_apart = mail_apart }

register-Undone_example :
    Post
      (λ u v. Has u (users v))
      (Undone users start)
      (register db host formats settings "c" "secret 12" "" start)
register-Undone_example =
    register-Undone db host formats settings users StoresEmail register_laws "c" "secret 12" ""
      start

user_writes : WriteLaws db.users users (λ u. u.id) StoresUser
user_writes =
    memory-WriteLaws _ _ _ _ StoresUser (λ l w. refl)
      (λ r w. record { email = refl; email_verified = refl; password_hash = refl })
      (λ r. record { email = refl; email_verified = refl; password_hash = refl })

matches :
    (password hash : String) (w v : World)
    → host.generate_from_password password w ≡ ok hash v
    → host.password_matches hash password ≡ true
matches password hash w v h =
    let same : password ≡ hash = cc in (str_eq_iff hash password).1 (sym same)

password_laws : PasswordLaws db host users
password_laws = record {
  reads = user_reads;
  writes = user_writes;
  apart = λ p w. refl;
  matches = matches;
}

abbrev unset : User
unset = record (user 7 "a") { password_hash = none }

abbrev before : World
before = record start { users = unset ∷ [] }

abbrev after : World
after = record start { users = record (user 7 "a") { password_hash = some "secret 12" } ∷ [] }

set_password_runs : set_password db host formats settings 7 "secret 12" before ≡ ok tt after
unfolding running
set_password_runs = refl

set_password-matches_example :
    (8 ≤ len "secret 12")
    × ((old new : User) × Has old before.users
        × (old.id ≡ 7)
        × (old.password_hash ≡ none)
        × (new.email ≡ old.email)
        × ((hash : String) × (new.password_hash ≡ some hash)
            × (host.password_matches hash "secret 12" ≡ true))
        × ((x : User) → Has x after.users ↔ ((x ≡ new) ⊎ (Has x before.users × (x.id ≢ 7)))))
set_password-matches_example =
    set_password-matches db host formats settings users password_laws 7 "secret 12" before after
      set_password_runs

abbrev renamed : User
renamed = record (user 7 "a") { display_name = "new name"; avatar_url = ""; status_text = "away" }

update_profile_runs :
    update_profile db (λ s. none) 7 " new name " (some " ") (some "away") start
    ≡ ok renamed (record start { users = renamed ∷ user 8 "b" ∷ [] })
unfolding running
update_profile_runs = refl

abbrev after_rename : World
after_rename = record start { users = renamed ∷ user 8 "b" ∷ [] }

-- A stored user has every field of the struct but the key and the time of the update.
abbrev UpToKey : User → User → Type 0
UpToKey r s = s ≡ record r { id = s.id; updated_at = s.updated_at }

save_edits : EditLaws db.users users (λ u. u.id) UpToKey
save_edits = memory-EditLaws _ _ _ _ UpToKey (λ l w. refl) (λ r w. refl) (λ r. refl)

saves_all : SavesAll db users
saves_all u at w v h there =
    let (s, same, key, rows) = save_edits.save_rows u at w v h in
    (s, same ∙ ap (λ k. record u { id = k; updated_at = s.updated_at }) (key there), λ x. rows x)

update_profile-Profiled_example :
    (old : User) × Has old start.users
    × (old.id ≡ 7)
    × Profiled old renamed
    × Stored db users user_reads saves_all old renamed start after_rename
update_profile-Profiled_example =
    update_profile-Profiled db users user_reads saves_all (λ s. none) 7 " new name " (some " ")
      (some "away") start after_rename renamed update_profile_runs

identity_reads : ReadLaws db.identities.reader identities
identity_reads = memory-ReadLaws _ _ _ _

address_edits : EditLaws db.users users (λ u. u.id) StoresAddress
address_edits =
    memory-EditLaws _ _ _ _ StoresAddress (λ l w. refl) (λ r w. record { email = refl })
      (λ r. record { email = refl })

identity_edits : EditLaws db.identities identities (λ i. i.id) StoresIdentity
identity_edits =
    memory-EditLaws _ _ _ _ StoresIdentity (λ l w. refl)
      (λ r w. record { user_id = refl; provider_subject = refl })
      (λ r. record { user_id = refl; provider_subject = refl })

creates_apart : (u : User) → Keeps identities (db.users.create u)
unfolding memory_table
creates_apart u w = refl

saves_apart : (u : User) → Keeps identities (db.users.save u)
unfolding memory_table
saves_apart u w = refl

sync_laws : SyncLaws db users identities
sync_laws = record {
  user_reads = user_reads;
  identity_reads = identity_reads;
  user_edits = address_edits;
  identity_edits = identity_edits;
  creates_apart = creates_apart;
  saves_apart = saves_apart;
}

sync_runs :
    (user : User) × (v : World) × (sync_auth0_user db formats "g|1" "c" "" "" true start
      ≡ ok user v)
unfolding running
sync_runs = (_, _, refl)

sync_auth0_user-consent_example :
    (true ≡ true)
    × (Known db users identities sync_laws start sync_runs.1 (trim_space "g|1") sync_runs.0
        ⊎ Fresh db users identities sync_laws start sync_runs.1
            (trim_space "g|1")
            (to_lower formats.unicode (trim_space "c"))
            sync_runs.0)
sync_auth0_user-consent_example =
    sync_auth0_user-consent db users identities sync_laws formats "g|1" "c" "" "" true start
      sync_runs.1 sync_runs.0 sync_runs.2
