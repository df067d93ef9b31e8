-- ===== src/Service/Auth/Passwords.antt =====
-- `SetPassword` of internal/service/local_auth_service.go.
use todo_chat_app.Prelude.{
  ◌≤◌, ◌≡◌, ◌≢◌, refl, sym, ap, ◌∙◌, ◌↔◌, ◌⊎◌, true, false, String, Option, none, some, List, Has,
  arith, ==_iff,
}
use Prim.Native.String.{len}
use todo_chat_app.Outcome.{ok, answer}
use todo_chat_app.Outcome.Rules.{bind-eq-ok, ask-eq-ok, refuse-eq-ok, returned_state}
use todo_chat_app.Model.{User, Uuid}
use todo_chat_app.Gorm.{Db}
use todo_chat_app.Gorm.Laws.{ReadLaws, WriteLaws, Keeps, state_of}
use todo_chat_app.Repository.User as users
use todo_chat_app.Repository.User.{has_id}
use todo_chat_app.Repository.User.Laws.{update_ok}
use todo_chat_app.Service.Libs.{Formats, Host}
use todo_chat_app.Service.Auth.{Settings, is_some, set_password}

-- What the database keeps of a user that is handed to it.
pub record StoresUser (r s : User) : Type 0 where
  pub email : s.email ≡ r.email
  pub email_verified : s.email_verified ≡ r.email_verified
  pub password_hash : s.password_hash ≡ r.password_hash

-- What setting a password relies on: hashing touches no user, and a fresh hash matches its password.
pub record PasswordLaws {W : Type 0} (db : Db W) (host : Host W) (rows : W → List User)
    : Type 0 where
  pub reads : ReadLaws db.users.reader rows
  pub writes : WriteLaws db.users rows (λ u. u.id) StoresUser
  pub apart : (password : String) → Keeps rows (host.generate_from_password password)
  pub matches :
      (password hash : String) (w v : W)
      → host.generate_from_password password w ≡ ok hash v
      → host.password_matches hash password ≡ true

unset : {A : Type 0} (o : Option A) → is_some o ≡ false → o ≡ none
unset none h = refl
unset (some a) h = cc

module _ {W : Type 0} (db : Db W) (host : Host W) (f : Formats) (s : Settings)
    (rows : W → List User) (laws : PasswordLaws db host rows) where
  find_by_id-Has :
      (id : Uuid) (w : W) (user : User)
      → users.find_by_id db id w ≡ answer user
      → Has user (rows w) × (user.id ≡ id)
  unfolding users.find_by_id
  find_by_id-Has id w user h =
      let (has, hit) = laws.reads.first_has (has_id id) w user h in (has, (==_iff user.id id).0 hit)

  stored_hash :
      (user given : User) (hash : String) (w v : W)
      → users.update db (record user { password_hash = some hash }) w ≡ ok given v
      → (new : User) × (new.password_hash ≡ some hash)
        × (new.email ≡ user.email)
        × ((x : User) → Has x (rows v) ↔ ((x ≡ new) ⊎ (Has x (rows w) × (x.id ≢ user.id))))
  stored_hash user given hash w v h =
      let (at, saved, _) = update_ok db _ given w v h in
      let (new, stored, _, same) = laws.writes.save_rows _ at w v saved in
      (new, stored.password_hash, stored.email, same)

  -- A successful `SetPassword` had a password of at least 8 bytes and a stored user with the given id
  -- and no password; afterwards a row with this user's address has a hash that matches the password,
  -- and all other rows are those of before with another id.
  pub set_password-matches :
      (id : Uuid) (password : String) (w v : W)
      → set_password db host f s id password w ≡ ok tt v
      → (8 ≤ len password)
        × ((old new : User) × Has old (rows w)
            × (old.id ≡ id)
            × (old.password_hash ≡ none)
            × (new.email ≡ old.email)
            × ((hash : String) × (new.password_hash ≡ some hash)
                × (host.password_matches hash password ≡ true))
            × ((x : User) → Has x (rows v) ↔ ((x ≡ new) ⊎ (Has x (rows w) × (x.id ≢ id)))))
  unfolding set_password
  set_password-matches id password w v h =
      let (long, h1) = refuse-eq-ok _ _ _ h in
      let (old, found, h2) = ask-eq-ok _ _ h1 in
      let (free, h3) = refuse-eq-ok _ _ _ h2 in
      let (hash, u, hashed, h4) = bind-eq-ok (host.generate_from_password password) _ h3 in
      let (given, t, saved, done) =
        bind-eq-ok (users.update db (record old { password_hash = some hash })) _ h4 in
      let (has, hit) = find_by_id-Has id w old found in
      let (new, kept, email, same) =
        stored_hash old given hash u v (rw (returned_state done) at saved) in
      let apart : rows u ≡ rows w =
        ap (λ o. rows (state_of o)) (sym hashed) ∙ laws.apart password w in
      (
        ground arith,
        (
          old,
          new,
          has,
          hit,
          unset old.password_hash free,
          email,
          (hash, kept, laws.matches password hash w u hashed),
          moved new old.id id u w v apart hit same,
        ),
      )
    where
      moved :
          (new : User) (i j : Uuid) (u w v : W)
          → rows u ≡ rows w
          → i ≡ j
          → ((x : User) → Has x (rows v) ↔ ((x ≡ new) ⊎ (Has x (rows u) × (x.id ≢ i))))
          → (x : User) → Has x (rows v) ↔ ((x ≡ new) ⊎ (Has x (rows w) × (x.id ≢ j)))
      moved new i j u w v k e same x = rw (← k, ← e) (same x)
