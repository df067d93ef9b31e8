-- ===== src/Service/User/Profile.antt =====
-- `UpdateProfile` of internal/service/user_service.go.
use Prim.Native.String.{len}
use todo_chat_app.Prelude.{
  ◌≤◌, ◌≡◌, ◌≢◌, ◌↔◌, refl, sym, ◌⊎◌, inl, inr, Bool, true, false, ◌||◌, String, Option, none, some,
  List, Has, arith, Bool-cases, ltb,
}
use todo_chat_app.Prelude.Text.{trim_space}
use todo_chat_app.Outcome.{ok}
use todo_chat_app.Outcome.Rules.{ask-eq-ok, refuse-eq-ok, returned_state, returned_value}
use todo_chat_app.Model.{User, Uuid, Time}
use todo_chat_app.Gorm.{Db}
use todo_chat_app.Gorm.Laws.{ReadLaws}
use todo_chat_app.Repository.User.Laws.{update_ok, find_by_id_ok}
use todo_chat_app.Service.User.{
  trimmed, is_bad_status, differs, differs_some, take_if, take_some, store_profile, update_profile,
}

-- A change of the profile: of the name, the picture, the status and the time of the update only, the
-- first and the third within their bounds.
pub record Profiled (old new : User) : Type 0 where
  pub id : new.id ≡ old.id
  pub email : new.email ≡ old.email
  pub email_verified : new.email_verified ≡ old.email_verified
  pub is_active : new.is_active ≡ old.is_active
  pub created_at : new.created_at ≡ old.created_at
  pub password_hash : new.password_hash ≡ old.password_hash
  pub name : (new.display_name ≡ old.display_name) ⊎ (len new.display_name ≤ 100)
  pub status : (new.status_text ≡ old.status_text) ⊎ (len new.status_text ≤ 150)

taken_if :
    (b : Bool) (v old : String)
    → ltb 100 (len v) ≡ false
    → (take_if b v old ≡ old) ⊎ (len (take_if b v old) ≤ 100)
taken_if true v old h = inr (ground arith)
taken_if false v old h = inl refl

taken_some :
    (o : Option String) (old : String)
    → is_bad_status o ≡ false
    → (take_some o old ≡ old) ⊎ (len (take_some o old) ≤ 150)
taken_some none old h = inl refl
taken_some (some v) old h = inr (ground arith)

unchanged : (old : User) → Profiled old old
unchanged old = record {
  id = refl;
  email = refl;
  email_verified = refl;
  is_active = refl;
  created_at = refl;
  password_hash = refl;
  name = inl refl;
  status = inl refl;
}

module _ {W : Type 0} (db : Db W) (rows : W → List User) where
  -- The table holds `new` in place of the row with its key, up to the time of the update.
  abbrev pub Replaced : User → W → W → Type 0
  Replaced new w v =
      (s : User) × (s ≡ record new { updated_at = s.updated_at })
      × ((x : User) → Has x (rows v) ↔ ((x ≡ s) ⊎ (Has x (rows w) × (x.id ≢ new.id))))

  -- `Save` of a struct with a key writes every column of the row with this key.
  abbrev pub SavesAll : Type 0
  SavesAll =
      (u : User) (at : Time) (w v : W) → db.users.save u w ≡ ok at v → u.id ≢ 0 → Replaced u w v

module _ {W : Type 0} (db : Db W) (rows : W → List User) (reads : ReadLaws db.users.reader rows)
    (saves : SavesAll db rows) where
  -- What a call did to the rows: nothing, or the row of the user became what it returned.
  abbrev pub Stored : User → User → W → W → Type 0
  Stored old new w v = ((new ≡ old) × (v ≡ w)) ⊎ Replaced db rows new w v

  touched :
      (u : User) (at : Time) (w v : W)
      → Replaced db rows u w v
      → Replaced db rows (record u { updated_at = at }) w v
  touched u at w v (s, same, r) = (s, same, r)

  store_profile-Profiled :
      (old new : User) (name : String) (avatar status : Option String) (w v : W)
      → old.id ≢ 0
      → ltb 100 (len name) ≡ false
      → is_bad_status status ≡ false
      → store_profile db old name avatar status w ≡ ok new v
      → Profiled old new × Stored old new w v
  unfolding store_profile
  store_profile-Profiled old new name avatar status w v there short brief h =
      elim (Bool-cases (
        differs name old.display_name
        || differs_some avatar old.avatar_url
        || differs_some status old.status_text)) [
          | inl some_change ↦
              let changed : User = record old {
                display_name = take_if (differs name old.display_name) name old.display_name;
                avatar_url = take_some avatar old.avatar_url;
                status_text = take_some status old.status_text;
              } in
              let (at, saved, back) = update_ok db changed new w v (rw some_change at h) in
              (
                rw back record {
                  id = refl;
                  email = refl;
                  email_verified = refl;
                  is_active = refl;
                  created_at = refl;
                  password_hash = refl;
                  name = taken_if (differs name old.display_name) name old.display_name short;
                  status = taken_some status old.status_text brief;
                },
                inr (rw back (touched changed at w v (saves changed at w v saved there))),
              )
          | inr no_change ↦
              let back = rw no_change at h in
              let same : old ≡ new = returned_value back in
              (rw (← same) (unchanged old), inl (sym same, sym (returned_state back)))
        ]

  -- A successful `UpdateProfile` returns the stored user with the given id, changed in nothing but the
  -- name, the picture, the status and the time of the update: the name is as before or has at most
  -- 100 bytes, and the status is as before or has at most 150. Either the user is as stored and
  -- nothing was written, or the row with this id became the returned user, up to the time of the
  -- update, and the other rows are as they were.
  pub update_profile-Profiled :
      (scheme : String → Option String) (id : Uuid) (name : String) (avatar status : Option String)
      (w v : W) (new : User)
      → update_profile db scheme id name avatar status w ≡ ok new v
      → (old : User) × Has old (rows w) × (old.id ≡ id) × Profiled old new × Stored old new w v
  unfolding update_profile
  update_profile-Profiled scheme id name avatar status w v new h =
      let (given, h1) = refuse-eq-ok _ _ _ h in
      let (short, h2) = refuse-eq-ok _ _ _ h1 in
      let (_, h3) = refuse-eq-ok _ _ _ h2 in
      let (brief, h4) = refuse-eq-ok _ _ _ h3 in
      let (old, read, stored) = ask-eq-ok _ _ h4 in
      let (has, hit) = find_by_id_ok db rows reads id w old read in
      let there : old.id ≢ 0 = (λ e. ground (arith, given, hit)) in
      let (profiled, kept) =
        store_profile-Profiled old new (trim_space name) (trimmed avatar) (trimmed status) w v there
          short brief stored in
      (old, has, hit, profiled, kept)
