-- ===== src/Service/User/Consent.antt =====
-- `SyncAuth0User` of internal/service/user_service.go, and the accounts that exist already.
use todo_chat_app.Prelude.{
  ◌≡◌, ◌≢◌, ◌⊎◌, ◌↔◌, inl, inr, refl, sym, ap, ◌∙◌, Bool, true, ◌||◌, String, none, some, List, Has,
  arith, str_eq_iff, Bool-cases,
}
use todo_chat_app.Prelude.Text.{trim_space, to_lower}
use todo_chat_app.Outcome.{
  Error, Outcome, ok, err, Answer, answer, fails, record_not_found, ◌>>◌, Action, then_do, pure,
}
use todo_chat_app.Outcome.Rules.{
  ask_optional-eq-ok, ask-eq-ok, bind-eq-ok, refuse-eq-ok, expect-eq-ok, returned_state,
  returned_value,
}
use todo_chat_app.Model.{User, UserIdentity}
use todo_chat_app.Gorm.{Db}
use todo_chat_app.Gorm.Laws.{ReadLaws, EditLaws, Keeps, state_of}
use todo_chat_app.Repository.User as users
use todo_chat_app.Repository.User.{has_email}
use todo_chat_app.Repository.User.Laws.{update_ok, find_by_id_ok}
use todo_chat_app.Repository.Identity
use todo_chat_app.Repository.Identity.{has_subject}
use todo_chat_app.Service.Libs.{Formats}
use todo_chat_app.Service.User.{
  differs, update_user_profile, refuse_existing, or_existing, created_or_existing, create_or_find,
  owner_of, linked_or_owner, link_or_find, sync_known, sync_auth0_user,
}

module _ {W : Type 0} (db : Db W) (f : Formats) where
  pub sync_auth0_user-verified :
      (subject email name avatar : String) (verified : Bool) (w v : W) (user : User)
      → sync_auth0_user db f subject email name avatar verified w ≡ ok user v
      → verified ≡ true
  unfolding sync_auth0_user
  sync_auth0_user-verified subject email name avatar verified w v user h =
      let (_, h1) = refuse-eq-ok _ _ _ h in
      let (provider, _, h2) = expect-eq-ok _ _ _ h1 in
      let (sure, h3) = refuse-eq-ok _ _ _ h2 in ground arith

-- What the database keeps of the rows that are created.
pub record StoresAddress (r s : User) : Type 0 where
  pub email : s.email ≡ r.email

pub record StoresIdentity (r s : UserIdentity) : Type 0 where
  pub user_id : s.user_id ≡ r.user_id
  pub provider_subject : s.provider_subject ≡ r.provider_subject

-- The laws that the synchronization relies on; writing a user leaves the identities alone.
pub record SyncLaws {W : Type 0} (db : Db W) (rows : W → List User)
    (identities : W → List UserIdentity) : Type 0 where
  pub user_reads : ReadLaws db.users.reader rows
  pub identity_reads : ReadLaws db.identities.reader identities
  pub user_edits : EditLaws db.users rows (λ u. u.id) StoresAddress
  pub identity_edits : EditLaws db.identities identities (λ i. i.id) StoresIdentity
  pub creates_apart : (u : User) → Keeps identities (db.users.create u)
  pub saves_apart : (u : User) → Keeps identities (db.users.save u)

module _ {W : Type 0} (db : Db W) (rows : W → List User) (identities : W → List UserIdentity)
    (laws : SyncLaws db rows identities) where
  -- No account has the address.
  abbrev pub Free : W → String → Type 0
  Free w email = (x : User) → Has x (rows w) → x.email ≢ email

  -- No identity has the subject.
  abbrev Unlinked : W → String → Type 0
  Unlinked w subject = (i : UserIdentity) → Has i (identities w) → i.provider_subject ≢ subject

  missing-Free :
      (email : String) (w : W)
      → users.find_by_email db email w ≡ fails record_not_found
      → Free w email
  unfolding users.find_by_email
  missing-Free email w h x has same =
      let miss = laws.user_reads.first_misses (has_email email) w x h has in
      let hit = (str_eq_iff x.email email).1 same in cc

  found_email :
      (email : String) (w : W) (x : User)
      → users.find_by_email db email w ≡ answer x
      → Has x (rows w) × (x.email ≡ email)
  unfolding users.find_by_email
  found_email email w x h =
      let (has, hit) = laws.user_reads.first_has (has_email email) w x h in
      (has, (str_eq_iff x.email email).0 hit)

  missing-Unlinked :
      (subject : String) (w : W)
      → Identity.find_by_provider_subject db subject w ≡ fails record_not_found
      → Unlinked w subject
  unfolding Identity.find_by_provider_subject
  missing-Unlinked subject w h i has same =
      let miss = laws.identity_reads.first_misses (has_subject subject) w i h has in
      let hit = (str_eq_iff i.provider_subject subject).1 same in cc

  found_subject :
      (subject : String) (w : W) (i : UserIdentity)
      → Identity.find_by_provider_subject db subject w ≡ answer i
      → Has i (identities w) × (i.provider_subject ≡ subject)
  unfolding Identity.find_by_provider_subject
  found_subject subject w i h =
      let (has, hit) = laws.identity_reads.first_has (has_subject subject) w i h in
      (has, (str_eq_iff i.provider_subject subject).0 hit)

  refused :
      {A : Type 0} (subject : String) (user : User) (k : Action W A) (w v : W) (a : A)
      → ¬ ((refuse_existing db subject (some user) >> k) w ≡ ok a v)
  unfolding refuse_existing
  refused subject user k w v a h = cc

  unmoved : (subject : String) (w t : W) → refuse_existing db subject none w ≡ ok tt t → w ≡ t
  unfolding refuse_existing
  unmoved subject w t h = returned_state h

  -- Where the address is free, a user that is created or found was created.
  created_user :
      (email : String) (asked user : User) (w v : W)
      → Free w email
      → create_or_find db email asked w ≡ ok user v
      → db.users.create asked w ≡ ok user v
  unfolding create_or_find users.create
  created_user email asked user w v free h = go (db.users.create asked w) refl h
    where
      found :
          (e : Error) (t : W) (o : Answer User)
          → rows t ≡ rows w
          → users.find_by_email db email t ≡ o
          → or_existing db e o t ≢ ok user v
      found e t (answer x) same read h =
          let (has, hit) = found_email email t x read in free x (rw same at has) hit
      found e t (fails x) same read h = cc

      go :
          (o : Outcome W User)
          → db.users.create asked w ≡ o
          → created_or_existing db email o ≡ ok user v
          → o ≡ ok user v
      go (ok a t) e h = h
      go (err e t) made h =
          absurd (found e t _ (laws.user_edits.create_err asked w t e made) refl h)

  -- Where the subject is not linked, an identity that is linked or found was created.
  created_identity :
      (user back : User) (asked : UserIdentity) (w v : W)
      → Unlinked w asked.provider_subject
      → link_or_find db user asked w ≡ ok back v
      → (back ≡ user) × ((i : UserIdentity) × (db.identities.create asked w ≡ ok i v))
  unfolding link_or_find Identity.create
  created_identity user back asked w v free h = go (db.identities.create asked w) refl h
    where
      found :
          (e : Error) (t : W) (o : Answer UserIdentity)
          → identities t ≡ identities w
          → Identity.find_by_provider_subject db asked.provider_subject t ≡ o
          → owner_of db e o t ≢ ok back v
      found e t (answer i) same read h =
          let (has, hit) = found_subject asked.provider_subject t i read in
          free i (rw same at has) hit
      found e t (fails x) same read h = cc

      go :
          (o : Outcome W UserIdentity)
          → db.identities.create asked w ≡ o
          → linked_or_owner db user asked.provider_subject (then_do o (λ _. pure tt)) ≡ ok back v
          → (back ≡ user) × ((i : UserIdentity) × (o ≡ ok i v))
      go (ok i t) e h = (cc, (i, cc))
      go (err e t) made h =
          absurd (found e t _ (laws.identity_edits.create_err asked w t e made) refl h)

  -- The subject was linked already: the user of its identity is returned, and no identity changes.
  abbrev pub Known : W → W → String → User → Type 0
  Known w v subject user =
      (i : UserIdentity) × Has i (identities w)
      × (i.provider_subject ≡ subject)
      × (user.id ≡ i.user_id)
      × (identities v ≡ identities w)

  -- No account had the address: a new one was made, and one new identity links the subject to it.
  abbrev pub Fresh : W → W → String → String → User → Type 0
  Fresh w v subject email user =
      Free w email
      × (user.email ≡ email)
      × (¬ Has user (rows w))
      × ((i : UserIdentity) × (i.user_id ≡ user.id)
          × (i.provider_subject ≡ subject)
          × ((x : UserIdentity) → Has x (identities v) ↔ ((x ≡ i) ⊎ Has x (identities w))))

  updated :
      (old user : User) (email name avatar : String) (w v : W)
      → update_user_profile db old email name avatar w ≡ ok user v
      → (user.id ≡ old.id) × (identities v ≡ identities w)
  unfolding update_user_profile
  updated old user email name avatar w v h =
      elim (Bool-cases (
        differs email old.email
        || differs name old.display_name
        || differs avatar old.avatar_url)) [
          | inl some_change ↦
              let (at, saved, back) = update_ok db _ user w v (rw some_change at h) in
              (
                ap (λ u. u.id) back,
                ap (λ o. identities (state_of o)) (sym saved) ∙ laws.saves_apart _ w,
              )
          | inr no_change ↦
              let back = rw no_change at h in
              (
                ap (λ u. u.id) (sym (returned_value back)),
                ap identities (sym (returned_state back)),
              )
        ]

  sync_known-Known :
      (provider subject email name avatar : String) (i : UserIdentity) (w v : W) (user : User)
      → Identity.find_by_provider_subject db subject w ≡ answer i
      → sync_known db provider subject email name avatar (some i) w ≡ ok user v
      → Known w v subject user
  unfolding sync_known
  sync_known-Known provider subject email name avatar i w v user read h =
      let (has, hit) = found_subject subject w i read in
      let (old, found, h1) = ask-eq-ok _ _ h in
      let (_, own) = find_by_id_ok db rows laws.user_reads i.user_id w old found in
      let (same, kept) = updated old user email name avatar w v h1 in
      (i, has, hit, same ∙ own, kept)

  sync_known-Fresh :
      (provider subject email name avatar : String) (w v : W) (user : User)
      → Unlinked w subject
      → sync_known db provider subject email name avatar none w ≡ ok user v
      → Fresh w v subject email user
  unfolding sync_known
  sync_known-Fresh provider subject email name avatar w v user unlinked h =
      let (_, h1) = refuse-eq-ok _ _ _ h in
      elim (ask_optional-eq-ok _ _ h1) [
        | inl (x, read, h2) ↦ absurd (refused subject x _ w v user h2)
        | inr (read, h2) ↦
            let free = missing-Free email w read in
            let (_, t, passed, h3) = bind-eq-ok (refuse_existing db subject none) _ h2 in
            let same : w ≡ t = unmoved subject w t passed in
            let (made, u, made_ok, h4) =
              bind-eq-ok (create_or_find db email _) _ (rw (← same) at h3) in
            let created = created_user email _ made w u free made_ok in
            let kept : identities u ≡ identities w =
              ap (λ o. identities (state_of o)) (sym created) ∙ laws.creates_apart _ w in
            let (back, (i, linked)) =
              created_identity made user _ u v (λ j has. unlinked j (rw kept at has)) h4 in
            let (stored, _) = laws.user_edits.create_rows _ made w u created in
            let (whose, links) = laws.identity_edits.create_rows _ i u v linked in
            (
              free,
              ap (λ x. x.email) back ∙ stored.email,
              λ has. free user has (ap (λ x. x.email) back ∙ stored.email),
              (
                i,
                whose.user_id ∙ ap (λ x. x.id) (sym back),
                whose.provider_subject,
                λ x. rw (← kept) (links x),
              ),
            )
      ]

  -- A successful `SyncAuth0User`, during which nothing else writes to the database, had a verified
  -- address. Either the trimmed subject was linked before, the user of its identity is returned, and
  -- the identities are as they were; or no account had the trimmed and lowered address, the returned
  -- user has it and was not stored before, and the identities are those of before and one that links
  -- the subject to this user.
  pub sync_auth0_user-consent :
      (f : Formats) (subject email name avatar : String) (verified : Bool) (w v : W) (user : User)
      → sync_auth0_user db f subject email name avatar verified w ≡ ok user v
      → (verified ≡ true)
        × (Known w v (trim_space subject) user
            ⊎ Fresh w v (trim_space subject) (to_lower f.unicode (trim_space email)) user)
  unfolding sync_auth0_user
  sync_auth0_user-consent f subject email name avatar verified w v user h =
      let (_, h1) = refuse-eq-ok _ _ _ h in
      let (provider, _, h2) = expect-eq-ok _ _ _ h1 in
      let (sure, h3) = refuse-eq-ok _ _ _ h2 in
      (
        ground arith,
        elim (ask_optional-eq-ok _ _ h3) [
          | inl (i, read, h4) ↦
              inl (sync_known-Known provider (trim_space subject) _ _ _ i w v user read h4)
          | inr (read, h4) ↦ inr (
              sync_known-Fresh provider (trim_space subject) _ _ _ w v user
                (missing-Unlinked (trim_space subject) w read) h4)
        ],
      )
