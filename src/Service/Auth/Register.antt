-- ===== src/Service/Auth/Register.antt =====
-- `Register` of internal/service/local_auth_service.go.
use todo_chat_app.Prelude.{
  ◌≡◌, refl, sym, ap, ◌∙◌, ◌↔◌, ◌⊎◌, inl, inr, true, String, List, Has, ◌==◌, ==_iff,
}
use todo_chat_app.Outcome.{Outcome, ok, err, Error, rollback_failed, ◌>>=◌}
use todo_chat_app.Outcome.Rules.{
  Post, returned, failed, Post-refuse_if, Post->>=, Post-ask_optional, bind-eq-ok,
}
use todo_chat_app.Model.{User}
use todo_chat_app.Gorm.{Db}
use todo_chat_app.Gorm.Laws.{WriteLaws, Keeps, state_of}
use todo_chat_app.Repository.User as users
use todo_chat_app.Repository.User.{has_id}
use todo_chat_app.Service.Libs.{Formats, Host}
use todo_chat_app.Service.Auth.{
  Settings, send_verification_email, undo_result, mailed_or_undone, mail_or_undo, register,
}

-- The laws of the table of users; neither hashing nor what the mail takes touches it.
pub record RegisterLaws {W : Type 0} (db : Db W) (host : Host W) (f : Formats) (s : Settings)
    (rows : W → List User) (Stored : User → User → Type 0) : Type 0 where
  pub writes : WriteLaws db.users rows (λ u. u.id) Stored
  pub hash_apart : (password : String) → Keeps rows (host.generate_from_password password)
  pub mail_apart : (u : User) → Keeps rows (send_verification_email db host f s u)

-- Nobody is stored who was not stored before, or the error says that the rollback failed.
abbrev pub Undone : {W : Type 0} → (W → List User) → W → Error → W → Type 0
Undone rows w e v =
    ((x : User) → Has x (rows v) → Has x (rows w)) ⊎ ((cause : Error) × (e ≡ rollback_failed cause))

module _ {W : Type 0} (db : Db W) (host : Host W) (f : Formats) (s : Settings)
    (rows : W → List User) (Stored : User → User → Type 0)
    (laws : RegisterLaws db host f s rows Stored) where
  -- Deleting by the id of the new user takes the new user away.
  deleted_user :
      (user : User) (w u v : W)
      → ((x : User) → Has x (rows u) ↔ ((x ≡ user) ⊎ Has x (rows w)))
      → users.delete_by_id db user.id u ≡ ok tt v
      → (x : User) → Has x (rows v)
      → Has x (rows w)
  unfolding users.delete_by_id
  deleted_user user w u v same h x has =
      let (n, t, deleted, done) = bind-eq-ok (db.users.delete (has_id user.id)) _ h in
      let end : t ≡ v = cc in
      let (old, miss) = (laws.writes.delete_rows (has_id user.id) u t n deleted x).0 (rw end has) in
      elim ((same x).0 old) [
        | inl e ↦
            let hit : (x.id == user.id) ≡ true = (==_iff x.id user.id).1 (ap (λ u. u.id) e) in cc
        | inr before ↦ before
      ]

  -- Where the verification mail of the new user fails, the deletion decides.
  undo-Undone :
      (user : User) (e : Error) (w u : W) (o : Outcome W (Unit {0}))
      → ((x : User) → Has x (rows u) ↔ ((x ≡ user) ⊎ Has x (rows w)))
      → users.delete_by_id db user.id u ≡ o
      → Post {A = User} (λ a v. Has a (rows v)) (Undone rows w) (undo_result db host f s e o)
  undo-Undone user e w u (ok tt v) same h = failed (inl (deleted_user user w u v same h))
  undo-Undone user e w u (err x v) same h = failed (inr (e, refl))

  mail-Undone :
      (user : User) (w u : W) (o : Outcome W (Unit {0}))
      → ((x : User) → Has x (rows u) ↔ ((x ≡ user) ⊎ Has x (rows w)))
      → send_verification_email db host f s user u ≡ o
      → Post (λ a v. Has a (rows v)) (Undone rows w) (mailed_or_undone db host f s user o)
  mail-Undone user w u (ok tt v) same h =
      let kept : rows v ≡ rows u = ap (λ o. rows (state_of o)) (sym h) ∙ laws.mail_apart user u in
      returned (rw kept ((same user).1 (inl refl)))
  mail-Undone user w u (err e v) same h =
      let kept : rows v ≡ rows u = ap (λ o. rows (state_of o)) (sym h) ∙ laws.mail_apart user u in
      undo-Undone user e w v (users.delete_by_id db user.id v) (λ x. rw kept (same x)) refl

  mail_or_undo-Undone :
      (user : User) (w u : W)
      → ((x : User) → Has x (rows u) ↔ ((x ≡ user) ⊎ Has x (rows w)))
      → Post (λ a v. Has a (rows v)) (Undone rows w) (mail_or_undo db host f s user u)
  unfolding mail_or_undo
  mail_or_undo-Undone user w u same =
      mail-Undone user w u (send_verification_email db host f s user u) same refl

  hashed_rows :
      (password : String) (w v : W) (o : Outcome W String)
      → host.generate_from_password password w ≡ o
      → rows (state_of o) ≡ rows w
  hashed_rows password w v o h = ap (λ o. rows (state_of o)) (sym h) ∙ laws.hash_apart password w

  failed_create :
      (r : User) (e : Error) (w u v : W)
      → rows u ≡ rows w
      → db.users.create r u ≡ err e v
      → Undone rows w e v
  failed_create r e w u v kept h =
      let same = laws.writes.create_err r u v e h in inl (λ x has. rw (same, kept) at has)

  created-Undone :
      (r : User) (w u : W)
      → rows u ≡ rows w
      → Post
          (λ user v. Has user (rows v))
          (Undone rows w)
          ((users.create db r >>= mail_or_undo db host f s) u)
  unfolding users.create
  created-Undone r w u kept =
      Post->>= (db.users.create r) _ (λ e v created. failed_create r e w u v kept created)
        (λ user v created.
          mail_or_undo-Undone user w v
            (λ x. rw (← kept) ((laws.writes.create_rows r user u v created).1 x)))

  -- `Register` leaves a user behind only when it succeeds: a success returns a user that is stored,
  -- and after an error nobody is stored who was not stored before, also when the mail failed, unless
  -- the error is the one which says that the deletion of the new user failed.
  pub register-Undone :
      (email password name : String) (w : W)
      → Post
          (λ user v. Has user (rows v))
          (Undone rows w)
          (register db host f s email password name w)
  unfolding register
  register-Undone email password name w =
      Post-refuse_if _ _ _ (λ _. inl (λ x has. has))
        λ _.
          Post-refuse_if _ _ _ (λ _. inl (λ x has. has))
            λ _.
              Post-ask_optional _ _ (λ _ _. inl (λ x has. has))
                λ taken.
                  Post-refuse_if _ _ _ (λ _. inl (λ x has. has))
                    λ _.
                      Post->>= (host.generate_from_password password) _
                        (λ e v h. inl (λ x has. rw (hashed_rows password w v (err e v) h) at has))
                        (λ hash u h. created-Undone _ w u (hashed_rows password w u (ok hash u) h))
