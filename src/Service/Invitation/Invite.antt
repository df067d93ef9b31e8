-- ===== src/Service/Invitation/Invite.antt =====
-- `Invite` of internal/service/workspace_invitations.go.
use todo_chat_app.Prelude.{
  ℕ, ◌≡◌, refl, sym, ap, ◌∙◌, ◌↔◌, ◌⊎◌, Bool, true, String, none, List, Has, arith, str_eq,
  str_eq_iff,
}
use todo_chat_app.Prelude.Text.{trim_space, to_lower}
use todo_chat_app.Outcome.{ok}
use todo_chat_app.Outcome.Rules.{
  Post, returned, Post-ok, Post-err, Post-refuse_if, Post-ask, Post-ask_optional, Post->>=,
  Post-intro, bind-eq-ok,
}
use todo_chat_app.Model.{WorkspaceMember, WorkspaceInvitation, Uuid, admin_role}
use todo_chat_app.Gorm.{Db}
use todo_chat_app.Gorm.Laws.{ReadLaws, WriteLaws, TransactionLaws, Keeps, state_of}
use todo_chat_app.Repository.Invitation as repo
use todo_chat_app.Repository.Member.Laws.{get_role-Has}
use todo_chat_app.Service.Libs.{Formats, Host}
use todo_chat_app.Service.Invitation.{
  generate_token, check_invite, new_invitation, create_and_send, invite,
}

-- What the database keeps of an invitation that is handed to it.
pub record StoresInvitation (r s : WorkspaceInvitation) : Type 0 where
  pub workspace_id : s.workspace_id ≡ r.workspace_id
  pub invited_by : s.invited_by ≡ r.invited_by
  pub email : s.email ≡ r.email
  pub token : s.token ≡ r.token
  pub expires_at : s.expires_at ≡ r.expires_at
  pub used_at : s.used_at ≡ r.used_at

-- The laws that inviting relies on; neither randomness nor mail touches the invitations.
pub record InviteLaws {W : Type 0} (db : Db W) (host : Host W)
    (invitations : W → List WorkspaceInvitation) (members : W → List WorkspaceMember) : Type 1 where
  pub member_reads : ReadLaws db.members.reader members
  pub writes : WriteLaws db.invitations invitations (λ i. i.id) StoresInvitation
  pub transaction : TransactionLaws db invitations
  pub random_apart : (n : ℕ) → Keeps invitations (host.rand_read n)
  pub mail_apart :
      (to token : String) → Keeps invitations (host.send_workspace_invitation_email to token)

module _ {W : Type 0} (db : Db W) (host : Host W) (f : Formats)
    (invitations : W → List WorkspaceInvitation) (members : W → List WorkspaceMember)
    (laws : InviteLaws db host invitations members) where
  -- The inviter is an admin of the workspace.
  abbrev pub Administers : W → Uuid → Uuid → Type 0
  Administers w ws inviter =
      (m : WorkspaceMember) × Has m (members w)
      × (m.workspace_id ≡ ws)
      × (m.user_id ≡ inviter)
      × (m.role ≡ "ADMIN")

  -- One new row is there: an unused invitation of the address into the workspace by the inviter.
  abbrev pub Invited : W → W → Uuid → Uuid → String → Type 0
  Invited w v ws inviter email =
      (i : WorkspaceInvitation) × (i.workspace_id ≡ ws)
      × (i.invited_by ≡ inviter)
      × (i.email ≡ email)
      × (i.used_at ≡ none)
      × ((x : WorkspaceInvitation) → Has x (invitations v) ↔ ((x ≡ i) ⊎ Has x (invitations w)))

  is_admin : (role : String) (b : Bool) → str_eq role admin_role ≡ b → (b ≡ true) → role ≡ "ADMIN"
  is_admin role b h e = (str_eq_iff role admin_role).0 (h ∙ e)

  pub check_invite-Administers :
      (ws inviter : Uuid) (email : String) (w : W)
      → Post
          (λ o v. (v ≡ w) × Administers w ws inviter)
          (λ e v. v ≡ w)
          (check_invite db host f ws inviter email w)
  unfolding check_invite
  check_invite-Administers ws inviter email w =
      Post-ask _ _ (λ e h. refl)
        λ role read.
          Post-refuse_if _ _ _ (λ _. refl)
            λ admin.
              Post-ask_optional _ _ (λ e h. refl)
                λ existing.
                  Post-refuse_if _ _ _ (λ _. refl)
                    λ _.
                      Post-refuse_if _ _ _ (λ _. refl)
                        λ _.
                          let (m, has, a, b, same) =
                            get_role-Has db members laws.member_reads ws inviter w role read in
                          returned
                            (refl, (m, has, a, b, same ∙ is_admin role _ refl (ground arith)))

  pub generate_token_keeps :
      (w : W)
      → Post
          (λ token v. invitations v ≡ invitations w)
          (λ e v. invitations v ≡ invitations w)
          (generate_token db host f w)
  unfolding generate_token
  generate_token_keeps w =
      Post->>= (host.rand_read 32) _
        (λ e v h. ap (λ o. invitations (state_of o)) (sym h) ∙ laws.random_apart 32 w)
        (λ bytes v h.
          returned (ap (λ o. invitations (state_of o)) (sym h) ∙ laws.random_apart 32 w))

  created_row :
      (r s : WorkspaceInvitation) (w v : W)
      → repo.create db r w ≡ ok s v
      → StoresInvitation r s
        × ((x : WorkspaceInvitation) → Has x (invitations v) ↔ ((x ≡ s) ⊎ Has x (invitations w)))
  unfolding repo.create
  created_row r s w v h = laws.writes.create_rows r s w v h

  asked_fields :
      (ws inviter : Uuid) (email token : String) (w : W) (s : WorkspaceInvitation)
      → StoresInvitation (new_invitation db host f ws inviter email token w) s
      → (s.workspace_id ≡ ws) × (s.invited_by ≡ inviter) × (s.email ≡ email) × (s.used_at ≡ none)
  unfolding new_invitation
  asked_fields ws inviter email token w s h = (h.workspace_id, h.invited_by, h.email, h.used_at)

  pub create_and_send-Invited :
      (ws inviter : Uuid) (email token : String) (w v : W)
      → create_and_send db host f ws inviter email token w ≡ ok tt v
      → Invited w v ws inviter email
  unfolding create_and_send
  create_and_send-Invited ws inviter email token w v h =
      let (s, u, created, sent) =
        bind-eq-ok (repo.create db (new_invitation db host f ws inviter email token w)) _ h in
      let (stored, rows) = created_row _ s w u created in
      let (a, b, c, d) = asked_fields ws inviter email token w s stored in
      let kept : invitations v ≡ invitations u =
        ap (λ o. invitations (state_of o)) (sym sent) ∙ laws.mail_apart email s.token u in
      (s, a, b, c, d, λ x. rw kept (rows x))

  pub moved :
      (ws inviter : Uuid) (email : String) (u w v : W)
      → invitations u ≡ invitations w
      → Invited u v ws inviter email
      → Invited w v ws inviter email
  moved ws inviter email u w v k (i, a, b, c, d, rows) = (i, a, b, c, d, λ x. rw (← k) (rows x))

  invite_transaction :
      (ws inviter : Uuid) (email token : String) (w u : W)
      → Administers w ws inviter
      → invitations u ≡ invitations w
      → Post
          (λ _ v. Administers w ws inviter × Invited w v ws inviter email)
          (λ e v. invitations v ≡ invitations w)
          (db.transaction (create_and_send db host f ws inviter email token) u)
  invite_transaction ws inviter email token w u admin kept =
      Post-intro _
        (λ _ v h. (
          admin,
          moved ws inviter email u w v kept (
              create_and_send-Invited ws inviter email token u v
                (laws.transaction.commits _ _ tt u v h)),
        ))
        (λ e v h. laws.transaction.rolls_back _ _ e u v h ∙ kept)

  -- `Invite` succeeds only for an admin of the workspace, and adds one row: an unused invitation of
  -- the trimmed and lowered address into this workspace by this inviter. After any error, also one of
  -- the mail transport, the invitations are those of before.
  pub invite-Invited :
      (ws inviter : Uuid) (raw : String) (w : W)
      → Post
          (λ _ v.
            Administers w ws inviter × Invited w v ws inviter (to_lower f.unicode (trim_space raw)))
          (λ e v. invitations v ≡ invitations w)
          (invite db host f ws inviter raw w)
  unfolding invite
  invite-Invited ws inviter raw w =
      let email = to_lower f.unicode (trim_space raw) in
      let checked = check_invite-Administers ws inviter email w in
      Post-refuse_if _ _ _ (λ _. refl)
        λ _.
          Post->>= (check_invite db host f ws inviter email) _
            (λ e v h. ap invitations (Post-err (rw h at checked)))
            (λ existing v h.
              let (same, admin) = Post-ok (rw h at checked) in
              Post->>= (generate_token db host f) _
                (λ e u g. Post-err (rw g at (generate_token_keeps v)) ∙ ap invitations same)
                (λ token u g.
                  invite_transaction ws inviter email token w u admin
                    (Post-ok (rw g at (generate_token_keeps v)) ∙ ap invitations same)))
