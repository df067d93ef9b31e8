-- ===== src/Service/Invitation/Resend.antt =====
-- `ResendInvitation` of internal/service/workspace_invitations.go.
use todo_chat_app.Prelude.{
  ℕ, ◌+◌, ◌*◌, ◌≤◌, ◌≡◌, ◌≢◌, refl, sym, ap, ◌∙◌, ◌↔◌, ◌⊎◌, inl, inr, true, false, Option, none,
  some, String, List, Has, arith, str_eq_iff,
}
use todo_chat_app.Prelude.Text.{trim_space, to_lower}
use todo_chat_app.Outcome.{ok}
use todo_chat_app.Outcome.Rules.{
  Post, Post-ok, Post-err, Post-refuse_if, Post->>=, Post-intro, refuse-eq-ok, ask-eq-ok,
  ask_optional-eq-ok, bind-eq-ok,
}
use todo_chat_app.Model.{WorkspaceMember, WorkspaceInvitation, Uuid, hour}
use todo_chat_app.Gorm.{Db}
use todo_chat_app.Gorm.Laws.{ReadLaws, state_of}
use todo_chat_app.Repository.Invitation as repo
use todo_chat_app.Repository.Invitation.{is_for}
use todo_chat_app.Repository.Invitation.Laws.{update_ok}
use todo_chat_app.Service.Libs.{Formats, Host}
use todo_chat_app.Service.Invitation.{
  is_used, generate_token, check_invite, update_and_send, renew_or_create, resend_invitation,
}
use todo_chat_app.Service.Invitation.Invite.{
  InviteLaws, Administers, Invited, check_invite-Administers, generate_token_keeps,
  create_and_send-Invited, moved,
}

unused_none : (i : WorkspaceInvitation) → is_used i ≡ false → i.used_at ≡ none
unused_none i h = go (i.used_at) h
  where
    go : (o : Option ℕ) → (elim o [ none ↦ false | some t ↦ true ]) ≡ false → o ≡ none
    go none e = refl
    go (some t) e = cc

is_for_sound :
    (ws : Uuid) (email : String) (i : WorkspaceInvitation)
    → is_for ws email i ≡ true
    → (i.workspace_id ≡ ws) × (i.email ≡ email)
is_for_sound ws email i h = ground (arith, str_eq_iff i.email email)

module _ {W : Type 0} (db : Db W) (host : Host W) (f : Formats)
    (invitations : W → List WorkspaceInvitation) (members : W → List WorkspaceMember)
    (laws : InviteLaws db host invitations members)
    (reads : ReadLaws db.invitations.reader invitations) where
  -- What the checks found: no invitation of the address, or an unused one that has run out.
  abbrev Seen : Uuid → String → Option WorkspaceInvitation → W → Type 0
  Seen ws email none w =
      (x : WorkspaceInvitation) → Has x (invitations w) → is_for ws email x ≡ false
  Seen ws email (some old) w =
      Has old (invitations w)
      × (old.workspace_id ≡ ws)
      × (old.email ≡ email)
      × (old.used_at ≡ none)
      × (old.expires_at ≤ host.now w)

  check_invite-Seen :
      (ws inviter : Uuid) (email : String) (w v : W) (existing : Option WorkspaceInvitation)
      → check_invite db host f ws inviter email w ≡ ok existing v
      → Seen ws email existing w
  unfolding check_invite repo.find_by_workspace_and_email
  check_invite-Seen ws inviter email w v existing h =
      let (role, _, h1) = ask-eq-ok _ _ h in
      let (_, h2) = refuse-eq-ok _ _ _ h1 in
      elim (ask_optional-eq-ok _ _ h2) [
        | inl (old, found, h3) ↦
            let (unused, h4) = refuse-eq-ok _ _ _ h3 in
            let (late, h5) = refuse-eq-ok _ _ _ h4 in
            let (has, hit) = reads.first_has (is_for ws email) w old found in
            let (a, b) = is_for_sound ws email old hit in
            let same : some old ≡ existing = cc in
            rw (← same) (has, a, b, unused_none old unused, ground arith)
        | inr (missing, h3) ↦
            let (_, h4) = refuse-eq-ok _ _ _ h3 in
            let (_, h5) = refuse-eq-ok _ _ _ h4 in
            let same : none ≡ existing = cc in
            rw (← same) (λ x has. reads.first_misses (is_for ws email) w x missing has)
      ]

  -- In place of an unused invitation of the address that has run out there is an unused one with the
  -- same workspace, inviter and address, and a mail with its token went out.
  abbrev pub Renewed : W → W → Uuid → String → Type 0
  Renewed w v ws email =
      (old s : WorkspaceInvitation) × (u : W) × Has old (invitations w)
      × (old.used_at ≡ none)
      × (old.expires_at ≤ host.now w)
      × (s.workspace_id ≡ ws)
      × (s.invited_by ≡ old.invited_by)
      × (s.email ≡ email)
      × (s.used_at ≡ none)
      × ((x : WorkspaceInvitation)
          → Has x (invitations v) ↔ ((x ≡ s) ⊎ (Has x (invitations w) × (x.id ≢ old.id))))
      × (host.send_workspace_invitation_email email s.token u ≡ ok tt v)

  update_and_send-Renewed :
      (ws : Uuid) (email token : String) (old : WorkspaceInvitation) (w u v : W)
      → Seen ws email (some old) w
      → invitations u ≡ invitations w
      → update_and_send db host f old email token u ≡ ok tt v
      → Renewed w v ws email
  unfolding update_and_send
  update_and_send-Renewed ws email token old w u v (has, a, b, unused, late) kept h =
      let renewed = record old { expires_at = host.now u + 48 * hour; token = token } in
      let (_, t, updated, sent) = bind-eq-ok (repo.update db renewed) _ h in
      let (at, saved) = update_ok db renewed u t updated in
      let (s, stored, _, rows) = laws.writes.save_rows renewed at u t saved in
      let mailed : invitations v ≡ invitations t =
        ap (λ o. invitations (state_of o)) (sym sent) ∙ laws.mail_apart email token t in
      (
        old,
        s,
        t,
        has,
        unused,
        late,
        stored.workspace_id ∙ a,
        stored.invited_by,
        stored.email ∙ b,
        stored.used_at ∙ unused,
        λ x. rw (mailed, ← kept) (rows x),
        rw (stored.token) sent,
      )

  -- What a successful call did, by what it found.
  abbrev pub Resent : W → W → Uuid → Uuid → String → Type 0
  Resent w v ws inviter email =
      (((x : WorkspaceInvitation) → Has x (invitations w) → is_for ws email x ≡ false)
        × Invited db host f invitations members laws w v ws inviter email)
      ⊎ Renewed w v ws email

  renew_or_create-Resent :
      (ws inviter : Uuid) (email token : String) (existing : Option WorkspaceInvitation) (w u v : W)
      → Seen ws email existing w
      → invitations u ≡ invitations w
      → renew_or_create db host f ws inviter email token existing u ≡ ok tt v
      → Resent w v ws inviter email
  unfolding renew_or_create
  renew_or_create-Resent ws inviter email token none w u v seen kept h = inl (
    seen,
    moved db host f invitations members laws ws inviter email u w v kept
        (create_and_send-Invited db host f invitations members laws ws inviter email token u v h),
  )
  renew_or_create-Resent ws inviter email token (some old) w u v seen kept h =
      inr (update_and_send-Renewed ws email token old w u v seen kept h)

  -- `ResendInvitation` succeeds only for an admin of the workspace. Where no invitation of the trimmed
  -- and lowered address into the workspace is stored, it adds an unused one by this inviter; else a
  -- stored one is unused and has run out, the row with its id is replaced by an unused one with the
  -- same workspace, inviter and address, and a mail to the address with the token of this row was
  -- sent. After any error the invitations are those of before.
  pub resend_invitation-Resent :
      (ws inviter : Uuid) (raw : String) (w : W)
      → Post
          (λ _ v.
            Administers db host f invitations members laws w ws inviter
            × Resent w v ws inviter (to_lower f.unicode (trim_space raw)))
          (λ e v. invitations v ≡ invitations w)
          (resend_invitation db host f ws inviter raw w)
  unfolding resend_invitation
  resend_invitation-Resent ws inviter raw w =
      let email = to_lower f.unicode (trim_space raw) in
      let checked =
        check_invite-Administers db host f invitations members laws ws inviter email w in
      let drawn = generate_token_keeps db host f invitations members laws in
      Post-refuse_if _ _ _ (λ _. refl)
        λ _.
          Post->>= (check_invite db host f ws inviter email) _
            (λ e v h. ap invitations (Post-err (rw h at checked)))
            (λ existing v h.
              let (same, admin) = Post-ok (rw h at checked) in
              let seen = check_invite-Seen ws inviter email w v existing h in
              Post->>= (generate_token db host f) _
                (λ e u g. Post-err (rw g at (drawn v)) ∙ ap invitations same)
                (λ token u g.
                  let kept = Post-ok (rw g at (drawn v)) ∙ ap invitations same in
                  Post-intro _
                    (λ _ t r. (
                      admin,
                      renew_or_create-Resent ws inviter email token existing w u t seen kept
                          (laws.transaction.commits _ _ tt u t r),
                    ))
                    (λ e t r. laws.transaction.rolls_back _ _ e u t r ∙ kept)))
