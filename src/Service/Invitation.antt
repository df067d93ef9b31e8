-- ===== src/Service/Invitation.antt =====
-- internal/service/workspace_invitations.go
pub mod Accept
pub mod Membership
pub mod Invite
pub mod Resend
use todo_chat_app.Prelude.{
  ℕ, ◌+◌, ◌*◌, String, Bool, true, false, not, ◌||◌, Option, none, some, List, ltb, str_eq,
  if◌then◌else◌,
}
use todo_chat_app.Prelude.Text.{trim_space, to_lower, equal_fold, is_empty}
use todo_chat_app.Outcome.{
  Action, pure, raise, ◌>>=◌, ◌>>◌, ask, ask_optional, look, refuse_if, invitation_invalid_input,
  invitation_not_admin, invitation_is_member, invitation_still_valid, invitation_is_expired,
  invitation_email_mismatch,
}
use todo_chat_app.Model.{WorkspaceInvitation, Uuid, Time, is_nil, hour, admin_role, member_role}
use todo_chat_app.Gorm.{Db}
use todo_chat_app.Repository.Invitation as repo
use todo_chat_app.Repository.Member
use todo_chat_app.Repository.User
use todo_chat_app.Service.Libs.{Formats, Host}

abbrev pub is_used : WorkspaceInvitation → Bool
is_used i = elim (i.used_at) [ none ↦ false | some t ↦ true ]

abbrev pub used_already : Option WorkspaceInvitation → Bool
used_already none = false
used_already (some i) = is_used i

-- `existingInvitation.ExpiresAt.After(time.Now())`
abbrev pub valid_still : Time → Option WorkspaceInvitation → Bool
valid_still now none = false
valid_still now (some i) = ltb now i.expires_at

module _ {W : Type 0} (db : Db W) (host : Host W) (f : Formats) where
  -- `generateInvitationToken`
  unfoldable pub generate_token : Action W String
  generate_token = do bytes ← host.rand_read 32; pure (f.hex bytes)

  -- What `Invite` and `ResendInvitation` check alike, down to the invitation that they found.
  unfoldable pub check_invite : Uuid → Uuid → String → Action W (Option WorkspaceInvitation)
  check_invite ws inviter email = do
    role ← ask (Member.get_role db ws inviter)
    refuse_if (not (str_eq role admin_role)) invitation_not_admin
    existing ← ask_optional (repo.find_by_workspace_and_email db ws email)
    refuse_if (used_already existing) invitation_is_member
    now ← look host.now
    refuse_if (valid_still now existing) invitation_still_valid
    pure existing

  -- The row that `Invite` creates, at the time when it does.
  unfoldable pub new_invitation : Uuid → Uuid → String → String → W → WorkspaceInvitation
  new_invitation ws inviter email token w = record {
    id = 0;
    created_at = 0;
    workspace_id = ws;
    invited_by = inviter;
    email = email;
    token = token;
    expires_at = host.now w + 48 * hour;
    used_at = none;
  }

  unfoldable pub create_and_send : Uuid → Uuid → String → String → Action W (Unit {0})
  create_and_send ws inviter email token = do
    row ← look (new_invitation ws inviter email token)
    sent ← repo.create db row
    host.send_workspace_invitation_email email sent.token

  unfoldable pub update_and_send : WorkspaceInvitation → String → String → Action W (Unit {0})
  update_and_send old email token = do
    now ← look host.now
    repo.update db (record old { expires_at = now + 48 * hour; token = token })
    host.send_workspace_invitation_email email token

  unfoldable pub invite : Uuid → Uuid → String → Action W (Unit {0})
  invite ws inviter raw = do
    refuse_if (is_nil ws || is_nil inviter || is_empty (trim_space raw)) invitation_invalid_input
    let email = to_lower f.unicode (trim_space raw)
    existing ← check_invite ws inviter email
    token ← generate_token
    db.transaction (create_and_send ws inviter email token)

  unfoldable pub renew_or_create :
      Uuid → Uuid → String → String → Option WorkspaceInvitation → Action W (Unit {0})
  renew_or_create ws inviter email token none = create_and_send ws inviter email token
  renew_or_create ws inviter email token (some old) = update_and_send old email token

  unfoldable pub resend_invitation : Uuid → Uuid → String → Action W (Unit {0})
  resend_invitation ws inviter raw = do
    refuse_if (is_nil ws || is_nil inviter || is_empty (trim_space raw)) invitation_invalid_input
    let email = to_lower f.unicode (trim_space raw)
    existing ← check_invite ws inviter email
    token ← generate_token
    db.transaction (renew_or_create ws inviter email token existing)

  unfoldable pub get_list_invitations : Uuid → Action W (List WorkspaceInvitation)
  get_list_invitations ws = ask (repo.list_pending_by_workspace db ws)

  -- The body of the transaction of `AcceptInvitation`.
  unfoldable pub join : Uuid → WorkspaceInvitation → Action W (Unit {0})
  join actor i = do
    Member.add_member db i.workspace_id actor member_role
    now ← look host.now
    repo.mark_used db i.id now

  -- The repository never returns a nil user with no error, so `ErrUserNotFound` has no case.
  unfoldable pub accept_invitation : Uuid → String → Action W Uuid
  accept_invitation actor token = do
    refuse_if (is_nil actor || is_empty token) invitation_invalid_input
    i ← ask (repo.find_by_token db token)
    refuse_if (is_used i) invitation_is_member
    now ← look host.now
    refuse_if (ltb i.expires_at now) invitation_is_expired
    user ← ask (User.find_by_id db actor)
    refuse_if (not (equal_fold f.unicode user.email i.email)) invitation_email_mismatch
    member ← ask (Member.is_member db i.workspace_id actor)
    refuse_if member invitation_is_member
    db.transaction (join actor i)
    pure i.workspace_id
