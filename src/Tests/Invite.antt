-- ===== src/Tests/Invite.antt =====
-- The theorems on inviting at concrete calls: user 7 invites a new address, and one whose invitation
-- has run out.
use todo_chat_app.Prelude.{ℕ, ◌+◌, ◌*◌, ◌≡◌, refl, none, String, List, [], ◌∷◌}
use todo_chat_app.Prelude.Text.{trim_space, to_lower}
use todo_chat_app.Outcome.{ok}
use todo_chat_app.Outcome.Rules.{Post}
use todo_chat_app.Model.{hour, WorkspaceInvitation, WorkspaceMember}
use todo_chat_app.Gorm.Laws.{ReadLaws, WriteLaws}
use todo_chat_app.Gorm.Memory.{memory-ReadLaws, memory-WriteLaws}
use todo_chat_app.Service.Invitation.{invite, resend_invitation}
use todo_chat_app.Service.Invitation.Invite.{
  StoresInvitation, InviteLaws, Administers, Invited, invite-Invited,
}
use todo_chat_app.Service.Invitation.Resend.{Resent, resend_invitation-Resent}
use todo_chat_app.Tests.Run.{running}
use todo_chat_app.Tests.Laws.{transaction_laws}
use todo_chat_app.Tests.World.{World, db, formats, host, start}

abbrev invitations : World → List WorkspaceInvitation
invitations w = w.invitations

abbrev members : World → List WorkspaceMember
members w = w.members

invitation_writes : WriteLaws db.invitations invitations (λ i. i.id) StoresInvitation
invitation_writes =
    memory-WriteLaws _ _ _ _ StoresInvitation (λ l w. refl)
      (λ r w. record {
        workspace_id = refl;
        invited_by = refl;
        email = refl;
        token = refl;
        expires_at = refl;
        used_at = refl;
      })
      (λ r. record {
        workspace_id = refl;
        invited_by = refl;
        email = refl;
        token = refl;
        expires_at = refl;
        used_at = refl;
      })

invite_laws : InviteLaws db host invitations members
invite_laws = record {
  member_reads = memory-ReadLaws _ _ _ _;
  writes = invitation_writes;
  transaction = transaction_laws invitations;
  random_apart = λ n w. refl;
  mail_apart = λ to token w. refl;
}

invite-Invited_example :
    Post
      (λ _ v.
        Administers db host formats invitations members invite_laws start 20 7
        × Invited db host formats invitations members invite_laws start v 20 7
            (to_lower formats.unicode (trim_space " c ")))
      (λ e v. invitations v ≡ invitations start)
      (invite db host formats 20 7 " c " start)
invite-Invited_example =
    invite-Invited db host formats invitations members invite_laws 20 7 " c " start

invitation_reads : ReadLaws db.invitations.reader invitations
invitation_reads = memory-ReadLaws _ _ _ _

abbrev invitation : ℕ → String → WorkspaceInvitation
invitation expires_at token = record {
  id = 30;
  created_at = 0;
  workspace_id = 20;
  invited_by = 7;
  email = "c";
  token = token;
  expires_at = expires_at;
  used_at = none;
}

-- An invitation that ran out before the time 400.
abbrev stale : World
stale = record start { invitations = invitation 390 "t9" ∷ [] }

renewed :
    resend_invitation db host formats 20 7 " c " stale
    ≡ ok tt (record start {
      invitations = invitation (400 + 48 * hour) "t1" ∷ [];
      serial = 2;
      sent = ("c", "t1") ∷ [];
    })
unfolding running
renewed = refl

resend_invitation-Resent_example :
    Post
      (λ _ v.
        Administers db host formats invitations members invite_laws stale 20 7
        × Resent db host formats invitations members invite_laws invitation_reads stale v 20 7
            (to_lower formats.unicode (trim_space " c ")))
      (λ e v. invitations v ≡ invitations stale)
      (resend_invitation db host formats 20 7 " c " stale)
resend_invitation-Resent_example =
    resend_invitation-Resent db host formats invitations members invite_laws invitation_reads 20 7
      " c " stale
