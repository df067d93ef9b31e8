-- ===== src/Tests/Invitation.antt =====
-- The theorems on invitations at concrete calls: user 8 accepts the invitation `t1`.
use todo_chat_app.Prelude.{
  ℕ, Bool, ◌≡◌, ◌≢◌, refl, sym, ◌∙◌, inl, inr, true, none, some, List, [], ◌∷◌, Has, ◌≤◌,
}
use todo_chat_app.Prelude.Text.{equal_fold}
use todo_chat_app.Outcome.{ok}
use todo_chat_app.Model.{User, WorkspaceMember, WorkspaceInvitation}
use todo_chat_app.Gorm.Laws.{ReadLaws, WriteLaws, Keeps}
use todo_chat_app.Gorm.Memory.{memory_table, memory-ReadLaws, memory-WriteLaws}
use todo_chat_app.Repository.Member.Laws.{Belongs, StoresMember}
use todo_chat_app.Service.Invitation.{accept_invitation}
use todo_chat_app.Service.Invitation.Accept.{AcceptLaws}
use todo_chat_app.Service.Invitation.Membership.{
  JoinedAs, accept_invitation-JoinedAs, accept_invitation_once,
}
use todo_chat_app.Tests.Laws.{transaction_laws}
use todo_chat_app.Tests.Run.{running}
use todo_chat_app.Tests.World.{World, db, host, formats, start, invitation, member}

abbrev members : World → List WorkspaceMember
members w = w.members

abbrev invitations : World → List WorkspaceInvitation
invitations w = w.invitations

abbrev user_of : WorkspaceMember → ℕ
user_of m = m.user_id

abbrev StoresInvitation : WorkspaceInvitation → WorkspaceInvitation → Type 0
StoresInvitation r s = s.token ≡ r.token

invitation_writes : WriteLaws db.invitations invitations (λ i. i.id) StoresInvitation
invitation_writes =
    memory-WriteLaws _ _ _ _ StoresInvitation (λ l w. refl) (λ r w. refl) (λ r. refl)

member_writes : WriteLaws db.members members user_of StoresMember
member_writes =
    memory-WriteLaws _ _ _ _ StoresMember (λ l w. refl)
      (λ r w. record { workspace_id = refl; user_id = refl; role = λ _. refl })
      (λ r. record { workspace_id = refl; user_id = refl; role = λ _. refl })

members_apart : (m : WorkspaceMember) → Keeps invitations (db.members.create m)
unfolding memory_table
members_apart m w = refl

invitations_apart :
    (q : WorkspaceInvitation → Bool) (g : WorkspaceInvitation → WorkspaceInvitation)
    → Keeps members (db.invitations.update q g)
unfolding memory_table
invitations_apart q g w = refl

laws : AcceptLaws db invitations members user_of StoresInvitation
laws = record {
  invitation_reads = memory-ReadLaws _ _ _ _;
  invitation_writes = invitation_writes;
  member_reads = memory-ReadLaws _ _ _ _;
  member_writes = member_writes;
  transaction_invitations = transaction_laws invitations;
  transaction_members = transaction_laws members;
  members_apart = members_apart;
  invitations_apart = invitations_apart;
}

abbrev joined : World
joined = record start {
  members = record (member 20 8 "MEMBER") { joined_at = 400 } ∷ member 20 7 "ADMIN" ∷ [];
  invitations = record invitation { used_at = some 400 } ∷ [];
}

accept_runs : accept_invitation db host formats 8 "t1" start ≡ ok 20 joined
unfolding running
accept_runs = refl

user_reads : ReadLaws db.users.reader (λ w. w.users)
user_reads = memory-ReadLaws _ _ _ _

accept_invitation-JoinedAs_example :
    ((i : WorkspaceInvitation) × (user : User) × Has i start.invitations
      × (i.token ≡ "t1")
      × (i.used_at ≡ none)
      × (400 ≤ i.expires_at)
      × Has user start.users
      × (user.id ≡ 8)
      × (equal_fold formats.unicode user.email i.email ≡ true)
      × (i.workspace_id ≡ 20))
    × (¬ Belongs start.members 20 8)
    × JoinedAs joined.members 20 8
accept_invitation-JoinedAs_example =
    accept_invitation-JoinedAs db host formats invitations members user_of StoresInvitation laws
      (λ w. w.users) user_reads 8 "t1" start joined 20 accept_runs

one_invitation :
    (i j : WorkspaceInvitation)
    → Has i start.invitations
    → Has j start.invitations
    → i.token ≡ j.token
    → i ≡ j
one_invitation i j (inl a) (inl b) h = a ∙ sym b
one_invitation i j (inl a) (inr b) h = absurd b
one_invitation i j (inr a) b h = absurd a

accept_invitation_once_example : accept_invitation db host formats 8 "t1" joined ≢ ok 20 joined
accept_invitation_once_example =
    accept_invitation_once db host formats invitations members user_of StoresInvitation laws 8 8
      "t1" start joined joined 20 20 one_invitation accept_runs
