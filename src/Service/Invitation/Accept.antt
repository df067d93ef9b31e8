-- ===== src/Service/Invitation/Accept.antt =====
-- Accepting an invitation: who may, what it leaves, and that it works once.
use todo_chat_app.Prelude.{
  ℕ, ◌≡◌, sym, ◌∙◌, ap, Bool, true, false, String, none, List, Has, arith, ltb, if◌then◌else◌,
}
use todo_chat_app.Prelude.Text.{equal_fold}
use todo_chat_app.Outcome.{ok, answer}
use todo_chat_app.Outcome.Rules.{refuse-eq-ok, ask-eq-ok, bind-eq-ok}
use todo_chat_app.Model.{User, WorkspaceMember, WorkspaceInvitation, Uuid, Time, member_role}
use todo_chat_app.Gorm.{Db}
use todo_chat_app.Gorm.Laws.{ReadLaws, WriteLaws, TransactionLaws, Keeps, state_of}
use todo_chat_app.Repository.Invitation as repo
use todo_chat_app.Repository.Invitation.{has_token, has_id, used_from}
use todo_chat_app.Repository.Member
use todo_chat_app.Repository.Invitation.Laws.{mark_used_ok}
use todo_chat_app.Repository.Member.Laws.{StoresMember, new_member, add_member_ok}
use todo_chat_app.Repository.User
use todo_chat_app.Service.Libs.{Formats, Host}
use todo_chat_app.Service.Invitation.{is_used, join, accept_invitation}

module _ {W : Type 0} (db : Db W) (host : Host W) (f : Formats) where
  -- The checks that a successful call has passed.
  pub record Accepted (actor : Uuid) (token : String) (w v : W) (ws : Uuid) : Type 0 where
    pub invitation : WorkspaceInvitation
    pub user : User
    pub found : repo.find_by_token db token w ≡ answer invitation
    pub unused : is_used invitation ≡ false
    pub fresh : ltb invitation.expires_at (host.now w) ≡ false
    pub known : User.find_by_id db actor w ≡ answer user
    pub addressed : equal_fold f.unicode user.email invitation.email ≡ true
    pub outside : Member.is_member db invitation.workspace_id actor w ≡ answer false
    pub joined : db.transaction (join db host f actor invitation) w ≡ ok tt v
    pub into : ws ≡ invitation.workspace_id

  pub accept_invitation-Accepted :
      (actor : Uuid) (token : String) (w v : W) (ws : Uuid)
      → accept_invitation db host f actor token w ≡ ok ws v
      → Accepted actor token w v ws
  unfolding accept_invitation
  accept_invitation-Accepted actor token w v ws h =
      let (_, h1) = refuse-eq-ok _ _ _ h in
      let (i, found, h2) = ask-eq-ok _ _ h1 in
      let (unused, h3) = refuse-eq-ok _ _ _ h2 in
      let (fresh, h4) = refuse-eq-ok _ _ _ h3 in
      let (user, known, h5) = ask-eq-ok _ _ h4 in
      let (addressed, h6) = refuse-eq-ok _ _ _ h5 in
      let (member, asked, h7) = ask-eq-ok _ _ h6 in
      let (outside, h8) = refuse-eq-ok _ _ _ h7 in
      let (_, u, joined, h9) = bind-eq-ok (db.transaction (join db host f actor i)) _ h8 in
      let end : u ≡ v = cc in
      record {
        invitation = i;
        user = user;
        found = found;
        unused = unused;
        fresh = fresh;
        known = known;
        addressed = ground arith;
        outside = rw outside at asked;
        joined = rw end at joined;
        into = cc;
      }

-- The laws that accepting relies on; writing a member leaves the invitations alone, and the other
-- way round.
pub record AcceptLaws {W : Type 0} (db : Db W) (invitations : W → List WorkspaceInvitation)
    (members : W → List WorkspaceMember) (key : WorkspaceMember → ℕ)
    (Stored : WorkspaceInvitation → WorkspaceInvitation → Type 0) : Type 1 where
  pub invitation_reads : ReadLaws db.invitations.reader invitations
  pub invitation_writes : WriteLaws db.invitations invitations (λ i. i.id) Stored
  pub member_reads : ReadLaws db.members.reader members
  pub member_writes : WriteLaws db.members members key StoresMember
  pub transaction_invitations : TransactionLaws db invitations
  pub transaction_members : TransactionLaws db members
  pub members_apart : (m : WorkspaceMember) → Keeps invitations (db.members.create m)
  pub invitations_apart :
      (q : WorkspaceInvitation → Bool) (g : WorkspaceInvitation → WorkspaceInvitation)
      → Keeps members (db.invitations.update q g)

module _ {W : Type 0} (db : Db W) (host : Host W) (f : Formats)
    (invitations : W → List WorkspaceInvitation) (members : W → List WorkspaceMember)
    (key : WorkspaceMember → ℕ) (Stored : WorkspaceInvitation → WorkspaceInvitation → Type 0)
    (laws : AcceptLaws db invitations members key Stored) where
  -- The two writes of the transaction, as they took place.
  pub record Joined (actor : Uuid) (i : WorkspaceInvitation) (w v : W) : Type 0 where
    pub between : W
    pub row : WorkspaceMember
    pub time : Time
    pub affected : ℕ
    pub added : db.members.create (new_member i.workspace_id actor member_role) w ≡ ok row between
    pub marked : db.invitations.update (has_id i.id) (used_from time) between ≡ ok affected v

  pub join-Joined :
      (actor : Uuid) (i : WorkspaceInvitation) (w v : W)
      → join db host f actor i w ≡ ok tt v
      → Joined actor i w v
  unfolding join
  join-Joined actor i w v h =
      let (_, u, added, h1) =
        bind-eq-ok (Member.add_member db i.workspace_id actor member_role) _ h in
      let (row, created) = add_member_ok db i.workspace_id actor member_role w u added in
      let (n, marked) = mark_used_ok db i.id (host.now u) u v h1 in
      record {
        between = u;
        row = row;
        time = host.now u;
        affected = n;
        added = created;
        marked = marked;
      }

  pub unused-used_at : (i : WorkspaceInvitation) → is_used i ≡ false → i.used_at ≡ none
  unused-used_at i h = ground arith

  -- The invitations afterwards: the accepted one is used, the others are as they were.
  pub Joined-invitations :
      (actor : Uuid) (i : WorkspaceInvitation) (w v : W)
      → Joined actor i w v
      → (x : WorkspaceInvitation) → Has x (invitations v)
      → (y : WorkspaceInvitation) × Has y (invitations w)
        × (t : Time) × (x ≡ (if has_id i.id y then used_from t y else y))
  Joined-invitations actor i w v j x has =
      let (y, old, same) =
        (laws.invitation_writes.update_rows (has_id i.id) (used_from j.time) j.between v j.affected
            j.marked x).0
          has in
      (y, rw (apart) at old, j.time, same)
    where
      apart : invitations j.between ≡ invitations w
      apart = ap (λ o. invitations (state_of o)) (sym j.added) ∙ laws.members_apart _ w
