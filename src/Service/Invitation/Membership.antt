-- ===== src/Service/Invitation/Membership.antt =====
-- `AcceptInvitation` of internal/service/workspace_invitations.go, over a database with its laws.
use todo_chat_app.Prelude.{
  ℕ, ◌≤◌, ◌≡◌, ◌≢◌, refl, sym, ◌∙◌, ap, inl, true, String, none, List, Has, arith, str_eq,
  str_eq_iff, if◌then◌else◌,
}
use todo_chat_app.Outcome.{ok, answer}
use todo_chat_app.Model.{User, WorkspaceMember, WorkspaceInvitation, Uuid, Time, member_role}
use todo_chat_app.Gorm.{Db}
use todo_chat_app.Gorm.Laws.{ReadLaws, state_of}
use todo_chat_app.Repository.User.Laws.{find_by_id_ok}
use todo_chat_app.Prelude.Text.{equal_fold}
use todo_chat_app.Repository.Invitation as repo
use todo_chat_app.Repository.Invitation.{has_token, has_id, used_from}
use todo_chat_app.Repository.Member.Laws.{Belongs, not_member-Belongs, new_member}
use todo_chat_app.Service.Libs.{Formats, Host}
use todo_chat_app.Service.Invitation.{is_used, accept_invitation}
use todo_chat_app.Service.Invitation.Accept.{
  Accepted, accept_invitation-Accepted, AcceptLaws, Joined, join-Joined, Joined-invitations,
  unused-used_at,
}

-- The row makes the user a member of the workspace, with the role MEMBER.
abbrev pub JoinedAs : List WorkspaceMember → Uuid → Uuid → Type 0
JoinedAs rows ws user =
    (m : WorkspaceMember) × Has m rows
    × (m.workspace_id ≡ ws)
    × (m.user_id ≡ user)
    × (m.role ≡ "MEMBER")

member_role-ne : member_role ≢ ""
unfolding str_eq
member_role-ne e = ground (arith, str_eq_iff "MEMBER" "")

module _ {W : Type 0} (db : Db W) (host : Host W) (f : Formats)
    (invitations : W → List WorkspaceInvitation) (members : W → List WorkspaceMember)
    (key : WorkspaceMember → ℕ) (Stored : WorkspaceInvitation → WorkspaceInvitation → Type 0)
    (laws : AcceptLaws db invitations members key Stored) where
  find_by_token-Has :
      (token : String) (w : W) (i : WorkspaceInvitation)
      → repo.find_by_token db token w ≡ answer i
      → Has i (invitations w) × (i.token ≡ token)
  unfolding repo.find_by_token
  find_by_token-Has token w i h =
      let (has, hit) = laws.invitation_reads.first_has (has_token token) w i h in
      (has, (str_eq_iff i.token token).0 hit)

  committed :
      {actor : Uuid} {token : String} {w v : W} {ws : Uuid}
      (a : Accepted db host f actor token w v ws)
      → Joined db host f invitations members key Stored laws actor a.invitation w v
  committed {actor} {w} {v} a =
      join-Joined db host f invitations members key Stored laws actor a.invitation w v
        (laws.transaction_members.commits _ _ tt w v a.joined)

  Joined-JoinedAs :
      (actor : Uuid) (i : WorkspaceInvitation) (w v : W)
      → Joined db host f invitations members key Stored laws actor i w v
      → JoinedAs (members v) i.workspace_id actor
  Joined-JoinedAs actor i w v j =
      let row = new_member i.workspace_id actor member_role in
      let (stored, rows) = laws.member_writes.create_rows row j.row w j.between j.added in
      let kept : members v ≡ members j.between =
        ap (λ o. members (state_of o)) (sym j.marked) ∙ laws.invitations_apart _ _ j.between in
      (
        j.row,
        rw kept ((rows j.row).1 (inl refl)),
        stored.workspace_id,
        stored.user_id,
        stored.role member_role-ne,
      )

  -- A successful `AcceptInvitation` used a stored invitation with the given token that nobody had
  -- used, that had not expired at the time of the check, and whose address is, up to case, that of a
  -- stored user with the caller's id; this user was no member of its workspace, and is one
  -- afterwards, with the role MEMBER.
  pub accept_invitation-JoinedAs :
      (users : W → List User) (user_reads : ReadLaws db.users.reader users) (actor : Uuid)
      (token : String) (w v : W) (ws : Uuid)
      → accept_invitation db host f actor token w ≡ ok ws v
      → ((i : WorkspaceInvitation) × (user : User) × Has i (invitations w)
          × (i.token ≡ token)
          × (i.used_at ≡ none)
          × (host.now w ≤ i.expires_at)
          × Has user (users w)
          × (user.id ≡ actor)
          × (equal_fold f.unicode user.email i.email ≡ true)
          × (i.workspace_id ≡ ws))
        × (¬ Belongs (members w) ws actor)
        × JoinedAs (members v) ws actor
  accept_invitation-JoinedAs users user_reads actor token w v ws h =
      let a = accept_invitation-Accepted db host f actor token w v ws h in
      let i = a.invitation in
      let (has, hit) = find_by_token-Has token w i a.found in
      let (there, own) = find_by_id_ok db users user_reads actor w a.user a.known in
      (
        (
          i,
          a.user,
          has,
          hit,
          unused-used_at db host f invitations members key Stored laws i a.unused,
          ground (arith, a.fresh),
          there,
          own,
          a.addressed,
          sym a.into,
        ),
        rw (a.into)
            (not_member-Belongs db members laws.member_reads i.workspace_id actor w a.outside),
        rw (a.into) (Joined-JoinedAs actor i w v (committed a)),
      )

  marked_used :
      (i x y : WorkspaceInvitation) (t : Time)
      → x ≡ (if has_id i.id y then used_from t y else y)
      → (x.token ≡ y.token) × (y ≡ i → is_used x ≡ true)
  marked_used i x y t h = (ground arith, λ e. ground arith)

  -- An invitation works once: after a successful `AcceptInvitation` with a token, where tokens are
  -- unique, no call with that token succeeds, whichever user makes it.
  pub accept_invitation_once :
      (actor again : Uuid) (token : String) (w v u : W) (ws ws' : Uuid)
      → ((i j : WorkspaceInvitation)
          → Has i (invitations w)
          → Has j (invitations w)
          → i.token ≡ j.token
          → i ≡ j)
      → accept_invitation db host f actor token w ≡ ok ws v
      → accept_invitation db host f again token v ≢ ok ws' u
  accept_invitation_once actor again token w v u ws ws' unique first second =
      let a = accept_invitation-Accepted db host f actor token w v ws first in
      let b = accept_invitation-Accepted db host f again token v u ws' second in
      let (has_a, hit_a) = find_by_token-Has token w a.invitation a.found in
      let (has_b, hit_b) = find_by_token-Has token v b.invitation b.found in
      let (y, old, t, same) =
        Joined-invitations db host f invitations members key Stored laws actor a.invitation w v
          (committed a) b.invitation has_b in
      let (same_token, used) = marked_used a.invitation b.invitation y t same in
      let known = unique y a.invitation old has_a (sym same_token ∙ hit_b ∙ sym hit_a) in
      let bad = used known in cc (b.unused)
