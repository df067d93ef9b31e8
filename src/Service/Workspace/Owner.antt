-- ===== src/Service/Workspace/Owner.antt =====
-- Owners of workspaces: `Create` and `Delete` of internal/service/workspace_service.go.
use todo_chat_app.Prelude.{
  ℕ, ◌≡◌, ◌≢◌, refl, sym, ap, ◌∙◌, ◌⊎◌, inl, ◌↔◌, true, String, List, Has, arith, ==_iff, str_eq,
  str_eq_iff,
}
use todo_chat_app.Prelude.Text.{trim_space}
use todo_chat_app.Outcome.{Action, ok, answer, ◌>>◌, ask, refuse_if}
use todo_chat_app.Outcome.Rules.{
  Post, Post-refuse_if, Post-intro, refuse-eq-ok, ask_or-eq-ok, bind-eq-ok,
}
use todo_chat_app.Model.{Workspace, WorkspaceMember, Uuid, admin_role}
use todo_chat_app.Gorm.{Db}
use todo_chat_app.Gorm.Laws.{ReadLaws, WriteLaws, TransactionLaws, Keeps, state_of}
use todo_chat_app.Repository.Workspace as repo
use todo_chat_app.Repository.Workspace.{has_id}
use todo_chat_app.Repository.Workspace.Laws.{delete_ok}
use todo_chat_app.Repository.Member
use todo_chat_app.Repository.Member.Laws.{
  StoresMember, Belongs, is_member-Belongs, new_member, add_member_ok,
}
use todo_chat_app.Service.Libs.{Formats, Host}
use todo_chat_app.Service.Workspace.{require_seen, delete, new_workspace, create_with_admin, create}
use todo_chat_app.Service.Workspace.Slug.{generate_slug}

module _ {W : Type 0} (db : Db W) (workspaces : W → List Workspace)
    (members : W → List WorkspaceMember)
    (workspace_reads : ReadLaws db.workspaces.reader workspaces)
    (member_reads : ReadLaws db.members.reader members) (Stored : Workspace → Workspace → Type 0)
    (workspace_writes : WriteLaws db.workspaces workspaces (λ ws. ws.id) Stored) where
  seen-eq-ok :
      {A : Type 0} (ws actor : Uuid) (k : Action W A) {w v : W} {a : A}
      → (require_seen db ws actor >> k) w ≡ ok a v
      → (Member.is_member db ws actor w ≡ answer true) × (k w ≡ ok a v)
  unfolding require_seen ask refuse_if
  seen-eq-ok ws actor k h = ground arith

  find_by_id-Has :
      (id : Uuid) (w : W) (ws : Workspace)
      → repo.find_by_id db id w ≡ answer ws
      → Has ws (workspaces w) × (ws.id ≡ id)
  unfolding repo.find_by_id
  find_by_id-Has id w ws h =
      let (has, hit) = workspace_reads.first_has (has_id id) w ws h in
      (has, (==_iff ws.id id).0 hit)

  -- A successful `Delete` comes from the owner of a stored workspace with the asked id, who is also
  -- a member of it; it removes the workspaces with that id and no other.
  pub delete-owner :
      (actor id : Uuid) (w v : W)
      → delete db actor id w ≡ ok tt v
      → ((ws : Workspace) × Has ws (workspaces w) × (ws.id ≡ id) × (ws.owner_id ≡ actor))
        × Belongs (members w) id actor
        × ((x : Workspace) → Has x (workspaces v) ↔ (Has x (workspaces w) × (x.id ≢ id)))
  unfolding delete
  delete-owner actor id w v h =
      let (_, h1) = refuse-eq-ok _ _ _ h in
      let (ws, found, h2) = ask_or-eq-ok _ _ _ h1 in
      let (member, h3) = seen-eq-ok id actor _ h2 in
      let (owner, h4) = refuse-eq-ok _ _ _ h3 in
      let (has, hit) = find_by_id-Has id w ws found in
      let (n, deleted) = delete_ok db id w v h4 in
      (
        (ws, has, hit, ground arith),
        is_member-Belongs db members member_reads id actor w member,
        λ x.
            let rows = workspace_writes.delete_rows (has_id id) w v n deleted x in
            (
              λ k. let (old, other) = rows.0 k in (old, ground arith),
              λ k. rows.1 (k.0, ground arith),
            ),
      )

-- What the database keeps of a workspace that is handed to it.
pub record StoresWorkspace (r s : Workspace) : Type 0 where
  pub name : s.name ≡ r.name
  pub owner_id : s.owner_id ≡ r.owner_id

-- The laws that creating relies on; neither randomness nor the row of a member touches the
-- workspaces.
pub record CreateLaws {W : Type 0} (db : Db W) (host : Host W) (workspaces : W → List Workspace)
    (members : W → List WorkspaceMember) (key : WorkspaceMember → ℕ) : Type 1 where
  pub workspace_writes : WriteLaws db.workspaces workspaces (λ ws. ws.id) StoresWorkspace
  pub member_writes : WriteLaws db.members members key StoresMember
  pub transaction_workspaces : TransactionLaws db workspaces
  pub transaction_members : TransactionLaws db members
  pub members_apart : (m : WorkspaceMember) → Keeps workspaces (db.members.create m)

admin_role-ne : admin_role ≢ ""
unfolding str_eq
admin_role-ne e = ground (arith, str_eq_iff "ADMIN" "")

module _ {W : Type 0} (db : Db W) (host : Host W) (f : Formats) (workspaces : W → List Workspace)
    (members : W → List WorkspaceMember) (key : WorkspaceMember → ℕ)
    (laws : CreateLaws db host workspaces members key) where
  -- The row of the creator, and the workspace, in the two tables.
  abbrev pub Founded : W → Uuid → String → Workspace → Type 0
  Founded v owner name ws =
      Has ws (workspaces v)
      × (ws.name ≡ name)
      × (ws.owner_id ≡ owner)
      × ((m : WorkspaceMember) × Has m (members v)
          × (m.workspace_id ≡ ws.id)
          × (m.user_id ≡ owner)
          × (m.role ≡ "ADMIN"))

  create_with_admin-Founded :
      (owner : Uuid) (name : String) (w v : W) (ws : Workspace)
      → create_with_admin db host f owner name w ≡ ok ws v
      → Founded v owner name ws
  unfolding create_with_admin repo.create
  create_with_admin-Founded owner name w v ws h =
      let (random, w1, _, h1) = bind-eq-ok host.rand_text _ h in
      let asked = new_workspace owner name (generate_slug f.unicode name random) in
      let (s, w2, created, h2) = bind-eq-ok (repo.create db asked) _ h1 in
      let (_, w3, added, h3) = bind-eq-ok (Member.add_member db s.id owner admin_role) _ h2 in
      let (row, joined) = add_member_ok db s.id owner admin_role w2 w3 added in
      let (stored, rows) = created_rows asked s w1 w2 created in
      let (kept, all) =
        laws.member_writes.create_rows (new_member s.id owner admin_role) row w2 w3 joined in
      let apart : workspaces w3 ≡ workspaces w2 =
        ap (λ o. workspaces (state_of o)) (sym joined) ∙ laws.members_apart _ w2 in
      let same : s ≡ ws = cc in
      let end : w3 ≡ v = cc in
      rw (← same, ← end)
        (
          rw apart ((rows s).1 (inl refl)),
          stored.name,
          stored.owner_id,
          (row, (all row).1 (inl refl), kept.workspace_id, kept.user_id, kept.role admin_role-ne),
        )
    where
      created_rows :
          (r s : Workspace) (w v : W)
          → repo.create db r w ≡ ok s v
          → StoresWorkspace r s
            × ((x : Workspace) → Has x (workspaces v) ↔ ((x ≡ s) ⊎ Has x (workspaces w)))
      created_rows r s w v h = laws.workspace_writes.create_rows r s w v h

  -- `Create` founds all or nothing. A success stores the workspace that it returns, with the trimmed
  -- name and the caller as owner, and makes the caller an ADMIN of it; an error, also one of the
  -- second write, leaves both tables as they were.
  pub create-Founded :
      (owner : Uuid) (raw : String) (w : W)
      → Post
          (λ ws v. Founded v owner (trim_space raw) ws)
          (λ e v. (workspaces v ≡ workspaces w) × (members v ≡ members w))
          (create db host f owner raw w)
  unfolding create
  create-Founded owner raw w =
      Post-refuse_if _ _ _ (λ _. (refl, refl))
        λ _.
          Post-refuse_if _ _ _ (λ _. (refl, refl))
            λ _.
              Post-intro _
                (λ ws v h.
                  create_with_admin-Founded owner (trim_space raw) w v ws
                    (laws.transaction_workspaces.commits _ _ ws w v h))
                (λ e v h. (
                  laws.transaction_workspaces.rolls_back _ _ e w v h,
                  laws.transaction_members.rolls_back _ _ e w v h,
                ))
