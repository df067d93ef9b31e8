-- ===== src/Tests/Workspace.antt =====
-- The theorems on workspaces at concrete calls: user 7 founds, deletes and hides one.
use Prim.Native.String.{len}
use todo_chat_app.Prelude.{arith, ℕ, ◌≡◌, ◌≢◌, ◌≤◌, ◌↔◌, refl, inl, false, some, List, [], ◌∷◌, Has}
use todo_chat_app.Outcome.{ok, err, answer, workspace_not_found}
use todo_chat_app.Outcome.Rules.{Post}
use todo_chat_app.Model.{Workspace, WorkspaceMember}
use todo_chat_app.Gorm.Laws.{ReadLaws, WriteLaws, Keeps}
use todo_chat_app.Gorm.Memory.{memory_table, memory-ReadLaws, memory-WriteLaws}
use todo_chat_app.Repository.Member
use todo_chat_app.Repository.Member.Laws.{Belongs, StoresMember}
use todo_chat_app.Service.Workspace.{get_by_id, update, delete, create}
use todo_chat_app.Service.Workspace.Slug.{generate_slug, slug_base}
use todo_chat_app.Service.Workspace.Slug.Bounds.{
  AllSlug, slug_base-AllSlug, len-generate_slug, IsAscii,
}
use todo_chat_app.Service.Workspace.Hiding.{LooksUp, workspace_hidden}
use todo_chat_app.Service.Workspace.Owner.{
  delete-owner, StoresWorkspace, CreateLaws, Founded, create-Founded,
}
use todo_chat_app.Middleware.Rbac.{
  user_id, next, require_workspace_role, Permits, require_workspace_role-Permits,
}
use todo_chat_app.Tests.Laws.{transaction_laws}
use todo_chat_app.Tests.Run.{running}
use todo_chat_app.Tests.World.{World, db, formats, host, start, member}

abbrev workspaces : World → List Workspace
workspaces w = w.workspaces

abbrev members : World → List WorkspaceMember
members w = w.members

member_reads : ReadLaws db.members.reader members
member_reads = memory-ReadLaws _ _ _ _

workspace_writes : WriteLaws db.workspaces workspaces (λ ws. ws.id) StoresWorkspace
workspace_writes =
    memory-WriteLaws _ _ _ _ StoresWorkspace (λ l w. refl)
      (λ r w. record { name = refl; owner_id = refl })
      (λ r. record { name = refl; owner_id = refl })

member_writes : WriteLaws db.members members (λ m. m.user_id) StoresMember
member_writes =
    memory-WriteLaws _ _ _ _ StoresMember (λ l w. refl)
      (λ r w. record { workspace_id = refl; user_id = refl; role = λ _. refl })
      (λ r. record { workspace_id = refl; user_id = refl; role = λ _. refl })

members_apart : (m : WorkspaceMember) → Keeps workspaces (db.members.create m)
unfolding memory_table
members_apart m w = refl

create_laws : CreateLaws db host workspaces members (λ m. m.user_id)
create_laws = record {
  workspace_writes = workspace_writes;
  member_writes = member_writes;
  transaction_workspaces = transaction_laws workspaces;
  transaction_members = transaction_laws members;
  members_apart = members_apart;
}

abbrev gone : World
gone = record start { workspaces = [] }

delete_runs : delete db 7 20 start ≡ ok tt gone
unfolding running
delete_runs = refl

delete-owner_example :
    ((ws : Workspace) × Has ws start.workspaces × (ws.id ≡ 20) × (ws.owner_id ≡ 7))
    × Belongs start.members 20 7
    × ((x : Workspace) → Has x [] ↔ (Has x start.workspaces × (x.id ≢ 20)))
delete-owner_example =
    delete-owner db workspaces members (memory-ReadLaws _ _ _ _) member_reads StoresWorkspace
      workspace_writes 7 20 start gone delete_runs

create-Founded_example :
    Post
      (λ ws v.
        Founded db host formats workspaces members (λ m. m.user_id) create_laws v 7 "team" ws)
      (λ e v. (workspaces v ≡ start.workspaces) × (members v ≡ start.members))
      (create db host formats 7 "team" start)
unfolding running
create-Founded_example =
    create-Founded db host formats workspaces members (λ m. m.user_id) create_laws 7 "team" start

looks_up : LooksUp db 20 start
unfolding running
looks_up = inl (_, refl)

outside : Member.is_member db 20 8 start ≡ answer false
unfolding running
outside = refl

workspace_hidden_example :
    (get_by_id db 8 20 start ≡ err workspace_not_found start)
    × (update db 8 20 "team" start ≡ err workspace_not_found start)
    × (delete db 8 20 start ≡ err workspace_not_found start)
unfolding running
workspace_hidden_example = workspace_hidden db 8 20 "team" start refl refl refl looks_up outside

slug_base-AllSlug_example : AllSlug (slug_base formats.unicode "my team")
slug_base-AllSlug_example = slug_base-AllSlug formats.unicode "my team"

random-IsAscii : IsAscii "ABCDEFGH"
random-IsAscii = ground arith

len-generate_slug_example : len (generate_slug formats.unicode "my team" "ABCDEFGH") ≤ 100
len-generate_slug_example =
    len-generate_slug formats.unicode "my team" "ABCDEFGH" (λ c h. h) random-IsAscii

slug_runs : generate_slug formats.unicode " my  team--x!" "abcdefgh" ≡ "my-team-x-abcdef"
unfolding running
slug_runs = refl

abbrev guarded : World
guarded = record start { members = member 7 8 "ADMIN" ∷ [] }

passes : require_workspace_role db formats ("ADMIN" ∷ []) (user_id 8) "u7" guarded ≡ next
unfolding running
passes = refl

require_workspace_role-Permits_example :
    (u ws : ℕ) × (user_id 8 ≡ user_id u)
    × (u ≢ 0)
    × (formats.parse_uuid "u7" ≡ some ws)
    × (ws ≢ 0)
    × Permits db formats members member_reads ("ADMIN" ∷ []) guarded ws u
require_workspace_role-Permits_example =
    require_workspace_role-Permits db formats members member_reads ("ADMIN" ∷ []) (user_id 8) "u7"
      guarded passes
