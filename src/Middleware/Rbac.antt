-- ===== src/Middleware/Rbac.antt =====
-- internal/middleware/rbac.go, and the service of internal/service/workspace_member.go behind it.
-- A handler here only decides: it lets the request pass on, or it ends it with a status.
use todo_chat_app.Prelude.{
  ℕ, ◌≡◌, ◌≢◌, refl, Bool, true, false, ◌||◌, String, Option, none, some, List, [], ◌∷◌, Has, arith,
  str_eq, if◌then◌else◌,
}
use todo_chat_app.Prelude.Text.{is_empty}
use todo_chat_app.Outcome.{Answer, answer, fails, is_not_found, forbidden}
use todo_chat_app.Model.{WorkspaceMember, Uuid, is_nil}
use todo_chat_app.Gorm.{Db}
use todo_chat_app.Gorm.Laws.{ReadLaws}
use todo_chat_app.Repository.Member
use todo_chat_app.Repository.Member.Laws.{get_role-Has}
use todo_chat_app.Service.Libs.{Formats}

-- What `c.Get(UserIDContextKey)` finds, and what the assertion `userID.(uuid.UUID)` makes of it.
pub data ContextUser : Type 0 where
  absent not_uuid : ContextUser
  user_id : Uuid → ContextUser

-- `c.Next()`, or `c.AbortWithStatusJSON(status, …)` with the text of the error.
pub data Verdict : Type 0 where
  next : Verdict
  abort : ℕ → String → Verdict

abbrev pub contains : List String → String → Bool
contains [] s = false
contains (r ∷ rs) s = str_eq r s || contains rs s

abbrev pub judge_role : List String → Answer String → Verdict
judge_role required (answer role) =
    if is_empty role
    then abort 403 "Access denied"
    else if contains required role
    then next
    else abort 403 "Access denied"
judge_role required (fails e) =
    if is_not_found e then abort 403 "Access denied" else abort 500 "Internal server error"

judge_role-next :
    (required : List String) (o : Answer String)
    → judge_role required o ≡ next
    → (role : String) × (o ≡ answer role) × (contains required role ≡ true)
judge_role-next required (answer role) h = (role, refl, ground arith)
judge_role-next required (fails e) h = ground arith

module _ {W : Type 0} (db : Db W) where
  -- `WorkspaceMemberService.GetRole`
  unfoldable pub get_role : Uuid → Uuid → W → Answer String
  get_role ws user w =
      if is_nil ws || is_nil user then fails forbidden else Member.get_role db ws user w

  unfoldable pub judge_workspace : List String → Uuid → Option Uuid → W → Verdict
  judge_workspace required user none w = abort 400 "Invalid workspaceID"
  judge_workspace required user (some ws) w =
      if is_nil ws
      then abort 400 "Invalid workspaceID"
      else judge_role required (get_role ws user w)

module _ {W : Type 0} (db : Db W) (f : Formats) where
  -- The value of the user, and the parameter `workspaceID` of the path.
  unfoldable pub require_workspace_role : List String → ContextUser → String → W → Verdict
  require_workspace_role required absent param w = abort 401 "Unauthorized"
  require_workspace_role required not_uuid param w = abort 401 "Unauthorized"
  require_workspace_role required (user_id user) param w =
      if is_nil user
      then abort 401 "Unauthorized"
      else if is_empty param
      then abort 400 "workspaceID is required"
      else judge_workspace db required user (f.parse_uuid param) w

module _ {W : Type 0} (db : Db W) (f : Formats) (members : W → List WorkspaceMember)
    (reads : ReadLaws db.members.reader members) where
  -- The membership that lets a user pass: it stands in the table, for that workspace and that user,
  -- and its role is one of those required.
  abbrev pub Permits : List String → W → Uuid → Uuid → Type 0
  Permits required w ws user =
      (m : WorkspaceMember) × Has m (members w)
      × (m.workspace_id ≡ ws)
      × (m.user_id ≡ user)
      × (contains required m.role ≡ true)

  get_role-answer :
      (ws user : Uuid) (w : W) (role : String)
      → get_role db ws user w ≡ answer role
      → Member.get_role db ws user w ≡ answer role
  unfolding get_role
  get_role-answer ws user w role h = ground arith

  judge_workspace-Permits :
      (required : List String) (user : Uuid) (o : Option Uuid) (w : W)
      → judge_workspace db required user o w ≡ next
      → (ws : Uuid) × (o ≡ some ws) × (ws ≢ 0) × Permits required w ws user
  unfolding judge_workspace
  judge_workspace-Permits required user none w h = cc
  judge_workspace-Permits required user (some ws) w h =
      let judged : judge_role required (get_role db ws user w) ≡ next = ground arith in
      let (role, read, allowed) = judge_role-next required _ judged in
      let (m, has, a, b, same) =
        get_role-Has db members reads ws user w role (get_role-answer ws user w role read) in
      (ws, refl, ground arith, (m, has, a, b, rw same allowed))

  -- `RequireWorkspaceRole` lets a request pass only if the context holds the id of a user, not nil,
  -- the path's parameter parses as the id of a workspace, not nil, and the table of members holds a
  -- row of this user in this workspace whose role is one of those required.
  pub require_workspace_role-Permits :
      (required : List String) (user : ContextUser) (param : String) (w : W)
      → require_workspace_role db f required user param w ≡ next
      → (u ws : Uuid) × (user ≡ user_id u)
        × (u ≢ 0)
        × (f.parse_uuid param ≡ some ws)
        × (ws ≢ 0)
        × Permits required w ws u
  unfolding require_workspace_role
  require_workspace_role-Permits required absent param w h = cc
  require_workspace_role-Permits required not_uuid param w h = cc
  require_workspace_role-Permits required (user_id u) param w h =
      let judged : judge_workspace db required u (f.parse_uuid param) w ≡ next = ground arith in
      let (ws, parsed, there, permits) =
        judge_workspace-Permits required u (f.parse_uuid param) w judged in
      (u, ws, refl, ground arith, parsed, there, permits)
