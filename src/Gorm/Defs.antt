-- ===== src/Gorm/Defs.antt =====
-- The interface of gorm and PostgreSQL, as far as internal/repository and pkg/database call it.
-- It is a parameter of the development: `W` is the state of everything outside the process. A
-- condition of a `Where` is a Boolean test on rows. A call that reads leaves the world as it is,
-- so nothing else writes to the database while one service method runs.
use todo_chat_app.Prelude.{ℕ, Bool, List}
use todo_chat_app.Prelude.Int.{ℤ}
use todo_chat_app.Outcome.{Answer, Action}
use todo_chat_app.Model.{
  User, RefreshToken, EmailVerificationToken, UserIdentity, Workspace, WorkspaceMember,
  WorkspaceInvitation, Task, Time,
}

pub record Reader (W R : Type 0) : Type 0 where
  -- `Where(q).First(&r)`: the least match by primary key, or `ErrRecordNotFound`
  pub first : (R → Bool) → W → Answer R
  -- `Where(q).Order(less).First(&r)`
  pub first_by : (R → R → Bool) → (R → Bool) → W → Answer R
  -- `Where(q).Count(&n)`
  pub count : (R → Bool) → W → Answer ℕ
  -- `Where(q).Order(less).Find(&rs)`
  pub find : (R → R → Bool) → (R → Bool) → W → Answer (List R)
  -- `Where(q).Order(less).Offset(o).Limit(l).Find(&rs)`
  pub page : (R → R → Bool) → (R → Bool) → ℤ → ℤ → W → Answer (List R)

pub record Table (W R : Type 0) : Type 0 where
  pub reader : Reader W R
  pub open reader use *
  -- `Create(&r)`, with the row as the database fills it in
  pub create : R → Action W R
  -- `Save(&r)`, with the time that gorm sets the `UpdatedAt` of the struct to
  pub save : R → Action W Time
  -- `Where(q).Updates(…)`, with `RowsAffected`
  pub update : (R → Bool) → (R → R) → Action W ℕ
  -- `Where(q).Delete(&R{})`, with `RowsAffected`
  pub delete : (R → Bool) → Action W ℕ
  -- `DELETE … WHERE q RETURNING …`
  pub delete_returning : (R → Bool) → Action W (List R)

pub record Db (W : Type 0) : Type 1 where
  pub users : Table W User
  pub refresh_tokens : Table W RefreshToken
  pub verifications : Table W EmailVerificationToken
  pub identities : Table W UserIdentity
  pub workspaces : Table W Workspace
  pub members : Table W WorkspaceMember
  pub invitations : Table W WorkspaceInvitation
  pub tasks : Table W Task
  -- `workspaces JOIN workspace_members ON workspaces.id = workspace_members.workspace_id`
  pub member_workspaces : Reader W (Workspace × WorkspaceMember)
  -- `workspace_members JOIN users ON workspace_members.user_id = users.id`
  pub member_users : Reader W (WorkspaceMember × User)
  -- `db.Transaction(fn)`
  pub transaction : {A : Type 0} → Action W A → Action W A
