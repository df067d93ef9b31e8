-- ===== src/Repository/Member.antt =====
-- internal/repository/workspacemember/repository.go
pub mod Laws
use todo_chat_app.Prelude.{ℕ, String, Bool, List, map, ◌&&◌, ltb, ◌==◌}
use todo_chat_app.Prelude.Int.{ℤ, pos, sub_int, mul_int}
use todo_chat_app.Outcome.{Answer, answer, fails, Action, pure, ◌>>=◌}
use todo_chat_app.Model.{User, WorkspaceMember, WorkspaceMemberInfo, Uuid}
use todo_chat_app.Gorm.{Db}

-- `WHERE workspace_id = ? AND user_id = ?`
abbrev pub is_pair : Uuid → Uuid → WorkspaceMember → Bool
is_pair ws user m = m.workspace_id == ws && m.user_id == user

-- `count > 0, err`
abbrev pub some_counted : Answer ℕ → Answer Bool
some_counted (answer n) = answer (ltb 0 n)
some_counted (fails e) = fails e

abbrev pub role_of : Answer WorkspaceMember → Answer String
role_of (answer m) = answer m.role
role_of (fails e) = fails e

-- `workspace_members.workspace_id = ?`, `workspace_members.joined_at ASC`, and the columns selected
abbrev pub is_in : Uuid → WorkspaceMember × User → Bool
is_in ws row = row.0.workspace_id == ws

abbrev pub first_joined : WorkspaceMember × User → WorkspaceMember × User → Bool
first_joined a b = ltb a.0.joined_at b.0.joined_at

abbrev pub member_info : WorkspaceMember × User → WorkspaceMemberInfo
member_info row = record {
  user_id = row.1.id;
  display_name = row.1.display_name;
  email = row.1.email;
  avatar_url = row.1.avatar_url;
  role = row.0.role;
  joined_at = row.0.joined_at;
}

abbrev pub scanned :
    Answer (List (WorkspaceMember × User)) → ℕ → Answer (List WorkspaceMemberInfo × ℕ)
scanned (answer rows) total = answer (map member_info rows, total)
scanned (fails e) total = fails e

-- The total is read first; an error of either query is the error of the call.
abbrev pub counted_then :
    Answer ℕ → Answer (List (WorkspaceMember × User)) → Answer (List WorkspaceMemberInfo × ℕ)
counted_then (answer total) rows = scanned rows total
counted_then (fails e) rows = fails e

module _ {W : Type 0} (db : Db W) where
  unfoldable pub is_member : Uuid → Uuid → W → Answer Bool
  is_member ws user w = some_counted (db.members.count (is_pair ws user) w)

  unfoldable pub add_member : Uuid → Uuid → String → Action W (Unit {0})
  add_member ws user role = do
    _ ← db.members.create (record { workspace_id = ws; user_id = user; role = role; joined_at = 0 })
    pure tt

  unfoldable pub list_with_users : Uuid → ℤ → ℤ → W → Answer (List WorkspaceMemberInfo × ℕ)
  list_with_users ws page size w =
      counted_then (db.member_users.count (is_in ws) w)
        (db.member_users.page first_joined (is_in ws) (mul_int (sub_int page (pos 1)) size) size w)

  unfoldable pub get_role : Uuid → Uuid → W → Answer String
  get_role ws user w = role_of (db.members.first (is_pair ws user) w)
