-- ===== src/Repository/Member/Laws.antt =====
-- What `IsMember` tells of the table of members.
use todo_chat_app.Prelude.{ℕ, String, zero, suc, ◌≡◌, ◌≢◌, refl, true, false, List, Has, arith}
use todo_chat_app.Outcome.{Answer, answer, fails, ok}
use todo_chat_app.Outcome.Rules.{bind-eq-ok}
use todo_chat_app.Model.{WorkspaceMember, Uuid}
use todo_chat_app.Gorm.{Db}
use todo_chat_app.Gorm.Laws.{ReadLaws}
use todo_chat_app.Repository.Member.{
  is_pair, some_counted, is_member, add_member, role_of, get_role,
}

-- What the database keeps of a row that is handed to it.
pub record StoresMember (r s : WorkspaceMember) : Type 0 where
  pub workspace_id : s.workspace_id ≡ r.workspace_id
  pub user_id : s.user_id ≡ r.user_id
  pub role : r.role ≢ "" → s.role ≡ r.role

-- The user has a row in the workspace.
abbrev pub Belongs : List WorkspaceMember → Uuid → Uuid → Type 0
Belongs rows ws user =
    (m : WorkspaceMember) × Has m rows × (m.workspace_id ≡ ws) × (m.user_id ≡ user)

is_pair_sound :
    (ws user : Uuid) (m : WorkspaceMember)
    → is_pair ws user m ≡ true
    → (m.workspace_id ≡ ws) × (m.user_id ≡ user)
is_pair_sound ws user m h = ground arith

is_pair_complete :
    (ws user : Uuid) (m : WorkspaceMember)
    → m.workspace_id ≡ ws
    → m.user_id ≡ user
    → is_pair ws user m ≡ true
is_pair_complete ws user m h k = ground arith

counted : (c : Answer ℕ) → some_counted c ≡ answer true → (n : ℕ) × (c ≡ answer (suc n))
counted (answer zero) h = cc
counted (answer (suc n)) h = (n, refl)
counted (fails e) h = cc

not_counted : (c : Answer ℕ) → some_counted c ≡ answer false → c ≡ answer 0
not_counted (answer zero) h = refl
not_counted (answer (suc n)) h = ground arith
not_counted (fails e) h = cc

role_of-answer :
    (o : Answer WorkspaceMember) (role : String)
    → role_of o ≡ answer role
    → (m : WorkspaceMember) × (o ≡ answer m) × (m.role ≡ role)
role_of-answer (answer m) role h = (m, refl, cc)
role_of-answer (fails e) role h = cc

module _ {W : Type 0} (db : Db W) (rows : W → List WorkspaceMember)
    (laws : ReadLaws db.members.reader rows) where
  pub is_member-Belongs :
      (ws user : Uuid) (w : W) → is_member db ws user w ≡ answer true → Belongs (rows w) ws user
  unfolding is_member
  is_member-Belongs ws user w h =
      let (n, e) = counted (db.members.count (is_pair ws user) w) h in
      let (m, has, hit) = laws.count_some (is_pair ws user) w n e in
      let (a, b) = is_pair_sound ws user m hit in (m, has, a, b)

  pub get_role-Has :
      (ws user : Uuid) (w : W) (role : String)
      → get_role db ws user w ≡ answer role
      → (m : WorkspaceMember) × Has m (rows w)
        × (m.workspace_id ≡ ws)
        × (m.user_id ≡ user)
        × (m.role ≡ role)
  unfolding get_role
  get_role-Has ws user w role h =
      let (m, read, same) = role_of-answer (db.members.first (is_pair ws user) w) role h in
      let (has, hit) = laws.first_has (is_pair ws user) w m read in
      let (a, b) = is_pair_sound ws user m hit in (m, has, a, b, same)

  pub not_member-Belongs :
      (ws user : Uuid) (w : W) → is_member db ws user w ≡ answer false → ¬ Belongs (rows w) ws user
  unfolding is_member
  not_member-Belongs ws user w h (m, has, a, b) =
      let e = not_counted (db.members.count (is_pair ws user) w) h in
      let missed = laws.count_none (is_pair ws user) w m e has in
      cc (is_pair_complete ws user m a b)

-- The row that `AddMember` creates.
abbrev pub new_member : Uuid → Uuid → String → WorkspaceMember
new_member ws user role = record { workspace_id = ws; user_id = user; role = role; joined_at = 0 }

pub add_member_ok :
    {W : Type 0} (db : Db W) (ws user : Uuid) (role : String) (w v : W)
    → add_member db ws user role w ≡ ok tt v
    → (row : WorkspaceMember) × (db.members.create (new_member ws user role) w ≡ ok row v)
unfolding add_member
add_member_ok db ws user role w v h =
    let (row, u, created, done) = bind-eq-ok (db.members.create (new_member ws user role)) _ h in
    let same : u ≡ v = cc in (row, rw same at created)
