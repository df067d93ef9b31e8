-- ===== src/Tests/World.antt =====
-- A world in memory: the tables, a clock, a counter for randomness, and the mails sent.
use todo_chat_app.Prelude.{
  ℕ, ◌+◌, Bool, true, false, String, none, some, List, [], ◌∷◌, ◌++◌, str_eq, if◌then◌else◌, length,
  ◌==◌,
}
use todo_chat_app.Prelude.Int.{pos}
use todo_chat_app.Outcome.{Outcome, ok, err, answer, fails, record_not_found}
use todo_chat_app.Model.{
  User, RefreshToken, EmailVerificationToken, UserIdentity, Workspace, WorkspaceMember,
  WorkspaceInvitation, Task,
}
use todo_chat_app.Gorm.{Db}
use todo_chat_app.Gorm.Memory.{memory_table}
use todo_chat_app.Gorm.Memory.Cascade.{cascading_table}
use todo_chat_app.Service.Libs.{Formats, Host}

pub record World : Type 0 where
  pub users : List User
  pub refresh_tokens : List RefreshToken
  pub verifications : List EmailVerificationToken
  pub identities : List UserIdentity
  pub workspaces : List Workspace
  pub members : List WorkspaceMember
  pub invitations : List WorkspaceInvitation
  pub tasks : List Task
  pub clock : ℕ
  pub serial : ℕ
  pub sent : List (String × String)

abbrev pub undo_on_error : {A : Type 0} → World → Outcome World A → Outcome World A
undo_on_error w (ok a v) = ok a v
undo_on_error w (err e v) = err e w

-- The inner join of two lists on a key.
abbrev pub with_each : {R S : Type 0} → (R → S → Bool) → R → List S → List (R × S)
with_each on r [] = []
with_each on r (s ∷ ss) = let rest = with_each on r ss in if on r s then (r, s) ∷ rest else rest

abbrev pub join_on : {R S : Type 0} → (R → S → Bool) → List R → List S → List (R × S)
join_on on [] ss = []
join_on on (r ∷ rs) ss = with_each on r ss ++ join_on on rs ss

abbrev pub joined_workspaces : World → List (Workspace × WorkspaceMember)
joined_workspaces w = join_on (λ ws m. ws.id == m.workspace_id) w.workspaces w.members

abbrev pub joined_users : World → List (WorkspaceMember × User)
joined_users w = join_on (λ m u. m.user_id == u.id) w.members w.users

abbrev pub db : Db World
db = record {
  users =
      memory_table (λ w. w.users) (λ l w. record w { users = l })
        (λ r w. record r { id = 100 + length w.users }) (λ r. r.id);
  refresh_tokens =
      memory_table (λ w. w.refresh_tokens) (λ l w. record w { refresh_tokens = l }) (λ r w. r)
        (λ r. r.id);
  verifications =
      memory_table (λ w. w.verifications) (λ l w. record w { verifications = l }) (λ r w. r)
        (λ r. r.id);
  identities =
      memory_table (λ w. w.identities) (λ l w. record w { identities = l })
        (λ r w. record r { id = 500 + length w.identities }) (λ r. r.id);
  workspaces =
      memory_table (λ w. w.workspaces) (λ l w. record w { workspaces = l })
        (λ r w. record r { id = 200 + length w.workspaces }) (λ r. r.id);
  members =
      memory_table (λ w. w.members) (λ l w. record w { members = l })
        (λ r w. record r { joined_at = w.clock }) (λ r. r.user_id);
  invitations =
      memory_table (λ w. w.invitations) (λ l w. record w { invitations = l })
        (λ r w. record r { id = 300 + length w.invitations }) (λ r. r.id);
  tasks =
      cascading_table (λ w. w.tasks) (λ l w. record w { tasks = l })
        (λ r w. record r { id = 400 + length w.tasks }) (λ r. r.id) (λ r. r.parent_task_id);
  member_workspaces = (memory_table joined_workspaces (λ l w. w) (λ r w. r) (λ r. 0)).reader;
  member_users = (memory_table joined_users (λ l w. w) (λ r w. r) (λ r. 0)).reader;
  transaction = λ m w. undo_on_error w (m w);
}

abbrev pub texts : List ℕ → String
texts [] = ""
texts (n ∷ ns) = if n == 1 then "t1" else "t2"

abbrev pub formats : Formats
formats = record {
  unicode = record { upper = λ c. c; lower = λ c. c; fold = λ c. c };
  parse_uuid = λ s. if str_eq s "u7" then some 7 else none;
  show_uuid = λ n. if n == 7 then "u7" else "u8";
  parse_time = λ s. none;
  hex = texts;
  sha256 = λ s. if str_eq s "t1" then 1 ∷ [] else 2 ∷ [];
  atoi = λ s. if str_eq s "2" then (pos 2, true) else (pos 0, false);
  ceil_div = λ a b. pos 1;
}

abbrev pub host : Host World
host = record {
  now = λ w. w.clock;
  rand_read = λ n w. ok (w.serial ∷ []) (record w { serial = w.serial + 1 });
  rand_text = λ w. ok "ABCDEFGH" w;
  send_verification_email = λ to token w. ok tt (record w { sent = (to, token) ∷ w.sent });
  send_workspace_invitation_email = λ to token w. ok tt (record w { sent = (to, token) ∷ w.sent });
  generate_from_password = λ p w. ok p w;
  password_matches = str_eq;
  sign = λ secret c w. answer c.sub;
  parse_hs256 = λ secret text w. fails record_not_found;
}

abbrev pub member : ℕ → ℕ → String → WorkspaceMember
member ws user role = record { workspace_id = ws; user_id = user; role = role; joined_at = 0 }

abbrev pub user : ℕ → String → User
user id email = record {
  id = id;
  email = email;
  display_name = email;
  avatar_url = "";
  status_text = "";
  is_active = true;
  email_verified = true;
  password_hash = some "secret 1";
  created_at = 0;
  updated_at = 0;
}

abbrev pub task : ℕ → ℕ → Task
task id ws = record {
  id = id;
  workspace_id = ws;
  channel_id = none;
  title = "write";
  description = "";
  status = "TODO";
  priority = "LOW";
  assignee_id = none;
  created_by = 7;
  parent_task_id = none;
  position = pos 0;
  due_date = none;
  created_at = 0;
  updated_at = 0;
}

-- The invitation `t1` of the address `b` into the workspace 20, which expires at 500.
abbrev pub invitation : WorkspaceInvitation
invitation = record {
  id = 30;
  created_at = 0;
  workspace_id = 20;
  invited_by = 7;
  email = "b";
  token = "t1";
  expires_at = 500;
  used_at = none;
}

-- User 7 is an admin of the workspace 20, which has the task 40; user 8 has been invited.
abbrev pub start : World
start = record {
  users = user 7 "a" ∷ user 8 "b" ∷ [];
  refresh_tokens = [];
  verifications = [];
  identities = [];
  workspaces =
      record {
        id = 20;
        name = "team";
        slug = "team-1";
        owner_id = 7;
        created_at = 0;
        updated_at = 0;
      }
      ∷ [];
  members = member 20 7 "ADMIN" ∷ [];
  invitations = invitation ∷ [];
  tasks = task 40 20 ∷ [];
  clock = 400;
  serial = 1;
  sent = [];
}
