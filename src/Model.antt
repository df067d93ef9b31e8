-- ===== src/Model.antt =====
-- internal/model and internal/constants/role.go: the rows of the tables. A UUID is the number that
-- its sixteen bytes spell, so `uuid.Nil` is 0; a `time.Time` is its nanoseconds since an epoch;
-- a pointer that may be nil is an `Option`.
use todo_chat_app.Prelude.{ℕ, ◌*◌, String, Bool, Option, ◌==◌}
use todo_chat_app.Prelude.Int.{ℤ}

abbrev pub Uuid : Type 0
Uuid = ℕ

abbrev pub Time : Type 0
Time = ℕ

abbrev pub nil_uuid : Uuid
nil_uuid = 0

abbrev pub is_nil : Uuid → Bool
is_nil id = id == nil_uuid

abbrev pub hour : ℕ
hour = 3600 * 1000000000

abbrev pub minute : ℕ
minute = 60 * 1000000000

abbrev pub admin_role : String
admin_role = "ADMIN"

abbrev pub member_role : String
member_role = "MEMBER"

pub record User : Type 0 where
  pub id : Uuid
  pub email : String
  pub display_name : String
  pub avatar_url : String
  pub status_text : String
  pub is_active : Bool
  pub email_verified : Bool
  pub password_hash : Option String
  pub created_at : Time
  pub updated_at : Time

pub record RefreshToken : Type 0 where
  pub id : Uuid
  pub user_id : Uuid
  pub token_hash : String
  pub expires_at : Time
  pub created_at : Time

pub record EmailVerificationToken : Type 0 where
  pub id : Uuid
  pub user_id : Uuid
  pub token_hash : String
  pub expires_at : Time
  pub created_at : Time

pub record UserIdentity : Type 0 where
  pub id : Uuid
  pub user_id : Uuid
  pub provider : String
  pub provider_subject : String
  pub email_at_link_time : String
  pub is_primary : Bool
  pub linked_at : Time
  pub created_at : Time

pub record ChannelMember : Type 0 where
  pub channel_id : Uuid
  pub user_id : Uuid
  pub last_read_at : Time
  pub joined_at : Time

pub record Workspace : Type 0 where
  pub id : Uuid
  pub name : String
  pub slug : String
  pub owner_id : Uuid
  pub created_at : Time
  pub updated_at : Time

pub record WorkspaceMember : Type 0 where
  pub workspace_id : Uuid
  pub user_id : Uuid
  pub role : String
  pub joined_at : Time

pub record WorkspaceMemberInfo : Type 0 where
  pub user_id : Uuid
  pub display_name : String
  pub email : String
  pub avatar_url : String
  pub role : String
  pub joined_at : Time

pub record WorkspaceInvitation : Type 0 where
  pub id : Uuid
  pub created_at : Time
  pub workspace_id : Uuid
  pub invited_by : Uuid
  pub email : String
  pub token : String
  pub expires_at : Time
  pub used_at : Option Time

pub record Task : Type 0 where
  pub id : Uuid
  pub workspace_id : Uuid
  pub channel_id : Option Uuid
  pub title : String
  pub description : String
  pub status : String
  pub priority : String
  pub assignee_id : Option Uuid
  pub created_by : Uuid
  pub parent_task_id : Option Uuid
  pub position : ℤ
  pub due_date : Option Time
  pub created_at : Time
  pub updated_at : Time

pub record Message : Type 0 where
  pub id : Uuid
  pub channel_id : Uuid
  pub user_id : Uuid
  pub message_type : String
  pub content : String
  pub reply_to_id : Option Uuid
  pub is_edited : Bool
  pub created_at : Time
  pub updated_at : Time
