-- ===== src/Handler/Requests.antt =====
-- internal/handler: the structs of the request bodies, and gin's `ShouldBindJSON` for each.
use todo_chat_app.Prelude.{String, Bool, Option}
use todo_chat_app.Service.Task.{TaskUpdateInput}

pub record CreateTaskRequest : Type 0 where
  pub workspace_id : String
  pub title : String
  pub description : String
  pub priority : String
  pub due_date : String

pub record RegisterRequest : Type 0 where
  pub email : String
  pub password : String
  pub display_name : String

pub record LoginRequest : Type 0 where
  pub email : String
  pub password : String

pub record ConfirmLinkRequest : Type 0 where
  pub pending_token : String
  pub password : String

pub record UpdateProfileRequest : Type 0 where
  pub display_name : String
  pub avatar_url : Option String
  pub status_text : Option String

pub record SyncWebhookRequest : Type 0 where
  pub auth0_id : String
  pub email : String
  pub display_name : String
  pub avatar_url : String
  pub email_verified : Bool

-- `c.ShouldBindJSON(&req)`, or none where it fails. A struct with one field is that field.
pub record Binder : Type 0 where
  pub create_task : String → Option CreateTaskRequest
  pub update_task : String → Option TaskUpdateInput
  pub workspace_name : String → Option String
  pub invitation_email : String → Option String
  pub invitation_token : String → Option String
  pub register : String → Option RegisterRequest
  pub login : String → Option LoginRequest
  pub refresh_token : String → Option String
  pub password : String → Option String
  pub confirm_link : String → Option ConfirmLinkRequest
  pub verify_token : String → Option String
  pub resend_email : String → Option String
  pub update_profile : String → Option UpdateProfileRequest
  pub sync_webhook : String → Option SyncWebhookRequest
