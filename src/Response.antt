-- ===== src/Response.antt =====
-- pkg/response/response.go: the envelopes of the replies, and the helpers that write them. A reply is
-- its status and its body before it is encoded as JSON. The bodies that are no envelope are the maps
-- `gin.H` that the middleware, the probes and some handlers write.
use todo_chat_app.Prelude.{ℕ, String, Option, List}
use todo_chat_app.Prelude.Int.{ℤ}
use todo_chat_app.Model.{User, Workspace, WorkspaceMemberInfo, WorkspaceInvitation, Task, Uuid}
use todo_chat_app.Service.Auth.{TokenPair}

pub data ErrorCode : Type 0 where
  code_invalid_input code_unauthorized code_forbidden code_not_found code_conflict : ErrorCode
  code_internal_error code_email_taken code_invalid_credentials code_password_too_short : ErrorCode
  code_password_already_set code_token_expired code_token_invalid code_email_not_verified :
      ErrorCode
  code_workspace_not_found code_invitation_expired code_invitation_used code_already_member :
      ErrorCode

pub record PaginationMeta : Type 0 where
  pub total : ℕ
  pub page : ℤ
  pub page_size : ℤ
  pub total_pages : ℤ

-- The values that the handlers put under `data`.
pub data Payload : Type 0 where
  a_task : Task → Payload
  tasks : List Task → Payload
  a_workspace : Workspace → Payload
  workspaces : List Workspace → Payload
  members : List WorkspaceMemberInfo → Payload
  invitations : List WorkspaceInvitation → Payload
  a_user : User → Payload
  registered_user : User → String → Payload
  session : User → TokenPair → Payload
  tokens : TokenPair → Payload
  message : String → Payload
  joined : Uuid → Payload

pub data Body : Type 0 where
  no_body : Body
  data_response : Payload → Body
  list_response : Payload → Option PaginationMeta → Body
  error_response : ErrorCode → String → Body
  -- `gin.H{"error": text}`, and the same with a `"code"`
  fault : String → Body
  coded_fault : String → String → Body
  -- `gin.H{"code": code, "pending_token": token}`
  link_pending : String → String → Body
  -- `gin.H{"status": text}`, and `gin.H{"message": text}`
  status_text : String → Body
  plain_message : String → Body

pub record Reply : Type 0 where
  pub status : ℕ
  pub body : Body

unfoldable pub ok_reply : Payload → Reply
ok_reply p = record { status = 200; body = data_response p }

unfoldable pub created : Payload → Reply
created p = record { status = 201; body = data_response p }

unfoldable pub no_content : Reply
no_content = record { status = 204; body = no_body }

unfoldable pub list : Payload → Option PaginationMeta → Reply
list p meta = record { status = 200; body = list_response p meta }

unfoldable pub bad_request : ErrorCode → String → Reply
bad_request code text = record { status = 400; body = error_response code text }

unfoldable pub unauthorized : ErrorCode → String → Reply
unauthorized code text = record { status = 401; body = error_response code text }

unfoldable pub forbidden : Reply
forbidden = record {
  status = 403;
  body = error_response code_forbidden "you do not have permission to perform this action";
}

unfoldable pub forbidden_code : ErrorCode → String → Reply
forbidden_code code text = record { status = 403; body = error_response code text }

unfoldable pub not_found : ErrorCode → String → Reply
not_found code text = record { status = 404; body = error_response code text }

unfoldable pub conflict : ErrorCode → String → Reply
conflict code text = record { status = 409; body = error_response code text }

unfoldable pub internal_error : Reply
internal_error = record {
  status = 500;
  body = error_response code_internal_error "an unexpected error occurred";
}
