-- ===== src/Handler/Invitation.antt =====
-- internal/handler/workspace_invitation_handler.go
use todo_chat_app.Outcome.{
  Error, invitation_invalid_input, invitation_not_admin, invitation_is_member,
  invitation_still_valid, invitation_is_expired, invitation_email_mismatch, record_not_found,
}
use todo_chat_app.Gorm.{Db}
use todo_chat_app.Service.Libs.{Formats, Host}
use todo_chat_app.Service.Invitation as service
use todo_chat_app.Response.{
  Reply, message, invitations, joined, ok_reply, forbidden, not_found, internal_error,
  code_not_found,
}
use todo_chat_app.Handler.{
  Request, Handling, ◌>>=◌, call, require, present_user, invalid_input, cause, write,
}
use todo_chat_app.Handler.Requests.{Binder}

-- The switch of `Invite` and of `ResendInvitation`.
abbrev invite_reply : Error → Reply
invite_reply invitation_invalid_input = invalid_input "invalid invitation input"
invite_reply invitation_not_admin = forbidden
invite_reply invitation_is_member = invalid_input "user is already a member of the workspace"
invite_reply invitation_still_valid =
    invalid_input "an invitation for this email already exists and is still valid"
invite_reply _ = internal_error

abbrev accept_reply : Error → Reply
accept_reply record_not_found = not_found code_not_found "invitation not found"
accept_reply invitation_invalid_input = invalid_input "invalid invitation"
accept_reply invitation_is_member = invalid_input "you are already a member of the workspace"
accept_reply invitation_is_expired = invalid_input "invitation has expired"
accept_reply invitation_email_mismatch = forbidden
accept_reply _ = internal_error

module _ {W : Type 0} (db : Db W) (host : Host W) (f : Formats) (bind : Binder) where
  unfoldable pub invite : Request → Handling W Reply
  invite req = do
    email ← require (invalid_input "invalid request body") (bind.invitation_email req.body)
    inviter ← present_user req
    ws ← require (invalid_input "invalid workspace ID") (f.parse_uuid req.param)
    _ ← call (λ e. invite_reply (cause e)) (service.invite db host f ws inviter email)
    write (ok_reply (message "invitation sent"))

  unfoldable pub resend_invitation : Request → Handling W Reply
  resend_invitation req = do
    email ← require (invalid_input "invalid request body") (bind.invitation_email req.body)
    inviter ← present_user req
    ws ← require (invalid_input "invalid workspace ID") (f.parse_uuid req.param)
    _ ← call (λ e. invite_reply (cause e)) (service.resend_invitation db host f ws inviter email)
    write (ok_reply (message "invitation resent"))

  unfoldable pub get_list_invitations : Request → Handling W Reply
  get_list_invitations req = do
    ws ← require (invalid_input "invalid workspace ID") (f.parse_uuid req.param)
    found ← call (λ e. internal_error) (service.get_list_invitations db host f ws)
    write (ok_reply (invitations found))

  unfoldable pub accept_invitation : Request → Handling W Reply
  accept_invitation req = do
    actor ← present_user req
    token ← require (invalid_input "token is required") (bind.invitation_token req.body)
    ws ← call (λ e. accept_reply (cause e)) (service.accept_invitation db host f actor token)
    write (ok_reply (joined ws))
