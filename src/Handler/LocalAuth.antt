-- ===== src/Handler/LocalAuth.antt =====
-- internal/handler/local_auth_handler.go. The limit that two methods put on the size of the body is
-- part of what binding the body does.
pub mod Silent
use todo_chat_app.Prelude.{String}
use todo_chat_app.Outcome.{
  Error, email_taken, password_too_short, invalid_verification_token,
  verification_email_rate_limited, invalid_credentials, no_password_set, email_not_verified,
  invalid_pending_token, link_conflict, password_already_set,
}
use todo_chat_app.Gorm.{Db}
use todo_chat_app.Service.Libs.{Formats, Host}
use todo_chat_app.Service.Auth as service
use todo_chat_app.Service.Auth.{Settings}
use todo_chat_app.Response.{
  Reply, message, registered_user, session, tokens, ok_reply, created, no_content, bad_request,
  unauthorized, forbidden_code, conflict, internal_error, code_email_taken, code_password_too_short,
  code_token_invalid, code_invalid_credentials, code_email_not_verified, code_conflict,
  code_password_already_set,
}
use todo_chat_app.Handler.{
  Request, Handling, ◌>>=◌, call, require, known_user, invalid_input, cause, write,
}
use todo_chat_app.Handler.Requests.{Binder}

abbrev short_password : Reply
short_password = bad_request code_password_too_short "password must be at least 8 characters"

abbrev register_reply : Error → Reply
register_reply email_taken = conflict code_email_taken "email already registered"
register_reply password_too_short = short_password
register_reply _ = internal_error

abbrev verify_reply : Error → Reply
verify_reply invalid_verification_token =
    bad_request code_token_invalid "invalid or expired verification token"
verify_reply _ = internal_error

-- The one text that `ResendVerification` answers with.
abbrev pub resent : Reply
resent =
    ok_reply (message "if the account exists and is unverified, a verification email has been sent")

abbrev pub resend_reply : Error → Reply
resend_reply verification_email_rate_limited = resent
resend_reply _ = internal_error

abbrev login_reply : Error → Reply
login_reply invalid_credentials = unauthorized code_invalid_credentials "invalid email or password"
login_reply no_password_set =
    unauthorized code_invalid_credentials "this account uses Google login; no password is set"
login_reply email_not_verified =
    forbidden_code code_email_not_verified "email not verified; please check your inbox"
login_reply _ = internal_error

abbrev link_reply : Error → Reply
link_reply invalid_pending_token = bad_request code_token_invalid "invalid or expired link token"
link_reply invalid_credentials = unauthorized code_invalid_credentials "invalid password"
link_reply no_password_set =
    unauthorized code_invalid_credentials
      "this account uses Google login only; no local password is set"
link_reply link_conflict =
    conflict code_conflict "google identity is already linked to a different account"
link_reply _ = internal_error

abbrev password_reply : Error → Reply
password_reply password_already_set =
    conflict code_password_already_set "password already set; use change-password flow"
password_reply password_too_short = short_password
password_reply _ = internal_error

abbrev invalid_body : Reply
invalid_body = invalid_input "invalid request body"

module _ {W : Type 0} (db : Db W) (host : Host W) (f : Formats) (s : Settings) (bind : Binder) where
  unfoldable pub register : Request → Handling W Reply
  register req = do
    body ← require invalid_body (bind.register req.body)
    user ←
        call (λ e. register_reply (cause e))
          (service.register db host f s body.email body.password body.display_name)
    write (created (registered_user user "verification email sent; please check your inbox"))

  unfoldable pub verify_email : Request → Handling W Reply
  verify_email req = do
    token ← require invalid_body (bind.verify_token req.body)
    found ← call (λ e. verify_reply (cause e)) (service.verify_email db host f s token)
    write (ok_reply (session (found.0) (found.1)))

  unfoldable pub resend_verification : Request → Handling W Reply
  resend_verification req = do
    email ← require invalid_body (bind.resend_email req.body)
    _ ← call (λ e. resend_reply (cause e)) (service.resend_verification db host f s email)
    write resent

  unfoldable pub login : Request → Handling W Reply
  login req = do
    body ← require invalid_body (bind.login req.body)
    found ← call (λ e. login_reply (cause e)) (service.login db host f s body.email body.password)
    write (ok_reply (session (found.0) (found.1)))

  unfoldable pub refresh : Request → Handling W Reply
  refresh req = do
    token ← require invalid_body (bind.refresh_token req.body)
    pair ←
        call (λ e. unauthorized code_token_invalid "invalid or expired refresh token")
          (service.refresh db host f s token)
    write (ok_reply (tokens pair))

  -- The error of `Logout` is dropped; it always returns nil.
  unfoldable pub logout : Request → Handling W Reply
  logout req = do
    token ← require invalid_body (bind.refresh_token req.body)
    _ ← call (λ e. no_content) (service.logout db host f s token)
    write no_content

  unfoldable pub confirm_account_link : Request → Handling W Reply
  confirm_account_link req = do
    body ← require invalid_body (bind.confirm_link req.body)
    found ←
        call (λ e. link_reply (cause e))
          (service.confirm_account_link db host f s body.pending_token body.password)
    write (ok_reply (session (found.0) (found.1)))

  unfoldable pub set_password : Request → Handling W Reply
  set_password req = do
    id ← known_user req
    password ← require invalid_body (bind.password req.body)
    _ ← call (λ e. password_reply (cause e)) (service.set_password db host f s id password)
    write no_content
