-- ===== src/Handler/User.antt =====
-- internal/handler/user_handler.go. `subtle.ConstantTimeCompare` is the equality of two texts.
use todo_chat_app.Prelude.{String, Bool, false, not, Option, str_eq, if◌then◌else◌}
use todo_chat_app.Prelude.Text.{trim_space, is_empty}
use todo_chat_app.Outcome.{Error, user_invalid_input, user_not_found, record_not_found}
use todo_chat_app.Gorm.{Db}
use todo_chat_app.Service.Libs.{Formats}
use todo_chat_app.Service.User as service
use todo_chat_app.Response.{
  Reply, a_user, ok_reply, not_found, internal_error, unauthorized, code_unauthorized,
  code_not_found,
}
use todo_chat_app.Handler.{
  Request, Handling, ◌>>=◌, ◌>>◌, call, require, reply_if, known_user, present_user, invalid_input,
  cause, write,
}
use todo_chat_app.Handler.Requests.{Binder}

abbrev no_user : Reply
no_user = not_found code_not_found "user not found"

abbrev profile_reply : Error → Reply
profile_reply user_invalid_input = invalid_input "invalid profile input"
profile_reply user_not_found = no_user
profile_reply record_not_found = no_user
profile_reply _ = internal_error

-- The configured secret, and the one received.
unfoldable pub validate_webhook_secret : String → String → Bool
validate_webhook_secret configured received =
    if is_empty received then false else str_eq (trim_space configured) received

module _ {W : Type 0} (db : Db W) (f : Formats) (bind : Binder) where
  unfoldable pub sync_auth0_user : String → Request → Handling W Reply
  sync_auth0_user secret req = do
    reply_if (is_empty (trim_space secret)) internal_error
    reply_if (not (validate_webhook_secret secret (req.header "X-Webhook-Secret")))
        (unauthorized code_unauthorized "invalid webhook secret")
    body ← require (invalid_input "invalid request body") (bind.sync_webhook req.body)
    user ←
        call (λ e. internal_error)
          (service.sync_auth0_user db f body.auth0_id body.email body.display_name body.avatar_url
            body.email_verified)
    write (ok_reply (a_user user))

  unfoldable pub get_me : Request → Handling W Reply
  get_me req = do
    id ← known_user req
    user ← call (λ e. no_user) (service.get_by_id db id)
    write (ok_reply (a_user user))

  -- `scheme` is `url.ParseRequestURI`, as far as the service asks for it.
  unfoldable pub update_profile : (String → Option String) → Request → Handling W Reply
  update_profile scheme req = do
    id ← present_user req
    body ← require (invalid_input "invalid request body") (bind.update_profile req.body)
    user ←
        call (λ e. profile_reply (cause e))
          (service.update_profile db scheme id body.display_name body.avatar_url body.status_text)
    write (ok_reply (a_user user))
