-- ===== src/Handler.antt =====
-- internal/handler: what the handlers share. A handler checks the request, calls one service, and
-- writes one reply; `gin.Context` is here the request that it reads. What gin makes of a body for a
-- request type, its `binding` tags included, is a parameter.
pub mod Requests
pub mod Rules
pub mod Task
pub mod Workspace
pub mod Invitation
pub mod User
pub mod LocalAuth
pub mod Health
pub mod Chat
use todo_chat_app.Prelude.{String, Bool, Option, none, some, if◌then◌else◌}
use todo_chat_app.Outcome.{Error, Outcome, ok, err, Action, rollback_failed}
use todo_chat_app.Model.{Uuid, is_nil}
use todo_chat_app.Middleware.Rbac.{ContextUser, absent, not_uuid, user_id}
use todo_chat_app.Response.{Reply, code_unauthorized, code_invalid_input, unauthorized, bad_request}

-- The body, the one parameter of the path, the value under `UserIDContextKey`, and the look-ups of
-- query parameters, which may be missing, and of headers.
pub record Request : Type 0 where
  pub body : String
  pub param : String
  pub user : ContextUser
  pub query : String → Option String
  pub header : String → String

-- A handler on its way, or with its reply written.
pub data Turn (W A : Type 0) : Type 0 where
  going : A → W → Turn W A
  replied : Reply → W → Turn W A

abbrev pub Handling : Type 0 → Type 0 → Type 0
Handling W A = W → Turn W A

abbrev pub turned : {W A B : Type 0} → Turn W A → (A → Handling W B) → Turn W B
turned (going a w) k = k a w
turned (replied r w) k = replied r w

infixl 5 ◌>>=◌ ◌>>◌
abbrev pub ◌>>=◌ : {W A B : Type 0} → Handling W A → (A → Handling W B) → Handling W B
◌>>=◌ m k w = turned (m w) k

abbrev pub ◌>>◌ : {W B : Type 0} → Handling W (Unit {0}) → Handling W B → Handling W B
m >> k = m >>= λ _. k

abbrev pub finished : {W : Type 0} → Turn W Reply → Reply × W
finished (going r w) = (r, w)
finished (replied r w) = (r, w)

-- A handler's last value is its reply.
abbrev pub run : {W : Type 0} → Handling W Reply → W → Reply × W
run m w = finished (m w)

abbrev pub write : {W : Type 0} → Reply → Handling W Reply
write r w = going r w

abbrev pub answered_by : {W A : Type 0} → (Error → Reply) → Outcome W A → Turn W A
answered_by to_reply (ok a w) = going a w
answered_by to_reply (err e w) = replied (to_reply e) w

-- The call of a service, with the reply to each of its errors.
unfoldable pub call : {W A : Type 0} → (Error → Reply) → Action W A → Handling W A
call to_reply m w = answered_by to_reply (m w)

-- `if err != nil { reply; return }` after a call that may give no value.
unfoldable pub require : {W A : Type 0} → Reply → Option A → Handling W A
require r none w = replied r w
require r (some a) w = going a w

unfoldable pub reply_if : {W : Type 0} → Bool → Reply → Handling W (Unit {0})
reply_if b r w = if b then replied r w else going tt w

-- `c.Get(UserIDContextKey)` and the assertion `.(uuid.UUID)`, with the text for a key that is not
-- there and the text for a value that is no id.
unfoldable pub signed_in : {W : Type 0} → String → String → ContextUser → Handling W Uuid
signed_in missing invalid absent w = replied (unauthorized code_unauthorized missing) w
signed_in missing invalid not_uuid w = replied (unauthorized code_unauthorized invalid) w
signed_in missing invalid (user_id id) w =
    if is_nil id then replied (unauthorized code_unauthorized invalid) w else going id w

abbrev pub known_user : {W : Type 0} → Request → Handling W Uuid
known_user req = signed_in "unauthenticated" "invalid user identity" req.user

abbrev pub present_user : {W : Type 0} → Request → Handling W Uuid
present_user req = signed_in "unauthenticated" "unauthenticated" req.user

abbrev pub invalid_input : String → Reply
invalid_input text = bad_request code_invalid_input text

-- `errors.Is` looks through an error that wraps another with `%w`.
unfoldable pub cause : Error → Error
cause (rollback_failed e) = cause e
cause e = e
