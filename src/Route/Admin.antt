-- ===== src/Route/Admin.antt =====
-- internal/route/route.go: which requests reach a handler that is not public.
use todo_chat_app.Prelude.{
  ◌≤◌, ◌≡◌, Bool, true, false, not, Option, none, some, String, List, arith, if◌then◌else◌, str_eq,
}
use todo_chat_app.Prelude.Text.{is_empty}
use todo_chat_app.Outcome.{Error, answer, Outcome, ok, err}
use todo_chat_app.Model.{User, WorkspaceMember, Uuid, is_nil}
use todo_chat_app.Gorm.{Db}
use todo_chat_app.Gorm.Laws.{ReadLaws}
use todo_chat_app.Service.Libs.{Formats, Host, Claims}
use todo_chat_app.Service.User.{sync_auth0_user}
use todo_chat_app.Service.Auth.{local_issuer}
use todo_chat_app.Middleware.Rbac.{Verdict, next, abort, user_id, Permits}
use todo_chat_app.Middleware.Token.Keys.{Process}
use todo_chat_app.Middleware.Token.{
  Token as JwtToken, Key, Libraries, AuthMiddleware, Passed, handle, handle_local_token,
  handle_auth0_token, handle_parsed, recognized, sync_reply, placed, token_text, refused,
}
use todo_chat_app.Middleware.Token.Sound.{ParseLaws, LetIn, handle-LetIn}
use todo_chat_app.Response.{Reply}
use todo_chat_app.Handler.{Request, Turn, Handling, going, replied, cause, reply_if, ◌>>◌}
use todo_chat_app.Route as route
use todo_chat_app.Route.{Endpoint, Guard, with_role, Server}

-- A turn that does not go on was ended with the status of an error.
abbrev pub Refuses : {W A : Type 0} → Turn W A → Type 0
Refuses (going a w) = Unit
Refuses (replied r w) = 400 ≤ r.status

Refuses-if :
    {W A : Type 0} (b : Bool) (t u : Turn W A)
    → Refuses t
    → Refuses u
    → Refuses (if b then t else u)
Refuses-if true t u p q = p
Refuses-if false t u p q = q

module _ {W : Type 0} (libs : Libraries W) (m : AuthMiddleware) (db : Db W) (host : Host W)
    (f : Formats) where
  parsed-Refuses :
      (s : Process W) (o : Option Uuid)
      → Refuses {A = Passed} (elim o [
        | none ↦ replied (refused "invalid token") s
        | some id ↦ if is_nil id then replied (refused "invalid token") s else going (id, none) s
      ])
  parsed-Refuses s none = omega arith
  parsed-Refuses s (some id) = Refuses-if (is_nil id) _ _ (omega arith) tt

  handle_local_token-Refuses :
      (claims : Claims) (s : Process W) → Refuses (handle_local_token libs m f claims s)
  unfolding handle_local_token
  handle_local_token-Refuses claims s =
      Refuses-if (not (str_eq claims.iss local_issuer)) _ _ (omega arith)
        (parsed-Refuses s (f.parse_uuid claims.sub))

  sync_reply_bound : (e : Error) (w : W) → 400 ≤ (sync_reply libs m db host f e w).status
  sync_reply_bound e w = ground arith

  recognized-Refuses :
      (subject : String) (o : Outcome (Process W) User)
      → Refuses (recognized libs m db host f subject o)
  recognized-Refuses subject (ok user s) = Refuses-if (is_nil user.id) _ _ (omega arith) tt
  recognized-Refuses subject (err e s) = sync_reply_bound (cause e) s.world

  reply_if-Refuses :
      (b : Bool) (text : String) (k : Handling (Process W) Passed) (s : Process W)
      → Refuses (k s)
      → Refuses ((reply_if b (refused text) >> k) s)
  unfolding reply_if
  reply_if-Refuses true text k s h = omega arith
  reply_if-Refuses false text k s h = h

  handle_auth0_token-Refuses :
      (claims : Claims) (s : Process W) → Refuses (handle_auth0_token libs m db host f claims s)
  unfolding handle_auth0_token
  handle_auth0_token-Refuses claims s = reply_if-Refuses _ _ _ s (
      reply_if-Refuses _ _ _ s (
        reply_if-Refuses _ _ _ s (
          recognized-Refuses claims.sub (
            placed s (
              sync_auth0_user db f claims.sub claims.email claims.name claims.picture
                claims.email_verified s.world)))))

  handle_parsed-Refuses :
      (o : Outcome (Process W) JwtToken) → Refuses (handle_parsed libs m db host f o)
  handle_parsed-Refuses (ok token s) =
      Refuses-if (is_empty token.kid) _ _ (handle_local_token-Refuses token.claims s)
        (handle_auth0_token-Refuses token.claims s)
  handle_parsed-Refuses (err e s) = omega arith

  pub handle-Refuses : (req : Request) (s : Process W) → Refuses (handle libs m db host f req s)
  unfolding handle
  handle-Refuses req s =
      Refuses-if (is_empty (token_text req)) _ _ (omega arith) (handle_parsed-Refuses _)

module _ {W : Type 0} (db : Db W) (f : Formats) where
  -- A verdict that does not let the request pass on has the status of an error.
  abbrev Denies : Verdict → Type 0
  Denies next = Unit
  Denies (abort status text) = 400 ≤ status

module _ {W : Type 0} (db : Db W) (srv : Server W) (members : W → List WorkspaceMember)
    (reads : ReadLaws db.members.reader members) (verifies : Key → String → Bool)
    (laws : ParseLaws srv.libs verifies) where
  -- What the role middleware found out about the user, where an endpoint has one.
  abbrev pub Holds : Guard → String → Uuid → W → Type 0
  Holds (with_role roles) param user w =
      (ws : Uuid) × (srv.formats.parse_uuid param ≡ some ws)
      × Permits db srv.formats members reads roles w ws user
  Holds _ param user w = Unit

  -- The handler ran for a user whom the token let in and who has the role.
  abbrev pub Reached : Guard → Endpoint → Request → Reply × Process W → Type 0
  Reached g point req result =
      (passed : Passed) × (s : Process W) × LetIn srv.libs srv.auth db srv.host srv.formats verifies
        (token_text req) passed s
      × Holds g req.param (passed.0) s.world
      × (result ≡ route.answer db srv point (record req { user = user_id (passed.0) }) s)

  pub let_in :
      (req : Request) (s : Process W) (passed : Passed) (v : Process W)
      → handle srv.libs srv.auth db srv.host srv.formats req s ≡ going passed v
      → LetIn srv.libs srv.auth db srv.host srv.formats verifies (token_text req) passed v
  let_in req s passed v h =
      handle-LetIn srv.libs srv.auth db srv.host srv.formats verifies laws req s v passed h
