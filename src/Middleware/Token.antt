-- ===== src/Middleware/Token.antt =====
-- internal/middleware/auth.go: the check of the token that a request carries. The state is the world
-- that the user service works on and the keys of the remote issuer that the process has fetched; each
-- use of the keys is one step, as the code takes its lock for it.
--
-- Package jwt, the HTTP client, and the decoding of URLs, JSON and base64 are parameters. The `err`
-- of `jwt.ParseWithClaims` is nil only where the token is valid, so `token.Valid` has no case.
pub mod Keys
pub mod Sound
pub mod RoundTrip
use Prim.Native.String
use todo_chat_app.Prelude.{
  ℕ, ◌+◌, ◌*◌, String, Bool, true, false, not, ◌&&◌, Option, none, some, List, [], ◌∷◌, str_eq,
  if◌then◌else◌, ◌==◌,
}
use todo_chat_app.Prelude.Text.{trim_space, is_empty, cut_prefix, trim_slash}
use todo_chat_app.Outcome.{
  Error, Answer, answer, fails, Outcome, ok, err, Action, user_email_not_verified, link_required,
  other,
}
use todo_chat_app.Model.{User, Uuid, is_nil, minute}
use todo_chat_app.Gorm.{Db}
use todo_chat_app.Service.Libs.{
  Formats, Host, Claims, no_claims, Audience, no_audience, other_audience, one_audience, audiences,
}
use todo_chat_app.Service.User.{sync_auth0_user}
use todo_chat_app.Service.Auth.{local_issuer, link_issuer, unix}
use todo_chat_app.Middleware.Rbac.{contains}
use todo_chat_app.Response.{Reply, fault, coded_fault, link_pending}
use todo_chat_app.Handler.{Request, Handling, Turn, going, replied, ◌>>=◌, ◌>>◌, reply_if, cause}
use Keys.{Process, RsaPublicKey, JwkKey, key_for, refreshed, Fetched, fetched}

-- What `token.Method` is an instance of.
pub data Method : Type 0 where
  signing_method_hmac signing_method_rsa other_method : Method

-- The parsed token; a `kid` that is absent, or is no text, reads as the empty text.
pub record Token : Type 0 where
  pub method : Method
  pub alg : String
  pub kid : String
  pub claims : Claims

pub data Key : Type 0 where
  secret_key : String → Key
  public_key : RsaPublicKey → Key

pub record AuthMiddleware : Type 0 where
  pub issuer : String
  pub audience : String
  pub jwks_url : String
  pub local_jwt_secret : String
  pub auth0_enabled : Bool

pub record Libraries (W : Type 0) : Type 0 where
  -- `url.Parse(s)`, as far as it is asked for the host
  pub url_host : String → Option String
  -- `http.NewRequest` and `httpClient.Do`: the status and the body
  pub get : String → Action W (ℕ × String)
  -- `json.NewDecoder(body).Decode(&parsed)`
  pub decode_jwks : String → Option (List JwkKey)
  -- `base64.RawURLEncoding.DecodeString`
  pub base64 : String → Option (List ℕ)
  -- `jwt.ParseWithClaims(text, claims, keyFunc, jwt.WithValidMethods(methods))`
  pub parse_with_claims :
      List String → (Token → Action (Process W) Key) → String → Action (Process W) Token

-- `normalizeAuth0Domain`
abbrev pub with_scheme : String → String
with_scheme text = elim (cut_prefix "http://" text) [
  | some rest ↦ text
  | none ↦ elim (cut_prefix "https://" text) [
    | some rest ↦ text
    | none ↦ String.◌++◌ "https://" text
  ]
]

unfoldable pub normalize_auth0_domain : (String → Option String) → String → Option String
normalize_auth0_domain url_host raw =
    if is_empty (trim_space raw) then none else elim (url_host (with_scheme (trim_space raw))) [
      | none ↦ none
      | some host ↦ if is_empty host then none else some (trim_slash host)
    ]

abbrev pub local_only : String → AuthMiddleware
local_only secret = record {
  issuer = "";
  audience = "";
  jwks_url = "";
  local_jwt_secret = secret;
  auth0_enabled = false;
}

abbrev pub with_domain : String → String → Option String → Option AuthMiddleware
with_domain secret audience none = none
with_domain secret audience (some domain) = some (record {
  issuer = String.◌++◌ "https://" (String.◌++◌ domain "/");
  audience = audience;
  jwks_url = String.◌++◌ "https://" (String.◌++◌ domain "/.well-known/jwks.json");
  local_jwt_secret = secret;
  auth0_enabled = true;
})

abbrev both_or_neither : Bool → Bool → Bool
both_or_neither true b = b
both_or_neither false b = not b

-- The domain, the audience and the secret of the configuration.
unfoldable pub new_auth_middleware :
    (String → Option String) → String → String → String → Option AuthMiddleware
new_auth_middleware url_host domain audience secret =
    if both_or_neither (is_empty (trim_space domain)) (is_empty (trim_space audience))
    then if is_empty (trim_space domain)
      then some (local_only secret)
      else with_domain secret audience (normalize_auth0_domain url_host domain)
    else none

unfoldable pub has_audience : Audience → String → Bool
has_audience no_audience audience = false
has_audience other_audience audience = false
has_audience (one_audience v) audience = str_eq v audience
has_audience (audiences vs) audience = contains vs audience

-- The header `Authorization`, and the text after `Bearer ` in it.
unfoldable pub extract_bearer : String → String
extract_bearer header = elim (cut_prefix "Bearer " header) [ none ↦ "" | some after ↦ after ]

abbrev pub token_text : Request → String
token_text req =
    if is_empty (extract_bearer (req.header "Authorization"))
    then elim (req.query "token") [ none ↦ "" | some s ↦ s ]
    else extract_bearer (req.header "Authorization")

abbrev pub refused : String → Reply
refused text = record { status = 401; body = fault text }

-- An action of the services, on the state of the process.
abbrev pub placed : {W A : Type 0} → Process W → Outcome W A → Outcome (Process W) A
placed s (ok a w) = ok a (record s { world = w })
placed s (err e w) = err e (record s { world = w })

-- What the middleware puts under `UserIDContextKey` and `Auth0IDContextKey`, before `c.Next()`.
abbrev pub Passed : Type 0
Passed = Uuid × Option String

module _ {W : Type 0} (libs : Libraries W) (m : AuthMiddleware) where
  -- The errors of `refreshJWKS` and of the key function are texts; here they are numbers.
  abbrev pub found_or : Option RsaPublicKey → Action (Process W) Key → Action (Process W) Key
  found_or none k = k
  found_or (some key) k = λ s. ok (public_key key) s

  unfoldable pub refresh_jwks : Process W → Fetched W
  refresh_jwks s = refreshed libs.decode_jwks libs.base64 s (libs.get m.jwks_url s.world)

  abbrev pub looked_again : String → Fetched W → Outcome (Process W) Key
  looked_again kid (fetched none s) = found_or (key_for kid s.jwks_by_k) (λ t. err (other 1) t) s
  looked_again kid (fetched (some e) s) = err e s

  -- `lookupKey`, and the second look-up after a refresh.
  unfoldable pub remote_key : String → Action (Process W) Key
  remote_key kid s = found_or (key_for kid s.jwks_by_k) (λ t. looked_again kid (refresh_jwks t)) s

  abbrev pub key_by_method : Token → Action (Process W) Key
  key_by_method token s = elim (token.method) [
    | signing_method_rsa ↦ remote_key token.kid s
    | signing_method_hmac ↦ err (other 2) s
    | other_method ↦ err (other 2) s
  ]

  abbrev pub local_key : Token → Action (Process W) Key
  local_key token s = elim (token.method) [
    | signing_method_hmac ↦
        if is_empty m.local_jwt_secret
        then err (other 3) s
        else ok (secret_key m.local_jwt_secret) s
    | signing_method_rsa ↦ err (other 4) s
    | other_method ↦ err (other 4) s
  ]

  unfoldable pub key_func : Token → Action (Process W) Key
  key_func token s =
      if is_empty token.kid
      then local_key token s
      else if m.auth0_enabled
      then key_by_method token s
      else err (other 5) s

  module _ (f : Formats) where
    unfoldable pub handle_local_token : Claims → Handling (Process W) Passed
    handle_local_token claims s =
        if not (str_eq claims.iss local_issuer)
        then replied (refused "invalid token") s
        else elim (f.parse_uuid claims.sub) [
          | none ↦ replied (refused "invalid token") s
          | some id ↦ if is_nil id then replied (refused "invalid token") s else going (id, none) s
        ]

  module _ (db : Db W) (host : Host W) (f : Formats) where
    unfoldable pub issue_pending_link_token : String → String → W → Answer String
    issue_pending_link_token google_sub email w =
        host.sign m.local_jwt_secret
          (record no_claims {
            sub = google_sub;
            email = email;
            iss = link_issuer;
            exp = unix (host.now w + 10 * minute);
          })
          w

    abbrev pub link_reply : Answer String → Reply
    link_reply (answer token) = record {
      status = 409;
      body = link_pending "ACCOUNT_LINK_REQUIRED" token;
    }
    link_reply (fails e) = record { status = 500; body = fault "internal server error" }

    -- The replies to the errors of `SyncAuth0User`.
    abbrev pub sync_reply : Error → W → Reply
    sync_reply user_email_not_verified w = record {
      status = 403;
      body = coded_fault "email is not verified" "EMAIL_NOT_VERIFIED";
    }
    sync_reply (link_required google_sub email) w =
        link_reply (issue_pending_link_token google_sub email w)
    sync_reply _ w = refused "user identity not recognized"

    abbrev pub recognized : String → Outcome (Process W) User → Turn (Process W) Passed
    recognized subject (ok user s) =
        if is_nil user.id
        then replied (refused "user identity not recognized") s
        else going (user.id, some subject) s
    recognized subject (err e s) = replied (sync_reply (cause e) s.world) s

    unfoldable pub handle_auth0_token : Claims → Handling (Process W) Passed
    handle_auth0_token claims = do
      reply_if (not (str_eq claims.iss m.issuer)) (refused "invalid token")
      reply_if (not (has_audience claims.aud m.audience)) (refused "invalid token")
      reply_if (is_empty (trim_space claims.sub)) (refused "invalid token")
      λ s. recognized claims.sub (
          placed s (
            sync_auth0_user db f claims.sub claims.email claims.name claims.picture
              claims.email_verified s.world))

    abbrev pub handle_parsed : Outcome (Process W) Token → Turn (Process W) Passed
    handle_parsed (ok token s) =
        if is_empty token.kid
        then handle_local_token f token.claims s
        else handle_auth0_token token.claims s
    handle_parsed (err e s) = replied (refused "invalid token") s

    unfoldable pub handle : Request → Handling (Process W) Passed
    handle req s =
        if is_empty (token_text req)
        then replied (refused "missing token") s
        else handle_parsed
            (libs.parse_with_claims ("RS256" ∷ "HS256" ∷ []) key_func (token_text req) s)
