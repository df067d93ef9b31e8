-- ===== src/Middleware/Token/RoundTrip.antt =====
-- internal/service/local_auth_service.go and internal/middleware/auth.go: the tokens that the one
-- issues and the other takes.
use Prim.Native.String
use todo_chat_app.Prelude.{
  ◌*◌, ◌<◌, ◌≡◌, ◌≢◌, refl, ap, subst, sym, ◌∙◌, true, false, String, none, some, List, [], ◌∷◌,
  arith, str_eq, if◌then◌else◌,
}
use todo_chat_app.Prelude.Text.{is_empty, cut_prefix-append}
use todo_chat_app.Outcome.{ok, answer, Action}
use todo_chat_app.Outcome.Rules.{ask-eq-ok, bind-eq-ok, returned_value}
use todo_chat_app.Model.{Uuid, is_nil}
use todo_chat_app.Gorm.{Db}
use todo_chat_app.Repository.Token
use todo_chat_app.Service.Libs.{Formats, Host, Claims, no_claims}
use todo_chat_app.Service.Auth.{
  add_time, Settings, TokenPair, issue_token_pair, local_issuer, unix, new_refresh_token,
  hash_token, generate_random_token,
}
use todo_chat_app.Middleware.Rbac.{contains}
use todo_chat_app.Handler.{Request, going, replied, Turn}
use todo_chat_app.Middleware.Token.Keys.{Process}
use todo_chat_app.Middleware.Token.{
  Token as JwtToken, signing_method_hmac, Key, secret_key, AuthMiddleware, Libraries, key_func,
  Passed, handle_local_token, handle, handle_parsed, extract_bearer, token_text, refused,
}

-- What `jwt.NewWithClaims(jwt.SigningMethodHS256, claims)` reads back as.
abbrev pub hs256_token : Claims → JwtToken
hs256_token c = record { method = signing_method_hmac; alg = "HS256"; kid = ""; claims = c }

-- A signed text is not empty, and parses back until it expires, where the key function gives the
-- secret that it was signed with.
pub record SignLaws {W : Type 0} (host : Host W) (libs : Libraries W) : Type 0 where
  pub filled :
      (secret text : String) (c : Claims) (w : W)
      → host.sign secret c w ≡ answer text
      → is_empty text ≡ false
  pub parses :
      (methods : List String) (keys : JwtToken → Action (Process W) Key) (secret text : String)
      (c : Claims) (w : W) (s : Process W)
      → host.sign secret c w ≡ answer text
      → contains methods "HS256" ≡ true
      → host.now s.world < c.exp * 1000000000
      → keys (hs256_token c) s ≡ ok (secret_key secret) s
      → libs.parse_with_claims methods keys text s ≡ ok (hs256_token c) s

module _ {W : Type 0} (libs : Libraries W) (m : AuthMiddleware) (db : Db W) (host : Host W)
    (f : Formats) (settings : Settings) where
  hs256_allowed : contains ("RS256" ∷ "HS256" ∷ []) "HS256" ≡ true
  unfolding str_eq
  hs256_allowed = refl

  -- The claims of an access token.
  abbrev pub access_claims : Uuid → W → Claims
  access_claims user w = record no_claims {
    sub = f.show_uuid user;
    iss = local_issuer;
    iat = unix (host.now w);
    exp = unix (add_time (host.now w) settings.access_expiry);
  }

  issue_token_pair-signed :
      (user : Uuid) (w v : W) (pair : TokenPair)
      → issue_token_pair db host f settings user w ≡ ok pair v
      → host.sign settings.jwt_secret (access_claims user w) w ≡ answer pair.access_token
  unfolding issue_token_pair
  issue_token_pair-signed user w v pair h =
      let (access, signed, h1) = ask-eq-ok _ _ h in
      let (raw, u, _, h2) = bind-eq-ok (generate_random_token db host f settings) _ h1 in
      let (_, t, _, h3) =
        bind-eq-ok
          (Token.save db (
            new_refresh_token user (hash_token f raw)
              (add_time (host.now w) settings.refresh_expiry)))
          _ h2 in
      signed ∙ ap (λ p. answer p.access_token) (returned_value h3)

  hs256-key :
      (c : Claims) (s : Process W)
      → is_empty m.local_jwt_secret ≡ false
      → key_func libs m (hs256_token c) s ≡ ok (secret_key m.local_jwt_secret) s
  unfolding key_func is_empty
  hs256-key c s there = rw there refl

  extract_bearer-append : (text : String) → extract_bearer (String.◌++◌ "Bearer " text) ≡ text
  unfolding extract_bearer
  extract_bearer-append text =
      ap (λ o. elim o [ none ↦ "" | some after ↦ after ]) (cut_prefix-append "Bearer " text)

  token_text-bearer :
      (req : Request) (text : String)
      → req.header "Authorization" ≡ String.◌++◌ "Bearer " text
      → is_empty text ≡ false
      → token_text req ≡ text
  token_text-bearer req text h there = rw (h, extract_bearer-append text, there) refl

  is_nil-false : (user : Uuid) → user ≢ 0 → is_nil user ≡ false
  is_nil-false user there = ground arith

  local-going :
      (user : Uuid) (w : W) (s : Process W)
      → user ≢ 0
      → f.parse_uuid (f.show_uuid user) ≡ some user
      → handle_local_token libs m f (access_claims user w) s ≡ going (user, none) s
  unfolding handle_local_token str_eq
  local-going user w s there known = rw (known, is_nil-false user there) refl

  handled-text :
      (req : Request) (text : String) (s : Process W) (t : Turn (Process W) Passed)
      → token_text req ≡ text
      → is_empty text ≡ false
      → handle_parsed libs m db host f
          (libs.parse_with_claims ("RS256" ∷ "HS256" ∷ []) (key_func libs m) text s)
        ≡ t
      → handle libs m db host f req s ≡ t
  unfolding handle
  handled-text req text s t e there h =
      subst
        (λ x.
          (if is_empty x
            then replied (refused "missing token") s
            else handle_parsed libs m db host f
                (libs.parse_with_claims ("RS256" ∷ "HS256" ∷ []) (key_func libs m) x s))
          ≡ t)
        (sym e) (rw there h)

  module _ (laws : SignLaws host libs) where
    -- An access token that the local service issued for a user, not nil, passes the token middleware
    -- with the same secret, as the bearer of a request, until it expires; the middleware then puts
    -- this user into the context, and changes nothing.
    pub issue_token_pair-handle :
        (user : Uuid) (w v : W) (pair : TokenPair) (req : Request) (s : Process W)
        → issue_token_pair db host f settings user w ≡ ok pair v
        → m.local_jwt_secret ≡ settings.jwt_secret
        → is_empty settings.jwt_secret ≡ false
        → user ≢ 0
        → f.parse_uuid (f.show_uuid user) ≡ some user
        → req.header "Authorization" ≡ String.◌++◌ "Bearer " pair.access_token
        → host.now s.world < unix (add_time (host.now w) settings.access_expiry) * 1000000000
        → handle libs m db host f req s ≡ going (user, none) s
    unfolding is_empty
    issue_token_pair-handle user w v pair req s issued same there user_there known bearer current =
        let signed = issue_token_pair-signed user w v pair issued in
        let filled = laws.filled _ _ _ _ signed in
        let parsed =
          laws.parses ("RS256" ∷ "HS256" ∷ []) (key_func libs m) settings.jwt_secret
            pair.access_token (access_claims user w) w s signed hs256_allowed current
            (rw (← same) (hs256-key (access_claims user w) s (rw same there))) in
        handled-text req pair.access_token s _
          (token_text-bearer req pair.access_token bearer filled) filled
          (ap (handle_parsed libs m db host f) parsed ∙ local-going user w s user_there known)
