-- ===== src/Middleware/Token/Sound.antt =====
-- internal/middleware/auth.go: whom a token lets in, and with which key it was checked.
use todo_chat_app.Prelude.{
  ◌≡◌, ◌≢◌, refl, ap, ◌⊎◌, inl, inr, Bool, true, false, not, String, Option, none, some, List,
  arith, str_eq, str_eq_iff, if◌then◌else◌, Bool-cases, if_true, if_false,
}
use todo_chat_app.Prelude.Text.{is_empty}
use todo_chat_app.Outcome.{Outcome, ok, err, Action}
use todo_chat_app.Model.{User, Uuid, is_nil}
use todo_chat_app.Gorm.{Db}
use todo_chat_app.Service.Libs.{Formats, Host, Claims}
use todo_chat_app.Service.User.Consent.{sync_auth0_user-verified}
use todo_chat_app.Service.Auth.{local_issuer}
use todo_chat_app.Middleware.Rbac.{contains}
use todo_chat_app.Response.{Reply}
use todo_chat_app.Handler.{Request, Turn, going, replied}
use todo_chat_app.Handler.Rules.{reply_if-eq-going}
use todo_chat_app.Middleware.Token.Keys.{Process, RsaPublicKey, key_for, Fetched, fetched}
use todo_chat_app.Middleware.Token.{
  Method, signing_method_hmac, signing_method_rsa, other_method, Token, Key, secret_key, public_key,
  AuthMiddleware, Libraries, found_or, looked_again, remote_key, refresh_jwks, key_by_method,
  local_key, key_func, Passed, has_audience, handle_local_token, handle_auth0_token, recognized,
  placed, handle_parsed, handle, token_text,
}

-- A token is accepted only if the key function gave a key for it, under which its signature is right,
-- and its algorithm is one of those allowed.
pub record ParseLaws {W : Type 0} (libs : Libraries W) (verifies : Key → String → Bool)
    : Type 0 where
  pub accepted :
      (methods : List String) (keys : Token → Action (Process W) Key) (text : String)
      (s v : Process W) (token : Token)
      → libs.parse_with_claims methods keys text s ≡ ok token v
      → (key : Key) × (keys token s ≡ ok key v)
        × (verifies key text ≡ true)
        × (contains methods token.alg ≡ true)

module _ {W : Type 0} (libs : Libraries W) (m : AuthMiddleware) where
  -- The key is the local secret, for an HMAC token without a `kid`.
  abbrev pub IsLocalKey : Token → Key → Type 0
  IsLocalKey token key =
      (is_empty token.kid ≡ true)
      × (token.method ≡ signing_method_hmac)
      × (is_empty m.local_jwt_secret ≡ false)
      × (key ≡ secret_key m.local_jwt_secret)

  -- The key is one of the remote issuer's, for an RSA token whose `kid` names it.
  abbrev pub IsRemoteKey : Token → Key → Process W → Type 0
  IsRemoteKey token key s =
      (is_empty token.kid ≡ false)
      × (m.auth0_enabled ≡ true)
      × (token.method ≡ signing_method_rsa)
      × ((k : RsaPublicKey) × (key ≡ public_key k) × (key_for token.kid s.jwks_by_k ≡ some k))

  found_or-cases :
      (o : Option RsaPublicKey) (k : Action (Process W) Key) (s v : Process W) (key : Key)
      → found_or libs m o k s ≡ ok key v
      → ((pk : RsaPublicKey) × (o ≡ some pk) × (key ≡ public_key pk) × (v ≡ s)) ⊎ (k s ≡ ok key v)
  found_or-cases none k s v key h = inr h
  found_or-cases (some pk) k s v key h = inl (pk, refl, cc, cc)

  looked_again-known :
      (kid : String) (o : Fetched W) (key : Key) (v : Process W)
      → looked_again libs m kid o ≡ ok key v
      → (k : RsaPublicKey) × (key ≡ public_key k) × (key_for kid v.jwks_by_k ≡ some k)
  looked_again-known kid (fetched none s) key v h =
      elim (found_or-cases (key_for kid s.jwks_by_k) _ s v key h) [
        | inl (k, found, same, kept) ↦ (k, same, rw kept found)
        | inr none_left ↦ cc
      ]
  looked_again-known kid (fetched (some e) s) key v h = cc

  remote_key-known :
      (kid : String) (s v : Process W) (key : Key)
      → remote_key libs m kid s ≡ ok key v
      → (k : RsaPublicKey) × (key ≡ public_key k) × (key_for kid v.jwks_by_k ≡ some k)
  unfolding remote_key
  remote_key-known kid s v key h = elim (found_or-cases (key_for kid s.jwks_by_k) _ s v key h) [
    | inl (k, found, same, kept) ↦ (k, same, rw kept found)
    | inr again ↦ looked_again-known kid (refresh_jwks libs m s) key v again
  ]

  local_key-IsLocalKey :
      (token : Token) (s v : Process W) (key : Key) (method : Method)
      → is_empty token.kid ≡ true
      → token.method ≡ method
      → local_key libs m token s ≡ ok key v
      → IsLocalKey token key
  local_key-IsLocalKey token s v key signing_method_hmac kid is h =
      elim (Bool-cases (is_empty m.local_jwt_secret)) [
        | inl missing ↦ cc (rw (is, missing) at h)
        | inr there ↦ (kid, is, there, cc (rw (is, there) at h))
      ]
  local_key-IsLocalKey token s v key signing_method_rsa kid is h = cc (rw is at h)
  local_key-IsLocalKey token s v key other_method kid is h = cc (rw is at h)

  key_by_method-IsRemoteKey :
      (token : Token) (s v : Process W) (key : Key) (method : Method)
      → is_empty token.kid ≡ false
      → m.auth0_enabled ≡ true
      → token.method ≡ method
      → key_by_method libs m token s ≡ ok key v
      → IsRemoteKey token key v
  key_by_method-IsRemoteKey token s v key signing_method_rsa kid on is h =
      (kid, on, is, remote_key-known token.kid s v key (rw is at h))
  key_by_method-IsRemoteKey token s v key signing_method_hmac kid on is h = cc (rw is at h)
  key_by_method-IsRemoteKey token s v key other_method kid on is h = cc (rw is at h)

  -- The key function gives the local secret only to an HMAC token without a `kid`, and a key of the
  -- remote issuer only to an RSA token whose `kid` names it, where the remote issuer is configured.
  pub key_func-source :
      (token : Token) (s v : Process W) (key : Key)
      → key_func libs m token s ≡ ok key v
      → IsLocalKey token key ⊎ IsRemoteKey token key v
  unfolding key_func
  key_func-source token s v key h = elim (Bool-cases (is_empty token.kid)) [
    | inl bare ↦
        inl (local_key-IsLocalKey token s v key token.method bare refl (if_true _ _ _ bare h))
    | inr named ↦ elim (Bool-cases m.auth0_enabled) [
      | inl on ↦ inr (
          key_by_method-IsRemoteKey token s v key token.method named on refl
            (if_true _ _ _ on (if_false _ _ _ named h)))
      | inr off ↦ cc (if_false _ _ _ off (if_false _ _ _ named h))
    ]
  ]

  module _ (f : Formats) where
    -- What the claims of a local token say of the user that it lets in.
    abbrev pub IsLocalUser : Claims → Passed → Type 0
    IsLocalUser claims passed =
        (claims.iss ≡ local_issuer)
        × (f.parse_uuid claims.sub ≡ some (passed.0))
        × (passed.0 ≢ 0)
        × (passed.1 ≡ none)

    parsed-known :
        (o : Option Uuid) (r : Reply) (s v : Process W) (passed : Passed)
        → (elim o [
          | none ↦ replied r s
          | some id ↦ if is_nil id then replied r s else going (id, none) s
        ])
          ≡ going passed v
        → (o ≡ some (passed.0)) × (passed.0 ≢ 0) × (passed.1 ≡ none) × (v ≡ s)
    parsed-known none r s v passed h = cc
    parsed-known (some id) r s v passed h = elim (Bool-cases (is_nil id)) [
      | inl nil ↦ cc (if_true _ _ _ nil h)
      | inr there ↦
          let same : ◌≡◌ {A = Turn (Process W) Passed} (going (id, none) s) (going passed v) =
            if_false _ _ _ there h in
          let (one, two) : ((id, none) ≡ passed) × (s ≡ v) = (cc, cc) in
          (cc, (λ e. ground arith), cc, cc)
    ]

    handle_local_token-IsLocalUser :
        (claims : Claims) (s v : Process W) (passed : Passed)
        → handle_local_token libs m f claims s ≡ going passed v
        → IsLocalUser claims passed × (v ≡ s)
    unfolding handle_local_token
    handle_local_token-IsLocalUser claims s v passed h =
        elim (Bool-cases (str_eq claims.iss local_issuer)) [
          | inl same ↦
              let (known, there, alone, kept) =
                parsed-known (f.parse_uuid claims.sub) _ s v passed
                  (if_false _ _ _ (ap not same) h) in
              (((str_eq_iff claims.iss local_issuer).0 same, known, there, alone), kept)
          | inr other ↦ cc (if_true _ _ _ (ap not other) h)
        ]

  module _ (db : Db W) (host : Host W) (f : Formats) where
    abbrev pub IsRemoteUser : Claims → Passed → Type 0
    IsRemoteUser claims passed =
        (claims.iss ≡ m.issuer)
        × (has_audience claims.aud m.audience ≡ true)
        × (claims.email_verified ≡ true)
        × (passed.0 ≢ 0)
        × (passed.1 ≡ some claims.sub)

    recognized-known :
        (subject : String) (s v : Process W) (passed : Passed) (o : Outcome W User)
        → recognized libs m db host f subject (placed s o) ≡ going passed v
        → (passed.0 ≢ 0)
          × (passed.1 ≡ some subject)
          × (v.jwks_by_k ≡ s.jwks_by_k)
          × ((user : User) × (w : W) × (o ≡ ok user w))
    recognized-known subject s v passed (ok user w) h = elim (Bool-cases (is_nil user.id)) [
      | inl nil ↦ cc (if_true _ _ _ nil h)
      | inr there ↦
          let same : ◌≡◌ {A = Turn (Process W) Passed}
              (going (user.id, some subject) (record s { world = w })) (going passed v) =
            if_false _ _ _ there h in
          (λ e. ground arith, cc, cc, (user, w, refl))
    ]
    recognized-known subject s v passed (err e w) h = cc

    handle_auth0_token-IsRemoteUser :
        (claims : Claims) (s v : Process W) (passed : Passed)
        → handle_auth0_token libs m db host f claims s ≡ going passed v
        → IsRemoteUser claims passed × (v.jwks_by_k ≡ s.jwks_by_k)
    unfolding handle_auth0_token
    handle_auth0_token-IsRemoteUser claims s v passed h =
        let (iss, h1) = reply_if-eq-going _ _ _ h in
        let (aud, h2) = reply_if-eq-going _ _ _ h1 in
        let (_, h3) = reply_if-eq-going _ _ _ h2 in
        let (there, subject, kept, (user, w, synced)) =
          recognized-known claims.sub s v passed _ h3 in
        (
          (
            (str_eq_iff claims.iss m.issuer).0 (ground arith),
            ground arith,
            sync_auth0_user-verified db f claims.sub claims.email claims.name claims.picture
                claims.email_verified s.world w user synced,
            there,
            subject,
          ),
          kept,
        )

    -- The request was let in by a token whose signature is right under the local secret, or under a key
    -- of the remote issuer, and whose claims name the user.
    abbrev pub LetIn : (Key → String → Bool) → String → Passed → Process W → Type 0
    LetIn verifies text passed s =
        (token : Token) × (key : Key) × (verifies key text ≡ true)
        × ((IsLocalKey token key × IsLocalUser f token.claims passed)
            ⊎ (IsRemoteKey token key s × IsRemoteUser token.claims passed))

    module _ (verifies : Key → String → Bool) (laws : ParseLaws libs verifies) where
      parsed-LetIn :
          (text : String) (s v : Process W) (passed : Passed) (methods : List String)
          (o : Outcome (Process W) Token)
          → libs.parse_with_claims methods (key_func libs m) text s ≡ o
          → handle_parsed libs m db host f o ≡ going passed v
          → LetIn verifies text passed v
      parsed-LetIn text s v passed methods (err e u) parsed h = cc
      parsed-LetIn text s v passed methods (ok token u) parsed h =
          let (key, given, right, _) = laws.accepted methods _ text s u token parsed in
          elim (key_func-source token s u key given) [
            | inl here ↦
                let (user, _) =
                  handle_local_token-IsLocalUser f token.claims u v passed
                    (if_true _ _ _ (here.0) h) in
                (token, key, right, inl (here, user))
            | inr (named, on, rsa, (k, same, known)) ↦
                let (user, kept) =
                  handle_auth0_token-IsRemoteUser token.claims u v passed
                    (if_false _ _ _ named h) in
                (token, key, right, inr ((named, on, rsa, (k, same, rw kept known)), user))
          ]

      pub handle-LetIn :
          (req : Request) (s v : Process W) (passed : Passed)
          → handle libs m db host f req s ≡ going passed v
          → LetIn verifies (token_text req) passed v
      unfolding handle
      handle-LetIn req s v passed h = elim (Bool-cases (is_empty (token_text req))) [
        | inl missing ↦ cc (if_true _ _ _ missing h)
        | inr there ↦ parsed-LetIn (token_text req) s v passed _ _ refl (if_false _ _ _ there h)
      ]
