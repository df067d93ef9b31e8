-- ===== src/Tests/Jwt.antt =====
-- A library of tokens that knows one of them, the text `tok` of user 7, which expires at 900 s.
use todo_chat_app.Prelude.{
  ◌≡◌, refl, ◌<◌, ◌*◌, Bool, true, false, not, ◌&&◌, String, none, List, arith, str_eq, str_eq_iff,
  ltb, ◌==◌, if◌then◌else◌, Bool-cases, if_true, if_false, sym, ap, subst, ◌∙◌, inl, inr,
}
use todo_chat_app.Prelude.Text.{is_empty}
use todo_chat_app.Outcome.{Answer, answer, fails, Outcome, ok, err, Action, other}
use todo_chat_app.Outcome.Rules.{returned_state, returned_value}
use todo_chat_app.Service.Libs.{
  Host, Claims, Audience, no_audience, other_audience, one_audience, audiences, no_claims,
}
use todo_chat_app.Middleware.Rbac.{contains}
use todo_chat_app.Middleware.Token.Keys.{Process}
use todo_chat_app.Middleware.Token.{Token, Key, secret_key, public_key, Libraries}
use todo_chat_app.Middleware.Token.Sound.{ParseLaws}
use todo_chat_app.Middleware.Token.RoundTrip.{SignLaws, hs256_token}
use todo_chat_app.Tests.World.{World, host}

abbrev pub the_claims : Claims
the_claims = record no_claims { sub = "u7"; iss = "kashflow"; exp = 900 }

abbrev is_absent : Audience → Bool
is_absent no_audience = true
is_absent _ = false

-- Whether these are the claims of `tok`.
unfoldable pub are_known : Claims → Bool
are_known c =
    str_eq c.sub "u7"
    && str_eq c.iss "kashflow"
    && str_eq c.email ""
    && c.iat == 0
    && c.exp == 900
    && str_eq c.name ""
    && str_eq c.picture ""
    && not c.email_verified
    && is_absent c.aud

absent-eq : (a : Audience) → is_absent a ≡ true → a ≡ no_audience
absent-eq no_audience h = refl
absent-eq (one_audience s) h = cc
absent-eq (audiences l) h = cc
absent-eq other_audience h = cc

known-eq : (c : Claims) → are_known c ≡ true → c ≡ the_claims
unfolding are_known
known-eq c h =
    let sub = (str_eq_iff c.sub "u7").0 (ground arith) in
    let iss = (str_eq_iff c.iss "kashflow").0 (ground arith) in
    let email = (str_eq_iff c.email "").0 (ground arith) in
    let iat : c.iat ≡ 0 = ground arith in
    let exp : c.exp ≡ 900 = ground arith in
    let name = (str_eq_iff c.name "").0 (ground arith) in
    let picture = (str_eq_iff c.picture "").0 (ground arith) in
    let verified : c.email_verified ≡ false = ground arith in
    let aud = absent-eq c.aud (ground arith) in cc

abbrev pub token_host : Host World
token_host = record host {
  sign = λ secret c w. if str_eq secret "k" && are_known c then answer "tok" else fails (other 0);
}

abbrev pub is_signed : Key → String → Bool
is_signed (secret_key k) text = str_eq k "k" && str_eq text "tok"
is_signed (public_key k) text = false

abbrev checked : String → Outcome (Process World) Key → Outcome (Process World) Token
checked text (ok key s) =
    if is_signed key text && ltb s.world.clock (900 * 1000000000)
    then ok (hs256_token the_claims) s
    else err (other 0) s
checked text (err e s) = err e s

abbrev pub token_libs : Libraries World
token_libs = record {
  url_host = λ s. none;
  get = λ url w. err (other 0) w;
  decode_jwks = λ s. none;
  base64 = λ s. none;
  parse_with_claims = λ methods keys text s.
      if contains methods "HS256"
      then checked text (keys (hs256_token the_claims) s)
      else err (other 0) s;
}

checked-accepted :
    (text : String) (o : Outcome (Process World) Key) (token : Token) (v : Process World)
    → checked text o ≡ ok token v
    → (key : Key) × (o ≡ ok key v) × (is_signed key text ≡ true) × (token ≡ hs256_token the_claims)
checked-accepted text (err e s) token v h = cc
checked-accepted text (ok key s) token v h =
    elim (Bool-cases (is_signed key text && ltb s.world.clock (900 * 1000000000))) [
      | inl good ↦
          let same = if_true _ _ _ good h in
          (key, ap (ok key) (returned_state same), ground arith, sym (returned_value same))
      | inr bad ↦ cc (if_false _ _ _ bad h)
    ]

accepted :
    (methods : List String) (keys : Token → Action (Process World) Key) (text : String)
    (s v : Process World) (token : Token)
    → token_libs.parse_with_claims methods keys text s ≡ ok token v
    → (key : Key) × (keys token s ≡ ok key v)
      × (is_signed key text ≡ true)
      × (contains methods token.alg ≡ true)
accepted methods keys text s v token h = elim (Bool-cases (contains methods "HS256")) [
  | inl allowed ↦
      let (key, given, right, same) = checked-accepted text _ token v (if_true _ _ _ allowed h) in
      (key, rw same given, right, rw same allowed)
  | inr none_allowed ↦ cc (if_false _ _ _ none_allowed h)
]

pub token_libs-ParseLaws : ParseLaws token_libs is_signed
token_libs-ParseLaws = record { accepted = accepted }

signed-known :
    (secret text : String) (c : Claims) (w : World)
    → token_host.sign secret c w ≡ answer text
    → (secret ≡ "k") × (c ≡ the_claims) × ("tok" ≡ text)
signed-known secret text c w h = elim (Bool-cases (str_eq secret "k" && are_known c)) [
  | inl good ↦
      let same : ◌≡◌ {A = Answer String} (answer "tok") (answer text) = if_true _ _ _ good h in
      ((str_eq_iff secret "k").0 (ground arith), known-eq c (ground arith), cc)
  | inr bad ↦ cc (if_false _ _ _ bad h)
]

tok_there : is_empty "tok" ≡ false
unfolding is_empty
tok_there = refl

tok_signed : is_signed (secret_key "k") "tok" ≡ true
unfolding str_eq
tok_signed = refl

checked-live :
    (s : Process World)
    → s.world.clock < 900 * 1000000000
    → checked "tok" (ok (secret_key "k") s) ≡ ok (hs256_token the_claims) s
checked-live s current = rw (tok_signed, live) refl
  where
    live : ltb s.world.clock (900 * 1000000000) ≡ true
    live = ground arith

parses :
    (methods : List String) (keys : Token → Action (Process World) Key) (secret text : String)
    (c : Claims) (w : World) (s : Process World)
    → token_host.sign secret c w ≡ answer text
    → contains methods "HS256" ≡ true
    → s.world.clock < c.exp * 1000000000
    → keys (hs256_token c) s ≡ ok (secret_key secret) s
    → token_libs.parse_with_claims methods keys text s ≡ ok (hs256_token c) s
parses methods keys secret text c w s signed allowed current given =
    let (k, known, tok) = signed-known secret text c w signed in
    let found : keys (hs256_token the_claims) s ≡ ok (secret_key "k") s = rw (← known, ← k) given in
    let live : s.world.clock < 900 * 1000000000 =
      subst (λ x. s.world.clock < x.exp * 1000000000) known current in
    rw (allowed, found, ← tok) (checked-live s live ∙ ap (λ x. ok (hs256_token x) s) (sym known))

pub token_libs-SignLaws : SignLaws token_host token_libs
token_libs-SignLaws = record {
  filled = λ secret text c w h. rw (← (signed-known secret text c w h).2) tok_there;
  parses = parses;
}
