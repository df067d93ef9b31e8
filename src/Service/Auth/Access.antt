-- ===== src/Service/Auth/Access.antt =====
-- Who gets a pair of tokens from `Login` and `ConfirmAccountLink` of
-- internal/service/local_auth_service.go.
use todo_chat_app.Prelude.{◌≡◌, ◌≢◌, true, String, some, List, Has, arith, str_eq_iff}
use todo_chat_app.Prelude.Text.{trim_space, to_lower}
use todo_chat_app.Outcome.{Outcome, ok, answer}
use todo_chat_app.Outcome.Rules.{
  bind-eq-ok, ask_or-eq-ok, ask_else-eq-ok, expect-eq-ok, refuse-eq-ok,
}
use todo_chat_app.Model.{User}
use todo_chat_app.Gorm.{Db}
use todo_chat_app.Gorm.Laws.{ReadLaws}
use todo_chat_app.Repository.User as users
use todo_chat_app.Repository.User.{has_email}
use todo_chat_app.Service.Libs.{Formats, Host, Claims}
use todo_chat_app.Service.Auth.{
  Settings, TokenPair, issue_token_pair, login, confirm_account_link, link_issuer,
}

module _ {W : Type 0} (db : Db W) (host : Host W) (f : Formats) (s : Settings)
    (rows : W → List User) (reads : ReadLaws db.users.reader rows) where
  -- A stored user with that address, whose password is the given text.
  abbrev pub Knows : String → String → W → User → Type 0
  Knows email password w user =
      Has user (rows w)
      × (user.email ≡ email)
      × ((hash : String) × (user.password_hash ≡ some hash)
          × (host.password_matches hash password ≡ true))

  find_by_email-Has :
      (email : String) (w : W) (user : User)
      → users.find_by_email db email w ≡ answer user
      → Has user (rows w) × (user.email ≡ email)
  unfolding users.find_by_email
  find_by_email-Has email w user h =
      let (has, hit) = reads.first_has (has_email email) w user h in
      (has, (str_eq_iff user.email email).0 hit)

  -- A successful `Login` returns a stored user with the trimmed and lowered address, whose address is
  -- verified and whose password hash matches the given password, and a pair that was issued for the
  -- id of this user on the same state.
  pub login-Knows :
      (email password : String) (w v : W) (user : User) (pair : TokenPair)
      → login db host f s email password w ≡ ok (user, pair) v
      → Knows (to_lower f.unicode (trim_space email)) password w user
        × (user.email_verified ≡ true)
        × (issue_token_pair db host f s user.id w ≡ ok pair v)
  unfolding login
  login-Knows email password w v user pair h =
      let (found, read, h1) = ask_or-eq-ok _ _ _ h in
      let (hash, stored, h2) = expect-eq-ok _ _ _ h1 in
      let (matches, h3) = refuse-eq-ok _ _ _ h2 in
      let (verified, h4) = refuse-eq-ok _ _ _ h3 in
      let (given, u, issued, h5) = bind-eq-ok (issue_token_pair db host f s found.id) _ h4 in
      finish email password w v u user found pair given hash
        (find_by_email-Has (to_lower f.unicode (trim_space email)) w found read) stored
        (ground arith) (ground arith) issued h5
    where
      finish :
          (email password : String) (w v u : W) (user found : User) (pair given : TokenPair)
          (hash : String)
          → Has found (rows w) × (found.email ≡ to_lower f.unicode (trim_space email))
          → found.password_hash ≡ some hash
          → host.password_matches hash password ≡ true
          → found.email_verified ≡ true
          → issue_token_pair db host f s found.id w ≡ ok given u
          → ◌≡◌ {A = Outcome W (User × TokenPair)} (ok (found, given) u) (ok (user, pair) v)
          → Knows (to_lower f.unicode (trim_space email)) password w user
            × (user.email_verified ≡ true)
            × (issue_token_pair db host f s user.id w ≡ ok pair v)
      finish email password w v u user found pair given hash has stored matches verified issued h =
          let same : found ≡ user = cc in
          let one : given ≡ pair = cc in
          let end : u ≡ v = cc in
          rw (← same, ← one, ← end) ((has.0, has.1, (hash, stored, matches)), verified, issued)

  -- A successful `ConfirmAccountLink` was given a token that the parser accepts, of the issuer of link
  -- tokens, and the password of the stored user whose address the token names.
  pub confirm_account_link-Knows :
      (pending password : String) (w v : W) (result : User × TokenPair)
      → confirm_account_link db host f s pending password w ≡ ok result v
      → (claims : Claims) × (host.parse_hs256 s.jwt_secret pending w ≡ answer claims)
        × (claims.iss ≡ link_issuer)
        × ((user : User) × Knows claims.email password w user × (user.id ≢ 0))
  unfolding confirm_account_link
  confirm_account_link-Knows pending password w v result h =
      let (claims, parsed, h1) = ask_else-eq-ok _ _ _ h in
      let (issuer, h2) = refuse-eq-ok _ _ _ h1 in
      let (_, h3) = refuse-eq-ok _ _ _ h2 in
      let (user, read, h4) = ask_else-eq-ok _ _ _ h3 in
      let (there, h5) = refuse-eq-ok _ _ _ h4 in
      let (hash, stored, h6) = expect-eq-ok _ _ _ h5 in
      let (matches, _) = refuse-eq-ok _ _ _ h6 in
      let (has, email) = find_by_email-Has claims.email w user read in
      (
        claims,
        parsed,
        (str_eq_iff claims.iss link_issuer).0 (ground arith),
        (user, (has, email, (hash, stored, ground arith)), ground arith),
      )
