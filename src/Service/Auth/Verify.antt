-- ===== src/Service/Auth/Verify.antt =====
-- `VerifyEmail` of internal/service/local_auth_service.go.
use todo_chat_app.Prelude.{
  ℕ, ◌≤◌, ◌<◌, ◌≡◌, ◌≢◌, refl, sym, ap, ◌∙◌, ◌↔◌, Bool, true, false, String, List, [], ◌∷◌, Has,
  All-Has, inl, arith, str_eq_iff, ==_iff,
}
use todo_chat_app.Outcome.{Outcome, ok, err, answer}
use todo_chat_app.Outcome.Rules.{bind-eq-ok, ask-eq-ok}
use todo_chat_app.Model.{User, RefreshToken, EmailVerificationToken, Uuid, Time}
use todo_chat_app.Gorm.{Db}
use todo_chat_app.Gorm.Laws.{ReadLaws, WriteLaws, Keeps, state_of}
use todo_chat_app.Repository.User as users
use todo_chat_app.Repository.User.{has_id}
use todo_chat_app.Repository.User.Laws.{update_ok}
use todo_chat_app.Repository.Token
use todo_chat_app.Repository.Token.Laws.{save_ok}
use todo_chat_app.Repository.Verification
use todo_chat_app.Repository.Verification.{is_live, scan_user}
use todo_chat_app.Service.Libs.{Formats, Host}
use todo_chat_app.Service.Auth.{
  add_time, Settings, TokenPair, new_refresh_token, hash_token, generate_random_token,
  issue_token_pair, no_token, consume, verify_email,
}

-- The laws of the table of verification tokens; the other calls of `VerifyEmail` do not touch it.
pub record VerifyLaws {W : Type 0} (db : Db W) (host : Host W)
    (tokens : W → List EmailVerificationToken) (rows : W → List User)
    (key : EmailVerificationToken → ℕ)
    (Stored : EmailVerificationToken → EmailVerificationToken → Type 0) : Type 0 where
  pub writes : WriteLaws db.verifications tokens key Stored
  pub user_reads : ReadLaws db.users.reader rows
  pub deletes_apart :
      (q : EmailVerificationToken → Bool) → Keeps rows (db.verifications.delete_returning q)
  pub users_apart : (u : User) → Keeps tokens (db.users.save u)
  pub refresh_apart : (t : RefreshToken) → Keeps tokens (db.refresh_tokens.create t)
  pub random_apart : (n : ℕ) → Keeps tokens (host.rand_read n)

is_live_iff :
    (hash : String) (now : Time) (t : EmailVerificationToken)
    → (is_live hash now t ≡ true) ↔ ((t.token_hash ≡ hash) × (now < t.expires_at))
is_live_iff hash now t = ground (arith, str_eq_iff t.token_hash hash)

module _ {W : Type 0} (db : Db W) (host : Host W) (f : Formats) (s : Settings)
    (tokens : W → List EmailVerificationToken) (rows : W → List User)
    (key : EmailVerificationToken → ℕ)
    (Stored : EmailVerificationToken → EmailVerificationToken → Type 0)
    (laws : VerifyLaws db host tokens rows key Stored) where
  -- A token for the user was consumed: it was stored, with this hash and not expired; afterwards no
  -- live token with this hash is left, and all others are.
  abbrev pub Consumed : String → Uuid → W → W → Type 0
  Consumed hash user w v =
      ((t : EmailVerificationToken) × Has t (tokens w)
        × (t.user_id ≡ user)
        × (t.token_hash ≡ hash)
        × (host.now w < t.expires_at))
      × ((x : EmailVerificationToken)
          → Has x (tokens v) ↔ (Has x (tokens w) × (is_live hash (host.now w) x ≡ false)))

  scanned :
      (ts : List EmailVerificationToken) (w v : W) (user : Uuid)
      → scan_user ts w ≡ ok user v
      → (t : EmailVerificationToken) × Has t ts × (t.user_id ≡ user) × (w ≡ v)
  unfolding scan_user
  scanned [] w v user h = cc
  scanned (t ∷ ts) w v user h = (t, inl refl, cc, cc)

  consumed :
      (hash : String) (w v : W) (user : Uuid)
      → Verification.consume_valid_by_hash db hash (host.now w) w ≡ ok user v
      → Consumed hash user w v
  unfolding Verification.consume_valid_by_hash
  consumed hash w v user h =
      let (ts, u, deleted, h1) =
        bind-eq-ok (db.verifications.delete_returning (is_live hash (host.now w))) _ h in
      let (t, has, owner, same) = scanned ts u v user h1 in
      let (each, rest) = laws.writes.returning_rows (is_live hash (host.now w)) w u ts deleted in
      let (old, live) = All-Has _ ts each t has in
      let (hit, young) = (is_live_iff hash (host.now w) t).0 live in
      rw (← same) ((t, old, owner, hit, young), rest)

  consume-Consumed :
      (hash : String) (w v : W) (user : Uuid)
      → consume db host f s hash (host.now w) w ≡ ok user v
      → Consumed hash user w v
  unfolding consume
  consume-Consumed hash w v user h = consumed hash w v user (plain _ h)
    where
      plain : (o : Outcome W Uuid) → no_token db host f s o ≡ ok user v → o ≡ ok user v
      plain (ok a u) h = h
      plain (err e u) h = cc

  generated_keeps :
      (w v : W) (raw : String)
      → generate_random_token db host f s w ≡ ok raw v
      → tokens v ≡ tokens w
  unfolding generate_random_token
  generated_keeps w v raw h =
      let (bytes, u, random, done) = bind-eq-ok (host.rand_read 32) _ h in
      let same : u ≡ v = cc in
      rw (← same) (ap (λ o. tokens (state_of o)) (sym random) ∙ laws.random_apart 32 w)

  saved_keeps : (t : RefreshToken) (w v : W) → Token.save db t w ≡ ok tt v → tokens v ≡ tokens w
  saved_keeps t w v h =
      let (row, created) = save_ok db t w v h in
      ap (λ o. tokens (state_of o)) (sym created) ∙ laws.refresh_apart t w

  issued_keeps :
      (user : Uuid) (w v : W) (pair : TokenPair)
      → issue_token_pair db host f s user w ≡ ok pair v
      → tokens v ≡ tokens w
  unfolding issue_token_pair
  issued_keeps user w v pair h =
      let (access, _, h1) = ask-eq-ok _ _ h in
      let (raw, w1, generated, h2) = bind-eq-ok (generate_random_token db host f s) _ h1 in
      let (_, w2, saved, h3) =
        bind-eq-ok
          (Token.save db
            (new_refresh_token user (hash_token f raw) (add_time (host.now w) s.refresh_expiry)))
          _ h2 in
      ap tokens (sym (last h3)) ∙ saved_keeps _ w1 w2 saved ∙ generated_keeps w w1 raw generated
    where
      last : {A : Type 0} {a b : A} {u t : W} → ◌≡◌ {A = Outcome W A} (ok a u) (ok b t) → u ≡ t
      last h = cc

  updated_keeps : (u u' : User) (w v : W) → users.update db u w ≡ ok u' v → tokens v ≡ tokens w
  updated_keeps u u' w v h =
      let (_, saved, _) = update_ok db u u' w v h in
      ap (λ o. tokens (state_of o)) (sym saved) ∙ laws.users_apart u w

  found_id :
      (id : Uuid) (w : W) (user : User) → users.find_by_id db id w ≡ answer user → user.id ≡ id
  unfolding users.find_by_id
  found_id id w user h = (==_iff user.id id).0 (laws.user_reads.first_has (has_id id) w user h).1

  verified_one :
      (a b : User) (at : Time) (given : TokenPair) (user : User) (pair : TokenPair) (u v : W)
      → b ≡ record a { email_verified = true; updated_at = at }
      → ◌≡◌ {A = Outcome W (User × TokenPair)} (ok (b, given) u) (ok (user, pair) v)
      → (a.id ≡ user.id) × (user.email_verified ≡ true) × (u ≡ v)
  verified_one a b at given user pair u v e h =
      let same : record a { email_verified = true; updated_at = at } ≡ user = cc in
      (ap (λ x. x.id) same, ap (λ x. x.email_verified) (sym same), cc)

  -- A successful `VerifyEmail` returns a verified user, and consumed a token that was stored for this
  -- user with the hash of the given text and had not expired: afterwards the live tokens with this
  -- hash are gone, and all other tokens are as they were.
  pub verify_email-Consumed :
      (raw : String) (w v : W) (user : User) (pair : TokenPair)
      → verify_email db host f s raw w ≡ ok (user, pair) v
      → (user.email_verified ≡ true) × Consumed (hash_token f raw) user.id w v
  unfolding verify_email
  verify_email-Consumed raw w v user pair h =
      let (id, w1, spent, h1) =
        bind-eq-ok (consume db host f s (hash_token f raw) (host.now w)) _ h in
      let (found, read, h2) = ask-eq-ok _ _ h1 in
      let (stored, w2, updated, h3) =
        bind-eq-ok (users.update db (record found { email_verified = true })) _ h2 in
      let (given, w3, issued, h4) = bind-eq-ok (issue_token_pair db host f s found.id) _ h3 in
      let (at, _, touched) = update_ok db _ stored w1 w2 updated in
      let (same, verified, last) = verified_one found stored at given user pair w3 v touched h4 in
      let (source, rest) = consume-Consumed (hash_token f raw) w w1 id spent in
      let kept : tokens v ≡ tokens w1 =
        ap tokens (sym last)
        ∙ issued_keeps found.id w2 w3 given issued
        ∙ updated_keeps _ stored w1 w2 updated in
      (verified, (rw (← same, found_id id w1 found read) source, λ x. rw kept (rest x)))

  -- A verification token works once: after a successful `VerifyEmail` with it, while the clock does
  -- not go back, no later call with it succeeds on the state that is left.
  pub verify_email_once :
      (raw : String) (w v u : W) (user again : User) (pair next : TokenPair)
      → host.now w ≤ host.now v
      → verify_email db host f s raw w ≡ ok (user, pair) v
      → verify_email db host f s raw v ≢ ok (again, next) u
  verify_email_once raw w v u user again pair next later first second =
      let (_, (_, rest)) = verify_email-Consumed raw w v user pair first in
      let (_, ((t, has, _, hit, young), _)) = verify_email-Consumed raw v u again next second in
      let dead = ((rest t).0 has).1 in
      let live = (is_live_iff (hash_token f raw) (host.now w) t).1 (hit, omega arith) in cc
