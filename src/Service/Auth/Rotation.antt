-- ===== src/Service/Auth/Rotation.antt =====
-- Refresh tokens: `Refresh` and `issueTokenPair` of internal/service/local_auth_service.go.
use todo_chat_app.Prelude.{
  ℕ, ◌≤◌, ◌≡◌, ◌≢◌, sym, ap, ◌∙◌, ◌⊎◌, inl, inr, ◌↔◌, false, String, List, Has, arith, str_eq,
  str_eq_iff, Bool-cases, ltb,
}
use todo_chat_app.Outcome.{
  Action, Error, answer, Outcome, ok, err, raise, ◌>>◌, settled, ignore_error, then_do,
}
use todo_chat_app.Outcome.Rules.{
  returned_state, returned_value, bind-eq-ok, ask-eq-ok, ask_else-eq-ok,
}
use todo_chat_app.Model.{RefreshToken, Uuid, Time}
use todo_chat_app.Gorm.{Db}
use todo_chat_app.Gorm.Laws.{ReadLaws, WriteLaws, Keeps, state_of}
use todo_chat_app.Repository.Token
use todo_chat_app.Repository.Token.{has_hash}
use todo_chat_app.Repository.Token.Laws.{save_ok, delete_by_hash_ok}
use todo_chat_app.Service.Libs.{Formats, Host}
use todo_chat_app.Service.Auth.{
  add_time, Settings, TokenPair, new_refresh_token, hash_token, generate_random_token,
  issue_token_pair, rotate, refresh,
}

-- What the database keeps of a refresh token.
pub record StoresToken (r s : RefreshToken) : Type 0 where
  pub user_id : s.user_id ≡ r.user_id
  pub token_hash : s.token_hash ≡ r.token_hash

pub record TokenLaws {W : Type 0} (db : Db W) (host : Host W) (tokens : W → List RefreshToken)
    (key : RefreshToken → ℕ) : Type 0 where
  pub reads : ReadLaws db.refresh_tokens.reader tokens
  pub writes : WriteLaws db.refresh_tokens tokens key StoresToken
  -- Randomness touches no table.
  pub apart : (n : ℕ) → Keeps tokens (host.rand_read n)

module _ {W : Type 0} (db : Db W) (host : Host W) (f : Formats) (s : Settings)
    (tokens : W → List RefreshToken) (key : RefreshToken → ℕ)
    (laws : TokenLaws db host tokens key) where
  -- The steps that a successful `Refresh` took, with the state between them.
  record Refreshed (raw : String) (w v : W) (pair : TokenPair) : Type 0 where
    old : RefreshToken
    between : W
    found : Token.find_by_hash db (hash_token f raw) w ≡ answer old
    current : ltb old.expires_at (host.now w) ≡ false
    deleted : Token.delete_by_hash db (hash_token f raw) w ≡ ok tt between
    issued : issue_token_pair db host f s old.user_id between ≡ ok pair v

  no_success :
      (m : Action W (Unit {0})) (e : Error) (w v : W) (pair : TokenPair)
      → (ignore_error m >> raise e) w ≢ ok pair v
  unfolding ignore_error
  no_success m e w v pair h = go (m w) h
    where
      go :
          (o : Outcome W (Unit {0}))
          → then_do (settled o) (λ _. raise {A = TokenPair} e) ≢ ok pair v
      go (ok a u) h = cc
      go (err x u) h = cc

  rotate-eq-ok :
      (hash : String) (old : RefreshToken) (now : Time) (w v : W) (pair : TokenPair)
      → rotate db host f s hash old now w ≡ ok pair v
      → (ltb old.expires_at now ≡ false)
        × ((u : W) × (Token.delete_by_hash db hash w ≡ ok tt u)
            × (issue_token_pair db host f s old.user_id u ≡ ok pair v))
  unfolding rotate
  rotate-eq-ok hash old now w v pair h = elim (Bool-cases (ltb old.expires_at now)) [
    | inl late ↦ absurd (no_success _ _ w v pair (rw late at h))
    | inr live ↦
        let (_, u, deleted, issued) = bind-eq-ok (Token.delete_by_hash db hash) _ (rw live at h) in
        (live, (u, deleted, issued))
  ]

  refresh-Refreshed :
      (raw : String) (w v : W) (pair : TokenPair)
      → refresh db host f s raw w ≡ ok pair v
      → Refreshed raw w v pair
  unfolding refresh
  refresh-Refreshed raw w v pair h =
      let (old, found, h1) = ask_else-eq-ok _ _ _ h in
      let (live, (u, deleted, issued)) =
        rotate-eq-ok (hash_token f raw) old (host.now w) w v pair h1 in
      record {
        old = old;
        between = u;
        found = found;
        current = live;
        deleted = deleted;
        issued = issued;
      }

  generated-tokens :
      (w v : W) (raw : String)
      → generate_random_token db host f s w ≡ ok raw v
      → tokens v ≡ tokens w
  unfolding generate_random_token
  generated-tokens w v raw h =
      let (bytes, u, random, done) = bind-eq-ok (host.rand_read 32) _ h in
      let same : u ≡ v = cc in
      rw (← same) (ap (λ o. tokens (state_of o)) (sym random) ∙ laws.apart 32 w)

  saved-tokens :
      (t : RefreshToken) (w v : W)
      → Token.save db t w ≡ ok tt v
      → (row : RefreshToken) × StoresToken t row
        × ((x : RefreshToken) → Has x (tokens v) ↔ ((x ≡ row) ⊎ Has x (tokens w)))
  saved-tokens t w v h =
      let (row, created) = save_ok db t w v h in
      let (stored, rows) = laws.writes.create_rows t row w v created in (row, stored, rows)

  moved :
      (row : RefreshToken) (w w1 w2 v : W)
      → w2 ≡ v
      → tokens w1 ≡ tokens w
      → ((x : RefreshToken) → Has x (tokens w2) ↔ ((x ≡ row) ⊎ Has x (tokens w1)))
      → (x : RefreshToken) → Has x (tokens v) ↔ ((x ≡ row) ⊎ Has x (tokens w))
  moved row w w1 w2 v e k rows x = rw (← e, ← k) (rows x)

  -- `issueTokenPair` stores the hash of the refresh token that it returns, and nothing else.
  abbrev pub Issued : Uuid → W → W → TokenPair → Type 0
  Issued user w v pair =
      (row : RefreshToken) × (row.user_id ≡ user)
      × (row.token_hash ≡ hash_token f pair.refresh_token)
      × ((x : RefreshToken) → Has x (tokens v) ↔ ((x ≡ row) ⊎ Has x (tokens w)))

  pub issue_token_pair-Issued :
      (user : Uuid) (w v : W) (pair : TokenPair)
      → issue_token_pair db host f s user w ≡ ok pair v
      → Issued user w v pair
  unfolding issue_token_pair
  issue_token_pair-Issued user w v pair h =
      let (access, _, h1) = ask-eq-ok _ _ h in
      let (raw, w1, generated, h2) = bind-eq-ok (generate_random_token db host f s) _ h1 in
      let asked =
        new_refresh_token user (hash_token f raw) (add_time (host.now w) s.refresh_expiry) in
      let (_, w2, saved, h3) = bind-eq-ok (Token.save db asked) _ h2 in
      let (row, stored, rows) = saved-tokens asked w1 w2 saved in
      let last : w2 ≡ v = returned_state h3 in
      let text : raw ≡ pair.refresh_token = ap (λ p. p.refresh_token) (returned_value h3) in
      (
        row,
        stored.user_id,
        stored.token_hash ∙ ap (hash_token f) text,
        moved row w w1 w2 v last (generated-tokens w w1 raw generated) rows,
      )

  pub found_rows :
      (raw : String) (w : W) (old : RefreshToken)
      → Token.find_by_hash db (hash_token f raw) w ≡ answer old
      → Has old (tokens w) × (old.token_hash ≡ hash_token f raw)
  unfolding Token.find_by_hash
  found_rows raw w old h =
      let (has, hit) = laws.reads.first_has (has_hash (hash_token f raw)) w old h in
      (has, (str_eq_iff old.token_hash (hash_token f raw)).0 hit)

  pub deleted_rows :
      (raw : String) (w v : W)
      → Token.delete_by_hash db (hash_token f raw) w ≡ ok tt v
      → (x : RefreshToken)
      → Has x (tokens v) ↔ (Has x (tokens w) × (x.token_hash ≢ hash_token f raw))
  deleted_rows raw w v h x =
      let (n, deleted) = delete_by_hash_ok db (hash_token f raw) w v h in
      let rows = laws.writes.delete_rows (has_hash (hash_token f raw)) w v n deleted x in
      let same = str_eq_iff x.token_hash (hash_token f raw) in
      (
        λ k. let (old, miss) = rows.0 k in (old, λ e. let hit = same.1 e in cc),
        λ k. rows.1 (
          k.0,
          elim (Bool-cases (str_eq x.token_hash (hash_token f raw))) [
            | inl hit ↦ absurd (k.1 (same.0 hit))
            | inr miss ↦ miss
          ],
        ),
      )

  -- A successful `Refresh` found a stored token with the hash of the given text that had not expired;
  -- afterwards the table holds one row for the new pair, of the same user and with the hash of its
  -- refresh token, and of the rows of before those with another hash than the given text's.
  pub refresh-rotates :
      (raw : String) (w v : W) (pair : TokenPair)
      → refresh db host f s raw w ≡ ok pair v
      → (old row : RefreshToken) × Has old (tokens w)
        × (old.token_hash ≡ hash_token f raw)
        × (host.now w ≤ old.expires_at)
        × (row.user_id ≡ old.user_id)
        × (row.token_hash ≡ hash_token f pair.refresh_token)
        × ((x : RefreshToken)
            → Has x (tokens v)
              ↔ ((x ≡ row) ⊎ (Has x (tokens w) × (x.token_hash ≢ hash_token f raw))))
  refresh-rotates raw w v pair h =
      let r = refresh-Refreshed raw w v pair h in
      let (has, hit) = found_rows raw w r.old r.found in
      let (row, user, hash, rows) =
        issue_token_pair-Issued r.old.user_id r.between v pair r.issued in
      let kept = deleted_rows raw w r.between r.deleted in
      (
        r.old,
        row,
        has,
        hit,
        ground (arith, r.current),
        user,
        hash,
        λ x. (
          λ k. elim ((rows x).0 k) [ inl e ↦ inl e | inr old ↦ inr ((kept x).0 old) ],
          elim [ inl e ↦ (rows x).1 (inl e) | inr old ↦ (rows x).1 (inr ((kept x).1 old)) ],
        ),
      )

  -- A refresh token works once: after a successful `Refresh` with it, no later `Refresh` with it
  -- succeeds on the state that is left, unless the new token hashes to the same value.
  pub refresh_once :
      (raw : String) (w v u : W) (pair again : TokenPair)
      → hash_token f pair.refresh_token ≢ hash_token f raw
      → refresh db host f s raw w ≡ ok pair v
      → refresh db host f s raw v ≢ ok again u
  refresh_once raw w v u pair again fresh first second =
      let (_, row, _, _, _, _, hash, rows) = refresh-rotates raw w v pair first in
      let (old, _, has, hit, _, _, _, _) = refresh-rotates raw v u again second in
      elim ((rows old).0 has) [
        | inl e ↦ fresh (sym hash ∙ ap (λ t. t.token_hash) (sym e) ∙ hit)
        | inr (_, other) ↦ other hit
      ]
