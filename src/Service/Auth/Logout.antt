-- ===== src/Service/Auth/Logout.antt =====
-- `Logout` of internal/service/local_auth_service.go, and a `Refresh` after it.
use todo_chat_app.Prelude.{ℕ, ◌≡◌, ◌≢◌, refl, ◌⊎◌, inl, inr, String, List, Has}
use todo_chat_app.Outcome.{Error, Outcome, ok, err, settled, ignore_error}
use todo_chat_app.Model.{RefreshToken}
use todo_chat_app.Gorm.{Db}
use todo_chat_app.Repository.Token
use todo_chat_app.Service.Libs.{Formats, Host}
use todo_chat_app.Service.Auth.{Settings, TokenPair, hash_token, refresh, logout}
use todo_chat_app.Service.Auth.Rotation.{TokenLaws, deleted_rows, refresh-rotates}

module _ {W : Type 0} (db : Db W) (host : Host W) (f : Formats) (s : Settings)
    (tokens : W → List RefreshToken) (key : RefreshToken → ℕ)
    (laws : TokenLaws db host tokens key) where
  -- No refresh token of the text is stored, and `Refresh` does not take it.
  abbrev pub Ended : String → W → Type 0
  Ended raw v =
      ((t : RefreshToken) → Has t (tokens v) → t.token_hash ≢ hash_token f raw)
      × ((u : W) (pair : TokenPair) → refresh db host f s raw v ≢ ok pair u)

  deleted-Ended :
      (raw : String) (w v : W)
      → Token.delete_by_hash db (hash_token f raw) w ≡ ok tt v
      → Ended raw v
  deleted-Ended raw w v h =
      let gone = deleted_rows db host f s tokens key laws raw w v h in
      (
        λ t has. ((gone t).0 has).1,
        λ u pair again.
            let (old, _, has, hit, _, _, _, _) =
              refresh-rotates db host f s tokens key laws raw v u pair again in
            ((gone old).0 has).1 hit,
      )

  -- `Logout` reports no error; unless the database failed to delete, no token with the hash of the
  -- given text is stored afterwards, and `Refresh` with the text does not succeed.
  pub logout-Ended :
      (raw : String) (w : W)
      → (v : W) × (logout db host f s raw w ≡ ok tt v)
        × (Ended raw v ⊎ ((e : Error) × (Token.delete_by_hash db (hash_token f raw) w ≡ err e v)))
  unfolding logout ignore_error
  logout-Ended raw w = go (Token.delete_by_hash db (hash_token f raw) w) refl
    where
      go :
          (o : Outcome W (Unit {0}))
          → Token.delete_by_hash db (hash_token f raw) w ≡ o
          → (v : W) × (settled o ≡ ok tt v)
            × (Ended raw v
                ⊎ ((e : Error) × (Token.delete_by_hash db (hash_token f raw) w ≡ err e v)))
      go (ok a v) h = (v, refl, inl (deleted-Ended raw w v h))
      go (err e v) h = (v, refl, inr (e, h))
