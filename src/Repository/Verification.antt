-- ===== src/Repository/Verification.antt =====
-- internal/repository/emailverification/repository.go
use todo_chat_app.Prelude.{String, Bool, ◌&&◌, List, [], ◌∷◌, ltb, ◌==◌, str_eq}
use todo_chat_app.Outcome.{Answer, Action, pure, raise, ◌>>=◌, record_not_found}
use todo_chat_app.Model.{EmailVerificationToken, Uuid, Time}
use todo_chat_app.Gorm.{Db}

abbrev pub has_hash : String → EmailVerificationToken → Bool
has_hash hash t = str_eq t.token_hash hash

abbrev pub of_user : Uuid → EmailVerificationToken → Bool
of_user user t = t.user_id == user

abbrev newest_first : EmailVerificationToken → EmailVerificationToken → Bool
newest_first s t = ltb t.created_at s.created_at

-- `WHERE token_hash = ? AND expires_at > ?`
abbrev pub is_live : String → Time → EmailVerificationToken → Bool
is_live hash now t = str_eq t.token_hash hash && ltb now t.expires_at

-- `Row().Scan(&userID)`, with `sql.ErrNoRows` turned into `gorm.ErrRecordNotFound`
unfoldable pub scan_user : {W : Type 0} → List EmailVerificationToken → Action W Uuid
scan_user [] = raise record_not_found
scan_user (t ∷ ts) = pure t.user_id

module _ {W : Type 0} (db : Db W) where
  unfoldable pub create : EmailVerificationToken → Action W (Unit {0})
  create t = do _ ← db.verifications.create t; pure tt

  unfoldable pub find_by_hash : String → W → Answer EmailVerificationToken
  find_by_hash hash = db.verifications.first (has_hash hash)

  unfoldable pub find_latest_by_user_id : Uuid → W → Answer EmailVerificationToken
  find_latest_by_user_id user = db.verifications.first_by newest_first (of_user user)

  unfoldable pub consume_valid_by_hash : String → Time → Action W Uuid
  consume_valid_by_hash hash now = do
    consumed ← db.verifications.delete_returning (is_live hash now)
    scan_user consumed

  unfoldable pub delete_by_hash : String → Action W (Unit {0})
  delete_by_hash hash = do _ ← db.verifications.delete (has_hash hash); pure tt

  unfoldable pub delete_by_user_id : Uuid → Action W (Unit {0})
  delete_by_user_id user = do _ ← db.verifications.delete (of_user user); pure tt
