-- ===== src/Repository/Identity.antt =====
-- internal/repository/useridentity/repository.go; the listing by user, which no caller uses, is left
-- out.
use todo_chat_app.Prelude.{String, Bool, str_eq}
use todo_chat_app.Outcome.{Answer, Action, pure, ◌>>=◌}
use todo_chat_app.Model.{UserIdentity}
use todo_chat_app.Gorm.{Db}

abbrev pub has_subject : String → UserIdentity → Bool
has_subject subject i = str_eq i.provider_subject subject

module _ {W : Type 0} (db : Db W) where
  unfoldable pub create : UserIdentity → Action W (Unit {0})
  create i = do _ ← db.identities.create i; pure tt

  unfoldable pub find_by_provider_subject : String → W → Answer UserIdentity
  find_by_provider_subject subject = db.identities.first (has_subject subject)
