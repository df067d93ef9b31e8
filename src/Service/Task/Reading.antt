-- ===== src/Service/Task/Reading.antt =====
-- internal/service/task_service.go: the two calls that only read.
use todo_chat_app.Prelude.{◌≡◌, refl}
use todo_chat_app.Prelude.Int.{ℤ}
use todo_chat_app.Outcome.Rules.{Post, returned, Post-refuse_if, Post-ask, Post-ask_or}
use todo_chat_app.Model.{Uuid}
use todo_chat_app.Gorm.{Db}
use todo_chat_app.Service.Libs.{Formats}
use todo_chat_app.Service.Task.{get_by_id, list_by_workspace}
use todo_chat_app.Service.Task.Validity.{Post-require_member}

module _ {W : Type 0} (db : Db W) (f : Formats) where
  pub get_by_id-same :
      (actor id : Uuid) (w : W) → Post (λ t v. v ≡ w) (λ e v. v ≡ w) (get_by_id db f actor id w)
  unfolding get_by_id
  get_by_id-same actor id w =
      Post-refuse_if _ _ _ (λ _. refl)
        λ _.
          Post-ask_or _ _ _ (λ _ _. refl)
            λ t found. Post-require_member db f t.workspace_id actor _ (λ _. refl) (returned refl)

  pub list_by_workspace-same :
      (actor ws : Uuid) (page size : ℤ) (w : W)
      → Post (λ t v. v ≡ w) (λ e v. v ≡ w) (list_by_workspace db f actor ws page size w)
  unfolding list_by_workspace
  list_by_workspace-same actor ws page size w =
      Post-refuse_if _ _ _ (λ _. refl)
        λ _.
          Post-require_member db f ws actor _ (λ _. refl)
            (Post-ask _ _ (λ _ _. refl)
              λ total _. Post-ask _ _ (λ _ _. refl) λ tasks _. returned refl)
