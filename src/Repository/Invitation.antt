-- ===== src/Repository/Invitation.antt =====
-- internal/repository/workspaceinvitation/repository.go
pub mod Laws
use todo_chat_app.Prelude.{
  String, Bool, true, false, ◌&&◌, none, some, List, ltb, ◌==◌, str_eq, if◌then◌else◌,
}
use todo_chat_app.Outcome.{Answer, Action, pure, raise, ◌>>=◌, record_not_found}
use todo_chat_app.Model.{WorkspaceInvitation, Uuid, Time}
use todo_chat_app.Gorm.{Db}

abbrev pub has_id : Uuid → WorkspaceInvitation → Bool
has_id id i = i.id == id

abbrev pub has_token : String → WorkspaceInvitation → Bool
has_token token i = str_eq i.token token

-- `WHERE workspace_id = ? AND email = ?`
abbrev pub is_for : Uuid → String → WorkspaceInvitation → Bool
is_for ws email i = i.workspace_id == ws && str_eq i.email email

abbrev pub is_unused : WorkspaceInvitation → Bool
is_unused i = elim (i.used_at) [ none ↦ true | some t ↦ false ]

abbrev newest_first : WorkspaceInvitation → WorkspaceInvitation → Bool
newest_first i j = ltb j.created_at i.created_at

abbrev pub used_from : Time → WorkspaceInvitation → WorkspaceInvitation
used_from t i = record i { used_at = some t }

module _ {W : Type 0} (db : Db W) where
  unfoldable pub create : WorkspaceInvitation → Action W WorkspaceInvitation
  create i = db.invitations.create i

  unfoldable pub find_by_token : String → W → Answer WorkspaceInvitation
  find_by_token token = db.invitations.first (has_token token)

  unfoldable pub find_by_workspace_and_email : Uuid → String → W → Answer WorkspaceInvitation
  find_by_workspace_and_email ws email = db.invitations.first (is_for ws email)

  unfoldable pub update : WorkspaceInvitation → Action W (Unit {0})
  update i = do _ ← db.invitations.save i; pure tt

  unfoldable pub mark_used : Uuid → Time → Action W (Unit {0})
  mark_used id used_at = do
    affected ← db.invitations.update (has_id id) (used_from used_at)
    if affected == 0 then raise record_not_found else pure tt

  unfoldable pub list_pending_by_workspace : Uuid → W → Answer (List WorkspaceInvitation)
  list_pending_by_workspace ws =
      db.invitations.find newest_first (λ i. i.workspace_id == ws && is_unused i)
