-- ===== src/Repository/Invitation/Laws.antt =====
-- What a successful `MarkUsed` or `Update` did.
use todo_chat_app.Prelude.{ℕ, ◌≡◌}
use todo_chat_app.Outcome.{ok}
use todo_chat_app.Outcome.Rules.{bind-eq-ok, affected_some, returned_state}
use todo_chat_app.Model.{WorkspaceInvitation, Uuid, Time}
use todo_chat_app.Gorm.{Db}
use todo_chat_app.Repository.Invitation.{has_id, used_from, mark_used, update}

module _ {W : Type 0} where
  pub mark_used_ok :
      (db : Db W) (id : Uuid) (time : Time) (w v : W)
      → mark_used db id time w ≡ ok tt v
      → (n : ℕ) × (db.invitations.update (has_id id) (used_from time) w ≡ ok n v)
  unfolding mark_used
  mark_used_ok db id time w v h =
      let (n, u, updated, done) =
        bind-eq-ok (db.invitations.update (has_id id) (used_from time)) _ h in
      let (same, _) = affected_some n u v done in (n, rw same at updated)

  pub update_ok :
      (db : Db W) (i : WorkspaceInvitation) (w v : W)
      → update db i w ≡ ok tt v
      → (at : Time) × (db.invitations.save i w ≡ ok at v)
  unfolding update
  update_ok db i w v h =
      let (at, u, saved, done) = bind-eq-ok (db.invitations.save i) _ h in
      (at, rw (returned_state done) at saved)
