-- ===== src/Repository/User/Laws.antt =====
-- What a success of the methods of the user repository stands for.
use todo_chat_app.Prelude.{◌≡◌, sym, List, Has, ==_iff}
use todo_chat_app.Outcome.{answer, ok}
use todo_chat_app.Outcome.Rules.{bind-eq-ok, returned_state, returned_value}
use todo_chat_app.Model.{User, Uuid, Time}
use todo_chat_app.Gorm.{Db}
use todo_chat_app.Gorm.Laws.{ReadLaws}
use todo_chat_app.Repository.User.{has_id, find_by_id, update}

module _ {W : Type 0} (db : Db W) where
  pub update_ok :
      (u u' : User) (w v : W)
      → update db u w ≡ ok u' v
      → (at : Time) × (db.users.save u w ≡ ok at v) × (u' ≡ record u { updated_at = at })
  unfolding update
  update_ok u u' w v h =
      let (at, t, saved, done) = bind-eq-ok (db.users.save u) _ h in
      (at, rw (returned_state done) at saved, sym (returned_value done))

  pub find_by_id_ok :
      (rows : W → List User) (reads : ReadLaws db.users.reader rows) (id : Uuid) (w : W)
      (user : User)
      → find_by_id db id w ≡ answer user
      → Has user (rows w) × (user.id ≡ id)
  unfolding find_by_id
  find_by_id_ok rows reads id w user h =
      let (has, hit) = reads.first_has (has_id id) w user h in (has, (==_iff user.id id).0 hit)
