-- ===== src/Service/Task/Validity.antt =====
-- What the writing calls of the task service do to the table of tasks: a refused or failed call
-- leaves it alone, and no call brings in a status or a priority outside the fixed ones.
use todo_chat_app.Prelude.{
  ◌≡◌, ◌≢◌, refl, sym, ap, subst, ◌∙◌, true, false, String, Option, none, some, List, [], ◌∷◌, Has,
  arith, ◌⊎◌, inl, inr, str_eq, Bool-cases,
}
use todo_chat_app.Outcome.{Outcome, Error, Action, ok, err, ask, refuse_if, ◌>>=◌, ◌>>◌, pure}
use todo_chat_app.Outcome.Rules.{
  Post, returned, failed, Post-refuse_if, Post-ask_or, Post->>=, Post-intro, Post-ok, Post-err,
}
use todo_chat_app.Model.{Task, Uuid}
use todo_chat_app.Gorm.{Db}
use todo_chat_app.Gorm.Laws.{ReadLaws, CascadeLaws, state_of}
use todo_chat_app.Repository.Task
use todo_chat_app.Repository.Task.{has_id}
use todo_chat_app.Service.Libs.{Formats}
use todo_chat_app.Service.Task.{
  TaskUpdateInput, Draft, is_status, is_priority, require_member, prepared, create, update_task,
  delete_task, edit, store_draft,
}
use todo_chat_app.Service.Task.Edits.{IsValidTask, Kept, edit-Edits, edit_err}

-- What the database keeps of a task that is handed to it: the status and the priority unless they are
-- empty.
pub record StoresTask (r s : Task) : Type 0 where
  pub workspace_id : s.workspace_id ≡ r.workspace_id
  pub created_by : s.created_by ≡ r.created_by
  pub channel_id : s.channel_id ≡ r.channel_id
  pub parent_task_id : s.parent_task_id ≡ r.parent_task_id
  pub position : s.position ≡ r.position
  pub title : s.title ≡ r.title
  pub description : s.description ≡ r.description
  pub assignee_id : s.assignee_id ≡ r.assignee_id
  pub due_date : s.due_date ≡ r.due_date
  pub status : r.status ≢ "" → s.status ≡ r.status
  pub priority : r.priority ≢ "" → s.priority ≡ r.priority

-- The writing calls of the service, with the user that makes each.
pub data Call : Type 0 where
  creates : Uuid → Option Task → Call
  updates : Uuid → Uuid → TaskUpdateInput → Call
  deletes : Uuid → Uuid → Call

module _ {W : Type 0} (db : Db W) (f : Formats) where
  unfoldable pub perform : Call → Action W (Unit {0})
  perform (creates actor t) = do _ ← create db f actor t; pure tt
  perform (updates actor id input) = do _ ← update_task db f actor id input; pure tt
  perform (deletes actor id) = delete_task db f actor id

  unfoldable pub perform_all : List Call → W → W
  perform_all [] w = w
  perform_all (c ∷ cs) w = perform_all cs (state_of (perform c w))

  require_member-same : (ws actor : Uuid) (w : W) → state_of (require_member db f ws actor w) ≡ w
  unfolding require_member ask refuse_if
  require_member-same ws actor w = ground arith

  pub Post-require_member :
      {A : Type 0} {P : A → W → Type 0} {Q : Error → W → Type 0} (ws actor : Uuid) (k : Action W A)
      {w : W}
      → ((e : Error) → Q e w)
      → Post P Q (k w)
      → Post P Q ((require_member db f ws actor >> k) w)
  Post-require_member {P} {Q} ws actor k {w} bad good =
      let same = require_member-same ws actor w in
      Post->>= (require_member db f ws actor) _ (λ e v h. rw (ap state_of (sym h) ∙ same) (bad e))
        (λ _ v h. rw (ap state_of (sym h) ∙ same) good)

is_status-ne : (s : String) → is_status s ≡ true → s ≢ ""
unfolding str_eq
is_status-ne s h e = let g : is_status "" ≡ true = subst (λ t. is_status t ≡ true) e h in cc

is_priority-ne : (s : String) → is_priority s ≡ true → s ≢ ""
unfolding str_eq
is_priority-ne s h e = let g : is_priority "" ≡ true = subst (λ t. is_priority t ≡ true) e h in cc

IsValidTask-stored : (r s : Task) → IsValidTask r → StoresTask r s → IsValidTask s
IsValidTask-stored r s v h = record {
  status = rw (h.status (is_status-ne r.status v.status)) v.status;
  priority = rw (h.priority (is_priority-ne r.priority v.priority)) v.priority;
}

prepared-IsValidTask :
    (f : Formats) (actor : Uuid) (t : Task)
    → is_priority (prepared f actor t).priority ≡ true
    → IsValidTask (prepared f actor t)
unfolding prepared str_eq
prepared-IsValidTask f actor t h = record { status = refl; priority = h }

module _ {W : Type 0} (db : Db W) (f : Formats) (tasks : W → List Task)
    (reads : ReadLaws db.tasks.reader tasks)
    (writes : CascadeLaws db.tasks tasks (λ t. t.id) (λ t. t.parent_task_id) StoresTask) where
  abbrev pub AllValid : W → Type 0
  AllValid w = (x : Task) → Has x (tasks w) → IsValidTask x

  -- A success leaves valid tasks only, a failure leaves the table as it was.
  abbrev pub Good : {A : Type 0} → W → Outcome W A → Type 0
  Good w = Post (λ a v. AllValid w → AllValid v) (λ e v. tasks v ≡ tasks w)

  repo_create-Good : (t : Task) (w : W) → IsValidTask t → Good w (Task.create db t w)
  unfolding Task.create
  repo_create-Good t w p =
      Post-intro _
        (λ s v h all x has.
          let (stored, rows) = writes.create_rows t s w v h in
          valid_of s x all (IsValidTask-stored t s p stored) ((rows x).0 has))
        (λ e v h. writes.create_err t w v e h)
    where
      valid_of :
          (s x : Task) → AllValid w → IsValidTask s → (x ≡ s) ⊎ Has x (tasks w) → IsValidTask x
      valid_of s x all p (inl e) = rw e p
      valid_of s x all p (inr old) = all x old

  repo_update-Good : (t : Task) (w : W) → (AllValid w → IsValidTask t) → Good w (Task.update db t w)
  unfolding Task.update
  repo_update-Good t w p =
      Post->>= (db.tasks.save t) _ (λ e v h. writes.save_err t w v e h)
        (λ at v h. returned (λ all x has.
          let (s, stored, _, rows) = writes.save_rows t at w v h in
          valid_of s x all (IsValidTask-stored t s (p all) stored) ((rows x).0 has)))
    where
      valid_of :
          (s x : Task)
          → AllValid w
          → IsValidTask s
          → (x ≡ s) ⊎ (Has x (tasks w) × (x.id ≢ t.id))
          → IsValidTask x
      valid_of s x all p (inl e) = rw e p
      valid_of s x all p (inr (old, _)) = all x old

  repo_delete-Good : (id : Uuid) (w : W) → Good w (Task.delete db id w)
  unfolding Task.delete
  repo_delete-Good id w =
      Post->>= (db.tasks.delete (has_id id)) _ (λ e v h. writes.delete_err (has_id id) w v e h)
        (λ n v h.
          returned (λ all x has. all x ((writes.delete_rows (has_id id) w v n h x).0 has).0))

  pub create-Good : (actor : Uuid) (t : Option Task) (w : W) → Good w (create db f actor t w)
  unfolding create
  create-Good actor none w = failed refl
  create-Good actor (some t) w =
      Post-refuse_if _ _ _ (λ _. refl)
        λ _.
          Post-require_member db f t.workspace_id actor _ (λ _. refl)
            (Post-refuse_if _ _ _ (λ _. refl)
              λ good.
                repo_create-Good (prepared f actor t) w
                  (prepared-IsValidTask f actor t (ground arith)))

  store_draft-Good :
      (t : Task) (d : Draft) (w : W)
      → Kept (record { task = t; changed = false }) d
      → Has t (tasks w)
      → Good w (store_draft db f d w)
  unfolding store_draft
  store_draft-Good t d w kept has = elim (Bool-cases d.changed) [
    | inl edited ↦ rw edited written
    | inr same ↦ rw same (returned λ all. all)
  ]
    where
      written : Good w (Task.update db d.task w)
      written = repo_update-Good d.task w (λ all. kept.valid (all t has))

  pub update_task-Good :
      (actor id : Uuid) (input : TaskUpdateInput) (w : W)
      → Good w (update_task db f actor id input w)
  unfolding update_task Task.find_by_id
  update_task-Good actor id input w =
      Post-refuse_if _ _ _ (λ _. refl)
        λ _.
          Post-ask_or _ _ _ (λ _ _. refl)
            λ t found.
              let start : Draft = record { task = t; changed = false } in
              Post-require_member db f t.workspace_id actor _ (λ _. refl)
                (Post->>= (edit f input start) _
                  (λ e v h. ap tasks (edit_err f input start w v e h).0)
                  (λ d v h.
                    let (same, kept) = Post-ok (rw h at (edit-Edits f input start w)) in
                    rw same
                      (store_draft-Good t d w kept (reads.first_has (has_id id) w t found).0)))

  pub delete_task-Good : (actor id : Uuid) (w : W) → Good w (delete_task db f actor id w)
  unfolding delete_task
  delete_task-Good actor id w =
      Post-refuse_if _ _ _ (λ _. refl)
        λ _.
          Post-ask_or _ _ _ (λ _ _. refl)
            λ t found.
              Post-require_member db f t.workspace_id actor _ (λ _. refl) (repo_delete-Good id w)

  dropped-Good :
      {A : Type 0} (w : W) (m : Action W A) → Good w (m w) → Good w ((m >>= λ _. pure tt) w)
  dropped-Good w m g =
      Post->>= m _ (λ e v h. Post-err (rw h at g)) (λ _ v h. returned (Post-ok (rw h at g)))

  perform-Good : (c : Call) (w : W) → Good w (perform db f c w)
  unfolding perform
  perform-Good (creates actor t) w = dropped-Good w (create db f actor t) (create-Good actor t w)
  perform-Good (updates actor id input) w =
      dropped-Good w (update_task db f actor id input) (update_task-Good actor id input w)
  perform-Good (deletes actor id) w = delete_task-Good actor id w

  -- A call of `Create`, `UpdateTask` or `DeleteTask` that returns an error, its own or one of the
  -- database, leaves the table of tasks as it was.
  pub perform_err :
      (c : Call) (w v : W) (e : Error) → perform db f c w ≡ err e v → tasks v ≡ tasks w
  perform_err c w v e h = Post-err (rw h at (perform-Good c w))

  Good-state :
      {A : Type 0} (w : W) (o : Outcome W A) → Good w o → AllValid w → AllValid (state_of o)
  Good-state w (ok a v) (returned p) all = p all
  Good-state w (err e v) (failed q) all = λ x has. all x (rw q at has)

  -- After any sequence of calls of `Create`, `UpdateTask` and `DeleteTask`, by any users and with any
  -- arguments, each stored task has a status among TODO, IN_PROGRESS and DONE and a priority among
  -- LOW, MEDIUM, HIGH and URGENT, if that was so before.
  pub perform_all-IsValidTask :
      (cs : List Call) (w : W)
      → ((x : Task) → Has x (tasks w) → IsValidTask x)
      → (x : Task) → Has x (tasks (perform_all db f cs w))
      → IsValidTask x
  unfolding perform_all
  perform_all-IsValidTask [] w all = all
  perform_all-IsValidTask (c ∷ cs) w all =
      perform_all-IsValidTask cs (state_of (perform db f c w))
        (Good-state w (perform db f c w) (perform-Good c w) all)
