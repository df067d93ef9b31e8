-- ===== src/Service/Task/Access.antt =====
-- Membership and the calls of internal/service/task_service.go.
use todo_chat_app.Prelude.{
  ◌≡◌, ◌↔◌, ◌≢◌, ◌⊎◌, inl, inr, refl, sym, ap, ◌∙◌, true, false, some, List, Has, arith, ==_iff,
  Bool-cases,
}
use todo_chat_app.Outcome.{Action, ok, answer, ask, refuse_if, ◌>>◌}
use todo_chat_app.Outcome.Rules.{
  refuse-eq-ok, ask_or-eq-ok, bind-eq-ok, Post-ok, returned_state, returned_value,
}
use todo_chat_app.Model.{Task, WorkspaceMember, Uuid, Time}
use todo_chat_app.Gorm.{Db}
use todo_chat_app.Gorm.Laws.{ReadLaws, CascadeLaws, Falls, matched, orphaned}
use todo_chat_app.Repository.Member
use todo_chat_app.Repository.Member.Laws.{Belongs, is_member-Belongs}
use todo_chat_app.Repository.Task
use todo_chat_app.Repository.Task.{has_id}
use todo_chat_app.Service.Libs.{Formats}
use todo_chat_app.Service.Task.{
  TaskUpdateInput, Draft, require_member, get_by_id, update_task, delete_task, edit, store_draft,
}
use todo_chat_app.Service.Task.Edits.{Kept, edit-Edits}
use todo_chat_app.Service.Task.Validity.{StoresTask}

-- The task has the id, or a stored task that has it or is below it is its parent.
pub data Under (id : Uuid) (rows : List Task) : Task → Type 0 where
  itself : {x : Task} → x.id ≡ id → Under id rows x
  child :
      {x y : Task} → Has y rows → x.parent_task_id ≡ some y.id → Under id rows y → Under id rows x

-- What an update may not change.
pub record Fixed (t s : Task) : Type 0 where
  pub id : s.id ≡ t.id
  pub workspace_id : s.workspace_id ≡ t.workspace_id
  pub created_by : s.created_by ≡ t.created_by
  pub channel_id : s.channel_id ≡ t.channel_id
  pub parent_task_id : s.parent_task_id ≡ t.parent_task_id
  pub position : s.position ≡ t.position

Fixed-refl : (t : Task) → Fixed t t
Fixed-refl t = record {
  id = refl;
  workspace_id = refl;
  created_by = refl;
  channel_id = refl;
  parent_task_id = refl;
  position = refl;
}

Kept-Fixed : (t : Task) (d : Draft) → Kept (record { task = t; changed = false }) d → Fixed t d.task
Kept-Fixed t d k = record {
  id = k.id;
  workspace_id = k.workspace_id;
  created_by = k.created_by;
  channel_id = k.channel_id;
  parent_task_id = k.parent_task_id;
  position = k.position;
}

touched : (t s : Task) (at : Time) → Fixed t s → Fixed t (record s { updated_at = at })
touched t s at k = record {
  id = k.id;
  workspace_id = k.workspace_id;
  created_by = k.created_by;
  channel_id = k.channel_id;
  parent_task_id = k.parent_task_id;
  position = k.position;
}

StoresTask-touched :
    (r s : Task) (at : Time) → StoresTask r s → StoresTask (record r { updated_at = at }) s
StoresTask-touched r s at k = record {
  workspace_id = k.workspace_id;
  created_by = k.created_by;
  channel_id = k.channel_id;
  parent_task_id = k.parent_task_id;
  position = k.position;
  title = k.title;
  description = k.description;
  assignee_id = k.assignee_id;
  due_date = k.due_date;
  status = k.status;
  priority = k.priority;
}

module _ {W : Type 0} (db : Db W) (f : Formats) where
  -- What follows a membership check runs in the same state, for a member.
  pub member-eq-ok :
      {A : Type 0} (ws actor : Uuid) (k : Action W A) {w v : W} {a : A}
      → (require_member db f ws actor >> k) w ≡ ok a v
      → (Member.is_member db ws actor w ≡ answer true) × (k w ≡ ok a v)
  unfolding require_member ask refuse_if
  member-eq-ok ws actor k h = ground arith

  get_by_id_ok :
      (actor id : Uuid) (w v : W) (t : Task)
      → get_by_id db f actor id w ≡ ok t v
      → (Task.find_by_id db id w ≡ answer t)
        × (Member.is_member db t.workspace_id actor w ≡ answer true)
        × (v ≡ w)
  unfolding get_by_id
  get_by_id_ok actor id w v t h =
      let (_, h1) = refuse-eq-ok _ _ _ h in
      let (s, found, h2) = ask_or-eq-ok _ _ _ h1 in
      let (member, h3) = member-eq-ok s.workspace_id actor _ h2 in
      let same : s ≡ t = cc in (rw same at found, rw same at member, cc)

  pub update_task_ok :
      (actor id : Uuid) (input : TaskUpdateInput) (w v : W) (t' : Task)
      → update_task db f actor id input w ≡ ok t' v
      → (t : Task) × (Task.find_by_id db id w ≡ answer t)
        × (Member.is_member db t.workspace_id actor w ≡ answer true)
        × (d : Draft) × Kept (record { task = t; changed = false }) d
        × (store_draft db f d w ≡ ok t' v)
        × (id ≢ 0)
  unfolding update_task
  update_task_ok actor id input w v t' h =
      let (given, h1) = refuse-eq-ok _ _ _ h in
      let (t, found, h2) = ask_or-eq-ok _ _ _ h1 in
      let (member, h3) = member-eq-ok t.workspace_id actor _ h2 in
      let start : Draft = record { task = t; changed = false } in
      let (d, u, edited, stored) = bind-eq-ok (edit f input start) _ h3 in
      let (same, kept) = Post-ok (rw edited at (edit-Edits f input start w)) in
      (t, found, member, d, kept, rw same at stored, λ e. ground arith)

  pub delete_task_ok :
      (actor id : Uuid) (w v : W)
      → delete_task db f actor id w ≡ ok tt v
      → (t : Task) × (Task.find_by_id db id w ≡ answer t)
        × (Member.is_member db t.workspace_id actor w ≡ answer true)
        × (Task.delete db id w ≡ ok tt v)
  unfolding delete_task
  delete_task_ok actor id w v h =
      let (_, h1) = refuse-eq-ok _ _ _ h in
      let (t, found, h2) = ask_or-eq-ok _ _ _ h1 in
      let (member, h3) = member-eq-ok t.workspace_id actor _ h2 in (t, found, member, h3)

  -- An unchanged draft is returned as it is; a changed one is saved.
  abbrev Settled : Draft → W → W → Task → Type 0
  Settled d w v t =
      ((d.changed ≡ false) × (t ≡ d.task) × (v ≡ w))
      ⊎ ((at : Time) × (db.tasks.save d.task w ≡ ok at v)
          × (t ≡ record (d.task) { updated_at = at }))

  store_draft-Settled :
      (d : Draft) (w v : W) (t : Task) → store_draft db f d w ≡ ok t v → Settled d w v t
  unfolding store_draft Task.update
  store_draft-Settled d w v t h = elim (Bool-cases d.changed) [
    | inl edited ↦
        let (at, u, saved, done) = bind-eq-ok (db.tasks.save d.task) _ (rw edited at h) in
        let last : u ≡ v = returned_state done in
        inr (at, rw last at saved, sym (returned_value done))
    | inr same ↦
        let back = rw same at h in inl (same, sym (returned_value back), sym (returned_state back))
  ]

module _ {W : Type 0} (db : Db W) (f : Formats) (tasks : W → List Task)
    (members : W → List WorkspaceMember) (task_reads : ReadLaws db.tasks.reader tasks)
    (member_reads : ReadLaws db.members.reader members) where
  find_by_id-Has :
      (id : Uuid) (w : W) (t : Task)
      → Task.find_by_id db id w ≡ answer t
      → Has t (tasks w) × (t.id ≡ id)
  unfolding Task.find_by_id
  find_by_id-Has id w t h =
      let (has, hit) = task_reads.first_has (has_id id) w t h in (has, (==_iff t.id id).0 hit)

  -- `GetByID` returns a stored task with the asked id, only to a member of its workspace, and
  -- writes nothing.
  pub get_by_id-Belongs :
      (actor id : Uuid) (w v : W) (t : Task)
      → get_by_id db f actor id w ≡ ok t v
      → Has t (tasks w) × (t.id ≡ id) × Belongs (members w) t.workspace_id actor × (v ≡ w)
  get_by_id-Belongs actor id w v t h =
      let (found, member, same) = get_by_id_ok db f actor id w v t h in
      let (has, hit) = find_by_id-Has id w t found in
      (has, hit, is_member-Belongs db members member_reads t.workspace_id actor w member, same)

  module _
      (writes : CascadeLaws db.tasks tasks (λ t. t.id) (λ t. t.parent_task_id) StoresTask) where
    -- What a call of `UpdateTask` that returned `t'` did to the rows: nothing, or the row of the task
    -- was replaced by one that stores `t'`.
    abbrev pub Updated : Task → Task → W → W → Type 0
    Updated t t' w v =
        ((t' ≡ t) × (v ≡ w))
        ⊎ ((s : Task) × StoresTask t' s
            × Fixed t s
            × ((x : Task) → Has x (tasks v) ↔ ((x ≡ s) ⊎ (Has x (tasks w) × (x.id ≢ t.id)))))

    Settled-Updated :
        (t t' : Task) (d : Draft) (w v : W)
        → Kept (record { task = t; changed = false }) d
        → t.id ≢ 0
        → Settled db f d w v t'
        → Fixed t t' × Updated t t' w v
    Settled-Updated t t' d w v kept there (inl (same, back, still)) =
        let all : t' ≡ t = back ∙ ap (λ e. e.task) (kept.unchanged same) in
        (rw all (Fixed-refl t), inl (all, still))
    Settled-Updated t t' d w v kept there (inr (at, saved, back)) =
        let drafted : Fixed t d.task = Kept-Fixed t d kept in
        let (s, stored, key, rows) = writes.save_rows d.task at w v saved in
        let same_id : s.id ≡ t.id = key (λ e. there (sym drafted.id ∙ e)) ∙ drafted.id in
        (
          rw back (touched t d.task at drafted),
          inr (
            s,
            rw back (StoresTask-touched d.task s at stored),
            record {
              id = same_id;
              workspace_id = stored.workspace_id ∙ drafted.workspace_id;
              created_by = stored.created_by ∙ drafted.created_by;
              channel_id = stored.channel_id ∙ drafted.channel_id;
              parent_task_id = stored.parent_task_id ∙ drafted.parent_task_id;
              position = stored.position ∙ drafted.position;
            },
            λ x. rw (← drafted.id) (rows x),
          ),
        )

    -- A successful `UpdateTask` comes from a member of the workspace that a stored task with the asked
    -- id is in. The task that it returns has the same id, workspace, creator, channel, parent and
    -- position as the stored one. Either it is the stored one and nothing was written, or the row with
    -- the asked id was replaced by one that stores the returned task, again with the same id,
    -- workspace, creator, channel, parent and position, and the other rows are as they were.
    pub update_task-Belongs :
        (actor id : Uuid) (input : TaskUpdateInput) (w v : W) (t' : Task)
        → update_task db f actor id input w ≡ ok t' v
        → (t : Task) × Has t (tasks w)
          × (t.id ≡ id)
          × Belongs (members w) t.workspace_id actor
          × Fixed t t'
          × Updated t t' w v
    update_task-Belongs actor id input w v t' h =
        let (t, found, member, d, kept, stored, there) =
          update_task_ok db f actor id input w v t' h in
        let (has, hit) = find_by_id-Has id w t found in
        let (fixed, updated) =
          Settled-Updated t t' d w v kept (λ e. there (sym hit ∙ e))
            (store_draft-Settled db f d w v t' stored) in
        (
          t,
          has,
          hit,
          is_member-Belongs db members member_reads t.workspace_id actor w member,
          fixed,
          updated,
        )

    delete-rows :
        (id : Uuid) (w v : W)
        → Task.delete db id w ≡ ok tt v
        → (x : Task)
        → Has x (tasks v) ↔ (
            Has x (tasks w) × (¬ Falls (λ t. t.id) (λ t. t.parent_task_id) (has_id id) (tasks w) x))
    unfolding Task.delete
    delete-rows id w v h =
        let (n, u, deleted, done) = bind-eq-ok (db.tasks.delete (has_id id)) _ h in
        writes.delete_rows (has_id id) w v n (rw (returned_state done) at deleted)

    Falls-Under :
        (id : Uuid) (w : W) (x : Task)
        → Falls (λ t. t.id) (λ t. t.parent_task_id) (has_id id) (tasks w) x ↔ Under id (tasks w) x
    Falls-Under id w x = (to x, from x)
      where
        to :
            (x : Task)
            → Falls (λ t. t.id) (λ t. t.parent_task_id) (has_id id) (tasks w) x
            → Under id (tasks w) x
        to x (matched hit) = itself ((==_iff x.id id).0 hit)
        to x (orphaned {y} has up falls) = child has up (to y falls)

        from :
            (x : Task)
            → Under id (tasks w) x
            → Falls (λ t. t.id) (λ t. t.parent_task_id) (has_id id) (tasks w) x
        from x (itself e) = matched ((==_iff x.id id).1 e)
        from x (child {y} has up under) = orphaned has up (from y under)

    -- A successful `DeleteTask` comes from a member of the workspace that a stored task with the asked
    -- id is in, and removes the tasks with this id and the tasks below them, at any depth, and no
    -- others.
    pub delete_task-Belongs :
        (actor id : Uuid) (w v : W)
        → delete_task db f actor id w ≡ ok tt v
        → ((t : Task) × Has t (tasks w) × (t.id ≡ id) × Belongs (members w) t.workspace_id actor)
          × ((x : Task) → Has x (tasks v) ↔ (Has x (tasks w) × (¬ Under id (tasks w) x)))
    delete_task-Belongs actor id w v h =
        let (t, found, member, deleted) = delete_task_ok db f actor id w v h in
        let (has, hit) = find_by_id-Has id w t found in
        (
          (t, has, hit, is_member-Belongs db members member_reads t.workspace_id actor w member),
          λ x.
              let rows = delete-rows id w v deleted x in
              let same = Falls-Under id w x in
              (
                λ k. let (old, other) = rows.0 k in (old, λ u. other (same.1 u)),
                λ k. rows.1 (k.0, λ u. k.1 (same.0 u)),
              ),
        )
