-- ===== src/Service/Task/Edits.antt =====
-- What one pass over the fields of an update does to the draft.
use todo_chat_app.Prelude.{
  ◌≡◌, refl, ◌∙◌, true, false, String, Option, none, some, arith, Bool-cases, Option-cases, inl,
  inr,
}
use todo_chat_app.Prelude.Text.{is_empty}
use todo_chat_app.Outcome.{Outcome, Error, ok, err, task_invalid_input, Action, ◌>>=◌}
use todo_chat_app.Outcome.Rules.{
  Post, returned, failed, Post-refuse_if, Post->>=, Post-ok, Post-err,
}
use todo_chat_app.Model.{Task}
use todo_chat_app.Service.Libs.{Formats}
use todo_chat_app.Service.Task.{
  TaskUpdateInput, Draft, is_status, is_priority, edit_title, edit_description, edit_status,
  edit_priority, edit_due_date, edit_assignee, edit,
}

-- The status and the priority are among those that the database and the clients know.
pub record IsValidTask (t : Task) : Type 0 where
  pub status : is_status t.status ≡ true
  pub priority : is_priority t.priority ≡ true

-- What an edit may not touch, and what it keeps.
pub record Kept (d e : Draft) : Type 0 where
  pub id : e.task.id ≡ d.task.id
  pub workspace_id : e.task.workspace_id ≡ d.task.workspace_id
  pub created_by : e.task.created_by ≡ d.task.created_by
  pub channel_id : e.task.channel_id ≡ d.task.channel_id
  pub parent_task_id : e.task.parent_task_id ≡ d.task.parent_task_id
  pub position : e.task.position ≡ d.task.position
  pub valid : IsValidTask d.task → IsValidTask e.task
  pub unchanged : e.changed ≡ false → e ≡ d

Kept-refl : (d : Draft) → Kept d d
Kept-refl d = record {
  id = refl;
  workspace_id = refl;
  created_by = refl;
  channel_id = refl;
  parent_task_id = refl;
  position = refl;
  valid = λ h. h;
  unchanged = λ _. refl;
}

Kept-trans : {c d e : Draft} → Kept c d → Kept d e → Kept c e
Kept-trans {c} {d} {e} h k = record {
  id = k.id ∙ h.id;
  workspace_id = k.workspace_id ∙ h.workspace_id;
  created_by = k.created_by ∙ h.created_by;
  channel_id = k.channel_id ∙ h.channel_id;
  parent_task_id = k.parent_task_id ∙ h.parent_task_id;
  position = k.position ∙ h.position;
  valid = λ v. k.valid (h.valid v);
  unchanged = λ n. let same = k.unchanged n in same ∙ h.unchanged (rw same at n);
}

module _ {W : Type 0} where
  -- The edit returns in the state `w` that it started in; it fails with the one error.
  abbrev pub Edits : W → Draft → Outcome W Draft → Type 0
  Edits w d = Post (λ e v. (v ≡ w) × Kept d e) (λ x v. (v ≡ w) × (x ≡ task_invalid_input))

  Edits-pure : (w : W) (d : Draft) → Edits w d (ok d w)
  Edits-pure w d = returned (refl, Kept-refl d)

  edit_title-Edits : (o : Option String) (d : Draft) (w : W) → Edits w d (edit_title o d w)
  unfolding edit_title
  edit_title-Edits none d w = Edits-pure w d
  edit_title-Edits (some raw) d w =
      Post-refuse_if _ _ _ (λ _. (refl, refl)) λ _. returned (refl, ground arith)

  edit_description-Edits :
      (o : Option String) (d : Draft) (w : W) → Edits w d (edit_description o d w)
  unfolding edit_description
  edit_description-Edits none d w = Edits-pure w d
  edit_description-Edits (some raw) d w = returned (refl, ground arith)

  module _ (f : Formats) where
    edit_status-Edits : (o : Option String) (d : Draft) (w : W) → Edits w d (edit_status f o d w)
    unfolding edit_status
    edit_status-Edits none d w = Edits-pure w d
    edit_status-Edits (some raw) d w =
        Post-refuse_if _ _ _ (λ _. (refl, refl)) λ good. returned (refl, ground arith)

    edit_priority-Edits :
        (o : Option String) (d : Draft) (w : W) → Edits w d (edit_priority f o d w)
    unfolding edit_priority
    edit_priority-Edits none d w = Edits-pure w d
    edit_priority-Edits (some raw) d w =
        Post-refuse_if _ _ _ (λ _. (refl, refl)) λ good. returned (refl, ground arith)

    edit_due_date-Edits :
        (o : Option String) (d : Draft) (w : W) → Edits w d (edit_due_date f o d w)
    unfolding edit_due_date
    edit_due_date-Edits none d w = Edits-pure w d
    edit_due_date-Edits (some raw) d w = elim (Bool-cases (is_empty raw)) [
      | inl clear ↦ rw clear (returned (refl, ground arith))
      | inr set ↦ elim (Option-cases (f.parse_time raw)) [
        | inl bad ↦ rw (set, bad) (failed (refl, refl))
        | inr (t, good) ↦ rw (set, good) (returned (refl, ground arith))
      ]
    ]

    edit_assignee-Edits :
        (o : Option String) (d : Draft) (w : W) → Edits w d (edit_assignee f o d w)
    unfolding edit_assignee
    edit_assignee-Edits none d w = Edits-pure w d
    edit_assignee-Edits (some raw) d w = elim (Bool-cases (is_empty raw)) [
      | inl clear ↦ rw clear (returned (refl, ground arith))
      | inr set ↦ elim (Option-cases (f.parse_uuid raw)) [
        | inl bad ↦ rw (set, bad) (failed (refl, refl))
        | inr (id, good) ↦
            rw (set, good)
              (Post-refuse_if _ _ _ (λ _. (refl, refl)) λ _. returned (refl, ground arith))
      ]
    ]

    -- One more edit after those that have led from `d` to `e`.
    Edits-step :
        {w v : W} {d e : Draft} {o : Outcome W Draft}
        → (v ≡ w) × Kept d e
        → Edits v e o
        → Edits w d o
    Edits-step (same, kept) (returned (p, k)) = returned (p ∙ same, Kept-trans kept k)
    Edits-step (same, kept) (failed (p, q)) = failed (p ∙ same, q)

    Edits-bind :
        (w : W) (d : Draft) (m : Action W Draft) (k : Draft → Action W Draft)
        → Edits w d (m w)
        → ((e : Draft) → Edits w e (k e w))
        → Edits w d ((m >>= k) w)
    Edits-bind w d m k first rest =
        Post->>= m k (λ x v e. Post-err (rw e at first))
          λ e v step.
            let done = Post-ok (rw step at first) in Edits-step done (rw (done.0) (rest e))

    pub edit-Edits : (input : TaskUpdateInput) (d : Draft) (w : W) → Edits w d (edit f input d w)
    unfolding edit
    edit-Edits input d w =
        Edits-bind w d (edit_title input.title d) _ (edit_title-Edits input.title d w) λ d1.
          Edits-bind w d1 (edit_description input.description d1) _
            (edit_description-Edits input.description d1 w)
            λ d2.
              Edits-bind w d2 (edit_status f input.status d2) _
                (edit_status-Edits input.status d2 w)
                λ d3.
                  Edits-bind w d3 (edit_priority f input.priority d3) _
                    (edit_priority-Edits input.priority d3 w)
                    λ d4.
                      Edits-bind w d4 (edit_due_date f input.due_date d4) _
                        (edit_due_date-Edits input.due_date d4 w)
                        λ d5. edit_assignee-Edits input.assignee_id d5 w

    pub edit_err :
        (input : TaskUpdateInput) (d : Draft) (w v : W) (e : Error)
        → edit f input d w ≡ err e v
        → (v ≡ w) × (e ≡ task_invalid_input)
    edit_err input d w v e h = Post-err (rw h at (edit-Edits input d w))
