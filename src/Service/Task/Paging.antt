-- ===== src/Service/Task/Paging.antt =====
-- `ListByWorkspace` of internal/service/task_service.go.
use todo_chat_app.Prelude.{
  ℕ, zero, suc, ◌-◌, ◌*◌, ◌^◌, ◌≤◌, ◌<◌, ◌≡◌, refl, true, List, Has, All, length, arith, Bool-cases,
  inl, inr,
}
use todo_chat_app.Prelude.Int.{ℤ, pos, negsuc, ltb_ℤ, sub_int_exact, mul_int_exact}
use todo_chat_app.Outcome.{answer, ok, Outcome}
use todo_chat_app.Outcome.Rules.{ask-eq-ok, refuse-eq-ok}
use todo_chat_app.Model.{Task, WorkspaceMember, Uuid}
use todo_chat_app.Gorm.{Db}
use todo_chat_app.Gorm.Laws.{ReadLaws}
use todo_chat_app.Repository.Task as repo
use todo_chat_app.Repository.Task.{in_workspace}
use todo_chat_app.Repository.Member.Laws.{Belongs, is_member-Belongs}
use todo_chat_app.Service.Libs.{Formats}
use todo_chat_app.Service.Task.{clamp_page, clamp_size, page_offset, list_by_workspace}
use todo_chat_app.Service.Task.Access.{member-eq-ok}

-- A page that is asked for is at least 1, and a page size from 1 to 100.
clamp_page-pos : (page : ℤ) → (n : ℕ) × (clamp_page page ≡ pos (suc n))
clamp_page-pos (pos zero) = (0, refl)
clamp_page-pos (pos (suc n)) = (n, ground arith)
clamp_page-pos (negsuc n) = (0, ground arith)

clamp_size-pos : (size : ℤ) → (n : ℕ) × (clamp_size size ≡ pos (suc n)) × (n < 100)
clamp_size-pos (pos zero) = (19, refl, omega arith)
clamp_size-pos (pos (suc n)) = elim (Bool-cases (ltb_ℤ (pos 100) (pos (suc n)))) [
  | inl large ↦ (19, ground arith, omega arith)
  | inr small ↦ (n, ground arith, ground arith)
]
clamp_size-pos (negsuc n) = (19, ground arith, omega arith)

clamp_page_bound :
    (page : ℤ) (n : ℕ)
    → ltb_ℤ page (pos (2 ^ 56)) ≡ true
    → clamp_page page ≡ pos (suc n)
    → n < 2 ^ 56
clamp_page_bound page n small h = ground arith

fits : (n k : ℕ) → n < 2 ^ 56 → k < 100 → n * suc k < 2 ^ 63
fits n k a b = grind arith

-- Where the product fits in a signed 64-bit integer, the offset is the one of the page.
pub page_offset_exact :
    (page size : ℕ)
    → suc page < 2 ^ 63
    → size < 2 ^ 63
    → page * size < 2 ^ 63
    → page_offset (pos (suc page)) (pos size) ≡ pos (page * size)
unfolding page_offset
page_offset_exact page size hp hs h =
    let before : suc page - 1 ≡ page = omega arith in
    rw (sub_int_exact (suc page) 1 (omega arith) (omega arith), before)
      (mul_int_exact page size (omega arith) hs h)

module _ {W : Type 0} (db : Db W) (f : Formats) (tasks : W → List Task)
    (members : W → List WorkspaceMember) (task_reads : ReadLaws db.tasks.reader tasks)
    (member_reads : ReadLaws db.members.reader members) where
  -- The steps of a successful `ListByWorkspace`.
  list_by_workspace_ok :
      (actor ws : Uuid) (page size : ℤ) (w v : W) (found : List Task) (total : ℕ)
      → list_by_workspace db f actor ws page size w ≡ ok (found, total) v
      → Belongs (members w) ws actor
        × (repo.find_by_workspace db ws
              (page_offset (clamp_page page) (clamp_size size))
              (clamp_size size)
              w
            ≡ answer found)
        × (repo.count_by_workspace db ws w ≡ answer total)
  unfolding list_by_workspace
  list_by_workspace_ok actor ws page size w v found total h =
      let (_, h1) = refuse-eq-ok _ _ _ h in
      let (member, h2) = member-eq-ok db f ws actor _ h1 in
      let (n, counted, h3) = ask-eq-ok _ _ h2 in
      let (rows, read, h4) = ask-eq-ok _ _ h3 in
      let same : rows ≡ found = first_of h4 in
      let one : n ≡ total = second_of h4 in
      (
        is_member-Belongs db members member_reads ws actor w member,
        rw same at read,
        rw one at counted,
      )
    where
      first_of :
          {a b : List Task} {n m : ℕ} {u t : W}
          → ◌≡◌ {A = Outcome W (List Task × ℕ)} (ok (a, n) u) (ok (b, m) t)
          → a ≡ b
      first_of h = cc

      second_of :
          {a b : List Task} {n m : ℕ} {u t : W}
          → ◌≡◌ {A = Outcome W (List Task × ℕ)} (ok (a, n) u) (ok (b, m) t)
          → n ≡ m
      second_of h = cc

  -- A page of tasks, for a page number `page + 1` whose offset fits in a 64-bit integer.
  abbrev pub IsPage : W → Uuid → List Task → Type 0
  IsPage w ws found =
      All (λ t. Has t (tasks w) × (in_workspace ws t ≡ true)) found × (length found ≤ 100)

  find_by_workspace-IsPage :
      (ws : Uuid) (n k : ℕ) (w : W) (found : List Task)
      → k < 100
      → repo.find_by_workspace db ws (pos n) (pos (suc k)) w ≡ answer found
      → IsPage w ws found
  unfolding repo.find_by_workspace
  find_by_workspace-IsPage ws n k w found bound h =
      let (each, short) = task_reads.page_rows _ (in_workspace ws) w n k found h in
      (each, omega arith)

  -- A successful `ListByWorkspace` was called by a member of the workspace, and it returns at most
  -- 100 tasks, each of them stored and of this workspace, for every page size and for every page
  -- number below 2^56.
  pub list_by_workspace-IsPage :
      (actor ws : Uuid) (page size : ℤ) (w v : W) (found : List Task) (total : ℕ)
      → ltb_ℤ page (pos (2 ^ 56)) ≡ true
      → list_by_workspace db f actor ws page size w ≡ ok (found, total) v
      → Belongs (members w) ws actor × IsPage w ws found
  list_by_workspace-IsPage actor ws page size w v found total small h =
      let (member, read, _) = list_by_workspace_ok actor ws page size w v found total h in
      let (n, one) = clamp_page-pos page in
      let (k, sized, bound) = clamp_size-pos size in
      let near = clamp_page_bound page n small one in
      let offset : page_offset (pos (suc n)) (pos (suc k)) ≡ pos (n * suc k) =
        page_offset_exact n (suc k) (omega arith) (omega arith) (fits n k near bound) in
      (
        member,
        find_by_workspace-IsPage ws (n * suc k) k w found bound (rw (one, sized, offset) at read),
      )
