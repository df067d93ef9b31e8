-- ===== src/Handler/Task/Pages.antt =====
-- `List` of internal/handler/task_handler.go: the number of pages that its reply states.
use native.Mathlib.Nat.{div-mul-le_self, lt-div-mul-add}
use todo_chat_app.Prelude.{
  ℕ, ◌+◌, ◌-◌, ◌*◌, ◌/◌, ◌^◌, ◌≤◌, ◌<◌, ◌≡◌, refl, ◌||◌, arith, ltb, Bool-cases, inl, inr,
}
use todo_chat_app.Prelude.Int.{
  ℤ, pos, negsuc, of_pattern_small, add_int_exact, sub_int_exact, div_int,
}
use todo_chat_app.Handler.Task.{shown_size, total_pages}

shown_size-range : (size : ℤ) → (n : ℕ) × (shown_size size ≡ pos n) × (1 ≤ n) × (n ≤ 100)
shown_size-range (negsuc n) = (20, ground arith, omega arith, omega arith)
shown_size-range (pos n) = elim (Bool-cases (ltb n 1 || ltb 100 n)) [
  | inl odd ↦ (20, ground arith, omega arith, omega arith)
  | inr fine ↦ (n, ground arith, ground arith, ground arith)
]

total_pages-exact :
    (total n : ℕ)
    → total < 2 ^ 62
    → 1 ≤ n
    → n ≤ 100
    → total_pages total (pos n) ≡ pos ((total + n - 1) / n)
unfolding total_pages div_int
total_pages-exact total n h lo hi =
    rw
      (
        of_pattern_small total (omega arith),
        add_int_exact total n (omega arith) (omega arith) (omega arith),
        sub_int_exact (total + n) 1 (omega arith) (omega arith),
      )
      refl

ceiling :
    (total n : ℕ)
    → 1 ≤ n
    → (total ≤ (total + n - 1) / n * n) × ((total + n - 1) / n * n < total + n)
ceiling total n lo =
    let under = div-mul-le_self (total + n - 1) n in
    let over = lt-div-mul-add {a = total + n - 1} {b = n} (omega arith) in
    (omega arith, omega arith)

-- For fewer than 2^62 tasks and whatever page size was asked for, the page size that `List` shows is
-- from 1 to 100, and the pages that it counts hold all the tasks, with less than a page to spare.
pub total_pages-ceiling :
    (total : ℕ) (size : ℤ)
    → total < 2 ^ 62
    → (p n : ℕ) × (shown_size size ≡ pos n)
      × (1 ≤ n)
      × (n ≤ 100)
      × (total_pages total (shown_size size) ≡ pos p)
      × (total ≤ p * n)
      × (p * n < total + n)
total_pages-ceiling total size small =
    let (n, shown, lo, hi) = shown_size-range size in
    let (holds, spare) = ceiling total n lo in
    (
      (total + n - 1) / n,
      n,
      shown,
      lo,
      hi,
      rw shown (total_pages-exact total n small lo hi),
      holds,
      spare,
    )
