-- ===== src/Gorm/Memory/Lists.antt =====
-- The list functions of the database in memory, and what they keep.
use todo_chat_app.Prelude.{
  ℕ, zero, suc, ◌≤◌, ◌≡◌, refl, ◌∙◌, ap, ◌↔◌, ◌⊎◌, inl, inr, Bool, true, List, [], ◌∷◌, ◌++◌, map,
  length, Has, All, arith, if◌then◌else◌, Bool-cases,
}
use todo_chat_app.Outcome.{Answer, answer, fails, record_not_found}

module _ {R : Type 0} where
  unfoldable pub keep : (R → Bool) → List R → List R
  keep q [] = []
  keep q (x ∷ xs) = if q x then x ∷ keep q xs else keep q xs

  unfoldable pub head_or_missing : List R → Answer R
  head_or_missing [] = fails record_not_found
  head_or_missing (x ∷ xs) = answer x

  unfoldable pub take : ℕ → List R → List R
  take n [] = []
  take zero (x ∷ xs) = []
  take (suc n) (x ∷ xs) = x ∷ take n xs

  unfoldable pub drop : ℕ → List R → List R
  drop n [] = []
  drop zero (x ∷ xs) = x ∷ xs
  drop (suc n) (x ∷ xs) = drop n xs

  pub Has-keep_to : (q : R → Bool) (x : R) (l : List R) → Has x (keep q l) → Has x l × (q x ≡ true)
  unfolding keep
  Has-keep_to q x [] h = elim h [ ]
  Has-keep_to q x (y ∷ l) h = elim (Bool-cases (q y)) [
    | inl hit ↦ elim (hit_case hit) [
      | inl e ↦ (inl e, rw e hit)
      | inr k ↦ let (old, fits) = Has-keep_to q x l k in (inr old, fits)
    ]
    | inr miss ↦ let (old, fits) = Has-keep_to q x l (rw miss at h) in (inr old, fits)
  ]
    where
      hit_case : q y ≡ true → (x ≡ y) ⊎ Has x (keep q l)
      hit_case hit = rw hit at h

  pub Has-keep_from : (q : R → Bool) (x : R) (l : List R) → Has x l → q x ≡ true → Has x (keep q l)
  unfolding keep
  Has-keep_from q x [] h fits = h
  Has-keep_from q x (y ∷ l) (inl e) fits = rw (← e, fits) (inl refl)
  Has-keep_from q x (y ∷ l) (inr old) fits =
      let rest = Has-keep_from q x l old fits in
      elim (Bool-cases (q y)) [ inl hit ↦ rw hit (inr rest) | inr miss ↦ rw miss rest ]

  pub Has-map : (g : R → R) (x : R) (l : List R) → Has x (map g l) ↔ ((y : R) × Has y l × (x ≡ g y))
  Has-map g x [] = (λ h. elim h [ ], λ h. h.1)
  Has-map g x (y ∷ l) = (
    elim [
      | inl e ↦ (y, inl refl, e)
      | inr k ↦ let (z, has, e) = (Has-map g x l).0 k in (z, inr has, e)
    ],
    λ h. elim (h.1) [ inl e ↦ inl (h.2 ∙ ap g e) | inr k ↦ inr ((Has-map g x l).1 (h.0, k, h.2)) ],
  )

  pub All-keep :
      (q : R → Bool) (l : List R) (P : R → Type 0)
      → ((x : R) → Has x l → q x ≡ true → P x)
      → All P (keep q l)
  unfolding keep
  All-keep q [] P h = tt
  All-keep q (y ∷ l) P h =
      let rest = All-keep q l P (λ x has. h x (inr has)) in
      elim (Bool-cases (q y)) [
        | inl hit ↦ rw hit (h y (inl refl) hit, rest)
        | inr miss ↦ rw miss rest
      ]

  pub All-drop : (n : ℕ) (l : List R) (P : R → Type 0) → All P l → All P (drop n l)
  unfolding drop
  All-drop n [] P h = h
  All-drop zero (x ∷ l) P h = h
  All-drop (suc n) (x ∷ l) P h = All-drop n l P h.1

  pub All-take : (n : ℕ) (l : List R) (P : R → Type 0) → All P l → All P (take n l)
  unfolding take
  All-take n [] P h = h
  All-take zero (x ∷ l) P h = tt
  All-take (suc n) (x ∷ l) P h = (h.0, All-take n l P h.1)

  pub length-take : (n : ℕ) (l : List R) → length (take n l) ≤ n
  unfolding take
  length-take n [] = omega arith
  length-take zero (x ∷ l) = omega arith
  length-take (suc n) (x ∷ l) = omega (arith, length-take n l)

  pub Has-append : (x : R) (l m : List R) → Has x (l ++ m) ↔ (Has x l ⊎ Has x m)
  Has-append x [] m = (λ h. inr h, elim [ inl h ↦ elim h [ ] | inr h ↦ h ])
  Has-append x (y ∷ l) m =
      let rest = Has-append x l m in
      (
        elim [
          | inl e ↦ inl (inl e)
          | inr k ↦ elim (rest.0 k) [ inl old ↦ inl (inr old) | inr new ↦ inr new ]
        ],
        elim [
          | inl h ↦ elim h [ inl e ↦ inl e | inr old ↦ inr (rest.1 (inl old)) ]
          | inr new ↦ inr (rest.1 (inr new))
        ],
      )
