-- ===== src/Prelude/Lists.antt =====
-- Lists over the native numbers, and two predicates by recursion.
use Prim.Native.Nat.{ℕ, suc}
use mathlib.Core.Path.{◌≡◌}
use mathlib.Core.Logic.{◌⊎◌, inl, inr}
use mathlib.Core.List.{List, [], ◌∷◌}

abbrev pub length {ℓ} : {A : Type ℓ} → List A → ℕ
length [] = 0
length (x ∷ xs) = suc (length xs)

-- `a` stands in the list.
abbrev pub Has : {A : Type 0} → A → List A → Type 0
Has a [] = ⊥
Has a (x ∷ xs) = (a ≡ x) ⊎ Has a xs

abbrev pub All : {A : Type 0} → (A → Type 0) → List A → Type 0
All P [] = Unit
All P (x ∷ xs) = P x × All P xs

pub All-Has : {A : Type 0} (P : A → Type 0) (l : List A) → All P l → (a : A) → Has a l → P a
All-Has P [] h a has = absurd has
All-Has P (x ∷ l) h a (inl e) = rw e (h.0)
All-Has P (x ∷ l) h a (inr has) = All-Has P l h.1 a has
