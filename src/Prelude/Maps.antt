-- ===== src/Prelude/Maps.antt =====
-- Go maps with numbers for keys: association lists in which a key stands once. A missing key reads
-- as `none`; deleting one changes nothing.
use Prim.Native.Nat.{ℕ}
use mathlib.Core.Path.{◌≡◌, refl, sym}
use mathlib.Core.Logic.{◌≢◌, ◌↔◌, inl, inr}
use mathlib.Core.Option.{Option, none, some}
use mathlib.Core.List.{List, [], ◌∷◌, map}
use native.Mathlib.Omega.{arith}
use todo_chat_app.Prelude.Tests.{◌==◌, if◌then◌else◌, Bool-cases}
use todo_chat_app.Prelude.Lists.{All, Has}

module _ {V : Type 0} where
  unfoldable pub lookup : ℕ → List (ℕ × V) → Option V
  lookup k [] = none
  lookup k ((j, v) ∷ m) = if j == k then some v else lookup k m

  unfoldable pub insert : ℕ → V → List (ℕ × V) → List (ℕ × V)
  insert k v [] = (k, v) ∷ []
  insert k v ((j, u) ∷ m) = if j == k then (k, v) ∷ m else (j, u) ∷ insert k v m

  unfoldable pub erase : ℕ → List (ℕ × V) → List (ℕ × V)
  erase k [] = []
  erase k ((j, u) ∷ m) = if j == k then m else (j, u) ∷ erase k m

  -- The key is not in the map.
  abbrev pub Misses : ℕ → List (ℕ × V) → Type 0
  Misses k m = All (λ e. e.0 ≢ k) m

  abbrev pub Distinct : List (ℕ × V) → Type 0
  Distinct [] = Unit
  Distinct ((j, u) ∷ m) = Misses j m × Distinct m

  pub lookup-Misses : (k : ℕ) (m : List (ℕ × V)) → Misses k m → lookup k m ≡ none
  unfolding lookup
  lookup-Misses k [] h = refl
  lookup-Misses k ((j, u) ∷ m) h = ground (arith, lookup-Misses k m h.1)

  pub lookup-insert :
      (j k : ℕ) (v : V) (m : List (ℕ × V))
      → lookup j (insert k v m) ≡ (if k == j then some v else lookup j m)
  unfolding lookup insert
  lookup-insert j k v [] = refl
  lookup-insert j k v ((i, u) ∷ m) = ground (arith, lookup-insert j k v m)

  pub lookup-erase :
      (j k : ℕ) (m : List (ℕ × V))
      → Distinct m
      → lookup j (erase k m) ≡ (if k == j then none else lookup j m)
  unfolding lookup erase
  lookup-erase j k [] h = ground arith
  lookup-erase j k ((i, u) ∷ m) h = ground (arith, lookup-erase j k m h.1, lookup-Misses i m h.0)

  Misses-insert :
      (i k : ℕ) (v : V) (m : List (ℕ × V)) → i ≢ k → Misses i m → Misses i (insert k v m)
  unfolding insert
  Misses-insert i k v [] ne h = (λ e. ne (sym e), tt)
  Misses-insert i k v ((j, u) ∷ m) ne h = ground (arith, Misses-insert i k v m ne h.1)

  pub Distinct-insert : (k : ℕ) (v : V) (m : List (ℕ × V)) → Distinct m → Distinct (insert k v m)
  unfolding insert
  Distinct-insert k v [] h = (tt, tt)
  Distinct-insert k v ((j, u) ∷ m) h =
      ground (arith, Distinct-insert k v m h.1, Misses-insert j k v m)

  Misses-erase : (i k : ℕ) (m : List (ℕ × V)) → Misses i m → Misses i (erase k m)
  unfolding erase
  Misses-erase i k [] h = tt
  Misses-erase i k ((j, u) ∷ m) h = ground (arith, Misses-erase i k m h.1)

  pub Distinct-erase : (k : ℕ) (m : List (ℕ × V)) → Distinct m → Distinct (erase k m)
  unfolding erase
  Distinct-erase k [] h = tt
  Distinct-erase k ((j, u) ∷ m) h = ground (arith, Distinct-erase k m h.1, Misses-erase j k m h.0)

  -- The values of a map are what its keys lead to.
  pub Has-values :
      (v : V) (m : List (ℕ × V))
      → Distinct m
      → Has v (map (λ e. e.1) m) ↔ ((k : ℕ) × (lookup k m ≡ some v))
  unfolding lookup
  Has-values v [] h = (λ q. elim q [ ], λ q. cc)
  Has-values v ((j, u) ∷ m) h =
      let rest = Has-values v m h.1 in
      let missed = lookup-Misses j m h.0 in
      (
        elim [
          | inl e ↦ (j, ground arith)
          | inr has ↦ let (k, found) = rest.0 has in (k, ground arith)
        ],
        λ q. elim (Bool-cases (j == q.0)) [
          | inl hit ↦ inl (ground (arith, q.1))
          | inr miss ↦ inr (rest.1 (q.0, rw miss at (q.1)))
        ],
      )
