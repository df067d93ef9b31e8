-- ===== src/Outcome/Rules.antt =====
-- Rules for `do` blocks: what a successful run says of each step, and a postcondition for both ways
-- of returning, with a rule for each kind of step.
use todo_chat_app.Prelude.{
  Option, none, some, ℕ, Bool, true, false, ◌≡◌, ◌≢◌, refl, ◌⊎◌, inl, inr, arith, Bool-cases, ◌==◌,
  if◌then◌else◌,
}
use todo_chat_app.Outcome.{
  Error, Answer, answer, fails, Outcome, ok, err, Action, ◌>>=◌, ◌>>◌, ask, ask_or, ask_else,
  ask_optional, is_not_found, expect, replaced, then_do, answered, renamed, rename, refuse_if, pure,
  raise, record_not_found,
}

module _ {W A : Type 0} where
  pub returned_state : {a b : A} {u t : W} → ◌≡◌ {A = Outcome W A} (ok a u) (ok b t) → u ≡ t
  returned_state h = cc

  pub returned_value : {a b : A} {u t : W} → ◌≡◌ {A = Outcome W A} (ok a u) (ok b t) → a ≡ b
  returned_value h = cc

  pub refuse-eq-ok :
      (b : Bool) (e : Error) (k : Action W A) {w v : W} {a : A}
      → (refuse_if b e >> k) w ≡ ok a v
      → (b ≡ false) × (k w ≡ ok a v)
  unfolding refuse_if
  refuse-eq-ok true e k h = cc
  refuse-eq-ok false e k h = (refl, h)

  pub ask-eq-ok :
      {X : Type 0} (r : W → Answer X) (k : X → Action W A) {w v : W} {a : A}
      → (ask r >>= k) w ≡ ok a v
      → (x : X) × (r w ≡ answer x) × (k x w ≡ ok a v)
  unfolding ask
  ask-eq-ok {X} r k {w} {v} {a} h = go (r w) h
    where
      go :
          (o : Answer X)
          → then_do (answered o w) k ≡ ok a v
          → (x : X) × (o ≡ answer x) × (k x w ≡ ok a v)
      go (answer x) h = (x, refl, h)
      go (fails e) h = cc

  pub ask_or-eq-ok :
      {X : Type 0} (missing : Error) (r : W → Answer X) (k : X → Action W A) {w v : W} {a : A}
      → (ask_or missing r >>= k) w ≡ ok a v
      → (x : X) × (r w ≡ answer x) × (k x w ≡ ok a v)
  unfolding ask_or
  ask_or-eq-ok {X} missing r k {w} {v} {a} h = go (r w) h
    where
      go :
          (o : Answer X)
          → then_do (answered (renamed missing o) w) k ≡ ok a v
          → (x : X) × (o ≡ answer x) × (k x w ≡ ok a v)
      go (answer x) h = (x, refl, h)
      go (fails e) h = cc

  pub ask_else-eq-ok :
      {X : Type 0} (missing : Error) (r : W → Answer X) (k : X → Action W A) {w v : W} {a : A}
      → (ask_else missing r >>= k) w ≡ ok a v
      → (x : X) × (r w ≡ answer x) × (k x w ≡ ok a v)
  unfolding ask_else
  ask_else-eq-ok {X} missing r k {w} {v} {a} h = go (r w) h
    where
      go :
          (o : Answer X)
          → then_do (answered (replaced missing o) w) k ≡ ok a v
          → (x : X) × (o ≡ answer x) × (k x w ≡ ok a v)
      go (answer x) h = (x, refl, h)
      go (fails e) h = cc

  pub ask_optional-eq-ok :
      {X : Type 0} (r : W → Answer X) (k : Option X → Action W A) {w v : W} {a : A}
      → (ask_optional r >>= k) w ≡ ok a v
      → ((x : X) × (r w ≡ answer x) × (k (some x) w ≡ ok a v))
        ⊎ ((r w ≡ fails record_not_found) × (k none w ≡ ok a v))
  unfolding ask_optional
  ask_optional-eq-ok {X} r k {w} {v} {a} h = go (r w) h
    where
      missing :
          (e : Error)
          → then_do (if is_not_found e then ok none w else err e w) k ≡ ok a v
          → (◌≡◌ {A = Answer X} (fails e) (fails record_not_found)) × (k none w ≡ ok a v)
      missing record_not_found h = (refl, h)
      missing e h = ground arith

      go :
          (o : Answer X)
          → then_do
              (elim o [
                | answer x ↦ ok (some x) w
                | fails e ↦ if is_not_found e then ok none w else err e w
              ])
              k
            ≡ ok a v
          → ((x : X) × (o ≡ answer x) × (k (some x) w ≡ ok a v))
            ⊎ ((o ≡ fails record_not_found) × (k none w ≡ ok a v))
      go (answer x) h = inl (x, refl, h)
      go (fails e) h = inr (missing e h)

  pub refuse-refused :
      (b : Bool) (e : Error) (k : Action W A) (w : W) → b ≡ true → (refuse_if b e >> k) w ≡ err e w
  unfolding refuse_if
  refuse-refused true e k w h = refl
  refuse-refused false e k w h = cc

  pub refuse-passed :
      (b : Bool) (e : Error) (k : Action W A) (w : W) → b ≡ false → (refuse_if b e >> k) w ≡ k w
  unfolding refuse_if
  refuse-passed false e k w h = refl
  refuse-passed true e k w h = cc

  pub ask_optional-found :
      {X : Type 0} (r : W → Answer X) (k : Option X → Action W A) (w : W) (x : X)
      → r w ≡ answer x
      → (ask_optional r >>= k) w ≡ k (some x) w
  unfolding ask_optional
  ask_optional-found r k w x h = rw (h, ask_optional) refl

  pub ask_optional-missing :
      {X : Type 0} (r : W → Answer X) (k : Option X → Action W A) (w : W)
      → r w ≡ fails record_not_found
      → (ask_optional r >>= k) w ≡ k none w
  unfolding ask_optional
  ask_optional-missing r k w h = rw (h, ask_optional) refl

  pub expect-eq-ok :
      {X : Type 0} (e : Error) (o : Option X) (k : X → Action W A) {w v : W} {a : A}
      → (expect e o >>= k) w ≡ ok a v
      → (x : X) × (o ≡ some x) × (k x w ≡ ok a v)
  unfolding expect
  expect-eq-ok e none k h = cc
  expect-eq-ok e (some x) k h = (x, refl, h)

  pub bind-eq-ok :
      {X : Type 0} (m : Action W X) (k : X → Action W A) {w v : W} {a : A}
      → (m >>= k) w ≡ ok a v
      → (x : X) × (u : W) × (m w ≡ ok x u) × (k x u ≡ ok a v)
  bind-eq-ok {X} m k {w} {v} {a} h = go (m w) h
    where
      go :
          (o : Outcome W X)
          → then_do o k ≡ ok a v
          → (x : X) × (u : W) × (o ≡ ok x u) × (k x u ≡ ok a v)
      go (ok x u) h = (x, u, refl, h)
      go (err e u) h = cc

-- `P` holds of a success, and `Q` of an error, with the state that is left.
pub data Post {W A : Type 0} (P : A → W → Type 0) (Q : Error → W → Type 0)
    : Outcome W A → Type 0 where
  returned : {a : A} {v : W} → P a v → Post P Q (ok a v)
  failed : {e : Error} {v : W} → Q e v → Post P Q (err e v)

module _ {W A : Type 0} {P : A → W → Type 0} {Q : Error → W → Type 0} where
  pub Post-ok : {a : A} {v : W} → Post P Q (ok a v) → P a v
  Post-ok (returned p) = p

  pub Post-err : {e : Error} {v : W} → Post P Q (err e v) → Q e v
  Post-err (failed q) = q

  pub Post-eq-err : (o : Outcome W A) {e : Error} {v : W} → Post P Q o → o ≡ err e v → Q e v
  Post-eq-err o p h = Post-err (rw h at p)

  pub Post-refuse_if :
      (b : Bool) (e : Error) (k : Action W A) {w : W}
      → (b ≡ true → Q e w)
      → (b ≡ false → Post P Q (k w))
      → Post P Q ((refuse_if b e >> k) w)
  unfolding refuse_if
  Post-refuse_if true e k bad good = failed (bad refl)
  Post-refuse_if false e k bad good = good refl

  pub Post-ask :
      {X : Type 0} (r : W → Answer X) (k : X → Action W A) {w : W}
      → ((e : Error) → r w ≡ fails e → Q e w)
      → ((x : X) → r w ≡ answer x → Post P Q (k x w))
      → Post P Q ((ask r >>= k) w)
  unfolding ask
  Post-ask {X} r k {w} bad good = go (r w) refl
    where
      go : (o : Answer X) → r w ≡ o → Post P Q (then_do (answered o w) k)
      go (answer x) e = good x e
      go (fails x) e = failed (bad x e)

  pub Post-ask_or :
      {X : Type 0} (missing : Error) (r : W → Answer X) (k : X → Action W A) {w : W}
      → ((e : Error) → r w ≡ fails e → Q (rename missing e) w)
      → ((x : X) → r w ≡ answer x → Post P Q (k x w))
      → Post P Q ((ask_or missing r >>= k) w)
  unfolding ask_or
  Post-ask_or {X} missing r k {w} bad good = go (r w) refl
    where
      go : (o : Answer X) → r w ≡ o → Post P Q (then_do (answered (renamed missing o) w) k)
      go (answer x) e = good x e
      go (fails x) e = failed (bad x e)

  pub Post-ask_optional :
      {X : Type 0} (r : W → Answer X) (k : Option X → Action W A) {w : W}
      → ((e : Error) → r w ≡ fails e → Q e w)
      → ((x : Option X) → Post P Q (k x w))
      → Post P Q ((ask_optional r >>= k) w)
  unfolding ask_optional
  Post-ask_optional {X} r k {w} bad good = go (r w) refl
    where
      settle :
          (e : Error) (b : Bool) → Q e w → Post P Q (then_do (if b then ok none w else err e w) k)
      settle e true q = good none
      settle e false q = failed q

      go :
          (o : Answer X)
          → r w ≡ o
          → Post P Q (
              then_do
                (elim o [
                  | answer a ↦ ok (some a) w
                  | fails e ↦ if is_not_found e then ok none w else err e w
                ])
                k)
      go (answer x) e = good (some x)
      go (fails x) e = settle x (is_not_found x) (bad x e)

  pub Post->>= :
      {X : Type 0} (m : Action W X) (k : X → Action W A) {w : W}
      → ((e : Error) (v : W) → m w ≡ err e v → Q e v)
      → ((x : X) (v : W) → m w ≡ ok x v → Post P Q (k x v))
      → Post P Q ((m >>= k) w)
  Post->>= {X} m k {w} bad good = go (m w) refl
    where
      go : (o : Outcome W X) → m w ≡ o → Post P Q (then_do o k)
      go (ok x v) e = good x v e
      go (err x v) e = failed (bad x v e)

  pub Post-intro :
      (o : Outcome W A)
      → ((a : A) (v : W) → o ≡ ok a v → P a v)
      → ((e : Error) (v : W) → o ≡ err e v → Q e v)
      → Post P Q o
  Post-intro (ok a v) good bad = returned (good a v refl)
  Post-intro (err e v) good bad = failed (bad e v refl)

-- The test of `RowsAffected` that two repositories end with.
module _ {W : Type 0} where
  pub affected_some :
      (n : ℕ) (u v : W)
      → (if n == 0 then raise {W = W} {A = Unit {0}} record_not_found else pure tt) u ≡ ok tt v
      → (u ≡ v) × (n ≢ 0)
  affected_some n u v h = elim (Bool-cases (n == 0)) [
    | inl none_hit ↦ cc (rw none_hit at h)
    | inr some_hit ↦ (cc (rw some_hit at h), ground arith)
  ]
