-- ===== src/Outcome.antt =====
-- Errors as values, and the actions of a handler or service on the outside world.
--
-- The constructors of `Error` up to `invitation_email_mismatch` are the variables of
-- internal/constants/error.go. `record_not_found` is gorm's; those from `email_required` on
-- are errors that the services make in place; `other` stands for any error of a library. An error
-- that `fmt.Errorf` wraps with `%w` counts as that error, but for the failed rollback of a
-- registration.
pub mod Rules
use todo_chat_app.Prelude.{
  ℕ, Bool, true, false, String, ◌≡◌, refl, ◌⊎◌, inl, inr, Option, none, some, if◌then◌else◌,
}

pub data Error : Type 0 where
  email_taken invalid_credentials no_password_set password_already_set : Error
  password_too_short invalid_pending_token link_conflict email_not_verified : Error
  invalid_verification_token verification_email_rate_limited user_email_not_verified : Error
  user_not_found user_invalid_input forbidden task_not_found task_invalid_input : Error
  workspace_not_found workspace_invalid_input invitation_is_member : Error
  invitation_already_exists invitation_still_valid invitation_is_expired : Error
  invitation_not_admin invitation_invalid_input invitation_email_mismatch : Error
  record_not_found email_required channel_unauthorized nil_conn : Error
  invalid_subject subject_required user_id_required first_email_required : Error
  link_required : String → String → Error
  rollback_failed : Error → Error
  other : ℕ → Error

-- What a call that only reads returns.
pub data Answer (A : Type 0) : Type 0 where
  answer : A → Answer A
  fails : Error → Answer A

-- What a call that may write returns, with the state of the world that it leaves.
pub data Outcome (W A : Type 0) : Type 0 where
  ok : A → W → Outcome W A
  err : Error → W → Outcome W A

abbrev pub Action : Type 0 → Type 0 → Type 0
Action W A = W → Outcome W A

abbrev pub pure : {W A : Type 0} → A → Action W A
pure a w = ok a w

abbrev pub raise : {W A : Type 0} → Error → Action W A
raise e w = err e w

abbrev pub then_do : {W A B : Type 0} → Outcome W A → (A → Action W B) → Outcome W B
then_do (ok a w) f = f a w
then_do (err e w) f = err e w

infixl 5 ◌>>=◌ ◌>>◌
abbrev pub ◌>>=◌ : {W A B : Type 0} → Action W A → (A → Action W B) → Action W B
◌>>=◌ m f w = then_do (m w) f

abbrev pub ◌>>◌ : {W B : Type 0} → Action W (Unit {0}) → Action W B → Action W B
m >> k = m >>= λ _. k

-- `if err != nil { return err }` after a call that reads.
unfoldable pub answered : {W A : Type 0} → Answer A → W → Outcome W A
answered (answer a) w = ok a w
answered (fails e) w = err e w

unfoldable pub ask : {W A : Type 0} → (W → Answer A) → Action W A
unfolding answered
ask r w = answered (r w) w

-- The same, with `errors.Is(err, gorm.ErrRecordNotFound)` turned into an error of the service.
abbrev pub is_not_found : Error → Bool
is_not_found record_not_found = true
is_not_found _ = false

abbrev pub rename : Error → Error → Error
rename missing record_not_found = missing
rename missing e = e

unfoldable pub renamed : {A : Type 0} → Error → Answer A → Answer A
renamed missing (answer a) = answer a
renamed missing (fails e) = fails (rename missing e)

unfoldable pub ask_or : {W A : Type 0} → Error → (W → Answer A) → Action W A
unfolding answered renamed
ask_or missing r w = answered (renamed missing (r w)) w

-- A look-up for which `gorm.ErrRecordNotFound` is no error, but leaves a nil pointer.
unfoldable pub ask_optional : {W A : Type 0} → (W → Answer A) → Action W (Option A)
ask_optional r w = elim (r w) [
  | answer a ↦ ok (some a) w
  | fails e ↦ if is_not_found e then ok none w else err e w
]

-- `if err != nil { return missing }`, whatever the error.
abbrev pub replaced : {A : Type 0} → Error → Answer A → Answer A
replaced missing (answer a) = answer a
replaced missing (fails e) = fails missing

unfoldable pub ask_else : {W A : Type 0} → Error → (W → Answer A) → Action W A
unfolding answered
ask_else missing r w = answered (replaced missing (r w)) w

-- `_ = f()`
abbrev pub settled : {W : Type 0} → Outcome W (Unit {0}) → Outcome W (Unit {0})
settled (ok a w) = ok tt w
settled (err e w) = ok tt w

unfoldable pub ignore_error : {W : Type 0} → Action W (Unit {0}) → Action W (Unit {0})
ignore_error m w = settled (m w)

-- `if a == nil { return e }`, and the same for a helper that returns a value or an error.
unfoldable pub expect : {W A : Type 0} → Error → Option A → Action W A
expect e none = raise e
expect e (some a) = pure a

-- A value that the process reads from its surroundings, such as the clock.
abbrev pub look : {W A : Type 0} → (W → A) → Action W A
look r w = ok (r w) w

-- `if bad { return e }`
unfoldable pub refuse_if : {W : Type 0} → Bool → Error → Action W (Unit {0})
refuse_if true e w = err e w
refuse_if false e w = ok tt w

module _ {W A : Type 0} where
  pub Outcome-cases :
      (o : Outcome W A)
      → ((a : A) × (v : W) × (o ≡ ok a v)) ⊎ ((e : Error) × (v : W) × (o ≡ err e v))
  Outcome-cases (ok a v) = inl (a, v, refl)
  Outcome-cases (err e v) = inr (e, v, refl)

pub Answer-cases :
    {A : Type 0} (o : Answer A) → ((a : A) × (o ≡ answer a)) ⊎ ((e : Error) × (o ≡ fails e))
Answer-cases (answer a) = inl (a, refl)
Answer-cases (fails e) = inr (e, refl)
