-- ===== src/Handler/Rules.antt =====
-- Rules for the steps of a handler: what a step that goes on says, and what the reply of a handler and
-- the state that it leaves satisfy.
use todo_chat_app.Prelude.{
  ◌≡◌, refl, Bool, true, false, Option, none, some, String, Bool-cases, inl, inr,
}
use todo_chat_app.Outcome.{Error, Outcome, ok, err, Action}
use todo_chat_app.Model.{Uuid, is_nil}
use todo_chat_app.Middleware.Rbac.{ContextUser, absent, not_uuid, user_id}
use todo_chat_app.Response.{Reply, unauthorized}
use todo_chat_app.Handler.{
  Turn, going, replied, turned, Handling, ◌>>=◌, ◌>>◌, finished, answered_by, call, require,
  reply_if, signed_in,
}

module _ {W A : Type 0} where
  pub reply_if-eq-going :
      (b : Bool) (r : Reply) (k : Handling W A) {w v : W} {a : A}
      → (reply_if b r >> k) w ≡ going a v
      → (b ≡ false) × (k w ≡ going a v)
  unfolding reply_if
  reply_if-eq-going true r k h = cc
  reply_if-eq-going false r k h = (refl, h)

-- `P` holds of the reply and of the state that is left.
pub data Ends {W : Type 0} (P : Reply → W → Type 0) : Turn W Reply → Type 0 where
  wrote : {r : Reply} {w : W} → P r w → Ends P (going r w)
  stopped : {r : Reply} {w : W} → P r w → Ends P (replied r w)

module _ {W : Type 0} {P : Reply → W → Type 0} where
  pub Ends-finished : (t : Turn W Reply) → Ends P t → P ((finished t).0) ((finished t).1)
  Ends-finished (going r w) (wrote p) = p
  Ends-finished (replied r w) (stopped p) = p

  pub Ends-require :
      {A : Type 0} (r : Reply) (o : Option A) (k : A → Handling W Reply) {w : W}
      → P r w
      → ((a : A) → o ≡ some a → Ends P (k a w))
      → Ends P ((require r o >>= k) w)
  unfolding require
  Ends-require r none k bad good = stopped bad
  Ends-require r (some a) k bad good = good a refl

  pub Ends-signed_in :
      (missing invalid : String) (u : ContextUser) (k : Uuid → Handling W Reply) {w : W}
      → ((r : Reply) → r.status ≡ 401 → P r w)
      → ((id : Uuid) → u ≡ user_id id → Ends P (k id w))
      → Ends P ((signed_in missing invalid u >>= k) w)
  unfolding signed_in unauthorized
  Ends-signed_in missing invalid absent k bad good = stopped (bad _ refl)
  Ends-signed_in missing invalid not_uuid k bad good = stopped (bad _ refl)
  Ends-signed_in missing invalid (user_id id) k bad good = elim (Bool-cases (is_nil id)) [
    | inl nil ↦ rw nil (stopped (bad _ refl))
    | inr there ↦ rw there (good id refl)
  ]

  pub Ends-call :
      {A : Type 0} (to_reply : Error → Reply) (m : Action W A) (k : A → Handling W Reply) {w : W}
      → ((e : Error) (v : W) → m w ≡ err e v → P (to_reply e) v)
      → ((a : A) (v : W) → m w ≡ ok a v → Ends P (k a v))
      → Ends P ((call to_reply m >>= k) w)
  unfolding call
  Ends-call {A} to_reply m k {w} bad good = go (m w) refl
    where
      go : (o : Outcome W A) → m w ≡ o → Ends P (turned (answered_by to_reply o) k)
      go (ok a v) e = good a v e
      go (err x v) e = stopped (bad x v e)
