-- ===== src/Handler/LocalAuth/Silent.antt =====
-- `ResendVerification` of internal/handler/local_auth_handler.go: what its reply tells of an account.
use todo_chat_app.Prelude.{
  ◌+◌, ◌<◌, ◌≡◌, refl, ◌⊎◌, inl, inr, Bool, true, false, some, String, arith, ◌||◌, Bool-cases, sym,
  subst, ◌∙◌,
}
use todo_chat_app.Prelude.Text.{trim_space, to_lower, is_empty}
use todo_chat_app.Outcome.{
  Outcome, ok, err, answer, fails, record_not_found, verification_email_rate_limited,
}
use todo_chat_app.Outcome.Rules.{
  refuse-refused, refuse-passed, ask_optional-found, ask_optional-missing,
}
use todo_chat_app.Model.{User, EmailVerificationToken, is_nil}
use todo_chat_app.Gorm.{Db}
use todo_chat_app.Repository.User as users
use todo_chat_app.Repository.Verification
use todo_chat_app.Service.Libs.{Formats, Host}
use todo_chat_app.Service.Auth as service
use todo_chat_app.Service.Auth.{Settings, resend_to, is_recent, resend_verification_cooldown}
use todo_chat_app.Handler.{Request, run, finished, call, require, write, cause, ◌>>=◌}
use todo_chat_app.Handler.Requests.{Binder}
use todo_chat_app.Handler.LocalAuth as handler
use todo_chat_app.Handler.LocalAuth.{resent, resend_reply}

module _ {W : Type 0} (db : Db W) (host : Host W) (f : Formats) (s : Settings) where
  -- A user who has nothing to verify, or was sent a mail less than a minute ago.
  abbrev pub IsSettled : W → User → Type 0
  IsSettled w user =
      (user.email_verified ≡ true)
      ⊎ ((t : EmailVerificationToken) × (Verification.find_latest_by_user_id db user.id w
            ≡ answer t)
          × (host.now w < t.created_at + resend_verification_cooldown))

  -- An address for which there is nothing to send.
  abbrev pub IsQuiet : W → String → Type 0
  IsQuiet w address =
      (users.find_by_email db address w ≡ fails record_not_found)
      ⊎ ((user : User) × (users.find_by_email db address w ≡ answer user) × IsSettled w user)

  -- There was nothing to send, or it was too early.
  abbrev IsSilent : W → Outcome W (Unit {0}) → Type 0
  IsSilent w o = (o ≡ ok tt w) ⊎ (o ≡ err verification_email_rate_limited w)

  never : (a b : Bool) → b ≡ true → ¬ ((a || b) ≡ false)
  never true b e h = cc
  never false b e h = cc

  resend_to-IsSilent :
      (user : User) (w : W) → IsSettled w user → IsSilent w (resend_to db host f s (some user) w)
  unfolding resend_to
  resend_to-IsSilent user w (inl verified) =
      elim (Bool-cases (is_nil user.id || user.email_verified)) [
        | inl skip ↦ inl (rw skip refl)
        | inr send ↦ absurd (never (is_nil user.id) user.email_verified verified send)
      ]
  resend_to-IsSilent user w (inr (t, found, early)) =
      elim (Bool-cases (is_nil user.id || user.email_verified)) [
        | inl skip ↦ inl (rw skip refl)
        | inr send ↦
            let recent : is_recent (host.now w) (some t) ≡ true = ground arith in
            inr (rw send (ask_optional-found _ _ w t found ∙ refuse-refused _ _ _ w recent))
      ]

  resend_verification-IsSilent :
      (email : String) (w : W)
      → is_empty (to_lower f.unicode (trim_space email)) ≡ false
      → IsQuiet w (to_lower f.unicode (trim_space email))
      → IsSilent w (service.resend_verification db host f s email w)
  unfolding service.resend_verification resend_to
  resend_verification-IsSilent email w given (inl missing) =
      inl (refuse-passed _ _ _ w given ∙ ask_optional-missing _ _ w missing)
  resend_verification-IsSilent email w given (inr (user, found, settled)) =
      subst (IsSilent w) (sym (refuse-passed _ _ _ w given ∙ ask_optional-found _ _ w user found))
        (resend_to-IsSilent user w settled)

  module _ (bind : Binder) where
    silent-resent :
        (email : String) (w : W)
        → IsSilent w (service.resend_verification db host f s email w)
        → finished (
            (call (λ e. resend_reply (cause e)) (service.resend_verification db host f s email)
                >>= λ _. write resent)
              w)
          ≡ (resent, w)
    unfolding call cause
    silent-resent email w (inl sent) = rw sent refl
    silent-resent email w (inr early) = rw early refl

    -- `ResendVerification` answers with the same reply, and changes nothing, whether no account has
    -- the address, the account is verified, or a mail was sent to it less than a minute ago.
    pub resend_verification-silent :
        (req : Request) (email : String) (w : W)
        → bind.resend_email req.body ≡ some email
        → is_empty (to_lower f.unicode (trim_space email)) ≡ false
        → IsQuiet w (to_lower f.unicode (trim_space email))
        → run (handler.resend_verification db host f s bind req) w ≡ (resent, w)
    unfolding handler.resend_verification require
    resend_verification-silent req email w bound given quiet =
        rw bound (silent-resent email w (resend_verification-IsSilent email w given quiet))
