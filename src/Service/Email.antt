-- ===== src/Service/Email.antt =====
-- internal/service/email_service.go and pkg/email: the transports for mail. The SMTP client of
-- package net/smtp, its connections, and `url.Parse` are parameters; the deadline of a connection and
-- the lines of the log are left out.
pub mod Texts
use todo_chat_app.Prelude.{
  String, Bool, true, false, not, ◌||◌, Option, none, some, List, [], ◌∷◌, str_eq, if◌then◌else◌,
}
use todo_chat_app.Prelude.Text.{trim_space, to_lower, trim_slashes, is_empty}
use todo_chat_app.Outcome.{
  Answer, answer, fails, Outcome, ok, err, Action, pure, raise, ◌>>=◌, ◌>>◌, Error, other,
  refuse_if, expect, ignore_error,
}
use todo_chat_app.Service.Libs.{Formats}
use todo_chat_app.Config.{Config}
use Texts.{concat, build_mime_message, verification_body, invitation_body}

pub record SmtpConfig : Type 0 where
  pub host : String
  pub port : String
  pub user : String
  pub password : String
  pub from : String
  pub base_url : String

-- The two transports, with what each keeps.
pub data EmailService : Type 0 where
  smtp_email_service : SmtpConfig → EmailService
  log_email_service : String → EmailService

-- `LogEmailService.link`
unfoldable pub link : String → String → String → String
link base_url path raw_token =
    if is_empty base_url
    then concat (path ∷ "?token=" ∷ raw_token ∷ [])
    else concat (base_url ∷ path ∷ "?token=" ∷ raw_token ∷ [])

-- Package net/smtp, and the connections under it: a client is known by a text.
pub record Smtp (W : Type 0) : Type 0 where
  -- `tls.DialWithDialer` and `dialer.Dial`, to an address
  pub dial_tls : String → Action W String
  pub dial : String → Action W String
  -- `smtp.NewClient(conn, host)`, and closing the connection or the client
  pub new_client : String → String → Action W String
  pub close : String → Action W (Unit {0})
  -- `client.Extension`, `client.StartTLS` and `client.Auth`
  pub has_extension : String → String → W → Bool
  pub start_tls : String → String → Action W (Unit {0})
  pub auth : String → SmtpConfig → Action W (Unit {0})
  -- `client.Mail`, `client.Rcpt`, `client.Data` with the text written to it, and `client.Quit`
  pub mail : String → String → Action W (Unit {0})
  pub rcpt : String → String → Action W (Unit {0})
  pub write_data : String → String → Action W (Unit {0})
  pub quit : String → Action W (Unit {0})

module _ {W : Type 0} (smtp : Smtp W) where
  -- An error of `m` closes the client before it is returned.
  abbrev pub after_close : {A : Type 0} → Error → Outcome W (Unit {0}) → Outcome W A
  after_close e (ok a w) = err e w
  after_close e (err x w) = err e w

  abbrev pub or_close_of : {A : Type 0} → String → Outcome W A → Outcome W A
  or_close_of client (ok a w) = ok a w
  or_close_of client (err e w) = after_close e (smtp.close client w)

  abbrev pub or_close : {A : Type 0} → String → Action W A → Action W A
  or_close client m w = or_close_of client (m w)

  -- The client on port 465, over TLS from the start, and that on any other, which must upgrade.
  unfoldable pub connect_tls : SmtpConfig → Action W String
  connect_tls cfg = do
    conn ← smtp.dial_tls (concat (cfg.host ∷ ":" ∷ cfg.port ∷ []))
    or_close conn (smtp.new_client conn cfg.host)

  unfoldable pub upgrade : SmtpConfig → String → Action W (Unit {0})
  upgrade cfg client w =
      if smtp.has_extension client "STARTTLS" w
      then smtp.start_tls client cfg.host w
      else err (other 9) w

  unfoldable pub connect_plain : SmtpConfig → Action W String
  connect_plain cfg = do
    conn ← smtp.dial (concat (cfg.host ∷ ":" ∷ cfg.port ∷ []))
    client ← or_close conn (smtp.new_client conn cfg.host)
    or_close client (upgrade cfg client)
    pure client

  unfoldable pub new_authenticated_smtp_client : SmtpConfig → Action W String
  new_authenticated_smtp_client cfg = do
    client ← (if str_eq cfg.port "465" then connect_tls cfg else connect_plain cfg)
    or_close client (smtp.auth client cfg)
    pure client

  -- `defer client.Close()`, whose error is dropped
  abbrev pub ok_after : {A : Type 0} → A → Outcome W (Unit {0}) → Outcome W A
  ok_after a (ok _ w) = ok a w
  ok_after a (err _ w) = ok a w

  abbrev pub then_closed : {A : Type 0} → String → Outcome W A → Outcome W A
  then_closed client (ok a w) = ok_after a (smtp.close client w)
  then_closed client (err e w) = after_close e (smtp.close client w)

  abbrev pub with_close : {A : Type 0} → String → Action W A → Action W A
  with_close client m w = then_closed client (m w)

  unfoldable pub verify_smtp_connection : SmtpConfig → Action W (Unit {0})
  verify_smtp_connection cfg = do
    client ← new_authenticated_smtp_client cfg
    with_close client (smtp.quit client)

  -- The part that the two methods of `SMTPEmailService` share, from the connection on.
  unfoldable pub deliver : SmtpConfig → String → String → Action W (Unit {0})
  deliver cfg to msg = do
    client ← new_authenticated_smtp_client cfg
    with_close client
        (do smtp.mail client cfg.from; smtp.rcpt client to; smtp.write_data client msg)

  unfoldable pub send_verification_email : SmtpConfig → String → String → Action W (Unit {0})
  send_verification_email cfg to raw_token =
      let url = concat (trim_slashes cfg.base_url ∷ "/verify-email?token=" ∷ raw_token ∷ []) in
      deliver cfg to (build_mime_message cfg.from to "Verify your email" (verification_body url))

  unfoldable pub send_workspace_invitation_email :
      SmtpConfig → String → String → Action W (Unit {0})
  send_workspace_invitation_email cfg to raw_token =
      let url =
        concat
          (trim_slashes cfg.base_url ∷ "/workspace/accept-invitation?token=" ∷ raw_token ∷ []) in
      deliver cfg to
        (build_mime_message cfg.from to "You've been invited to a workspace" (invitation_body url))

  -- The scheme and the host that `url.Parse` finds.
  module _ (url_parts : String → Option (String × String)) where
    abbrev is_web : String → Bool
    is_web scheme = str_eq scheme "http" || str_eq scheme "https"

    abbrev bad_base : Option (String × String) → Bool
    bad_base none = true
    bad_base (some (scheme, host)) = is_empty scheme || is_empty host || not (is_web scheme)

    abbrev pub trimmed_config : Config → SmtpConfig
    trimmed_config c = record {
      host = trim_space c.smtp_host;
      port = trim_space c.smtp_port;
      user = trim_space c.smtp_user;
      password = trim_space c.smtp_password;
      from = trim_space c.smtp_from;
      base_url = trim_slashes (trim_space c.app_base_url);
    }

    abbrev lacks_field : SmtpConfig → Bool
    lacks_field c =
        is_empty c.host
        || is_empty c.port
        || is_empty c.user
        || is_empty c.password
        || is_empty c.from

    unfoldable pub new_smtp_config : Config → Action W SmtpConfig
    new_smtp_config c = do
      let cfg = trimmed_config c
      refuse_if (lacks_field cfg) (other 10)
      refuse_if (bad_base (url_parts cfg.base_url)) (other 11)
      verify_smtp_connection cfg
      pure cfg

    -- The text of the transport decides, trimmed and lowered.
    unfoldable pub new_email_service : Formats → Config → Action W EmailService
    new_email_service f c =
        let transport = to_lower f.unicode (trim_space c.email_transport) in
        if str_eq transport "smtp"
        then (do cfg ← new_smtp_config c; pure (smtp_email_service cfg))
        else if is_empty transport || str_eq transport "log"
        then pure (log_email_service (trim_slashes (trim_space c.app_base_url)))
        else raise (other 12)
