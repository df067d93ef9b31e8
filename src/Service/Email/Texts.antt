-- ===== src/Service/Email/Texts.antt =====
-- internal/service/email_service.go: the texts of the mails.
use Prim.Native.String
use todo_chat_app.Prelude.{String, List, [], ◌∷◌}

abbrev pub concat : List String → String
concat [] = ""
concat (s ∷ ss) = String.◌++◌ s (concat ss)

unfoldable pub build_mime_message : String → String → String → String → String
build_mime_message from to subject html_body = concat (
    "From: " ∷ from ∷ "\r\nTo: " ∷ to ∷ "\r\nSubject: " ∷ subject
    ∷ "\r\nMIME-Version: 1.0\r\nContent-Type: text/html; charset=UTF-8\r\n\r\n" ∷ html_body ∷ [])

-- The two HTML bodies, around the address of the button.
unfoldable pub verification_body : String → String
verification_body url = concat (
    "<!DOCTYPE html>\n" ∷ "<html>\n"
    ∷ "<body style=\"font-family:sans-serif;max-width:560px;margin:40px auto;padding:0 16px\">\n"
    ∷ "  <h2>Verify your email address</h2>\n"
    ∷ "  <p>Click the button below to verify your email. The link expires in <strong>24 hours</strong>.</p>\n"
    ∷ "  <a href=\"" ∷ url
    ∷ "\" style=\"display:inline-block;padding:12px 24px;background:#4f46e5;color:#fff;text-decoration:none;border-radius:6px\">Verify email</a>\n"
    ∷ "  <p style=\"margin-top:24px;color:#6b7280;font-size:13px\">If you did not create an account, you can safely ignore this email.</p>\n"
    ∷ "</body>\n" ∷ "</html>" ∷ [])

unfoldable pub invitation_body : String → String
invitation_body url = concat (
    "<!DOCTYPE html>\n" ∷ "<html>\n"
    ∷ "<body style=\"font-family:sans-serif;max-width:560px;margin:40px auto;padding:0 16px\">\n"
    ∷ "  <h2>You've been invited to join a workspace</h2>\n"
    ∷ "  <p>Click the button below to accept the invitation. The link expires in <strong>48 hours</strong>.</p>\n"
    ∷ "  <a href=\"" ∷ url
    ∷ "\" style=\"display:inline-block;padding:12px 24px;background:#4f46e5;color:#fff;text-decoration:none;border-radius:6px\">Accept invitation</a>\n"
    ∷ "  <p style=\"margin-top:24px;color:#6b7280;font-size:13px\">If you were not expecting this invitation, you can safely ignore this email.</p>\n"
    ∷ "</body>\n" ∷ "</html>" ∷ [])
