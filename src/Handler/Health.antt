-- ===== src/Handler/Health.antt =====
-- internal/handler/health_handler.go, and internal/service/health_service.go, which pings the
-- database. The ping, with its limit of two seconds, is a parameter.
use todo_chat_app.Prelude.{Bool, if◌then◌else◌}
use todo_chat_app.Response.{Reply, status_text}

abbrev pub healthz : Reply
healthz = record { status = 200; body = status_text "ok" }

module _ {W : Type 0} (ping : W → Bool) where
  -- Whether `HealthService.Ready` returns no error.
  abbrev pub ready : W → Bool
  ready w = ping w

  unfoldable pub readyz : W → Reply
  readyz w =
      if ready w
      then record { status = 200; body = status_text "ready" }
      else record { status = 503; body = status_text "unavailable" }
