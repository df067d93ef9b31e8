-- ===== src/Middleware.antt =====
-- internal/middleware: what stands between the router and the handlers.
pub mod Rbac
pub mod Token
pub mod Cors
