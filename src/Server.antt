-- ===== src/Server.antt =====
-- internal/server/server.go: how the engine is set up from the configuration.
use todo_chat_app.Prelude.{String, List, [], str_eq, if◌then◌else◌}
use todo_chat_app.Prelude.Text.{Unicode, trim_space, to_lower, is_empty, split_commas}
use todo_chat_app.Config.{Config}
use todo_chat_app.Middleware.Cors.{Header, Passing, cors}

-- `gin.DebugMode`, `gin.TestMode` and `gin.ReleaseMode`
pub data GinMode : Type 0 where
  debug_mode test_mode release_mode : GinMode

unfoldable pub gin_mode : Unicode → String → GinMode
gin_mode u mode =
    let lowered = to_lower u (trim_space mode) in
    if str_eq lowered "debug"
    then debug_mode
    else if str_eq lowered "test"
    then test_mode
    else release_mode

unfoldable pub split_origins : String → List String
split_origins raw = if is_empty (trim_space raw) then [] else split_commas raw

-- The middleware of `NewGinEngine` that decides anything: the check of the origin, of a method.
unfoldable pub engine_cors : Config → String → String → List (Header × String) × Passing
engine_cors cfg origin method = cors (split_origins cfg.allowed_origins) origin method
