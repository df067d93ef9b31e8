-- ===== src/Lib.antt =====
-- A task and chat service: people register, log in with a password or an external identity, found
-- workspaces, invite others by mail, and share tasks and chat channels. A request passes the
-- middleware, a handler decodes it and calls one service, and the service works through repositories
-- on PostgreSQL, inside a transaction where two tables change. A chat session keeps its connection and
-- shares the rooms with the others. The development models this whole path: routes, middleware,
-- handlers, services and repositories, and the sessions.
--
-- How the program is represented. A call that may write is an `Action W A`: from a state `W` of the
-- world to a value or an error, with the state that is left (Outcome.antt; the rules for `do` blocks
-- are in Outcome/Rules.antt). A call that only reads gives an `Answer`. The world is a parameter: the
-- development knows it only through the interface of gorm (Gorm/Defs.antt) and of the other
-- packages, the clock, randomness, hashing, signing and mail (Service/Libs.antt). What a proof needs
-- of them is a named hypothesis (Gorm/Laws.antt, and a record of laws beside each proof): the effect
-- of each query on the rows of its table, a transaction that commits or rolls back, and which calls
-- leave which table alone. Gorm/Memory.antt is a database in memory with these laws, on which the
-- tests run. A query may fail with any error at any time, but nothing else writes to the database
-- while one method runs. Of the foreign keys the development has that of a task to its parent, whose
-- deletion cascades within the table; what a deletion takes from other tables is left open.
--
--   Prelude.antt           shared names; Boolean tests, maps, texts, and Go's 64-bit `int`
--   Model.antt             internal/model and internal/constants/role.go: the rows
--   Outcome.antt           internal/constants/error.go and error handling
--   Gorm.antt              the interface of gorm, its laws, and the database in memory
--   Repository.antt        internal/repository: one child for each repository, one function for
--                          each method
--   Service/Task.antt      internal/service/task_service.go; `update_task` edits a draft of the row
--   Service/Workspace.antt internal/service/workspace_service.go; Slug.antt has `generateSlug`
--   Service/Invitation.antt  internal/service/workspace_invitations.go
--   Service/Auth.antt      internal/service/local_auth_service.go
--   Service/User.antt      internal/service/user_service.go
--   RoomManager.antt       internal/service/chat/room_manager.go
--   Chat.antt              internal/service/chat_service.go: the rooms
--   Middleware.antt        internal/middleware: Rbac.antt (rbac.go), Cors.antt (cors.go) and
--                          Token.antt (auth.go), with the remote keys in Token/Keys.antt
--   Response.antt          pkg/response/response.go: a reply is a status and a body
--   Handler.antt           internal/handler: the steps that handlers share; a child for each
--                          file of that folder, and Requests.antt for the request bodies
--   Service/Email.antt     internal/service/email_service.go and pkg/email
--   Config.antt            internal/config/config.go
--   Server.antt            internal/server/server.go: what depends on the configuration
--   Route.antt             internal/route/route.go: each endpoint with its guards and its handler
--   Tests.antt             concrete runs
--
-- Bounds. A UUID is the number of its sixteen bytes, with `uuid.Nil` as 0; a time is a number of
-- nanoseconds, without the range of `time.Time`. The offset of a page is computed with the wrap-around
-- of a 64-bit `int` (Prelude/Int.antt). Go's `len` of a text counts bytes. No function runs on fuel:
-- every loop is structural recursion. A method of the room manager holds one lock from end to end and
-- is one step; a broadcast of the chat service is two, with any change of the rooms in between. A chat
-- session is a machine (Handler/Chat.antt) whose steps are the stretches of the handler that take the
-- lock of the rooms at most once; between two of them the other sessions may do anything.
--
-- A handler (Handler.antt) is a chain of steps that goes on with a value or stops with its reply. The
-- token middleware works on the world and on the remote issuer's keys that the process holds. What gin
-- makes of a body, package jwt, HTTP requests, JSON, base64 and the division of floats are parameters,
-- with laws where a proof needs them: a token that is accepted was checked with the key that the key
-- function gave, and a signed token parses back until it expires.
--
-- Not modelled: gin, gorm, package jwt, package smtp and the other libraries, which are parameters; the
-- limit on the size of a body, which is part of what binding the body does; Kafka, Redis, migrations
-- and the start and stop of the server, which are input and output; the methods of the message and
-- member repositories and the rows that no service uses; and the preloaded associations of a row.
pub mod Prelude
pub mod Outcome
pub mod Model
pub mod Gorm
pub mod Repository
pub mod Service
pub mod RoomManager
pub mod Chat
pub mod Middleware
pub mod Response
pub mod Config
pub mod Server
pub mod Handler
pub mod Route
pub mod Tests
