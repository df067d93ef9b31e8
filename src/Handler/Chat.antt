-- ===== src/Handler/Chat.antt =====
-- internal/handler/chat_handler.go: one WebSocket session, as a machine that other sessions run
-- beside. Each call of `advance` is one stretch of the handler, or of the methods of
-- internal/service/chat_service.go that it calls, which takes the lock of the rooms at most once, so
-- that between two of them the world and the rooms may change.
--
-- What the client sends is a list, at whose end the read fails: the client has left, is silent for
-- 90 seconds, or was closed by a broadcast that could not write to it. Upgrading the connection,
-- decoding JSON and writing to connections are parameters.
pub mod Closing
use todo_chat_app.Prelude.{
  ℕ, ◌+◌, ◌*◌, String, Bool, true, false, not, Option, none, some, List, [], ◌∷◌, length,
  if◌then◌else◌,
}
use todo_chat_app.Prelude.Maps.{lookup}
use todo_chat_app.Prelude.Text.{split_commas}
use todo_chat_app.Outcome.{Answer, answer, fails, Outcome, ok, err}
use todo_chat_app.Model.{ChannelMember, Message, Uuid}
use todo_chat_app.Gorm.{Table}
use todo_chat_app.Gorm.Laws.{state_of}
use todo_chat_app.Repository.Message as repo
use todo_chat_app.Service.Libs.{Formats}
use todo_chat_app.Middleware.Cors.{allowed_of}
use todo_chat_app.Middleware.Rbac.{contains}
use todo_chat_app.RoomManager.{Conn, Rooms}
use todo_chat_app.Chat.{join_room, recipients, failed_of, drop_from, leave_room}
use todo_chat_app.Response as response
use todo_chat_app.Response.{Reply}
use todo_chat_app.Handler.{
  Request, Handling, ◌>>=◌, ◌>>◌, going, require, reply_if, known_user, invalid_input,
}

-- What `wsutil.ReadClientData` returns: the data of a text frame, or a frame of another kind.
pub data Read : Type 0 where
  text_frame : String → Read
  other_frame : Read

-- Where the handler stands: before `JoinRoom`, at the top of its loop, in `BroadcastToRoom` before
-- `Save`, before the writes, and with the connections to drop, before `LeaveRoom`, or at its end.
pub data Phase : Type 0 where
  joining reading sending leaving closed : Phase
  saving : Message → Phase
  dropping : List Uuid → Phase

pub record Session : Type 0 where
  pub channel : Uuid
  pub user : Uuid
  pub conn : Conn
  pub reads : List Read
  pub phase : Phase

-- What the sessions share.
pub record Shared (W : Type 0) : Type 0 where
  pub world : W
  pub rooms : Rooms

-- `NewChatHandler`: the trimmed origins that are not empty.
abbrev pub allowed_origins : String → List String
allowed_origins raw = allowed_of (split_commas raw)

unfoldable pub is_origin_allowed : List String → String → Bool
is_origin_allowed [] origin = true
is_origin_allowed (o ∷ os) origin = contains (o ∷ os) origin

module _ {W : Type 0} (f : Formats) where
  -- `HandleWebSocket` before the upgrade: the channel and the user.
  unfoldable pub check_socket : List String → Request → Handling W (Uuid × Uuid)
  check_socket origins req = do
    channel ← require (invalid_input "invalid channel id") (f.parse_uuid req.param)
    user ← known_user req
    reply_if (not (is_origin_allowed origins (req.header "Origin"))) response.forbidden
    λ w. going (channel, user) w

-- The session after the upgrade.
abbrev pub opened : Uuid × Uuid → Conn → List Read → Session
opened (channel, user) conn reads = record {
  channel = channel;
  user = user;
  conn = conn;
  reads = reads;
  phase = joining;
}

abbrev pub new_message : Session → String × String → Message
new_message s (message_type, content) = record {
  id = 0;
  channel_id = s.channel;
  user_id = s.user;
  message_type = message_type;
  content = content;
  reply_to_id = none;
  is_edited = false;
  created_at = 0;
  updated_at = 0;
}

-- The message type and the content that `json.Unmarshal` reads, or none where it fails.
module _ (decode : String → Option (String × String)) where
  abbrev pub parsed : Session → Option (String × String) → Session
  parsed s none = record s { phase = reading }
  parsed s (some incoming) = record s { phase = saving (new_message s incoming) }

  -- The body of the loop, up to the call of the service.
  abbrev pub heard : Session → List Read → Session
  heard s [] = record s { phase = leaving }
  heard s (other_frame ∷ rest) = record s { reads = rest; phase = reading }
  heard s (text_frame text ∷ rest) = parsed (record s { reads = rest }) (decode text)

abbrev pub after_writes : Session → List Uuid → Session
after_writes s [] = record s { phase = reading }
after_writes s (k ∷ ks) = record s { phase = dropping (k ∷ ks) }

module _ {W : Type 0} (channel_members : Table W ChannelMember) (messages : Table W Message)
    (decode : String → Option (String × String)) where
  abbrev pub joined : Session → Shared W → Answer Rooms → Session × Shared W
  joined s sh (answer rooms) = (record s { phase = reading }, record sh { rooms = rooms })
  joined s sh (fails e) = (record s { phase = closed }, sh)

  abbrev pub stretch : (Uuid → Bool) → Phase → Session → Shared W → Session × Shared W
  stretch writes joining s sh =
      joined s sh (join_room channel_members s.channel s.user s.conn sh.world sh.rooms)
  stretch writes reading s sh = (heard decode s s.reads, sh)
  stretch writes (saving message) s sh = (
    record s { phase = sending },
    record sh { world = state_of (repo.save messages message sh.world) },
  )
  stretch writes sending s sh =
      (after_writes s (failed_of writes (recipients s.channel sh.rooms)), sh)
  stretch writes (dropping failed) s sh = (
    record s { phase = reading },
    record sh { rooms = drop_from s.channel failed sh.rooms (lookup s.channel sh.rooms) },
  )
  stretch writes leaving s sh =
      (record s { phase = closed }, record sh { rooms = leave_room s.channel s.conn.id sh.rooms })
  stretch writes closed s sh = (s, sh)

  -- The session's next stretch; `writes` says to which connections a write works.
  unfoldable pub advance : (Uuid → Bool) → Session → Shared W → Session × Shared W
  advance writes s sh = stretch writes s.phase s sh
