-- ===== src/Chat.antt =====
-- internal/service/chat_service.go: the rooms of one process, and the test of membership that it
-- asks of internal/repository/taskmember/repository.go. A connection is known by its identity.
-- Persisting and writing are left to the world: `BroadcastToRoom` here is what it does to the rooms,
-- first under the read lock and, once the writes have been tried, under the write lock, so that
-- other calls may change the rooms in between.
pub mod Broadcast
pub mod Kept
use todo_chat_app.Prelude.{
  ℕ, Bool, true, false, ◌&&◌, Option, none, some, List, [], ◌∷◌, ltb, ◌==◌, ◌||◌, if◌then◌else◌,
}
use todo_chat_app.Prelude.Maps.{lookup, insert, erase}
use todo_chat_app.Outcome.{Answer, answer, fails, channel_unauthorized}
use todo_chat_app.Model.{ChannelMember, Uuid}
use todo_chat_app.Gorm.{Table}
use todo_chat_app.RoomManager.{Conn, Room, Rooms, room_or_empty, put_back}

abbrev pub is_channel_pair : Uuid → Uuid → ChannelMember → Bool
is_channel_pair channel user m = m.channel_id == channel && m.user_id == user

abbrev pub positive : Answer ℕ → Answer Bool
positive (answer n) = answer (ltb 0 n)
positive (fails e) = fails e

-- `s.rooms[channelID][conn] = &wsClient{conn: conn}`
abbrev pub enter : Uuid → Conn → Rooms → Rooms
enter channel conn rooms =
    insert channel (insert conn.id conn (room_or_empty (lookup channel rooms))) rooms

abbrev pub admit : Uuid → Conn → Rooms → Answer Bool → Answer Rooms
admit channel conn rooms (answer true) = answer (enter channel conn rooms)
admit channel conn rooms (answer false) = fails channel_unauthorized
admit channel conn rooms (fails e) = fails e

module _ {W : Type 0} (channel_members : Table W ChannelMember) where
  unfoldable pub is_channel_member : Uuid → Uuid → W → Answer Bool
  is_channel_member channel user w =
      positive (channel_members.count (is_channel_pair channel user) w)

  unfoldable pub join_room : Uuid → Uuid → Conn → W → Rooms → Answer Rooms
  join_room channel user conn w rooms = admit channel conn rooms (is_channel_member channel user w)

-- `for _, conn := range failed { delete(room, conn) }`
unfoldable pub erase_all : List Uuid → Room → Room
erase_all [] room = room
erase_all (k ∷ ks) room = erase_all ks (erase k room)

abbrev pub drop_from : Uuid → List Uuid → Rooms → Option Room → Rooms
drop_from channel failed rooms none = rooms
drop_from channel failed rooms (some room) = put_back channel (erase_all failed room) rooms

unfoldable pub leave_room : Uuid → Uuid → Rooms → Rooms
leave_room channel conn rooms = drop_from channel (conn ∷ []) rooms (lookup channel rooms)

-- The connections that the message goes to, and those of them for which writing fails.
unfoldable pub recipients : Uuid → Rooms → Room
recipients channel rooms = room_or_empty (lookup channel rooms)

unfoldable pub failed_of : (Uuid → Bool) → Room → List Uuid
failed_of writes [] = []
failed_of writes (e ∷ room) =
    let rest = failed_of writes room in if writes e.0 then rest else e.0 ∷ rest

-- The rooms when the writes begin, and when they have been tried.
unfoldable pub broadcast_to_room : (Uuid → Bool) → Uuid → Rooms → Rooms → Rooms
broadcast_to_room writes channel before after =
    elim (failed_of writes (recipients channel before)) [
      | [] ↦ after
      | k ∷ ks ↦ drop_from channel (k ∷ ks) after (lookup channel after)
    ]
