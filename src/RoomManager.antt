-- ===== src/RoomManager.antt =====
-- internal/service/chat/room_manager.go: the sharded index of the connections on this node. Each
-- method runs under the lock of the one shard that it touches, so the methods are steps of a
-- sequential program on the whole index.
pub mod Bound
pub mod Kept
pub mod Runs
pub mod Subscribers
use Prim.Native.Nat.{bit_and, bit_xor}
use todo_chat_app.Prelude.{
  ℕ, ◌/◌, ◌%◌, ◌^◌, String, Bool, Option, none, some, List, [], ◌∷◌, map, length, ◌==◌,
  if◌then◌else◌,
}
use todo_chat_app.Prelude.Maps.{lookup, insert, erase}
use todo_chat_app.Model.{Uuid}

-- `Conn`: the identity, and the transport that the manager only hands on.
pub record Conn : Type 0 where
  pub id : Uuid
  pub transport : ℕ

abbrev pub Room : Type 0
Room = List (Uuid × Conn)

abbrev pub Rooms : Type 0
Rooms = List (Uuid × Room)

-- The array of shards, as a function of the index.
pub record Manager : Type 0 where
  pub shards : ℕ → Rooms

abbrev pub shard_count : ℕ
shard_count = 256

abbrev pub shard_mask : ℕ
shard_mask = 255

pub data JoinError : Type 0 where
  nil_conn : JoinError

unfoldable pub new_room_manager : Manager
new_room_manager = record { shards = λ i. [] }

-- `shardFor`: the two halves of the sixteen bytes, folded and masked.
unfoldable pub shard_for : Uuid → ℕ
shard_for channel = bit_and (bit_xor (channel / 2 ^ 64 % 2 ^ 64) (channel % 2 ^ 64)) shard_mask

-- `&m.shards[i]` written through
abbrev pub set_shard : Manager → ℕ → Rooms → Manager
set_shard m i rooms = record m { shards = λ j. if i == j then rooms else m.shards j }

abbrev pub room_or_empty : Option Room → Room
room_or_empty none = []
room_or_empty (some room) = room

unfoldable pub join : Manager → Uuid → Option Conn → Manager × Option JoinError
join m channel none = (m, some nil_conn)
join m channel (some conn) =
    let rooms = m.shards (shard_for channel) in
    let room = insert conn.id conn (room_or_empty (lookup channel rooms)) in
    (set_shard m (shard_for channel) (insert channel room rooms), none)

-- `delete(room, connID)`, and `delete(s.rooms, channelID)` when nothing is left
abbrev pub put_back : Uuid → Room → Rooms → Rooms
put_back channel [] rooms = erase channel rooms
put_back channel (e ∷ room) rooms = insert channel (e ∷ room) rooms

abbrev pub without : Uuid → Uuid → Rooms → Option Room → Rooms
without channel conn rooms none = rooms
without channel conn rooms (some room) = put_back channel (erase conn room) rooms

unfoldable pub leave : Manager → Uuid → Uuid → Manager
leave m channel conn =
    let rooms = m.shards (shard_for channel) in
    set_shard m (shard_for channel) (without channel conn rooms (lookup channel rooms))

-- The order of the connections is that of the map, which Go leaves open.
unfoldable pub list : Manager → Uuid → List Conn
list m channel = map (λ e. e.1) (room_or_empty (lookup channel (m.shards (shard_for channel))))

unfoldable pub count : Manager → Uuid → ℕ
count m channel = length (room_or_empty (lookup channel (m.shards (shard_for channel))))
