-- ===== src/Tests/Rooms.antt =====
-- The theorems on the rooms at concrete calls: two connections in the channel 5.
use todo_chat_app.Prelude.{ℕ, ◌≡◌, ◌<◌, ◌↔◌, refl, some, List, [], ◌∷◌, Has}
use todo_chat_app.RoomManager.{Conn, new_room_manager, join, leave, list, shard_for, shard_count}
use todo_chat_app.RoomManager.Bound.{shard_for_bound}
use todo_chat_app.RoomManager.Kept.{IsSound}
use todo_chat_app.RoomManager.Runs.{
  Call, joins, leaves, called_all, nobody, noted_all, called_all-IsSound, list-noted_all,
}
use todo_chat_app.Tests.Run.{running}

abbrev conn : ℕ → Conn
conn n = record { id = n; transport = n }

-- Two connections enter the channel 5, and the first one leaves it.
abbrev calls : List Call
calls = joins 5 (some (conn 1)) ∷ joins 5 (some (conn 2)) ∷ leaves 5 1 ∷ []

left : list (called_all calls new_room_manager) 5 ≡ conn 2 ∷ []
unfolding running list leave shard_for join new_room_manager
left = refl

called_all-IsSound_example : IsSound (called_all calls new_room_manager)
called_all-IsSound_example = called_all-IsSound calls

list-noted_all_example :
    Has (conn 2) (list (called_all calls new_room_manager) 5)
    ↔ ((k : ℕ) × (noted_all calls nobody 5 k ≡ some (conn 2)))
list-noted_all_example = list-noted_all calls 5 (conn 2)

shard_for_bound_example : shard_for 5 < shard_count
shard_for_bound_example = shard_for_bound 5
