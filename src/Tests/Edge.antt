-- ===== src/Tests/Edge.antt =====
-- The theorems on chat rooms and on the origin check at concrete calls.
use todo_chat_app.Prelude.{
  ℕ, ◌≡◌, refl, inl, inr, arith, true, not, ◌==◌, ◌&&◌, none, some, List, [], ◌∷◌, Has,
  if◌then◌else◌,
}
use todo_chat_app.Outcome.{answer}
use todo_chat_app.Model.{ChannelMember}
use todo_chat_app.Gorm.{Table}
use todo_chat_app.Gorm.Laws.{ReadLaws}
use todo_chat_app.Gorm.Memory.{memory_table, memory-ReadLaws}
use todo_chat_app.RoomManager.{Conn, Rooms}
use todo_chat_app.Chat.{broadcast_to_room, join_room}
use todo_chat_app.Chat.Broadcast.{seat, broadcast_to_room-seat, join_room-seat}
use todo_chat_app.Middleware.Cors.{cors, allowed_of, allow_origin, Permits, cors-Permits}
use todo_chat_app.Middleware.Rbac.{contains}
use todo_chat_app.Tests.Run.{running}

abbrev pub conn : ℕ → Conn
conn n = record { id = n; transport = n }

abbrev rooms : Rooms
rooms = (5, (1, conn 1) ∷ (2, conn 2) ∷ []) ∷ []

-- Writing to connection 2 fails.
broadcast_to_room-seat_example :
    seat (broadcast_to_room (λ k. not (k == 2)) 5 rooms rooms) 5 2 ≡ none
unfolding running
broadcast_to_room-seat_example =
    broadcast_to_room-seat (λ k. not (k == 2)) 5 rooms rooms 5 2 (tt, tt)
      (((λ e. ground arith), tt), (tt, tt))

abbrev pub memberships : Table (List ChannelMember) ChannelMember
memberships = memory_table (λ w. w) (λ l w. l) (λ r w. r) (λ r. r.user_id)

reads : ReadLaws memberships.reader (λ w. w)
reads = memory-ReadLaws _ _ _ _

abbrev pub one_member : List ChannelMember
one_member = record { channel_id = 5; user_id = 7; last_read_at = 0; joined_at = 0 } ∷ []

abbrev joined : Rooms
joined = (5, (3, conn 3) ∷ []) ∷ []

join_runs : join_room memberships 5 7 (conn 3) one_member [] ≡ answer joined
unfolding running
join_runs = refl

join_room-seat_example :
    ((m : ChannelMember) × Has m one_member × (m.channel_id ≡ 5) × (m.user_id ≡ 7))
    × ((c k : ℕ) → seat joined c k ≡ (if (5 == c) && (3 == k) then some (conn 3) else seat [] c k))
join_room-seat_example =
    join_room-seat memberships (λ w. w) reads 5 7 (conn 3) one_member [] joined join_runs

permits : Permits (cors (" a " ∷ []) "a" "GET").0
unfolding running
permits = inr (inl refl)

cors-Permits_example :
    (contains (allowed_of (" a " ∷ [])) "a" ≡ true)
    × Has (allow_origin, "a") (cors (" a " ∷ []) "a" "GET").0
cors-Permits_example = cors-Permits (" a " ∷ []) "a" "GET" permits
