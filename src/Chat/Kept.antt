-- ===== src/Chat/Kept.antt =====
-- The rooms of internal/service/chat_service.go as maps: in no step does a key come to stand twice.
use todo_chat_app.Prelude.{Option, none, some, List, [], ◌∷◌, ◌==◌, Bool-cases, inl, inr}
use todo_chat_app.Prelude.Maps.{
  lookup, insert, erase, Distinct, lookup-insert, lookup-erase, Distinct-insert, Distinct-erase,
}
use todo_chat_app.Model.{Uuid}
use todo_chat_app.RoomManager.{Conn, Room, Rooms, room_or_empty, put_back}
use todo_chat_app.Chat.{enter, erase_all, drop_from}

abbrev pub AreMaps : Rooms → Type 0
AreMaps rooms = Distinct rooms × ((c : Uuid) → Distinct (room_or_empty (lookup c rooms)))

insert-AreMaps :
    (channel : Uuid) (room : Room) (rooms : Rooms)
    → Distinct room
    → AreMaps rooms
    → AreMaps (insert channel room rooms)
insert-AreMaps channel room rooms d (all, each) = (
  Distinct-insert channel room rooms all,
  λ c. elim (Bool-cases (channel == c)) [
    | inl hit ↦ rw (lookup-insert c channel room rooms, hit) d
    | inr miss ↦ rw (lookup-insert c channel room rooms, miss) (each c)
  ],
)

pub enter-AreMaps :
    (channel : Uuid) (conn : Conn) (rooms : Rooms)
    → AreMaps rooms
    → AreMaps (enter channel conn rooms)
enter-AreMaps channel conn rooms h =
    insert-AreMaps channel _ rooms (Distinct-insert conn.id conn _ (h.1 channel)) h

put_back-AreMaps :
    (channel : Uuid) (room : Room) (rooms : Rooms)
    → Distinct room
    → AreMaps rooms
    → AreMaps (put_back channel room rooms)
put_back-AreMaps channel [] rooms d (all, each) = (
  Distinct-erase channel rooms all,
  λ c. elim (Bool-cases (channel == c)) [
    | inl hit ↦ rw (lookup-erase c channel rooms all, hit) tt
    | inr miss ↦ rw (lookup-erase c channel rooms all, miss) (each c)
  ],
)
put_back-AreMaps channel (e ∷ room) rooms d h = insert-AreMaps channel (e ∷ room) rooms d h

erase_all-Distinct : (ks : List Uuid) (room : Room) → Distinct room → Distinct (erase_all ks room)
unfolding erase_all
erase_all-Distinct [] room d = d
erase_all-Distinct (k ∷ ks) room d = erase_all-Distinct ks (erase k room) (Distinct-erase k room d)

found-AreMaps :
    (channel : Uuid) (failed : List Uuid) (rooms : Rooms) (found : Option Room)
    → Distinct (room_or_empty found)
    → AreMaps rooms
    → AreMaps (drop_from channel failed rooms found)
found-AreMaps channel failed rooms none d h = h
found-AreMaps channel failed rooms (some room) d h =
    put_back-AreMaps channel (erase_all failed room) rooms (erase_all-Distinct failed room d) h

pub drop_from-AreMaps :
    (channel : Uuid) (failed : List Uuid) (rooms : Rooms)
    → AreMaps rooms
    → AreMaps (drop_from channel failed rooms (lookup channel rooms))
drop_from-AreMaps channel failed rooms h =
    found-AreMaps channel failed rooms (lookup channel rooms) (h.1 channel) h
