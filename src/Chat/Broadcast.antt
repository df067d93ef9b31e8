-- ===== src/Chat/Broadcast.antt =====
-- The seats in the rooms of internal/service/chat_service.go.
use todo_chat_app.Prelude.{
  ℕ, ◌≡◌, refl, Bool, true, false, ◌&&◌, ◌||◌, Option, none, some, List, [], ◌∷◌, Has, arith, inl,
  inr, ◌==◌, ==_iff, if◌then◌else◌, Bool-cases, suc, zero,
}
use todo_chat_app.Prelude.Maps.{
  lookup, insert, erase, Distinct, lookup-erase, lookup-insert, Distinct-erase,
}
use todo_chat_app.Outcome.{Answer, answer, fails}
use todo_chat_app.Model.{ChannelMember, Uuid}
use todo_chat_app.Gorm.{Table}
use todo_chat_app.Gorm.Laws.{ReadLaws}
use todo_chat_app.RoomManager.{Conn, Room, Rooms, room_or_empty}
use todo_chat_app.RoomManager.Subscribers.{lookup-put_back}
use todo_chat_app.Chat.{
  erase_all, drop_from, recipients, failed_of, broadcast_to_room, is_channel_pair, positive, admit,
  is_channel_member, join_room, enter,
}

-- The connection in a channel's room.
abbrev pub seat : Rooms → Uuid → Uuid → Option Conn
seat rooms c k = lookup k (room_or_empty (lookup c rooms))

abbrev pub among : Uuid → List Uuid → Bool
among k [] = false
among k (j ∷ js) = j == k || among k js

erase_all-lookup :
    (ks : List Uuid) (room : Room) (k : Uuid)
    → Distinct room
    → lookup k (erase_all ks room) ≡ (if among k ks then none else lookup k room)
unfolding erase_all
erase_all-lookup [] room k h = refl
erase_all-lookup (j ∷ js) room k h =
    rw (erase_all-lookup js (erase j room) k (Distinct-erase j room h), lookup-erase k j room h)
      (both (j == k) (among k js) (lookup k room))
  where
    both :
        (a b : Bool) (o : Option Conn)
        → (if b then none else if a then none else o) ≡ (if a || b then none else o)
    both true true o = refl
    both true false o = refl
    both false true o = refl
    both false false o = refl

pub drop_from-seat :
    (channel c k : Uuid) (failed : List Uuid) (rooms : Rooms) (found : Option Room)
    → lookup channel rooms ≡ found
    → Distinct rooms
    → Distinct (room_or_empty found)
    → seat (drop_from channel failed rooms found) c k
      ≡ (if (channel == c) && among k failed then none else seat rooms c k)
unfolding lookup
drop_from-seat channel c k failed rooms none e h d = elim (Bool-cases (channel == c)) [
  | inl hit ↦
      let same : channel ≡ c = (==_iff channel c).0 hit in
      rw (hit, ← same, e) (nobody (among k failed))
  | inr miss ↦ rw miss refl
]
  where
    nobody : (b : Bool) → ◌≡◌ {A = Option Conn} none (if b then none else none)
    nobody true = refl
    nobody false = refl
drop_from-seat channel c k failed rooms (some room) e h d = elim (Bool-cases (channel == c)) [
  | inl hit ↦
      let same : channel ≡ c = (==_iff channel c).0 hit in
      rw (lookup-put_back channel c (erase_all failed room) rooms h, hit, ← same, e)
        (erase_all-lookup failed room k d)
  | inr miss ↦ rw (lookup-put_back channel c (erase_all failed room) rooms h, miss) refl
]

-- A broadcast takes out of the channel's room exactly the connections whose write failed, and leaves
-- every other seat as it was when the writes had been tried, where no key of the rooms stands twice.
pub broadcast_to_room-seat :
    (writes : Uuid → Bool) (channel : Uuid) (before after : Rooms) (c k : Uuid)
    → Distinct after
    → Distinct (room_or_empty (lookup channel after))
    → seat (broadcast_to_room writes channel before after) c k ≡ (
        if (channel == c) && among k (failed_of writes (recipients channel before))
        then none
        else seat after c k)
unfolding broadcast_to_room
broadcast_to_room-seat writes channel before after c k h d =
    go (failed_of writes (recipients channel before))
  where
    none_failed : (b : Bool) (o : Option Conn) → o ≡ (if b && false then none else o)
    none_failed true o = refl
    none_failed false o = refl

    go :
        (failed : List Uuid)
        → seat
            (elim failed [
              | [] ↦ after
              | j ∷ js ↦ drop_from channel (j ∷ js) after (lookup channel after)
            ])
            c
            k
          ≡ (if (channel == c) && among k failed then none else seat after c k)
    go [] = none_failed (channel == c) (seat after c k)
    go (j ∷ js) = drop_from-seat channel c k (j ∷ js) after (lookup channel after) refl h d

module _ {W : Type 0} (channel_members : Table W ChannelMember) (rows : W → List ChannelMember)
    (reads : ReadLaws channel_members.reader rows) where
  counted : (o : Answer ℕ) → positive o ≡ answer true → (n : ℕ) × (o ≡ answer (suc n))
  counted (answer zero) h = cc
  counted (answer (suc n)) h = (n, refl)
  counted (fails e) h = cc

  admitted :
      (channel : Uuid) (conn : Conn) (rooms new : Rooms) (o : Answer Bool)
      → admit channel conn rooms o ≡ answer new
      → (o ≡ answer true) × (new ≡ enter channel conn rooms)
  admitted channel conn rooms new (answer true) h = (refl, cc)
  admitted channel conn rooms new (answer false) h = cc
  admitted channel conn rooms new (fails e) h = cc

  -- `JoinRoom` succeeds only for a user with a stored membership of the channel, and then seats the
  -- connection in the channel's room and changes no other seat.
  pub join_room-seat :
      (channel user : Uuid) (conn : Conn) (w : W) (rooms new : Rooms)
      → join_room channel_members channel user conn w rooms ≡ answer new
      → ((m : ChannelMember) × Has m (rows w) × (m.channel_id ≡ channel) × (m.user_id ≡ user))
        × ((c k : Uuid)
            → seat new c k
              ≡ (if (channel == c) && (conn.id == k) then some conn else seat rooms c k))
  unfolding join_room is_channel_member
  join_room-seat channel user conn w rooms new h =
      let (member, same) = admitted channel conn rooms new _ h in
      let (n, some_rows) = counted _ member in
      let (m, has, hit) = reads.count_some (is_channel_pair channel user) w n some_rows in
      ((m, has, ground arith, ground arith), λ c k. rw same (seated c k))
    where
      seated :
          (c k : Uuid)
          → seat (enter channel conn rooms) c k
            ≡ (if (channel == c) && (conn.id == k) then some conn else seat rooms c k)
      seated c k = elim (Bool-cases (channel == c)) [
        | inl hit ↦
            let one : channel ≡ c = (==_iff channel c).0 hit in
            rw
              (
                lookup-insert c channel (insert conn.id conn (room_or_empty (lookup channel rooms)))
                    rooms,
                hit,
                lookup-insert k conn.id conn (room_or_empty (lookup channel rooms)),
                one,
              )
              refl
        | inr miss ↦
            rw
              (
                lookup-insert c channel (insert conn.id conn (room_or_empty (lookup channel rooms)))
                    rooms,
                miss,
              )
              refl
      ]
