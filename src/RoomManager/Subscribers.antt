-- ===== src/RoomManager/Subscribers.antt =====
-- The index of internal/service/chat/room_manager.go seen as one flat set of subscriptions.
use todo_chat_app.Prelude.{
  ℕ, ◌≡◌, refl, true, ◌&&◌, Option, none, some, [], ◌∷◌, ◌==◌, ==_iff, if◌then◌else◌, Bool-cases,
  inl, inr,
}
use todo_chat_app.Prelude.Maps.{lookup, insert, erase, Distinct, lookup-insert, lookup-erase}
use todo_chat_app.Model.{Uuid}
use todo_chat_app.RoomManager.{
  Conn, Room, Rooms, Manager, shard_for, room_or_empty, put_back, without, join, leave,
}
use todo_chat_app.RoomManager.Kept.{IsSound, room_of, room-Distinct}

-- The abstract view: who is subscribed to a channel, whatever the shards.
abbrev pub subscriber : Manager → Uuid → Uuid → Option Conn
subscriber m channel conn =
    lookup conn (room_or_empty (lookup channel (m.shards (shard_for channel))))

eq_refl : (k : ℕ) → (k == k) ≡ true
eq_refl k = (==_iff k k).1 refl

-- Adding a connection changes the one room.
room-join :
    (m : Manager) (channel : Uuid) (conn : Conn) (c : Uuid)
    → room_of (join m channel (some conn)).0 c
      ≡ (if channel == c then insert conn.id conn (room_of m c) else room_of m c)
unfolding join
room-join m channel conn c = elim (Bool-cases (channel == c)) [
  | inl hit ↦
      let same : channel ≡ c = (==_iff channel c).0 hit in
      rw (same, eq_refl (shard_for c), lookup-insert, eq_refl c) refl
  | inr miss ↦ elim (Bool-cases (shard_for channel == shard_for c)) [
    | inl near ↦
        let same : shard_for channel ≡ shard_for c =
          (==_iff (shard_for channel) (shard_for c)).0 near in
        rw (near, lookup-insert, miss, same) refl
    | inr far ↦ rw (far, miss) refl
  ]
]

-- Looking up a channel after one room was put back.
pub lookup-put_back :
    (channel c : Uuid) (room : Room) (rooms : Rooms)
    → Distinct rooms
    → room_or_empty (lookup c (put_back channel room rooms))
      ≡ (if channel == c then room else room_or_empty (lookup c rooms))
lookup-put_back channel c [] rooms h = elim (Bool-cases (channel == c)) [
  | inl hit ↦ rw (lookup-erase c channel rooms h, hit) refl
  | inr miss ↦ rw (lookup-erase c channel rooms h, miss) refl
]
lookup-put_back channel c (e ∷ room) rooms h = elim (Bool-cases (channel == c)) [
  | inl hit ↦ rw (lookup-insert c channel (e ∷ room) rooms, hit) refl
  | inr miss ↦ rw (lookup-insert c channel (e ∷ room) rooms, miss) refl
]

lookup-without :
    (channel conn c : Uuid) (rooms : Rooms) (found : Option Room)
    → lookup channel rooms ≡ found
    → Distinct rooms
    → room_or_empty (lookup c (without channel conn rooms found))
      ≡ (if channel == c then erase conn (room_or_empty found) else room_or_empty (lookup c rooms))
unfolding erase
lookup-without channel conn c rooms none e h = elim (Bool-cases (channel == c)) [
  | inl hit ↦ let same : channel ≡ c = (==_iff channel c).0 hit in rw (hit, ← same, e) refl
  | inr miss ↦ rw miss refl
]
lookup-without channel conn c rooms (some room) e h =
    lookup-put_back channel c (erase conn room) rooms h

room-leave :
    (m : Manager) (channel conn c : Uuid)
    → IsSound m
    → room_of (leave m channel conn) c
      ≡ (if channel == c then erase conn (room_of m c) else room_of m c)
unfolding leave
room-leave m channel conn c h =
    let rooms = m.shards (shard_for channel) in
    let change =
      lookup-without channel conn c rooms (lookup channel rooms) refl
        (h.distinct (shard_for channel)) in
    elim (Bool-cases (shard_for channel == shard_for c)) [
      | inl near ↦
          let same : shard_for channel ≡ shard_for c =
            (==_iff (shard_for channel) (shard_for c)).0 near in
          elim (Bool-cases (channel == c)) [
            | inl hit ↦
                let one : channel ≡ c = (==_iff channel c).0 hit in
                rw (near, hit, one) (rw (hit, one) at change)
            | inr miss ↦ rw (near, miss, same) (rw (miss, same) at change)
          ]
      | inr far ↦ elim (Bool-cases (channel == c)) [
        | inl hit ↦
            let one : channel ≡ c = (==_iff channel c).0 hit in
            let near : (shard_for channel == shard_for c) ≡ true = rw one (eq_refl (shard_for c)) in
            cc
        | inr miss ↦ rw (far, miss) refl
      ]
    ]

-- After `Join` the subscriber of a channel under an identity is the new connection, for this channel
-- and the connection's identity, and else the one of before, whatever the shards.
pub subscriber-join :
    (m : Manager) (channel : Uuid) (conn : Conn) (c k : Uuid)
    → subscriber (join m channel (some conn)).0 c k
      ≡ (if (channel == c) && (conn.id == k) then some conn else subscriber m c k)
subscriber-join m channel conn c k = elim (Bool-cases (channel == c)) [
  | inl hit ↦ rw (room-join m channel conn c, hit, lookup-insert k conn.id conn (room_of m c)) refl
  | inr miss ↦ rw (room-join m channel conn c, miss) refl
]

-- After `Leave` of a sound index there is no subscriber for this channel and identity, and every
-- other subscriber is the one of before.
pub subscriber-leave :
    (m : Manager) (channel conn c k : Uuid)
    → IsSound m
    → subscriber (leave m channel conn) c k
      ≡ (if (channel == c) && (conn == k) then none else subscriber m c k)
subscriber-leave m channel conn c k h = elim (Bool-cases (channel == c)) [
  | inl hit ↦
      rw
        (
          room-leave m channel conn c h,
          hit,
          lookup-erase k conn (room_of m c) (room-Distinct m c h),
        )
        refl
  | inr miss ↦ rw (room-leave m channel conn c h, miss) refl
]
