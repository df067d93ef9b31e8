-- ===== src/RoomManager/Kept.antt =====
-- The shape of the shards of internal/service/chat/room_manager.go, and the operations on it.
use todo_chat_app.Prelude.{
  ℕ, ◌≡◌, ◌≢◌, refl, Option, none, some, [], ◌∷◌, All, arith, ◌==◌, ==_iff, Bool-cases,
  Option-cases, inl, inr,
}
use todo_chat_app.Prelude.Maps.{lookup, insert, erase, Distinct, Distinct-insert, Distinct-erase}
use todo_chat_app.Model.{Uuid}
use todo_chat_app.RoomManager.{
  Conn, Room, Rooms, Manager, shard_for, set_shard, room_or_empty, put_back, join, leave,
  new_room_manager,
}

-- A room in shard `i`: not empty, one entry for each connection, and in the channel's own shard.
abbrev pub IsKeptRoom : ℕ → Uuid × Room → Type 0
IsKeptRoom i e = (e.1 ≢ []) × Distinct e.1 × (shard_for e.0 ≡ i)

pub record IsSound (m : Manager) : Type 0 where
  pub distinct : (i : ℕ) → Distinct (m.shards i)
  pub kept : (i : ℕ) → All (IsKeptRoom i) (m.shards i)

insert-ne-nil : (k : ℕ) (v : Conn) (r : Room) → insert k v r ≢ []
unfolding insert
insert-ne-nil k v [] h = cc
insert-ne-nil k v ((j, u) ∷ r) h = elim (Bool-cases (j == k)) [
  | inl hit ↦ cc (rw hit at h)
  | inr miss ↦ cc (rw miss at h)
]

kept-insert :
    (i : ℕ) (channel : Uuid) (room : Room) (rooms : Rooms)
    → IsKeptRoom i (channel, room)
    → All (IsKeptRoom i) rooms
    → All (IsKeptRoom i) (insert channel room rooms)
unfolding insert
kept-insert i channel room [] p h = (p, tt)
kept-insert i channel room ((j, u) ∷ rooms) p h =
    let rest = kept-insert i channel room rooms p h.1 in
    elim (Bool-cases (j == channel)) [ inl hit ↦ rw hit (p, h.1) | inr miss ↦ rw miss (h.0, rest) ]

kept-erase :
    (i : ℕ) (channel : Uuid) (rooms : Rooms)
    → All (IsKeptRoom i) rooms
    → All (IsKeptRoom i) (erase channel rooms)
unfolding erase
kept-erase i channel [] h = tt
kept-erase i channel ((j, u) ∷ rooms) h =
    let rest = kept-erase i channel rooms h.1 in
    elim (Bool-cases (j == channel)) [ inl hit ↦ rw hit (h.1) | inr miss ↦ rw miss (h.0, rest) ]

-- A room that is found is one that the shard keeps.
kept-lookup :
    (i : ℕ) (channel : Uuid) (rooms : Rooms) (room : Room)
    → All (IsKeptRoom i) rooms
    → lookup channel rooms ≡ some room
    → IsKeptRoom i (channel, room)
unfolding lookup
kept-lookup i channel [] room h e = cc
kept-lookup i channel ((j, u) ∷ rooms) room h e = elim (Bool-cases (j == channel)) [
  | inl hit ↦
      let same : u ≡ room = ground arith in
      let key : j ≡ channel = (==_iff j channel).0 hit in rw (← same, ← key) (h.0)
  | inr miss ↦ kept-lookup i channel rooms room h.1 (rw miss at e)
]

-- The connections of a channel, none where the shard has no room for it.
abbrev pub room_of : Manager → Uuid → Room
room_of m c = room_or_empty (lookup c (m.shards (shard_for c)))

set_shard-IsSound :
    (m : Manager) (i : ℕ) (rooms : Rooms)
    → IsSound m
    → Distinct rooms
    → All (IsKeptRoom i) rooms
    → IsSound (set_shard m i rooms)
set_shard-IsSound m i rooms h d k = record {
  distinct =
      λ j. elim (Bool-cases (i == j)) [ inl hit ↦ rw hit d | inr miss ↦ rw miss (h.distinct j) ];
  kept = λ j. elim (Bool-cases (i == j)) [
    | inl hit ↦ let same : i ≡ j = (==_iff i j).0 hit in rw (hit, ← same) k
    | inr miss ↦ rw miss (h.kept j)
  ];
}

pub room-Distinct : (m : Manager) (c : Uuid) → IsSound m → Distinct (room_of m c)
room-Distinct m c h = elim (Option-cases (lookup c (m.shards (shard_for c)))) [
  | inl missing ↦ rw missing tt
  | inr (room, found) ↦
      let kept =
        kept-lookup (shard_for c) c (m.shards (shard_for c)) room (h.kept (shard_for c)) found in
      rw found ((kept.1))
]

-- `Join`, also of a nil connection, keeps the index sound: no key stands twice, no room is empty, and
-- each channel is in its own shard.
pub join-IsSound :
    (m : Manager) (channel : Uuid) (conn : Option Conn)
    → IsSound m
    → IsSound (join m channel conn).0
unfolding join
join-IsSound m channel none h = h
join-IsSound m channel (some conn) h =
    let i = shard_for channel in
    let room = room_of m channel in
    let held : IsKeptRoom i (channel, insert conn.id conn room) = (
      insert-ne-nil conn.id conn room,
      Distinct-insert conn.id conn room (room-Distinct m channel h),
      refl,
    ) in
    set_shard-IsSound m i (insert channel (insert conn.id conn room) (m.shards i)) h
      (Distinct-insert channel (insert conn.id conn room) (m.shards i) (h.distinct i))
      (kept-insert i channel (insert conn.id conn room) (m.shards i) held (h.kept i))

put_back-Distinct :
    (channel : Uuid) (room : Room) (rooms : Rooms)
    → Distinct rooms
    → Distinct (put_back channel room rooms)
put_back-Distinct channel [] rooms h = Distinct-erase channel rooms h
put_back-Distinct channel (e ∷ room) rooms h = Distinct-insert channel (e ∷ room) rooms h

put_back-kept :
    (i : ℕ) (channel : Uuid) (room : Room) (rooms : Rooms)
    → Distinct room
    → shard_for channel ≡ i
    → All (IsKeptRoom i) rooms
    → All (IsKeptRoom i) (put_back channel room rooms)
put_back-kept i channel [] rooms d s h = kept-erase i channel rooms h
put_back-kept i channel (e ∷ room) rooms d s h =
    kept-insert i channel (e ∷ room) rooms ((λ q. cc), d, s) h

-- `Leave` keeps the index sound: no key stands twice, no room is empty, and each channel is in its
-- own shard.
pub leave-IsSound : (m : Manager) (channel conn : Uuid) → IsSound m → IsSound (leave m channel conn)
unfolding leave
leave-IsSound m channel conn h =
    let i = shard_for channel in
    let rooms = m.shards i in
    elim (Option-cases (lookup channel rooms)) [
      | inl missing ↦ rw missing (set_shard-IsSound m i rooms h (h.distinct i) (h.kept i))
      | inr (room, found) ↦
          let kept = kept-lookup i channel rooms room (h.kept i) found in
          rw found (
            set_shard-IsSound m i (put_back channel (erase conn room) rooms) h
              (put_back-Distinct channel (erase conn room) rooms (h.distinct i))
              (put_back-kept i channel (erase conn room) rooms (Distinct-erase conn room (kept.1))
                refl (h.kept i)))
    ]

pub new_room_manager-IsSound : IsSound new_room_manager
unfolding new_room_manager
new_room_manager-IsSound = record { distinct = λ i. tt; kept = λ i. tt }
