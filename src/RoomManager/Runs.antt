-- ===== src/RoomManager/Runs.antt =====
-- Any sequence of calls of `Join` and `Leave` of internal/service/chat/room_manager.go on a new
-- index, against a set of subscriptions that knows of no shards.
use todo_chat_app.Prelude.{
  ◌≡◌, ◌↔◌, refl, Option, none, some, List, [], ◌∷◌, ◌&&◌, ◌==◌, if◌then◌else◌, Has,
}
use todo_chat_app.Prelude.Maps.{lookup, Has-values}
use todo_chat_app.Model.{Uuid}
use todo_chat_app.RoomManager.{Conn, Manager, new_room_manager, join, leave, list}
use todo_chat_app.RoomManager.Kept.{
  IsSound, room_of, room-Distinct, join-IsSound, leave-IsSound, new_room_manager-IsSound,
}
use todo_chat_app.RoomManager.Subscribers.{subscriber, subscriber-join, subscriber-leave}

pub data Call : Type 0 where
  joins : Uuid → Option Conn → Call
  leaves : Uuid → Uuid → Call

abbrev pub called : Call → Manager → Manager
called (joins channel conn) m = (join m channel conn).0
called (leaves channel conn) m = leave m channel conn

abbrev pub called_all : List Call → Manager → Manager
called_all [] m = m
called_all (call ∷ calls) m = called_all calls (called call m)

-- The connection under an identity in a channel.
abbrev pub Subscriptions : Type 0
Subscriptions = Uuid → Uuid → Option Conn

abbrev pub nobody : Subscriptions
nobody c k = none

abbrev pub noted : Call → Subscriptions → Subscriptions
noted (joins channel none) subs = subs
noted (joins channel (some conn)) subs =
    λ c k. if (channel == c) && (conn.id == k) then some conn else subs c k
noted (leaves channel conn) subs = λ c k. if (channel == c) && (conn == k) then none else subs c k

abbrev pub noted_all : List Call → Subscriptions → Subscriptions
noted_all [] subs = subs
noted_all (call ∷ calls) subs = noted_all calls (noted call subs)

called-IsSound : (call : Call) (m : Manager) → IsSound m → IsSound (called call m)
called-IsSound (joins channel conn) m h = join-IsSound m channel conn h
called-IsSound (leaves channel conn) m h = leave-IsSound m channel conn h

kept_all : (calls : List Call) (m : Manager) → IsSound m → IsSound (called_all calls m)
kept_all [] m h = h
kept_all (call ∷ calls) m h = kept_all calls (called call m) (called-IsSound call m h)

-- After any calls of `Join`, also of a nil connection, and `Leave` on a new index no key stands
-- twice, no room is empty, and each channel is in its own shard.
pub called_all-IsSound : (calls : List Call) → IsSound (called_all calls new_room_manager)
called_all-IsSound calls = kept_all calls new_room_manager new_room_manager-IsSound

-- The index and the abstract subscriptions agree.
abbrev Agrees : Manager → Subscriptions → Type 0
Agrees m subs = (c k : Uuid) → subscriber m c k ≡ subs c k

called-Agrees :
    (call : Call) (m : Manager) (subs : Subscriptions)
    → IsSound m
    → Agrees m subs
    → Agrees (called call m) (noted call subs)
unfolding join
called-Agrees (joins channel none) m subs h agree = agree
called-Agrees (joins channel (some conn)) m subs h agree =
    λ c k. rw (subscriber-join m channel conn c k, agree c k) refl
called-Agrees (leaves channel conn) m subs h agree =
    λ c k. rw (subscriber-leave m channel conn c k h, agree c k) refl

agree_all :
    (calls : List Call) (m : Manager) (subs : Subscriptions)
    → IsSound m
    → Agrees m subs
    → Agrees (called_all calls m) (noted_all calls subs)
agree_all [] m subs h agree = agree
agree_all (call ∷ calls) m subs h agree =
    agree_all calls (called call m) (noted call subs) (called-IsSound call m h)
      (called-Agrees call m subs h agree)

new-Agrees : Agrees new_room_manager nobody
unfolding new_room_manager lookup
new-Agrees c k = refl

-- After any calls of `Join` and `Leave` on a new index, `List` of a channel gives exactly the
-- connections that the same calls leave subscribed to the channel under some identity, where the
-- subscriptions are a function that a call changes at one channel and one identity.
pub list-noted_all :
    (calls : List Call) (channel : Uuid) (conn : Conn)
    → Has conn (list (called_all calls new_room_manager) channel)
      ↔ ((k : Uuid) × (noted_all calls nobody channel k ≡ some conn))
unfolding list
list-noted_all calls channel conn =
    let m = called_all calls new_room_manager in
    let sound = called_all-IsSound calls in
    let agree = agree_all calls new_room_manager nobody new_room_manager-IsSound new-Agrees in
    let values = Has-values conn (room_of m channel) (room-Distinct m channel sound) in
    (
      λ has. let (k, found) = values.0 has in (k, rw (agree channel k) at found),
      λ q. values.1 (q.0, rw (agree channel (q.0)) (q.1)),
    )
