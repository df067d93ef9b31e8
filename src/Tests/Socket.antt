-- ===== src/Tests/Socket.antt =====
-- The theorem on chat sessions at one of them: user 7 joins the channel 5 and sends one message.
use todo_chat_app.Prelude.{◌≡◌, refl, true, false, String, Option, none, some, List, [], ◌∷◌, arith}
use todo_chat_app.Model.{ChannelMember, Message}
use todo_chat_app.Gorm.{Table}
use todo_chat_app.Gorm.Memory.{memory_table}
use todo_chat_app.Chat.Broadcast.{seat}
use todo_chat_app.Chat.Kept.{AreMaps}
use todo_chat_app.Handler.Chat.{Session, Shared, text_frame, joining, closed}
use todo_chat_app.Handler.Chat.Closing.{Run, own, done, session_closes}
use todo_chat_app.Tests.Run.{running}
use todo_chat_app.Tests.Edge.{memberships, one_member, conn}

abbrev messages : Table (List ChannelMember) Message
messages = memory_table (λ w. []) (λ l w. w) (λ r w. r) (λ r. r.id)

abbrev decode : String → Option (String × String)
decode text = some ("TEXT", text)

abbrev first : Session
first = record {
  channel = 5;
  user = 7;
  conn = conn 3;
  reads = text_frame "hello" ∷ [];
  phase = joining;
}

abbrev last : Session
last = record first { reads = []; phase = closed }

abbrev shared : Shared (List ChannelMember)
shared = record { world = one_member; rooms = [] }

runs : Run memberships messages decode 7 first shared last shared
unfolding running
runs =
    own (λ k. true)
      (own (λ k. false)
        (own (λ k. true)
          (own (λ k. true) (own (λ k. true) (own (λ k. true) (own (λ k. true) done))))))

no_seat : seat [] 5 3 ≡ none
unfolding running
no_seat = refl

no_rooms : AreMaps []
unfolding running
no_rooms = (tt, λ c. tt)

session_closes_example : (last.phase ≡ closed) × (seat shared.rooms 5 3 ≡ none)
session_closes_example =
    session_closes memberships messages decode first last shared shared 7 refl no_rooms no_seat
      (omega arith) runs
