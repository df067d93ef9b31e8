-- ===== src/Handler/Chat/Closing.antt =====
-- internal/handler/chat_handler.go: how a session ends, among others that run beside it.
use todo_chat_app.Prelude.{
  ℕ, suc, String, ◌+◌, ◌*◌, ◌-◌, ◌≤◌, ◌≡◌, refl, ◌∙◌, Bool, true, false, Option, none, some, List,
  [], ◌∷◌, length, arith, ==_iff,
}
use todo_chat_app.Prelude.Maps.{lookup}
use todo_chat_app.Outcome.{Answer, answer, fails}
use todo_chat_app.Model.{ChannelMember, Message, Uuid}
use todo_chat_app.Gorm.{Table}
use todo_chat_app.RoomManager.{Rooms}
use todo_chat_app.Chat.{
  join_room, is_channel_member, admit, leave_room, drop_from, recipients, failed_of,
}
use todo_chat_app.Chat.Broadcast.{seat, drop_from-seat}
use todo_chat_app.Chat.Kept.{AreMaps, enter-AreMaps, drop_from-AreMaps}
use todo_chat_app.Handler.Chat.{
  Read, text_frame, other_frame, Phase, joining, reading, saving, sending, dropping, leaving,
  closed, Session, Shared, advance, stretch, joined, heard, parsed, after_writes,
}

-- How many stretches a session has left at most, with the frames that are still to come.
abbrev pub left_in : Phase → ℕ → ℕ
left_in joining n = 4 * n + 3
left_in reading n = 4 * n + 2
left_in (saving message) n = 4 * n + 5
left_in sending n = 4 * n + 4
left_in (dropping failed) n = 4 * n + 3
left_in leaving n = 1
left_in closed n = 0

abbrev pub measure : Session → ℕ
measure s = left_in s.phase (length s.reads)

-- The connection has no seat: in a session that has not joined or that is over.
abbrev pub IsAway : Phase → Type 0
IsAway joining = Unit
IsAway closed = Unit
IsAway _ = ⊥

left_in-zero : (p : Phase) (n : ℕ) → left_in p n ≤ 0 → p ≡ closed
left_in-zero closed n h = refl
left_in-zero joining n h = absurd (omega arith)
left_in-zero reading n h = absurd (omega arith)
left_in-zero (saving message) n h = absurd (omega arith)
left_in-zero sending n h = absurd (omega arith)
left_in-zero (dropping failed) n h = absurd (omega arith)
left_in-zero leaving n h = absurd (omega arith)

module _ {W : Type 0} (channel_members : Table W ChannelMember) (messages : Table W Message)
    (decode : String → Option (String × String)) where
  abbrev pub IsUnseated : Session → Shared W → Type 0
  IsUnseated s sh = seat sh.rooms s.channel s.conn.id ≡ none

  -- What holds of a session and of what it shares with the others.
  abbrev pub IsOrderly : Session → Shared W → Type 0
  IsOrderly s sh = AreMaps sh.rooms × (IsAway s.phase → IsUnseated s sh)

  -- The session takes that many stretches, with any writes; in between the others may change the world
  -- and the rooms in any way that keeps the rooms maps and does not seat this session's connection.
  pub data Run : ℕ → Session → Shared W → Session → Shared W → Type 0 where
    done : {s : Session} {sh : Shared W} → Run 0 s sh s sh
    own :
        {n : ℕ} {s t : Session} {sh th : Shared W} (writes : Uuid → Bool)
        → Run n
            (advance channel_members messages decode writes s sh).0
            (advance channel_members messages decode writes s sh).1
            t
            th
        → Run (suc n) s sh t th
    others :
        {n : ℕ} {s t : Session} {sh th : Shared W} (mid : Shared W)
        → AreMaps mid.rooms
        → (IsUnseated s sh → IsUnseated s mid)
        → Run n s mid t th
        → Run n s sh t th

  parsed-measure :
      (s : Session) (o : Option (String × String))
      → measure (parsed decode s o) ≤ 4 * length s.reads + 5
  parsed-measure s none = omega arith
  parsed-measure s (some incoming) = omega arith

  heard-measure :
      (s : Session) (reads : List Read) → measure (heard decode s reads) ≤ 4 * length reads + 1
  heard-measure s [] = omega arith
  heard-measure s (other_frame ∷ rest) = omega arith
  heard-measure s (text_frame text ∷ rest) =
      let bound = parsed-measure (record s { reads = rest }) (decode text) in omega arith

  after_writes-measure :
      (s : Session) (failed : List Uuid) → measure (after_writes s failed) ≤ 4 * length s.reads + 3
  after_writes-measure s [] = omega arith
  after_writes-measure s (k ∷ ks) = omega arith

  joined-measure :
      (s : Session) (sh : Shared W) (o : Answer Rooms)
      → measure (joined channel_members messages decode s sh o).0 ≤ 4 * length s.reads + 2
  joined-measure s sh (answer rooms) = omega arith
  joined-measure s sh (fails e) = omega arith

  stretch-measure :
      (writes : Uuid → Bool) (s : Session) (sh : Shared W) (phase : Phase)
      → s.phase ≡ phase
      → measure (stretch channel_members messages decode writes phase s sh).0
        ≤ left_in phase (length s.reads) - 1
  stretch-measure writes s sh joining e =
      let bound =
        joined-measure s sh (join_room channel_members s.channel s.user s.conn sh.world sh.rooms) in
      omega arith
  stretch-measure writes s sh reading e = let bound = heard-measure s s.reads in omega arith
  stretch-measure writes s sh (saving message) e = omega arith
  stretch-measure writes s sh sending e =
      let bound = after_writes-measure s (failed_of writes (recipients s.channel sh.rooms)) in
      omega arith
  stretch-measure writes s sh (dropping failed) e = omega arith
  stretch-measure writes s sh leaving e = omega arith
  stretch-measure writes s sh closed e = rw e (omega arith)

  parsed-stays : (s : Session) (o : Option (String × String)) → ¬ IsAway (parsed decode s o).phase
  parsed-stays s none h = h
  parsed-stays s (some incoming) h = h

  heard-IsOrderly :
      (s : Session) (sh : Shared W) (reads : List Read)
      → AreMaps sh.rooms
      → IsOrderly (heard decode s reads) sh
  heard-IsOrderly s sh [] maps = (maps, λ h. absurd h)
  heard-IsOrderly s sh (other_frame ∷ rest) maps = (maps, λ h. absurd h)
  heard-IsOrderly s sh (text_frame text ∷ rest) maps =
      (maps, λ h. absurd (parsed-stays (record s { reads = rest }) (decode text) h))

  after_writes-IsOrderly :
      (s : Session) (sh : Shared W) (failed : List Uuid)
      → AreMaps sh.rooms
      → IsOrderly (after_writes s failed) sh
  after_writes-IsOrderly s sh [] maps = (maps, λ h. absurd h)
  after_writes-IsOrderly s sh (k ∷ ks) maps = (maps, λ h. absurd h)

  left-unseated :
      (channel k : Uuid) (rooms : Rooms)
      → AreMaps rooms
      → seat (drop_from channel (k ∷ []) rooms (lookup channel rooms)) channel k ≡ none
  left-unseated channel k rooms (all, each) =
      rw
        (
          drop_from-seat channel channel k (k ∷ []) rooms (lookup channel rooms) refl all
              (each channel),
          (==_iff channel channel).1 refl,
          (==_iff k k).1 refl,
        )
        refl

  joined-IsOrderly :
      (s : Session) (sh : Shared W) (b : Answer Bool)
      → AreMaps sh.rooms
      → IsUnseated s sh
      → IsOrderly
          (joined channel_members messages decode s sh (admit s.channel s.conn sh.rooms b)).0
          (joined channel_members messages decode s sh (admit s.channel s.conn sh.rooms b)).1
  joined-IsOrderly s sh (answer true) maps away =
      (enter-AreMaps s.channel s.conn sh.rooms maps, λ h. absurd h)
  joined-IsOrderly s sh (answer false) maps away = (maps, λ _. away)
  joined-IsOrderly s sh (fails e) maps away = (maps, λ _. away)

  stretch-IsOrderly :
      (writes : Uuid → Bool) (s : Session) (sh : Shared W) (phase : Phase)
      → s.phase ≡ phase
      → IsOrderly s sh
      → IsOrderly
          (stretch channel_members messages decode writes phase s sh).0
          (stretch channel_members messages decode writes phase s sh).1
  unfolding join_room leave_room
  stretch-IsOrderly writes s sh joining e (maps, away) =
      joined-IsOrderly s sh (is_channel_member channel_members s.channel s.user sh.world) maps
        (away (rw e tt))
  stretch-IsOrderly writes s sh reading e (maps, away) = heard-IsOrderly s sh s.reads maps
  stretch-IsOrderly writes s sh (saving message) e (maps, away) = (maps, λ h. absurd h)
  stretch-IsOrderly writes s sh sending e (maps, away) =
      after_writes-IsOrderly s sh (failed_of writes (recipients s.channel sh.rooms)) maps
  stretch-IsOrderly writes s sh (dropping failed) e (maps, away) =
      (drop_from-AreMaps s.channel failed sh.rooms maps, λ h. absurd h)
  stretch-IsOrderly writes s sh leaving e (maps, away) = (
    drop_from-AreMaps s.channel (s.conn.id ∷ []) sh.rooms maps,
    λ _. left-unseated s.channel s.conn.id sh.rooms maps,
  )
  stretch-IsOrderly writes s sh closed e h = h

  -- A stretch keeps the channel and the connection of its session.
  abbrev HasSame : Session → Session → Type 0
  HasSame s t = (t.channel ≡ s.channel) × (t.conn ≡ s.conn)

  parsed-HasSame : (s : Session) (o : Option (String × String)) → HasSame s (parsed decode s o)
  parsed-HasSame s none = (refl, refl)
  parsed-HasSame s (some incoming) = (refl, refl)

  heard-HasSame : (s : Session) (reads : List Read) → HasSame s (heard decode s reads)
  heard-HasSame s [] = (refl, refl)
  heard-HasSame s (other_frame ∷ rest) = (refl, refl)
  heard-HasSame s (text_frame text ∷ rest) =
      parsed-HasSame (record s { reads = rest }) (decode text)

  joined-HasSame :
      (s : Session) (sh : Shared W) (o : Answer Rooms)
      → HasSame s (joined channel_members messages decode s sh o).0
  joined-HasSame s sh (answer rooms) = (refl, refl)
  joined-HasSame s sh (fails e) = (refl, refl)

  after_writes-HasSame : (s : Session) (failed : List Uuid) → HasSame s (after_writes s failed)
  after_writes-HasSame s [] = (refl, refl)
  after_writes-HasSame s (k ∷ ks) = (refl, refl)

  stretch-HasSame :
      (writes : Uuid → Bool) (s : Session) (sh : Shared W) (phase : Phase)
      → HasSame s (stretch channel_members messages decode writes phase s sh).0
  stretch-HasSame writes s sh joining =
      joined-HasSame s sh (join_room channel_members s.channel s.user s.conn sh.world sh.rooms)
  stretch-HasSame writes s sh reading = heard-HasSame s s.reads
  stretch-HasSame writes s sh (saving message) = (refl, refl)
  stretch-HasSame writes s sh sending =
      after_writes-HasSame s (failed_of writes (recipients s.channel sh.rooms))
  stretch-HasSame writes s sh (dropping failed) = (refl, refl)
  stretch-HasSame writes s sh leaving = (refl, refl)
  stretch-HasSame writes s sh closed = (refl, refl)

  advance-keeps :
      (writes : Uuid → Bool) (s : Session) (sh : Shared W)
      → IsOrderly s sh
      → (measure (advance channel_members messages decode writes s sh).0 ≤ measure s - 1)
        × IsOrderly
            (advance channel_members messages decode writes s sh).0
            (advance channel_members messages decode writes s sh).1
        × HasSame s (advance channel_members messages decode writes s sh).0
  unfolding advance
  advance-keeps writes s sh orderly = (
    stretch-measure writes s sh s.phase refl,
    stretch-IsOrderly writes s sh s.phase refl orderly,
    stretch-HasSame writes s sh s.phase,
  )

  Run-ends :
      {n : ℕ} {s t : Session} {sh th : Shared W}
      → Run n s sh t th
      → IsOrderly s sh
      → measure s ≤ n
      → (t.phase ≡ closed) × IsOrderly t th × HasSame s t
  Run-ends {s} done orderly bound =
      (left_in-zero s.phase (length s.reads) bound, orderly, (refl, refl))
  Run-ends {s} {sh} (own {n} writes rest) orderly bound =
      let (smaller, ordered, same) = advance-keeps writes s sh orderly in
      let fits : measure (advance channel_members messages decode writes s sh).0 ≤ n =
        omega arith in
      let (over, end, kept) = Run-ends rest ordered fits in
      (over, end, (kept.0 ∙ same.0, kept.1 ∙ same.1))
  Run-ends (others mid maps kept rest) (_, away) bound =
      Run-ends rest (maps, λ h. kept (away h)) bound

  -- A session whose client sends n frames, and whose connection has no seat yet, is over after at most
  -- 4 n + 3 of its own stretches, whatever its writes do and whatever other sessions do to the world
  -- and the rooms in between, as long as the rooms stay maps and nobody else seats its connection;
  -- and its connection then has no seat in the room of its channel.
  pub session_closes :
      (s t : Session) (sh th : Shared W) (n : ℕ)
      → s.phase ≡ joining
      → AreMaps sh.rooms
      → seat sh.rooms s.channel s.conn.id ≡ none
      → 4 * length s.reads + 3 ≤ n
      → Run n s sh t th
      → (t.phase ≡ closed) × (seat th.rooms s.channel s.conn.id ≡ none)
  session_closes s t sh th n joins maps unseated bound run =
      let starts : measure s ≤ n = rw joins bound in
      let (over, end, same) = Run-ends run (maps, λ _. unseated) starts in
      let there : seat th.rooms t.channel t.conn.id ≡ none = end.1 (rw over tt) in
      (over, rw (← same.0, ← same.1) there)
