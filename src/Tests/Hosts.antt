-- ===== src/Tests/Hosts.antt =====
-- The theorems on the host as a whole, and on the files of maps.
use pr_shooter.Prelude.{
  ℕ, zero, suc, ◌≡◌, refl, true, false, Option, none, some, List, [], ◌∷◌, arith, map, length,
  replicate, length-replicate, ap, ◌==◌, if◌then◌else◌,
}
use pr_shooter.Prelude.Int.{ℤ, pos, negsuc, ltb_ℤ}
use pr_shooter.Machine.Whole.{whole}
use pr_shooter.Wire.{Bytes, read_at, from_bytes}
use pr_shooter.Game.{Game, GameMap}
use pr_shooter.Game.Handlers.{spawn_player, delete_player}
use pr_shooter.Game.Handlers.Invariant.{IsValidGame}
use pr_shooter.Game.Messages.{
  lost_connection, IncomingMessage, Event, lock, unlock, count_packet, handle_message,
}
use pr_shooter.Game.MapFile.{get_map, with_box}
use pr_shooter.Game.MapFile.Files.{NoComma, Writes, file_of, get_map-file_of}
use pr_shooter.Game.MapFile.Box.{IsOrdered}
use pr_shooter.Table.{lookup, insert, erase}
use pr_shooter.Server.Queue.{push_front, pop_copy_front, is_empty, Queue, queue_create}
use pr_shooter.Server.Queue.Cells.{Represents, queue_create-Represents}
use pr_shooter.Server.Queue.Interface.{QueueOf, linked_queue}
use pr_shooter.Server.Clients.{running}
use pr_shooter.Server.Receive.{
  perform, take_message, enqueue_front, notice, Round, event, received, recv_error, start_receiving,
  receive_loop, perform_all, enqueue_back,
}
use pr_shooter.Host.{new_game, Pass, receive_thread, Reach, started, step, handled}
use pr_shooter.Game.Messages.Presence.{IsInGame}
use pr_shooter.Host.Reachable.{Reach-IsValidGame}
use pr_shooter.Host.Threads.{handle_in_order, Agree, receive_thread-handle_in_order}
use pr_shooter.Host.Ghosts.{quiet, start_receiving-IsInGame}
use pr_shooter.Host.Progress.{IsHandled, receive_thread-IsHandled}
use package.pr_shooter.Tests.{at, field, sample, dice, spawn_request, whole-RestIsSlow}

abbrev spawned : Game whole
spawned = count_packet 9 5 (spawn_player dice 9 (new_game field))

reached : Reach field spawned
unfolding handle_message read_at from_bytes
reached = step started (handled dice 5 spawn_request (lock ∷ unlock ∷ []) refl)

Reach-IsValidGame_example : IsValidGame spawned
Reach-IsValidGame_example = Reach-IsValidGame field spawned whole-RestIsSlow reached

abbrev messages : QueueOf IncomingMessage
messages = linked_queue IncomingMessage

abbrev nothing_waits : Queue IncomingMessage
nothing_waits = queue_create (record { nodes = []; blocks = []; unused = 1 })

nothing_waits-Represents : Represents nothing_waits []
nothing_waits-Represents =
    queue_create-Represents (record { nodes = []; blocks = []; unused = 1 }) (omega arith)

-- In the first pass a request to spawn arrives, in the second nothing.
abbrev two_passes : List (Pass whole)
two_passes =
    record { arrived = enqueue_back spawn_request ∷ []; duration = 5; dice = dice }
    ∷ record { arrived = []; duration = 5; dice = dice }
    ∷ []

receive_thread-handle_in_order_example :
    Agree messages
      (handle_in_order two_passes [] sample)
      (receive_thread messages two_passes nothing_waits sample)
receive_thread-handle_in_order_example =
    receive_thread-handle_in_order messages two_passes nothing_waits [] sample
      nothing_waits-Represents

-- A request waits, and before the first of two passes the client that sent it is lost.
abbrev request_queue : Queue IncomingMessage
request_queue = record {
  first = 1;
  last = 1;
  heap = record {
    nodes = (1, record { previous = 0; next = 0; data_address = 2 }) ∷ [];
    blocks = (2, spawn_request) ∷ [];
    unused = 3;
  };
}

request_waits : Represents request_queue (spawn_request ∷ [])
unfolding lookup
request_waits = (
  record { address = 1; block = 2; element = spawn_request } ∷ [],
  refl,
  refl,
  (
    record {
      node_at = refl;
      block_at = refl;
      address_pos = omega arith;
      address_lt = omega arith;
      block_lt = omega arith;
    },
    tt,
    tt,
  ),
  refl,
  omega arith,
)

abbrev lost_first : List (Pass whole)
lost_first =
    record { arrived = enqueue_front (notice lost_connection 9) ∷ []; duration = 5; dice = dice }
    ∷ quiet (5, dice)
    ∷ []

abbrev last_state : Queue IncomingMessage × Game whole × List Event
last_state = (
  record { first = 0; last = 0; heap = record { nodes = []; blocks = []; unused = 5 } },
  count_packet 9 5 (spawn_player dice 9 (count_packet 9 5 (delete_player 9 sample))),
  lock ∷ unlock ∷ lock ∷ unlock ∷ [],
)

both_handled : receive_thread messages lost_first request_queue sample ≡ some last_state
unfolding receive_thread perform_all perform take_message handle_message read_at from_bytes
    push_front pop_copy_front is_empty lookup insert erase
both_handled = refl

receive_thread-IsHandled_example :
    IsHandled messages spawn_request 0 lost_first request_queue sample last_state
receive_thread-IsHandled_example =
    receive_thread-IsHandled messages spawn_request lost_first request_queue (spawn_request ∷ []) 0
      sample last_state request_waits refl (omega arith) both_handled

-- A client that breaks off at once.
abbrev broken_off : List Round
broken_off =
    record { status = running; polled = event true; sized = received []; filled = recv_error } ∷ []

left_loop : (receive_loop 4 broken_off).1 ≡ true
unfolding receive_loop
left_loop = refl

start_receiving-IsInGame_example :
    (after : Queue IncomingMessage) × (perform_all messages
        (start_receiving 4 broken_off)
        nothing_waits
      ≡ some after)
    × ((s : Queue IncomingMessage) (g : Game whole) (events : List Event)
        → receive_thread messages (map quiet ((5, dice) ∷ (5, dice) ∷ [])) after sample
          ≡ some (s, g, events)
        → IsInGame 4 g)
start_receiving-IsInGame_example =
    start_receiving-IsInGame 4 messages broken_off nothing_waits (5, dice) (5, dice) [] sample
      left_loop nothing_waits-Represents

-- Numbers as tally marks behind a sign.
ticks : ℕ → Bytes
ticks n = replicate n 49

sign_of : ℤ → ℕ
sign_of (pos n) = 43
sign_of (negsuc n) = 45

ticks_of : ℤ → Bytes
unfolding ticks
ticks_of (pos n) = ticks n
ticks_of (negsuc n) = ticks n

stod : Bytes → Option ℤ
stod [] = none
stod (c ∷ text) = some (if c == 45 then negsuc (length text) else pos (length text))

ticks-NoComma : (n : ℕ) → NoComma (ticks n)
unfolding ticks
ticks-NoComma zero = tt
ticks-NoComma (suc n) = (refl, ticks-NoComma n)

tally-NoComma : (a : ℤ) → NoComma (sign_of a ∷ ticks_of a)
unfolding sign_of ticks_of
tally-NoComma (pos n) = (refl, ticks-NoComma n)
tally-NoComma (negsuc n) = (refl, ticks-NoComma n)

tally_read : (a : ℤ) → stod (sign_of a ∷ ticks_of a) ≡ some a
unfolding stod sign_of ticks_of ticks
tally_read (pos n) = ap (λ k. some (pos k)) (length-replicate n 49)
tally_read (negsuc n) = ap (λ k. some (negsuc k)) (length-replicate n 49)

abbrev stod_whole : Bytes → Option whole.Double
unfolding whole
stod_whole = stod

tally : Writes whole stod_whole
unfolding whole
tally = record {
  first = sign_of;
  others = ticks_of;
  no_comma = tally-NoComma;
  stod_eq = tally_read;
}

abbrev no_map : GameMap whole
no_map = record {
  borders = [];
  top_left = at 0 0;
  bottom_right = at 0 0;
  walls = [];
  obstacles = [];
}

get_map-file_of_example :
    get_map whole stod_whole (some (file_of tally field.borders field.walls field.obstacles)) no_map
    ≡ some (
        with_box (record no_map {
          borders = field.borders;
          walls = field.walls;
          obstacles = field.obstacles;
        }))
get_map-file_of_example = get_map-file_of tally field.borders field.walls field.obstacles no_map

ltb_ℤ_trans : (a b c : ℤ) → ltb_ℤ a b ≡ false → ltb_ℤ b c ≡ false → ltb_ℤ a c ≡ false
ltb_ℤ_trans a b c h h' = ground arith

ltb_ℤ_asymm : (a b : ℤ) → ltb_ℤ a b ≡ true → ltb_ℤ b a ≡ false
ltb_ℤ_asymm a b h = ground arith

ltb_ℤ_irrefl : (a : ℤ) → ltb_ℤ a a ≡ false
ltb_ℤ_irrefl a = ground arith

whole-IsOrdered : IsOrdered whole (λ x. Unit {0})
unfolding whole
whole-IsOrdered = record {
  lt_irrefl = ltb_ℤ_irrefl;
  lt_asymm = ltb_ℤ_asymm;
  lt_trans = λ a b c number. ltb_ℤ_trans a b c;
  max_double_number = tt;
  min_double_number = tt;
}
