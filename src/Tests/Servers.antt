-- ===== src/Tests/Servers.antt =====
-- The theorems on the server's life, its table of clients, and the threads that receive.
use pr_shooter.Prelude.{
  Option, ℕ, zero, suc, ◌≡◌, refl, Bool, true, false, none, some, List, [], ◌∷◌, ◌++◌, arith,
  get_elem?, ap, inr, map,
}
use pr_shooter.Wire.{Bytes, u32, from_bytes}
use pr_shooter.Server.Array.Holds.{Holds}
use pr_shooter.Server.Clients.{Client, Clients, running, stop}
use pr_shooter.Server.Listen.{ListenRound, listen_loop}
use pr_shooter.Server.Listen.Arrivals.{client_of, welcomes, listen_loop-Holds}
use pr_shooter.Server.LifeCycle.{Server, LifeEvent}
use pr_shooter.Server.LifeCycle.Balance.{held_by, nothing_held, all_held}
use pr_shooter.Server.Wrapper.{Wrapper, run}
use pr_shooter.Server.Wrapper
use pr_shooter.Server.Wrapper.Laws.{stop-stop}
use pr_shooter.Server.Receive.{
  Round, event, poll_error, received, recv_error, receive_loop, perform_all,
}
use pr_shooter.Server.Receive.Thread.{data_message}
use pr_shooter.Game.Messages.{IncomingMessage}
use pr_shooter.Server.Queue.{Queue, queue_create}
use pr_shooter.Server.Queue.Cells.{Represents, queue_create-Represents}
use pr_shooter.Server.Queue.Interface.{QueueOf, linked_queue}
use pr_shooter.Server.Receive.Frames.{frames, stream_rounds, receive_loop-frames}

-- Two clients: the first runs, the second is to stop.
abbrev pub first_client : Client
first_client = record { thread_id = some 11; socket = 5; status = running }

abbrev pub second_client : Client
second_client = record { thread_id = some 12; socket = 6; status = stop }

abbrev pub two_clients : Clients
two_clients = record { size = 2; capacity = 2; slots = some first_client ∷ some second_client ∷ [] }

abbrev pub both : List Client
both = first_client ∷ second_client ∷ []

client_slots :
    (i : ℕ) (c : Client) → get_elem? both i ≡ some c → get_elem? two_clients.slots i ≡ some (some c)
client_slots zero c e = ap (λ y. some y) e
client_slots (suc zero) c e = ap (λ y. some y) e
client_slots (suc (suc i)) c e = absurd (cc)

pub two_clients-Holds : Holds two_clients both
two_clients-Holds = record {
  size_eq = refl;
  size_le = omega arith;
  length_slots = refl;
  slot_eq = λ i c lt e. client_slots i c e;
}

-- One connection is accepted, then one for which no thread can be made; then `poll` fails.
abbrev three_rounds : List ListenRound
three_rounds =
    record { is_stopped = false; polled = event true; accepted = some 7; created = some 13 }
    ∷ record { is_stopped = false; polled = event true; accepted = some 8; created = none }
    ∷ record { is_stopped = false; polled = poll_error false; accepted = none; created = none }
    ∷ []

listen_loop-Holds_example :
    (table : Clients) × (left : Bool) × (listen_loop three_rounds two_clients
      ≡ some (table, welcomes 2 ((7, some 13) ∷ (8, none) ∷ []), left))
    × Holds table (both ++ (client_of (7, some 13) ∷ client_of (8, none) ∷ []))
listen_loop-Holds_example =
    listen_loop-Holds three_rounds two_clients both (omega arith) two_clients-Holds

abbrev started_server : Wrapper
started_server = record {
  server = record { stopped = false; clients = two_clients };
  running = true;
}

stop-stop_example :
    (w' w'' : Wrapper) × (again : List LifeEvent) × ((events : List LifeEvent) × (Wrapper.stop
          started_server
        ≡ some (w', events))
      × (held_by (some 11 ∷ some 12 ∷ []) events all_held ≡ some nothing_held))
    × (w'.server.stopped ≡ true)
    × ((listen_err send_err : ℕ) (filled : Clients)
        → run listen_err send_err filled w' ≡ some (false, w', []))
    × (Wrapper.stop w' ≡ some (w'', again))
    × ((ids : List (Option ℕ)) → held_by ids again nothing_held ≡ none)
stop-stop_example = stop-stop started_server both refl two_clients-Holds

-- A message of two bytes arrives, the next one is broken off behind its size.
abbrev interrupted : List Round
interrupted =
    record {
      status = running;
      polled = event true;
      sized = received (u32 2);
      filled = received (10 ∷ 11 ∷ []);
    }
    ∷ record {
      status = running;
      polled = event true;
      sized = received (u32 9);
      filled = recv_error;
    }
    ∷ []

abbrev two_messages : List Bytes
two_messages = (10 ∷ []) ∷ (13 ∷ 0 ∷ []) ∷ []

abbrev pub incoming : QueueOf IncomingMessage
incoming = linked_queue IncomingMessage

abbrev pub nothing_waits : Queue IncomingMessage
nothing_waits = queue_create (record { nodes = []; blocks = []; unused = 1 })

pub nothing_waits-Represents : Represents nothing_waits []
nothing_waits-Represents =
    queue_create-Represents (record { nodes = []; blocks = []; unused = 1 }) (omega arith)

-- A size of 2^31, after which the loop ends, whatever follows.
abbrev too_large : Bytes
too_large = 0 ∷ 0 ∷ 0 ∷ 128 ∷ 7 ∷ []

receive_loop-frames_example :
    ((receive_loop 4 (stream_rounds 3 (frames two_messages ++ too_large))).1 ≡ true)
    × ((after : Queue IncomingMessage) × (perform_all incoming
            (receive_loop 4 (stream_rounds 3 (frames two_messages ++ too_large))).0
            nothing_waits
          ≡ some after)
        × Represents after (map (data_message 4) two_messages))
unfolding from_bytes
receive_loop-frames_example =
    receive_loop-frames 4 incoming two_messages too_large nothing_waits []
      (omega arith, (omega arith, tt)) (inr (omega arith, omega arith, inr (omega arith)))
      nothing_waits-Represents
