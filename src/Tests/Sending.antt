-- ===== src/Tests/Sending.antt =====
-- The theorems on the thread that sends.
use pr_shooter.Prelude.{
  ℕ, ◌≡◌, ◌≢◌, refl, not, true, false, none, some, List, [], ◌∷◌, arith, ◌==◌, Option, ◌++◌, length,
}
use pr_shooter.Table.{lookup}
use pr_shooter.Server.Memory.{count, free}
use pr_shooter.Server.Array.{array_create}
use pr_shooter.Server.Queue.{Queue, queue_create}
use pr_shooter.Server.Queue.Cells.{Represents, queue_create-Represents}
use pr_shooter.Server.Queue.Interface.{QueueOf, linked_queue}
use pr_shooter.Server.Array.Holds.{Holds}
use pr_shooter.Server.Clients.{Client, Clients, running, created_events, add_client}
use pr_shooter.Server.Send.{
  OutMessage, IndividualMessage, Sender, SendEvent, Results, send_round, send_to_everyone, send_to,
  finish_sending,
}
use pr_shooter.Server.Send.Ownership.{
  IsOwned, send_to_everyone-IsOwned, with_block, send_to_everyone-finished,
}
use pr_shooter.Server.Send.System.{
  IsSafe, SendStep-IsSafe, ReachSend, started, step, to_everyone, ReachSend-safe,
}
use pr_shooter.Server.Receive.Waiting.{timed_out, signalled}
use pr_shooter.Server.Send.Thread.{Others, Turn, Run, start_sending}
use pr_shooter.Server.Send.Thread.Runs.{
  KeepsSafe, TurnsKeepSafe, RunIsSafe, start_sending-RunIsSafe,
}
use package.pr_shooter.Tests.Servers.{two_clients, both, two_clients-Holds}

abbrev outgoing : QueueOf IndividualMessage
outgoing = linked_queue IndividualMessage

-- One message waits for everyone, in the block at 50, and none for a single client.
abbrev sender : Sender (Queue IndividualMessage)
sender = record {
  outgoing_queue = queue_create (record { nodes = []; blocks = []; unused = 1 });
  message_to_everyone = record { size = 1; address = 50; content = 2 ∷ [] };
  live = 50 ∷ [];
}

sender-IsOwned : IsOwned outgoing sender []
sender-IsOwned = record {
  contains = queue_create-Represents (record { nodes = []; blocks = []; unused = 1 }) (omega arith);
  count_eq = λ p ne. refl;
}

abbrev next_message : OutMessage
next_message = record { size = 1; address = 60; content = 3 ∷ [] }

-- The first message to everyone is handed over.
abbrev first_sender : Sender (Queue IndividualMessage)
first_sender = record {
  outgoing_queue = queue_create (record { nodes = []; blocks = []; unused = 1 });
  message_to_everyone = next_message;
  live = 60 ∷ [];
}

first_reached : ReachSend outgoing first_sender (array_create 16)
unfolding send_to_everyone free
first_reached =
    step
      (started (queue_create (record { nodes = []; blocks = []; unused = 1 })) 0
        (queue_create-Represents (record { nodes = []; blocks = []; unused = 1 }) (omega arith)))
      (to_everyone next_message refl)

ReachSend-safe_example :
    (waiting : List IndividualMessage) × (clients : List Client) × Represents
      first_sender.outgoing_queue waiting
    × Holds (array_create 16) clients
    × ((results : Results)
        → (s' : Sender (Queue IndividualMessage)) × (c' : Clients) × (events : List SendEvent)
          × (send_round outgoing results first_sender (array_create 16) ≡ some (s', c', events)))
    × ((message : OutMessage)
        → (s' : Sender (Queue IndividualMessage)) × (send_to_everyone outgoing message
              (with_block outgoing message.address first_sender)
            ≡ some s')
          × (s'.message_to_everyone ≡ message)
          × Represents s'.outgoing_queue waiting)
    × ((message : OutMessage) (client_id : ℕ)
        → (s' : Sender (Queue IndividualMessage)) × (send_to outgoing message client_id
              (with_block outgoing message.address first_sender)
            ≡ some s')
          × Represents s'.outgoing_queue
              (waiting ++ (record { message = message; client_id = client_id } ∷ [])))
    × ((socket : ℕ) (created : Option ℕ)
        → (c' : Clients) × (add_client socket created (array_create 16)
            ≡ some (c', created_events socket (length clients) created))
          × Holds c'
              (clients ++ (record { thread_id = created; socket = socket; status = running } ∷ [])))
    × ((fuel : ℕ) × (s' : Sender (Queue IndividualMessage)) × (finish_sending outgoing fuel
            first_sender
          ≡ some s')
        × ((p : ℕ) → p ≢ 0 → count p s'.live ≡ 0))
ReachSend-safe_example = ReachSend-safe outgoing first_sender (array_create 16) first_reached

send_to_everyone-finished_example :
    (after : Sender (Queue IndividualMessage)) × (finish_sending outgoing 1 sender ≡ some after)
    × (send_to_everyone outgoing next_message (with_block outgoing 60 after) ≡ none)
send_to_everyone-finished_example =
    send_to_everyone-finished outgoing next_message sender [] sender-IsOwned (λ e. omega arith)
      (λ e. omega arith)

-- The second call fails for the first client.
abbrev results : Results
results client_id = (true, not (client_id == 0))

-- One message waits for the first client.
abbrev greeting : IndividualMessage
greeting = record { message = record { size = 1; address = 70; content = 0 ∷ [] }; client_id = 0 }

abbrev greeting_sender : Sender (Queue IndividualMessage)
greeting_sender = record {
  outgoing_queue = record {
    first = 1;
    last = 1;
    heap = record {
      nodes = (1, record { previous = 0; next = 0; data_address = 2 }) ∷ [];
      blocks = (2, greeting) ∷ [];
      unused = 3;
    };
  };
  message_to_everyone = record { size = 1; address = 50; content = 2 ∷ [] };
  live = 70 ∷ 50 ∷ [];
}

greeting_waits : Represents greeting_sender.outgoing_queue (greeting ∷ [])
unfolding lookup
greeting_waits = (
  record { address = 1; block = 2; element = greeting } ∷ [],
  refl,
  refl,
  (
    record {
      node_at = refl;
      block_at = refl;
      address_pos = omega arith;
      address_lt = omega arith;
      block_lt = omega arith;
    },
    tt,
    tt,
  ),
  refl,
  omega arith,
)

greeting_sender-IsOwned : IsOwned outgoing greeting_sender (greeting ∷ [])
greeting_sender-IsOwned = record { contains = greeting_waits; count_eq = λ p ne. omega arith }

greeting_sender-IsSafe : IsSafe outgoing greeting_sender two_clients
greeting_sender-IsSafe = record {
  waiting = greeting ∷ [];
  clients = both;
  owned = greeting_sender-IsOwned;
  holds = two_clients-Holds;
  known = (omega arith, tt);
  capacity_pos = omega arith;
}

-- Another thread hands a message to everyone over.
everyone_again : Others (Sender (Queue IndividualMessage))
everyone_again s c = elim (send_to_everyone outgoing next_message (with_block outgoing 60 s)) [
  | none ↦ (s, c)
  | some after ↦ (after, c)
]

everyone_again-KeepsSafe : KeepsSafe outgoing everyone_again
unfolding everyone_again
everyone_again-KeepsSafe s c safe =
    let (after, done, _, _) =
      send_to_everyone-IsOwned outgoing next_message s safe.waiting safe.owned in
    rw (done, everyone_again) (SendStep-IsSafe outgoing safe (to_everyone next_message done))

-- The greeting is sent; the next message comes while the thread waits; then it is told to stop.
turns : List (Turn (Sender (Queue IndividualMessage)))
turns =
    record { told_to_stop = false; wakeups = []; results = results; between = λ s c. (s, c) }
    ∷ record {
      told_to_stop = false;
      wakeups =
          record { result = timed_out; told_to_stop = false; meanwhile = λ s c. (s, c) }
          ∷ record { result = signalled; told_to_stop = false; meanwhile = everyone_again }
          ∷ [];
      results = results;
      between = λ s c. (s, c);
    }
    ∷ record { told_to_stop = true; wakeups = []; results = results; between = λ s c. (s, c) }
    ∷ []

turns-KeepSafe : TurnsKeepSafe outgoing turns
unfolding turns
turns-KeepSafe = (
  tt,
  (λ s c safe. safe),
  (
    ((λ s c safe. safe), (everyone_again-KeepsSafe, tt)),
    (λ s c safe. safe),
    (tt, (λ s c safe. safe), tt),
  ),
)

start_sending-RunIsSafe_example :
    (fuel : ℕ) × (r : Run (Sender (Queue IndividualMessage))) × (start_sending outgoing fuel turns
        greeting_sender two_clients
      ≡ some r)
    × RunIsSafe outgoing r
start_sending-RunIsSafe_example =
    start_sending-RunIsSafe outgoing turns greeting_sender two_clients turns-KeepSafe
      greeting_sender-IsSafe
