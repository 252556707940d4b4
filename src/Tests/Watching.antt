-- ===== src/Tests/Watching.antt =====
-- A game state on its way to a client, and a message that is waited for.
use pr_shooter.Prelude.{
  ℕ, zero, suc, ◌≡◌, refl, true, some, List, [], ◌∷◌, ◌++◌, arith, replicate, length-replicate,
  get_elem?,
}
use pr_shooter.Machine.Whole.{whole, whole-HasBytes, whole-HasSizes}
use pr_shooter.Wire.{Message}
use pr_shooter.Game.Messages.{IncomingMessage}
use pr_shooter.Game.Serialize.Layout.{game_state_bytes}
use pr_shooter.Game.Serialize.Bounds.{serialize_game_state_fits}
use pr_shooter.Client.{stated}
use pr_shooter.Client.RoundTrip.{seen_state}
use pr_shooter.Client.Receiving.{receive_message}
use pr_shooter.Server.Queue.{Queue, queue_create}
use pr_shooter.Server.Queue.Cells.{queue_create-Represents}
use pr_shooter.Server.Queue.Interface.{QueueOf, linked_queue}
use pr_shooter.Server.Clients.{Client, Clients}
use pr_shooter.Server.Receive.{enqueue_back}
use pr_shooter.Server.Receive.Waiting.{Wakeup, signalled, timed_out, Taken, take}
use pr_shooter.Server.Receive.Waiting.Answers.{IsAnswer, take-IsAnswer}
use pr_shooter.Server.Send.{IndividualMessage, Sender, SendEvent, Results, send_round}
use pr_shooter.Server.Send.Ownership.{IsOwned}
use pr_shooter.Host.Watching.{bytes_to, send_round-seen_state}
use package.pr_shooter.Tests.{sample, spawn_request}
use package.pr_shooter.Tests.Servers.{first_client, two_clients, both, two_clients-Holds}

abbrev outgoing : QueueOf IndividualMessage
outgoing = linked_queue IndividualMessage

abbrev state_message : Message
state_message = record { size = 171; content = game_state_bytes sample }

-- The state waits for everyone, in the block at 50, and nothing for a single client.
abbrev sender : Sender (Queue IndividualMessage)
sender = record {
  outgoing_queue = queue_create (record { nodes = []; blocks = []; unused = 1 });
  message_to_everyone = record { size = 171; address = 50; content = game_state_bytes sample };
  live = 50 ∷ [];
}

sender-IsOwned : IsOwned outgoing sender []
sender-IsOwned = record {
  contains = queue_create-Represents (record { nodes = []; blocks = []; unused = 1 }) (omega arith);
  count_eq = λ p ne. refl;
}

-- Only the first client has socket 5.
first_socket :
    (j : ℕ) (c : Client) → get_elem? both j ≡ some c → c.socket ≡ first_client.socket → j ≡ 0
first_socket zero c found shared = refl
first_socket (suc zero) c found shared = absurd (cc)
first_socket (suc (suc j)) c found shared = absurd (cc)

abbrev results : Results
results client_id = (true, true)

-- a byte with each call of `recv`
abbrev calls : List ℕ
calls = replicate 171 0

send_round-seen_state_example :
    (after : Sender (Queue IndividualMessage)) × (table : Clients) × (events : List SendEvent)
    × (send_round outgoing results sender two_clients ≡ some (after, table, events))
    × (receive_message whole 10 calls (bytes_to 5 events ++ (7 ∷ []))
        ≡ some (stated (seen_state sample), 7 ∷ []))
send_round-seen_state_example =
    send_round-seen_state whole-HasBytes whole-HasSizes outgoing sample state_message 50 results
      sender two_clients both 0 first_client 10 calls (7 ∷ []) (omega arith) (omega arith)
      (serialize_game_state_fits whole-HasBytes whole-HasSizes sample (omega arith) (omega arith))
      refl sender-IsOwned two_clients-Holds refl refl refl first_socket (omega arith)
      (omega (arith, length-replicate {A = ℕ} 171 0))

abbrev messages : QueueOf IncomingMessage
messages = linked_queue IncomingMessage

abbrev nothing_waits : Queue IncomingMessage
nothing_waits = queue_create (record { nodes = []; blocks = []; unused = 1 })

-- The first wake-up is spurious, a request comes before the second, and the third is a time-out.
abbrev wakeups : List Wakeup
wakeups =
    record { result = signalled; arrived = [] }
    ∷ record { result = signalled; arrived = enqueue_back spawn_request ∷ [] }
    ∷ record { result = timed_out; arrived = [] }
    ∷ []

take-IsAnswer_example :
    (r : Taken (Queue IncomingMessage)) × (take messages wakeups nothing_waits ≡ some r)
    × IsAnswer messages wakeups [] r
take-IsAnswer_example =
    take-IsAnswer messages wakeups nothing_waits []
      (queue_create-Represents (record { nodes = []; blocks = []; unused = 1 }) (omega arith))
