-- ===== src/Server/Send.antt =====
-- Server/server_send.c: the messages that wait to be sent, and the thread that sends them. The
-- results of the calls of `send` are given for each client; the queue is any that keeps to its
-- interface. Each operation holds the mutexes that make it one step. `none` is a failed assertion, or
-- a block of memory that is freed and not allocated.
pub mod Broadcast
pub mod Ownership
pub mod Round
pub mod System
pub mod Thread
use pr_shooter.Prelude.{
  ℕ, zero, suc, ◌+◌, Bool, true, false, Option, none, some, List, [], ◌∷◌, ◌++◌, ◌==◌,
  if◌then◌else◌,
}
use pr_shooter.Wire.{◌>>=◌, Bytes, u32}
use package.pr_shooter.Server.Memory.{free}
use package.pr_shooter.Server.Array.{array_get_item}
use package.pr_shooter.Server.Clients.{
  ThreadStatus, Client, Clients, get_client, get_all_clients, signal_client_to_stop,
}
use package.pr_shooter.Server.Receive.{is_running}
use package.pr_shooter.Server.Queue.Interface.{QueueOf}

-- `Message`: the size, the address of the bytes, and the bytes
pub record OutMessage : Type 0 where
  pub size : ℕ
  pub address : ℕ
  pub content : Bytes

pub record IndividualMessage : Type 0 where
  pub message : OutMessage
  pub client_id : ℕ

-- The static variables of the file, with the blocks of bytes that are allocated.
pub record Sender (Q : Type 0) : Type 0 where
  pub outgoing_queue : Q
  pub message_to_everyone : OutMessage
  pub live : List ℕ

-- a call of `send` on a socket, and whether it succeeded
pub data SendEvent : Type 0 where
  sent : (socket : ℕ) → Bytes → Bool → SendEvent

-- the results of the two calls for a client
abbrev pub Results : Type 0
Results = ℕ → Bool × Bool

-- the statement behind a call of `send`
unfoldable pub stop_unless : Bool → ℕ → Clients → Option Clients
stop_unless ok client_id clients =
    if ok then some clients else signal_client_to_stop client_id clients

-- `sendMessageTo`, where `client` is the copy that the caller has read
unfoldable pub send_message_to :
    Bool × Bool → OutMessage → Client → ℕ → Clients → Option (Clients × List SendEvent)
unfolding stop_unless
send_message_to (size_ok, content_ok) msg client client_id clients =
    if is_running client.status
    then (stop_unless size_ok client_id clients >>= λ marked.
        stop_unless content_ok client_id marked >>= λ table. some (
          table,
          sent client.socket (u32 msg.size) size_ok
              ∷ sent client.socket msg.content content_ok
              ∷ [],
        ))
    else some (clients, [])

-- The loop of `startSending` over its copy of the table, from index `i` on; `get_client` reads the
-- item of the copy.
unfoldable pub send_each :
    Results → OutMessage → Clients → (rounds i : ℕ) → Clients → Option (Clients × List SendEvent)
send_each results msg copy zero i clients = some (clients, [])
send_each results msg copy (suc rounds) i clients = get_client i copy >>= λ client.
    send_message_to (results i) msg client i clients >>= λ (marked, events).
    send_each results msg copy rounds (i + 1) marked >>= λ (table, later).
    some (table, events ++ later)

module _ (q : QueueOf IndividualMessage) where
  -- `sendToEveryone`
  unfoldable pub send_to_everyone : OutMessage → Sender q.State → Option (Sender q.State)
  send_to_everyone message s = free s.message_to_everyone.address s.live >>= λ live.
      some (record s { message_to_everyone = message; live = live })

  -- `sendTo`
  unfoldable pub send_to : OutMessage → ℕ → Sender q.State → Option (Sender q.State)
  send_to message client_id s =
      q.add_back (record { message = message; client_id = client_id }) s.outgoing_queue >>= λ queue.
      some (record s { outgoing_queue = queue })

  -- `popMessageToEveryone`
  unfoldable pub pop_message_to_everyone : Sender q.State → OutMessage × Sender q.State
  pop_message_to_everyone s = (
    s.message_to_everyone,
    record s { message_to_everyone = record s.message_to_everyone { address = 0 } },
  )

  -- A round of the loop of `startSending`, behind the wait.
  unfoldable pub send_round :
      Results → Sender q.State → Clients → Option (Sender q.State × Clients × List SendEvent)
  unfolding pop_message_to_everyone
  send_round results s clients =
      if q.has_none s.outgoing_queue
      then (let (msg, popped) = pop_message_to_everyone s in
          let copy = get_all_clients clients in
          send_each results msg copy copy.size 0 clients >>= λ (table, events).
          free msg.address popped.live >>= λ live.
          some (record popped { live = live }, table, events))
      else (q.take_front s.outgoing_queue >>= λ (ind_msg, queue).
          get_client ind_msg.client_id clients >>= λ client.
          send_message_to (results ind_msg.client_id) ind_msg.message client ind_msg.client_id
            clients
          >>= λ (table, events). free ind_msg.message.address s.live >>= λ live.
              some (record s { outgoing_queue = queue; live = live }, table, events))

  -- The loop behind it, which empties the queue, with at most `fuel` tests.
  unfoldable pub drop_messages : ℕ → Sender q.State → Option (Sender q.State)
  drop_messages zero s = none
  drop_messages (suc fuel) s = elim (q.has_none s.outgoing_queue) [
    | true ↦ some s
    | false ↦ q.take_front s.outgoing_queue >>= λ (ind_msg, queue).
        free ind_msg.message.address s.live >>= λ live.
        drop_messages fuel (record s { outgoing_queue = queue; live = live })
  ]

  -- the end of `startSending`
  unfoldable pub finish_sending : ℕ → Sender q.State → Option (Sender q.State)
  unfolding drop_messages
  finish_sending fuel s = drop_messages fuel s >>= λ emptied.
      free emptied.message_to_everyone.address emptied.live >>= λ live.
      some (record emptied { live = live })
