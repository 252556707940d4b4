-- ===== src/Server/Receive.antt =====
-- Server/server_receive.c: the thread that receives from one client, and `take`. What the system
-- calls return is given round by round; the queue is any that keeps to its interface. What the
-- thread does that others can see is a list of actions, each of which is one step.
pub mod Frames
pub mod Thread
pub mod Delivery
pub mod Blocks
pub mod Emptying
pub mod Delivered
pub mod Waiting
use pr_shooter.Prelude.{
  ℕ, zero, suc, ◌+◌, ◌-◌, ◌%◌, ◌/◌, ◌^◌, Bool, true, false, not, Option, none, some, List, [], ◌∷◌,
  ◌++◌, ◌==◌, if◌then◌else◌, length, ltb,
}
use pr_shooter.Wire.{◌>>=◌, Bytes, from_bytes}
use pr_shooter.Game.Messages.{
  MessageType, new_connection, lost_connection, empty, message, IncomingMessage,
}
use package.pr_shooter.Server.Clients.{ThreadStatus, running, stop, stopped}
use package.pr_shooter.Server.Queue.Interface.{QueueOf}

-- the result of `poll`: an error, with whether `errno` is `EINTR`; a time-out; or an event, with
-- whether there is something to read
pub data Poll : Type 0 where
  poll_error : Bool → Poll
  timed_out : Poll
  event : Bool → Poll

-- the result of `recv`: -1, or the bytes that were received
pub data Received : Type 0 where
  recv_error : Received
  received : Bytes → Received

-- One round of the loop: the status that it starts with, and what its system calls return.
pub record Round : Type 0 where
  pub status : ThreadStatus
  pub polled : Poll
  pub sized : Received
  pub filled : Received

pub data Action : Type 0 where
  allocate release : Action
  enqueue_back enqueue_front : IncomingMessage → Action
  close_socket set_stopped : Action

-- whether the loop goes on
pub data Outcome : Type 0 where
  stay leave : List Action → Outcome

abbrev pub is_running : ThreadStatus → Bool
is_running running = true
is_running stop = false
is_running stopped = false

-- A result of `recv` that an `int` keeps, as the `size_t` that it is compared as: from 2^31 on the
-- `int` is negative.
unfoldable pub as_int : ℕ → ℕ
as_int n = let low = n % 2 ^ 32 in if ltb low (2 ^ 31) then low else low + (2 ^ 64 - 2 ^ 32)

-- The second `recv`: `size` bytes into the block that was allocated. Its result is kept in an `int`.
unfoldable pub receive_content : (client_id size : ℕ) → Received → Outcome
unfolding as_int
receive_content client_id size recv_error = leave (allocate ∷ release ∷ [])
receive_content client_id size (received bytes) =
    if as_int (length bytes) == size
    then stay (
        allocate
        ∷ enqueue_back (record { message_type = message; client_id = client_id; buffer = bytes })
        ∷ [])
    else leave (allocate ∷ release ∷ [])

-- The first `recv`: the 4 bytes of the size.
unfoldable pub receive_message : (client_id : ℕ) → Received → Received → Outcome
unfolding receive_content as_int
receive_message client_id recv_error filled = leave []
receive_message client_id (received bytes) filled =
    if as_int (length bytes) == 4
    then receive_content client_id (from_bytes bytes) filled
    else leave []

-- the body of the loop
unfoldable pub receive_round : (client_id : ℕ) → Poll → Received → Received → Outcome
unfolding receive_message
receive_round client_id (poll_error interrupted) sized filled =
    if interrupted then stay [] else leave []
receive_round client_id timed_out sized filled = stay []
receive_round client_id (event readable) sized filled =
    if readable then receive_message client_id sized filled else stay []

-- The loop over the rounds that have happened, and whether it has been left.
unfoldable pub receive_loop : (client_id : ℕ) → List Round → List Action × Bool
unfolding receive_round
receive_loop client_id [] = ([], false)
receive_loop client_id (r ∷ rounds) =
    let rest = receive_loop client_id rounds in
    if is_running r.status
    then elim (receive_round client_id r.polled r.sized r.filled) [
      | stay actions ↦ (actions ++ rest.0, rest.1)
      | leave actions ↦ (actions, true)
    ]
    else ([], true)

abbrev pub notice : MessageType → ℕ → IncomingMessage
notice type client_id = record { message_type = type; client_id = client_id; buffer = [] }

-- the end of `startReceiving`
abbrev pub farewell : ℕ → List Action
farewell client_id =
    enqueue_front (notice lost_connection client_id) ∷ close_socket ∷ set_stopped ∷ []

-- `startReceiving`, as far as the rounds go
unfoldable pub start_receiving : (client_id : ℕ) → List Round → List Action
unfolding receive_loop
start_receiving client_id rounds =
    let (actions, left) = receive_loop client_id rounds in
    enqueue_back (notice new_connection client_id)
    ∷ (actions ++ (if left then farewell client_id else []))

module _ (q : QueueOf IncomingMessage) where
  -- what an action does to the queue of received messages
  unfoldable pub perform : Action → q.State → Option q.State
  perform (enqueue_back m) s = q.add_back m s
  perform (enqueue_front m) s = q.add_front m s
  perform allocate s = some s
  perform release s = some s
  perform close_socket s = some s
  perform set_stopped s = some s

  unfoldable pub perform_all : List Action → q.State → Option q.State
  unfolding perform
  perform_all [] s = some s
  perform_all (a ∷ actions) s = perform a s >>= perform_all actions

  -- `waitForMessage` and `take`, where `waited` is the queue when the wait is over: the first
  -- message, or one of type `EMPTY` after a time-out
  unfoldable pub take_message : q.State → Option (IncomingMessage × q.State)
  take_message waited =
      if q.has_none waited
      then some (record { message_type = empty; client_id = 0; buffer = [] }, waited)
      else q.take_front waited
