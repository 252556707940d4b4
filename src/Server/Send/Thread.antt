-- ===== src/Server/Send/Thread.antt =====
-- `waitForMessage` and `startSending` of Server/server_send.c as a whole: the turns of its loop, each
-- with the stop test, the wake-ups of the wait and the results of the calls of `send`. What other
-- threads do to the messages that wait and to the table of clients while this one waits, and until
-- its next turn, is a function.
pub mod Runs
use pr_shooter.Prelude.{
  ℕ, Bool, true, false, ◌&&◌, Option, none, some, List, [], ◌∷◌, ◌++◌, ◌==◌, if◌then◌else◌,
}
use pr_shooter.Wire.{◌>>=◌}
use package.pr_shooter.Server.Clients.{Clients}
use package.pr_shooter.Server.Queue.Interface.{QueueOf}
use package.pr_shooter.Server.Receive.Waiting.{WaitResult, signalled, timed_out, failed}
use package.pr_shooter.Server.Send.{
  OutMessage, IndividualMessage, Sender, SendEvent, Results, send_round, finish_sending,
}

abbrev pub Others : Type 0 → Type 0
Others S = S → Clients → S × Clients

-- A wake-up: what `pthread_cond_timedwait` returns, and what `isStopped` says then.
pub record SendWakeup (S : Type 0) : Type 0 where
  pub result : WaitResult
  pub told_to_stop : Bool
  pub meanwhile : Others S

-- There is something to send, or the thread is to end; it is `exit(1)`; or the wait goes on.
pub data SendWait (S : Type 0) : Type 0 where
  ready ends waiting : S → Clients → SendWait S
  wait_exits : SendWait S

-- A turn of the loop.
pub record Turn (S : Type 0) : Type 0 where
  pub told_to_stop : Bool
  pub wakeups : List (SendWakeup S)
  pub results : Results
  pub between : Others S

-- The thread is in its loop, has ended, or has ended the program; and what was sent.
pub data Run (S : Type 0) : Type 0 where
  sends : S → Clients → List SendEvent → Run S
  ended : S → Clients → List SendEvent → Run S
  exits : List SendEvent → Run S

module _ (q : QueueOf IndividualMessage) where
  -- the condition of the loop of `waitForMessage`
  unfoldable pub nothing_to_send : Sender q.State → Bool
  nothing_to_send s = q.has_none s.outgoing_queue && (s.message_to_everyone.address == 0)

  -- `waitForMessage`; after a time-out the loop goes on.
  unfoldable pub wait_to_send :
      List (SendWakeup (Sender q.State)) → Sender q.State → Clients → SendWait (Sender q.State)
  unfolding nothing_to_send
  wait_to_send [] s clients = if nothing_to_send s then waiting s clients else ready s clients
  wait_to_send (wakeup ∷ wakeups) s clients =
      let (s', table) = wakeup.meanwhile s clients in
      let later = wait_to_send wakeups s' table in
      if nothing_to_send s
      then (if wakeup.told_to_stop
          then ends s' table
          else elim wakeup.result [ signalled ↦ later | timed_out ↦ later | failed ↦ wait_exits ])
      else ready s clients

  abbrev pub after_events : List SendEvent → Run (Sender q.State) → Run (Sender q.State)
  after_events events (sends s clients later) = sends s clients (events ++ later)
  after_events events (ended s clients later) = ended s clients (events ++ later)
  after_events events (exits later) = exits (events ++ later)

  -- what follows the loop; `fuel` is for the tests of the queue
  unfoldable pub finish : ℕ → Sender q.State → Clients → Option (Run (Sender q.State))
  finish fuel s clients = finish_sending q fuel s >>= λ emptied. some (ended emptied clients [])

  -- `startSending`, as far as the turns go
  unfoldable pub start_sending :
      ℕ → List (Turn (Sender q.State)) → Sender q.State → Clients → Option (Run (Sender q.State))
  unfolding wait_to_send finish
  start_sending fuel [] s clients = some (sends s clients [])
  start_sending fuel (turn ∷ turns) s clients = elim turn.told_to_stop [
    | true ↦ finish fuel s clients
    | false ↦ elim (wait_to_send turn.wakeups s clients) [
      | waiting s' table ↦ some (sends s' table [])
      | ends s' table ↦ finish fuel s' table
      | wait_exits ↦ some (exits [])
      | ready s' table ↦ send_round q turn.results s' table >>= λ (sent, marked, events).
          let (s'', clients') = turn.between sent marked in
          start_sending fuel turns s'' clients' >>= λ later. some (after_events events later)
    ]
  ]
