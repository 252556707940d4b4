-- ===== src/Server/Receive/Waiting.antt =====
-- `waitForMessage` and `take` of Server/server_receive.c with the wait: a list of wake-ups, each with
-- what `pthread_cond_timedwait` returned and what the threads of the clients did to the queue while
-- the mutex was theirs.
pub mod Answers
use pr_shooter.Prelude.{ℕ, true, false, Option, some, List, [], ◌∷◌, if◌then◌else◌}
use pr_shooter.Wire.{◌>>=◌}
use pr_shooter.Game.Messages.{empty, IncomingMessage}
use package.pr_shooter.Server.Queue.Interface.{QueueOf}
use package.pr_shooter.Server.Receive.{Action, perform_all}

-- 0, which a spurious wake-up returns too; `ETIMEDOUT`; or another error
pub data WaitResult : Type 0 where
  signalled timed_out failed : WaitResult

pub record Wakeup : Type 0 where
  pub result : WaitResult
  pub arrived : List Action

-- The wait is over, with a message; it has timed out; it is `exit(1)`; or it goes on.
pub data Waited (S : Type 0) : Type 0 where
  ready expired waiting : S → Waited S
  wait_exits : Waited S

pub data Taken (S : Type 0) : Type 0 where
  taken : IncomingMessage → S → Taken S
  still_waiting : S → Taken S
  take_exits : Taken S

-- `recv_msg` at the start of `take`
abbrev pub no_message : IncomingMessage
no_message = record { message_type = empty; client_id = 0; buffer = [] }

module _ (q : QueueOf IncomingMessage) where
  -- `waitForMessage`
  unfoldable pub wait_for_message : List Wakeup → q.State → Option (Waited q.State)
  wait_for_message [] s = some (if q.has_none s then waiting s else ready s)
  wait_for_message (wakeup ∷ wakeups) s =
      if q.has_none s
      then (perform_all q wakeup.arrived s >>= λ woken. elim wakeup.result [
        | signalled ↦ wait_for_message wakeups woken
        | timed_out ↦ some (expired woken)
        | failed ↦ some wait_exits
      ])
      else some (ready s)

  unfoldable pub after_wait : Waited q.State → Option (Taken q.State)
  after_wait (ready s) = q.take_front s >>= λ (m, rest). some (taken m rest)
  after_wait (expired s) = some (taken no_message s)
  after_wait (waiting s) = some (still_waiting s)
  after_wait wait_exits = some take_exits

  -- `take`
  unfoldable pub take : List Wakeup → q.State → Option (Taken q.State)
  unfolding wait_for_message after_wait
  take wakeups s = wait_for_message wakeups s >>= after_wait
