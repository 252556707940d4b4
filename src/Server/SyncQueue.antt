-- ===== src/Server/SyncQueue.antt =====
-- `SynchronizedQueue` of Server/server_queue.c with its mutex, as calls of synchronized functions
-- over a queue that keeps to its interface; and the calls that Server/server_receive.c makes inside a
-- `queueLock` of its own. A reply is what a function returns, with the thread that gets it.
pub mod Order
use pr_shooter.Prelude.{
  ℕ, Bool, Option, none, some, List, [], ◌∷◌, ◌++◌, true, false, if◌then◌else◌,
}
use pr_shooter.Wire.{◌>>=◌}
use package.pr_shooter.Server.Queue.Interface.{QueueOf}
use package.pr_shooter.Server.Mutex.Calls.{Call, synchronized, plain}

pub data QueueReply (A : Type 0) : Type 0 where
  was_empty : Bool → QueueReply A
  popped : A → QueueReply A
  nothing : QueueReply A

pub record SharedQueue (Q A : Type 0) : Type 0 where
  pub queue : Q
  pub replies : List (ℕ × QueueReply A)

module _ {A : Type 0} (q : QueueOf A) where
  abbrev pub Shared : Type 0
  Shared = Option (SharedQueue q.State A)

  -- work that changes the queue
  unfoldable pub change : (q.State → Option q.State) → Shared → Shared
  change f shared = shared >>= λ s. f s.queue >>= λ queue. some (record s { queue = queue })

  unfoldable pub test : ℕ → Shared → Shared
  test thread shared = shared >>= λ s.
      some (record s { replies = (thread, was_empty (q.has_none s.queue)) ∷ s.replies })

  -- the first element, if there is one
  unfoldable pub pop_if_any : ℕ → Shared → Shared
  pop_if_any thread shared = shared >>= λ s.
      if q.has_none s.queue
      then some (record s { replies = (thread, nothing) ∷ s.replies })
      else (q.take_front s.queue >>= λ (x, rest).
          some (record { queue = rest; replies = (thread, popped x) ∷ s.replies }))

  -- `queueSyncPushBack`
  unfoldable pub queue_sync_push_back : A → Call Shared
  unfolding change
  queue_sync_push_back x = synchronized (plain (change (q.add_back x)))

  -- `queueSyncPushFront`
  unfoldable pub queue_sync_push_front : A → Call Shared
  unfolding change
  queue_sync_push_front x = synchronized (plain (change (q.add_front x)))

  -- `queueSyncIsEmpty`
  unfoldable pub queue_sync_is_empty : ℕ → Call Shared
  unfolding test
  queue_sync_is_empty thread = synchronized (plain (test thread))

  -- A message that `startReceiving` passes on: `queueSyncPushBack` inside `queueLock`.
  unfoldable pub pass_on : A → Call Shared
  unfolding queue_sync_push_back
  pass_on x = synchronized (queue_sync_push_back x)

  -- `take` without its wait: `queueSyncIsEmpty` and `queueSyncPopCopyFront` inside `queueLock`. The
  -- code leaves the second out if the queue is empty.
  unfoldable pub take_now : ℕ → Call Shared
  unfolding pop_if_any
  take_now thread =
      synchronized
        (synchronized (plain (λ shared. shared)) ++ synchronized (plain (pop_if_any thread)))

pub data QueueRequest (A : Type 0) : Type 0 where
  back front passed : A → QueueRequest A
  asks takes : QueueRequest A

abbrev pub queue_call : {A : Type 0} (q : QueueOf A) → ℕ → QueueRequest A → Call (Shared q)
queue_call q thread (back x) = queue_sync_push_back q x
queue_call q thread (front x) = queue_sync_push_front q x
queue_call q thread (passed x) = pass_on q x
queue_call q thread asks = queue_sync_is_empty q thread
queue_call q thread takes = take_now q thread
