-- ===== src/Tests/SyncQueues.antt =====
-- Threads that share a queue.
use pr_shooter.Prelude.{ℕ, some, List, [], ◌∷◌, map}
use pr_shooter.Server.Mutex.Calls.{lock, act, unlock, System, start}
use pr_shooter.Server.Queue.{Queue, queue_create, push_back}
use pr_shooter.Server.Queue.Interface.{QueueOf, linked_queue}
use pr_shooter.Server.SyncQueue.{Shared, change, take_now, QueueRequest, passed, takes, queue_call}
use package.pr_shooter.Tests.Mutexes.{entered, acted, deeper, unlocked}

abbrev numbers : QueueOf ℕ
numbers = linked_queue ℕ

abbrev empty_queue : Queue ℕ
empty_queue = queue_create (record { nodes = []; blocks = []; unused = 1 })

-- Every thread passes its own number on and takes one.
abbrev queue_requests : ℕ → List (QueueRequest ℕ)
queue_requests i = passed i ∷ takes ∷ []

abbrev before_pushing : System (Shared numbers)
before_pushing =
    start (some (record { queue = empty_queue; replies = [] }))
      (λ i. map (queue_call numbers i) (queue_requests i))

abbrev pass_4 : Shared numbers → Shared numbers
pass_4 = change numbers (push_back 4)

-- Thread 4 has locked the mutex twice, pushed, and given it back twice.
abbrev passed_on : System (Shared numbers)
passed_on = unlocked 4 (
    deeper 4 1 (unlock ∷ []) (
      acted 4 pass_4 (unlock ∷ unlock ∷ []) (
        deeper 4 2 (act pass_4 ∷ unlock ∷ unlock ∷ []) (
          entered 4 (lock ∷ act pass_4 ∷ unlock ∷ unlock ∷ []) (take_now numbers 4 ∷ [])
            before_pushing))))
