-- ===== src/Server/SyncArray.antt =====
-- `SynchronizedArray` of Server/server_array.c: the array with its mutex, and the requests that
-- threads make of it. A reply is what a function returns, with the thread that gets it.
pub mod Interleaved
use pr_shooter.Prelude.{ℕ, Option, none, some, List, [], ◌∷◌}
use pr_shooter.Wire.{◌>>=◌}
use package.pr_shooter.Server.Array.{
  Array, array_create, array_push_back, array_get_item, array_clear,
}
use package.pr_shooter.Server.Mutex.{Mutex, Outcome, init_recursive_mutex, destroy_mutex}
use package.pr_shooter.Server.Mutex.Calls.{Call, synchronized, plain}

pub data Reply (A : Type 0) : Type 0 where
  index size : ℕ → Reply A
  item : Option A → Reply A
  done : Reply A

pub record Shared (A : Type 0) : Type 0 where
  pub array : Array A
  pub replies : List (ℕ × Reply A)

module _ {A : Type 0} where
  -- `arraySyncCreate`, with a mutex of its own
  unfoldable pub array_sync_create : ℕ → Mutex × Option (Shared A)
  array_sync_create capacity =
      (init_recursive_mutex, some (record { array = array_create capacity; replies = [] }))

  -- The work of `thread` behind the lock; once an assertion has failed, nothing follows.
  unfoldable pub work :
      ℕ → (Array A → Option (Reply A × Array A)) → Option (Shared A) → Option (Shared A)
  work thread f shared = shared >>= λ s. f s.array >>= λ (reply, array).
      some (record { array = array; replies = (thread, reply) ∷ s.replies })

  -- `arraySyncPushBack`
  unfoldable pub array_sync_push_back : ℕ → A → Call (Option (Shared A))
  unfolding work
  array_sync_push_back thread x = synchronized (
      plain
        (work thread (λ array. array_push_back x array >>= λ (i, grown). some (index i, grown))))

  -- `arraySyncSize`
  unfoldable pub array_sync_size : ℕ → Call (Option (Shared A))
  unfolding work
  array_sync_size thread =
      synchronized (plain (work thread (λ array. some (size array.size, array))))

  -- `arraySyncGetItem`
  unfoldable pub array_sync_get_item : ℕ → ℕ → Call (Option (Shared A))
  unfolding work
  array_sync_get_item thread i =
      synchronized
        (plain (work thread (λ array. array_get_item i array >>= λ slot. some (item slot, array))))

  -- `arraySyncClear`
  unfoldable pub array_sync_clear : ℕ → Call (Option (Shared A))
  unfolding work
  array_sync_clear thread =
      synchronized (plain (work thread (λ array. some (done, array_clear array))))

pub data Request (A : Type 0) : Type 0 where
  push_back : A → Request A
  get_size : Request A
  get_item : ℕ → Request A
  clear : Request A

abbrev pub request : {A : Type 0} → ℕ → Request A → Call (Option (Shared A))
request thread (push_back x) = array_sync_push_back thread x
request thread get_size = array_sync_size thread
request thread (get_item i) = array_sync_get_item thread i
request thread clear = array_sync_clear thread
