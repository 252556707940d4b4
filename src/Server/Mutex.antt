-- ===== src/Server/Mutex.antt =====
-- Server/server_mutex.c: the wrappers of `pthread_mutex_t`, which end the program on an error. POSIX
-- says what the functions behind them do with a mutex of type ERRORCHECK or RECURSIVE; a thread is a
-- number.
pub mod Calls
pub mod Serial
use pr_shooter.Prelude.{ℕ, zero, suc, Option, none, some, ◌==◌, if◌then◌else◌}

pub data MutexType : Type 0 where
  errorcheck recursive : MutexType

-- The thread that holds the mutex, and how often it has locked it.
pub record Mutex : Type 0 where
  pub type : MutexType
  pub owner : Option ℕ
  pub depth : ℕ

-- What a call comes to: it returns, it waits for another thread, or it is `exit(1)`.
pub data Outcome : Type 0 where
  returned : Mutex → Outcome
  waits : Outcome
  exits : Outcome

-- `initMutexWithAttribute`
unfoldable pub init_mutex_with_attribute : MutexType → Mutex
init_mutex_with_attribute type = record { type = type; owner = none; depth = 0 }

-- `initMutex`
unfoldable pub init_mutex : Mutex
unfolding init_mutex_with_attribute
init_mutex = init_mutex_with_attribute errorcheck

-- `initRecursiveMutex`
unfoldable pub init_recursive_mutex : Mutex
unfolding init_mutex_with_attribute
init_recursive_mutex = init_mutex_with_attribute recursive

-- the thread that holds the mutex locks it again
unfoldable pub relock : MutexType → Mutex → Outcome
relock errorcheck mutex = exits
relock recursive mutex = returned (record mutex { depth = suc mutex.depth })

unfoldable pub lock_held_by : Option ℕ → ℕ → Mutex → Outcome
unfolding relock
lock_held_by none thread mutex = returned (record mutex { owner = some thread; depth = 1 })
lock_held_by (some owner) thread mutex = if owner == thread then relock mutex.type mutex else waits

-- `lockMutex`, called by `thread`
unfoldable pub lock_mutex : ℕ → Mutex → Outcome
unfolding lock_held_by
lock_mutex thread mutex = lock_held_by mutex.owner thread mutex

-- the owner gives the mutex back once
unfoldable pub unlock_once : ℕ → Mutex → Mutex
unlock_once zero mutex = record mutex { owner = none }
unlock_once (suc zero) mutex = record mutex { owner = none; depth = 0 }
unlock_once (suc (suc depth)) mutex = record mutex { depth = suc depth }

unfoldable pub unlock_held_by : Option ℕ → ℕ → Mutex → Outcome
unfolding unlock_once
unlock_held_by none thread mutex = exits
unlock_held_by (some owner) thread mutex =
    if owner == thread then returned (unlock_once mutex.depth mutex) else exits

-- `unlockMutex`, called by `thread`
unfoldable pub unlock_mutex : ℕ → Mutex → Outcome
unfolding unlock_held_by
unlock_mutex thread mutex = unlock_held_by mutex.owner thread mutex

-- `destroyMutex`
unfoldable pub destroy_mutex : Mutex → Outcome
destroy_mutex mutex = elim mutex.owner [ none ↦ returned mutex | some owner ↦ exits ]
