-- ===== src/Tests/Mutexes.antt =====
-- Threads that share a number, and threads that share an array.
use pr_shooter.Prelude.{
  ℕ, suc, ◌≡◌, ◌≢◌, ◌⊎◌, refl, Option, none, some, List, [], ◌∷◌, ◌++◌, inr, map,
}
use pr_shooter.Wire.{◌>>=◌}
use pr_shooter.Server.Array.{array_push_back}
use pr_shooter.Server.Array.Holds.{Holds}
use pr_shooter.Server.Mutex.{
  exits, lock_mutex, unlock_mutex, init_recursive_mutex, init_mutex_with_attribute, lock_held_by,
  unlock_held_by, unlock_once, recursive,
}
use pr_shooter.Server.Mutex.Calls.{
  Call, System, update, go_on, Step, enters, unlocks, acts, start, Reach, started, later,
  synchronized, plain, unlock,
}
use pr_shooter.Server.Mutex.Serial.{Log, run, run_all, calls_of, AllCalls}
use pr_shooter.Server.Mutex.Serial.Reached.{Reach-serial, Reach-exclusive, Reach-progress}
use pr_shooter.Server.SyncArray.{
  Reply, Shared, array_sync_create, work, Request, push_back, get_item, request,
}

-- A step to the state that it names.
abbrev pub entered : {D : Type 0} → ℕ → Call D → List (Call D) → System D → System D
entered i rest calls s = record s {
  mutex = record { type = recursive; owner = some i; depth = 1 };
  threads = update i (record { current = rest; calls = calls }) s.threads;
}

abbrev pub acted : {D : Type 0} → ℕ → (D → D) → Call D → System D → System D
acted i f rest s = record s { shared = f s.shared; threads = go_on i rest s }

-- The thread that holds the mutex has locked it `depth` times now.
abbrev pub deeper : {D : Type 0} → ℕ → ℕ → Call D → System D → System D
deeper i depth rest s = record s {
  mutex = record { type = recursive; owner = some i; depth = depth };
  threads = go_on i rest s;
}

abbrev pub unlocked : {D : Type 0} → ℕ → System D → System D
unlocked i s = record s {
  mutex = record { type = recursive; owner = none; depth = 0 };
  threads = go_on i [] s;
}

-- Every thread adds one, once.
abbrev programs : ℕ → List (Call ℕ)
programs i = synchronized (plain suc) ∷ []

-- The first thread has been through its call, and the second has begun its own.
abbrev second_begins : System ℕ
second_begins = entered 1 (plain suc ++ (unlock ∷ [])) [] (
    unlocked 0
      (acted 0 suc (unlock ∷ []) (entered 0 (plain suc ++ (unlock ∷ [])) [] (start 0 programs))))

programs-AllCalls : (i : ℕ) → AllCalls (programs i)
unfolding synchronized plain
programs-AllCalls i = (tt, tt)

begun : Reach 0 programs second_begins
unfolding synchronized plain lock_mutex lock_held_by unlock_mutex unlock_held_by unlock_once
    init_recursive_mutex init_mutex_with_attribute
begun =
    later
      (later (later (later started (enters 0 refl refl refl)) (acts 0 refl)) (unlocks 0 refl refl))
      (enters 1 refl refl refl)

Reach-serial_example :
    (log : Log ℕ) × ((j : ℕ) → calls_of j log ++ (second_begins.threads j).calls ≡ programs j)
    × (second_begins.mutex.owner ≡ none → second_begins.shared ≡ run_all log 0)
    × ((i : ℕ)
        → second_begins.mutex.owner ≡ some i
        → run (second_begins.threads i).current second_begins.shared ≡ run_all log 0)
Reach-serial_example = Reach-serial 0 programs second_begins programs-AllCalls begun

Reach-exclusive_example :
    ((i : ℕ) → (second_begins.threads i).current ≢ [] → second_begins.mutex.owner ≡ some i)
    × ((i : ℕ) → lock_mutex i second_begins.mutex ≢ exits)
    × ((i : ℕ) (rest : Call ℕ)
        → (second_begins.threads i).current ≡ unlock ∷ rest
        → unlock_mutex i second_begins.mutex ≢ exits)
Reach-exclusive_example = Reach-exclusive 0 programs second_begins programs-AllCalls begun

has_more : ((second_begins.threads 1).calls ≢ []) ⊎ ((second_begins.threads 1).current ≢ [])
unfolding plain
has_more = inr (λ e. cc)

Reach-progress_example : (t : System ℕ) × Step second_begins t
Reach-progress_example = Reach-progress 0 programs second_begins 1 programs-AllCalls begun has_more

-- Every thread pushes its own number and reads the first item.
abbrev requests : ℕ → List (Request ℕ)
requests i = push_back i ∷ get_item 0 ∷ []

abbrev push : Option (Shared ℕ) → Option (Shared ℕ)
push = work 4 (λ array. array_push_back 4 array >>= λ (i, grown). some (Reply.index i, grown))

-- Thread 4 has pushed.
abbrev pushed : System (Option (Shared ℕ))
pushed = unlocked 4 (
    acted 4 push (unlock ∷ []) (
      entered 4 (plain push ++ (unlock ∷ [])) (request 4 (get_item 0) ∷ [])
        (start (array_sync_create 1).1 (λ i. map (request i) (requests i)))))
