-- ===== src/Server/Mutex/Calls.antt =====
-- The calls of the synchronized containers, as what they do to a mutex and to the data behind it,
-- and the threads that make such calls, a command of one thread at a time.
use pr_shooter.Prelude.{ℕ, ◌≡◌, List, [], ◌∷◌, ◌++◌, ◌==◌, if◌then◌else◌}
use package.pr_shooter.Server.Mutex.{
  Mutex, returned, lock_mutex, unlock_mutex, init_recursive_mutex,
}

pub data Command (D : Type 0) : Type 0 where
  lock unlock : Command D
  act : (D → D) → Command D

abbrev pub Call : Type 0 → Type 0
Call D = List (Command D)

-- A synchronized function: it locks the mutex, does its work and unlocks it.
unfoldable pub synchronized : {D : Type 0} → Call D → Call D
synchronized body = lock ∷ (body ++ (unlock ∷ []))

-- Another thread may hold the data between any two commands, but not between these.
unfoldable pub plain : {D : Type 0} → (D → D) → Call D
plain f = act f ∷ []

pub record Thread (D : Type 0) : Type 0 where
  pub current : Call D
  pub calls : List (Call D)

pub record System (D : Type 0) : Type 0 where
  pub mutex : Mutex
  pub shared : D
  pub threads : ℕ → Thread D

abbrev pub update : {A : Type 0} → ℕ → A → (ℕ → A) → ℕ → A
update i v f j = if i == j then v else f j

abbrev pub go_on : {D : Type 0} → ℕ → Call D → System D → ℕ → Thread D
go_on i rest s = update i (record { current = rest; calls = (s.threads i).calls }) s.threads

-- The next command of thread `i`. Work on the data needs no permission: nothing but the program
-- keeps a thread from it.
pub data Step {D : Type 0} (s : System D) : System D → Type 0 where
  enters :
      (i : ℕ) {rest : Call D} {calls : List (Call D)} {mutex : Mutex}
      → (s.threads i).current ≡ []
      → (s.threads i).calls ≡ (lock ∷ rest) ∷ calls
      → lock_mutex i s.mutex ≡ returned mutex
      → Step s (record s {
        mutex = mutex;
        threads = update i (record { current = rest; calls = calls }) s.threads;
      })
  locks :
      (i : ℕ) {rest : Call D} {mutex : Mutex}
      → (s.threads i).current ≡ lock ∷ rest
      → lock_mutex i s.mutex ≡ returned mutex
      → Step s (record s { mutex = mutex; threads = go_on i rest s })
  unlocks :
      (i : ℕ) {rest : Call D} {mutex : Mutex}
      → (s.threads i).current ≡ unlock ∷ rest
      → unlock_mutex i s.mutex ≡ returned mutex
      → Step s (record s { mutex = mutex; threads = go_on i rest s })
  acts :
      (i : ℕ) {f : D → D} {rest : Call D}
      → (s.threads i).current ≡ act f ∷ rest
      → Step s (record s { shared = f s.shared; threads = go_on i rest s })

-- Thread `i` has the calls `programs i` to make; the mutex is new.
abbrev pub start : {D : Type 0} → D → (ℕ → List (Call D)) → System D
start shared programs = record {
  mutex = init_recursive_mutex;
  shared = shared;
  threads = λ i. record { current = []; calls = programs i };
}

pub data Reach {D : Type 0} (shared : D) (programs : ℕ → List (Call D)) : System D → Type 0 where
  started : Reach shared programs (start shared programs)
  later : {s t : System D} → Reach shared programs s → Step s t → Reach shared programs t
