-- ===== src/Server/Mutex/Serial/Reached.antt =====
-- What holds wherever threads that make calls get to.
use pr_shooter.Prelude.{
  arith, ℕ, zero, suc, ◌<◌, ◌≡◌, ◌≢◌, refl, none, some, List, [], ◌∷◌, ◌++◌, inl, inr, Option-cases,
  ◌⊎◌,
}
use package.pr_shooter.Server.Mutex.{
  recursive, exits, lock_held_by, relock, Mutex, lock_mutex, unlock_mutex,
}
use package.pr_shooter.Server.Mutex.Calls.{
  lock, unlock, act, Call, System, Step, enters, locks, unlocks, acts, Reach, started, later,
}
use package.pr_shooter.Server.Mutex.Serial.{Held, AllCalls, Log, run, run_all, calls_of}
use package.pr_shooter.Server.Mutex.Serial.Invariant.{
  lock_free, lock_again, unlock_own, IsSerial, current-owner, start-IsSerial,
}
use package.pr_shooter.Server.Mutex.Serial.Steps.{
  acts-IsSerial, locks-IsSerial, unlocks-IsSerial, enters-IsSerial,
}

module _ {D : Type 0} (shared : D) (programs : ℕ → List (Call D)) where
  Step-IsSerial :
      {s t : System D} {log : Log D}
      → IsSerial shared programs s log
      → Step s t
      → (log' : Log D) × IsSerial shared programs t log'
  Step-IsSerial {s} {log} serial (enters i {rest} {calls} {mutex} idle next e) =
      (_, enters-IsSerial shared programs s log i rest calls mutex serial idle next e)
  Step-IsSerial {s} {log} serial (locks i {rest} {mutex} next e) =
      (log, locks-IsSerial shared programs s log i rest mutex serial next e)
  Step-IsSerial {s} {log} serial (unlocks i {rest} {mutex} next e) =
      (log, unlocks-IsSerial shared programs s log i rest mutex serial next e)
  Step-IsSerial {s} {log} serial (acts i {f} {rest} next) =
      (log, acts-IsSerial shared programs s log i f rest serial next)

  Reach-IsSerial :
      {s : System D}
      → ((i : ℕ) → AllCalls (programs i))
      → Reach shared programs s
      → (log : Log D) × IsSerial shared programs s log
  Reach-IsSerial ok started = ([], start-IsSerial shared programs ok)
  Reach-IsSerial ok (later r move) =
      let (log, serial) = Reach-IsSerial ok r in Step-IsSerial serial move

  -- Where every call locks the recursive mutex first, gives it back as often as it takes it, and
  -- works on the data in between, the commands of the threads may be interleaved in any way: there
  -- is an order of whole calls, in which each thread's calls come in its own order, that explains
  -- the data. When nobody holds the mutex, the data is what those calls make of it one after the
  -- other; when a thread holds it, what is left of its call leads there.
  pub Reach-serial :
      (s : System D)
      → ((i : ℕ) → AllCalls (programs i))
      → Reach shared programs s
      → (log : Log D) × ((j : ℕ) → calls_of j log ++ (s.threads j).calls ≡ programs j)
        × (s.mutex.owner ≡ none → s.shared ≡ run_all log shared)
        × ((i : ℕ)
            → s.mutex.owner ≡ some i
            → run (s.threads i).current s.shared ≡ run_all log shared)
  Reach-serial s ok r =
      let (log, serial) = Reach-IsSerial ok r in
      (log, serial.order, serial.free_eq, serial.shared_eq)

  goes_on :
      (s : System D) (log : Log D) (i : ℕ) (cs : Call D)
      → IsSerial shared programs s log
      → s.mutex.owner ≡ some i
      → (s.threads i).current ≡ cs
      → (n : ℕ) → 0 < n
      → Held n cs
      → (t : System D) × Step s t
  goes_on s log i [] serial owned e zero pos h = absurd (omega arith)
  goes_on s log i [] serial owned e (suc n) pos h = absurd h
  goes_on s log i (lock ∷ rest) serial owned e n pos h =
      (_, locks i e (lock_again i s.mutex owned serial.type_eq))
  goes_on s log i (unlock ∷ rest) serial owned e n pos h =
      (_, unlocks i e (unlock_own i s.mutex owned))
  goes_on s log i (act f ∷ rest) serial owned e n pos h = (_, acts i e)

  begins :
      (s : System D) (i : ℕ) (cs : List (Call D))
      → s.mutex.owner ≡ none
      → (s.threads i).current ≡ []
      → AllCalls cs
      → (s.threads i).calls ≡ cs
      → cs ≢ []
      → (t : System D) × Step s t
  begins s i [] free idle ok e ne = absurd (ne refl)
  begins s i ([] ∷ calls) free idle ok e ne = absurd (ok.0)
  begins s i ((lock ∷ rest) ∷ calls) free idle ok e ne =
      (_, enters i idle e (lock_free i s.mutex free))
  begins s i ((unlock ∷ rest) ∷ calls) free idle ok e ne = absurd (ok.0)
  begins s i ((act f ∷ rest) ∷ calls) free idle ok e ne = absurd (ok.0)

  current-nonempty :
      (s : System D) (log : Log D) (i : ℕ) (cs : Call D)
      → IsSerial shared programs s log
      → (s.threads i).current ≡ cs
      → cs ≢ []
      → s.mutex.owner ≡ some i
  current-nonempty s log i [] serial e ne = absurd (ne refl)
  current-nonempty s log i (c ∷ rest) serial e ne =
      current-owner shared programs s log i c rest serial e

  lock-ne-exits : (i : ℕ) (m : Mutex) → m.type ≡ recursive → lock_mutex i m ≢ exits
  unfolding lock_mutex lock_held_by relock
  lock-ne-exits i m e = ground arith

  unlock-ne-exits : (i : ℕ) (m : Mutex) → m.owner ≡ some i → unlock_mutex i m ≢ exits
  unlock-ne-exits i m e e' = let own = unlock_own i m e in cc

  -- Where every call locks the recursive mutex first, gives it back as often as it takes it, and
  -- works on the data in between, only the thread that holds the mutex is ever inside a call, so
  -- that two threads never work on the data at the same time; and no lock, and no unlock that is a
  -- thread's next command, ends the program with an error.
  pub Reach-exclusive :
      (s : System D)
      → ((i : ℕ) → AllCalls (programs i))
      → Reach shared programs s
      → ((i : ℕ) → (s.threads i).current ≢ [] → s.mutex.owner ≡ some i)
        × ((i : ℕ) → lock_mutex i s.mutex ≢ exits)
        × ((i : ℕ) (rest : Call D)
            → (s.threads i).current ≡ unlock ∷ rest
            → unlock_mutex i s.mutex ≢ exits)
  Reach-exclusive s ok r =
      let (log, serial) = Reach-IsSerial ok r in
      (
        λ i ne. current-nonempty s log i (s.threads i).current serial refl ne,
        λ i. lock-ne-exits i s.mutex serial.type_eq,
        λ i rest e.
            unlock-ne-exits i s.mutex (current-owner shared programs s log i unlock rest serial e),
      )

  -- Where every call locks the recursive mutex first, gives it back as often as it takes it, and
  -- works on the data in between, the threads are never stuck: as long as one of them has a call to
  -- begin or is inside one, some thread can take a step.
  pub Reach-progress :
      (s : System D) (i : ℕ)
      → ((j : ℕ) → AllCalls (programs j))
      → Reach shared programs s
      → ((s.threads i).calls ≢ []) ⊎ ((s.threads i).current ≢ [])
      → (t : System D) × Step s t
  Reach-progress s i ok r left =
      let (log, serial) = Reach-IsSerial ok r in
      elim (Option-cases s.mutex.owner) [
        | inr (o, owned) ↦
            goes_on s log o (s.threads o).current serial owned refl s.mutex.depth
              (serial.depth_pos o owned) (serial.held o owned)
        | inl free ↦
            let idle = serial.others i (λ e. cc) in
            elim left [
              | inl more ↦ begins s i (s.threads i).calls free idle (serial.calls_ok i) refl more
              | inr more ↦ absurd (more idle)
            ]
      ]
