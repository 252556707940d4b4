-- ===== src/Server/Mutex/Serial.antt =====
-- Calls as wholes: what they do, and in which order they were begun.
pub mod Invariant
pub mod Steps
pub mod Reached
pub mod Kept
pub mod Requests
use mathlib.Core.Option.{some-injective}
use mathlib.Core.List.{append-nil, append_assoc}
use pr_shooter.Prelude.{
  ℕ, zero, suc, ◌<◌, ◌≡◌, ◌≢◌, refl, sym, ◌∙◌, ap, subst, Option, none, some, List, [], ◌∷◌, ◌++◌,
  ◌==◌, if◌then◌else◌, true, false, arith, inl, inr, Bool-cases, Option-cases, ◌+◌, ◌⊎◌,
}
use package.pr_shooter.Server.Mutex.{
  MutexType, errorcheck, recursive, Mutex, Outcome, returned, waits, exits, lock_mutex,
  lock_held_by, relock, unlock_mutex, unlock_held_by, unlock_once, init_recursive_mutex,
  init_mutex_with_attribute,
}
use package.pr_shooter.Server.Mutex.Calls.{
  Command, lock, unlock, act, Call, Thread, System, update, go_on, Step, enters, locks, unlocks,
  acts, start, Reach, started, later,
}

-- Commands that may follow while the mutex is locked `depth` times: they give it back as often, do
-- their work before that, and nothing behind it.
abbrev pub Held : {D : Type 0} → ℕ → Call D → Type 0
Held zero [] = Unit {0}
Held zero (c ∷ rest) = ⊥
Held (suc depth) [] = ⊥
Held (suc depth) (lock ∷ rest) = Held (suc (suc depth)) rest
Held (suc depth) (unlock ∷ rest) = Held depth rest
Held (suc depth) (act f ∷ rest) = Held (suc depth) rest

-- A call locks the mutex first, and gives it back at its end.
abbrev pub IsCall : {D : Type 0} → Call D → Type 0
IsCall [] = ⊥
IsCall (lock ∷ rest) = Held 1 rest
IsCall (unlock ∷ rest) = ⊥
IsCall (act f ∷ rest) = ⊥

abbrev pub AllCalls : {D : Type 0} → List (Call D) → Type 0
AllCalls [] = Unit {0}
AllCalls (c ∷ calls) = IsCall c × AllCalls calls

-- the calls that were begun, in that order, and by whom
abbrev pub Log : Type 0 → Type 0
Log D = List (ℕ × Call D)

module _ {A : Type 0} where
  pub update_self : (i : ℕ) (v : A) (f : ℕ → A) → update i v f i ≡ v
  update_self i v f = ground arith

  pub update_ne : (i j : ℕ) (v : A) (f : ℕ → A) → i ≢ j → update i v f j ≡ f j
  update_ne i j v f ne = ground arith

module _ {D : Type 0} where
  -- the work of a call, with nothing in between
  abbrev pub run : Call D → D → D
  run [] d = d
  run (lock ∷ rest) d = run rest d
  run (unlock ∷ rest) d = run rest d
  run (act f ∷ rest) d = run rest (f d)

  abbrev pub run_all : Log D → D → D
  run_all [] d = d
  run_all ((i, c) ∷ log) d = run_all log (run c d)

  abbrev pub calls_of : ℕ → Log D → List (Call D)
  calls_of j [] = []
  calls_of j ((i, c) ∷ log) = if i == j then c ∷ calls_of j log else calls_of j log

  pub run_all-append_last :
      (log : Log D) (i : ℕ) (c : Call D) (d : D)
      → run_all (log ++ ((i, c) ∷ [])) d ≡ run c (run_all log d)
  run_all-append_last [] i c d = refl
  run_all-append_last ((j, b) ∷ log) i c d = run_all-append_last log i c (run b d)

  pub calls_of-append_self :
      (log : Log D) (i : ℕ) (c : Call D) (rest : List (Call D))
      → calls_of i (log ++ ((i, c) ∷ [])) ++ rest ≡ calls_of i log ++ (c ∷ rest)
  calls_of-append_self [] i c rest = let same : (i == i) ≡ true = ground arith in rw same refl
  calls_of-append_self ((j, b) ∷ log) i c rest = elim (Bool-cases (j == i)) [
    | inl e ↦ rw e (ap (λ cs. b ∷ cs) (calls_of-append_self log i c rest))
    | inr e ↦ rw e (calls_of-append_self log i c rest)
  ]

  pub calls_of-append_ne :
      (log : Log D) (i j : ℕ) (c : Call D)
      → i ≢ j
      → calls_of j (log ++ ((i, c) ∷ [])) ≡ calls_of j log
  calls_of-append_ne [] i j c ne = let other : (i == j) ≡ false = ground arith in rw other refl
  calls_of-append_ne ((k, b) ∷ log) i j c ne = elim (Bool-cases (k == j)) [
    | inl e ↦ rw e (ap (λ cs. b ∷ cs) (calls_of-append_ne log i j c ne))
    | inr e ↦ rw e (calls_of-append_ne log i j c ne)
  ]
