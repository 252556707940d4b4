-- ===== src/Server/Mutex/Serial/Kept.antt =====
-- What every whole call keeps, every interleaving of calls keeps.
use pr_shooter.Prelude.{
  ℕ, ◌≡◌, refl, sym, subst, none, List, [], ◌∷◌, ◌++◌, ◌==◌, arith, inl, inr, Bool-cases, true,
  if◌then◌else◌,
}
use package.pr_shooter.Server.Mutex.Calls.{Call, System, Reach, synchronized, plain}
use package.pr_shooter.Server.Mutex.Serial.{IsCall, AllCalls, Log, run, run_all, calls_of}
use package.pr_shooter.Server.Mutex.Serial.Reached.{Reach-serial}

module _ {D : Type 0} (P : D → Type 0) where
  abbrev pub Keeps : Call D → Type 0
  Keeps c = (d : D) → P d → P (run c d)

  abbrev pub AllKeep : List (Call D) → Type 0
  AllKeep [] = Unit {0}
  AllKeep (c ∷ calls) = Keeps c × AllKeep calls

  abbrev LogKeeps : Log D → Type 0
  LogKeeps [] = Unit {0}
  LogKeeps ((i, c) ∷ log) = Keeps c × LogKeeps log

  AllKeep-prefix : (cs rest : List (Call D)) → AllKeep (cs ++ rest) → AllKeep cs
  AllKeep-prefix [] rest h = tt
  AllKeep-prefix (c ∷ cs) rest (h, hs) = (h, AllKeep-prefix cs rest hs)

  LogKeeps-calls_of : (log : Log D) → ((j : ℕ) → AllKeep (calls_of j log)) → LogKeeps log
  LogKeeps-calls_of [] h = tt
  LogKeeps-calls_of ((i, c) ∷ log) h = (own.0, LogKeeps-calls_of log rest)
    where
      own : Keeps c × AllKeep (calls_of i log)
      own =
          let same : (i == i) ≡ true = ground arith in
          subst (λ b. AllKeep (if b then c ∷ calls_of i log else calls_of i log)) same (h i)

      rest : (j : ℕ) → AllKeep (calls_of j log)
      rest j = elim (Bool-cases (i == j)) [
        | inl e ↦
            (subst (λ b. AllKeep (if b then c ∷ calls_of j log else calls_of j log)) e (h j)).1
        | inr e ↦ subst (λ b. AllKeep (if b then c ∷ calls_of j log else calls_of j log)) e (h j)
      ]

  LogKeeps-run_all : (log : Log D) (d : D) → LogKeeps log → P d → P (run_all log d)
  LogKeeps-run_all [] d h p = p
  LogKeeps-run_all ((i, c) ∷ log) d (h, hs) p = LogKeeps-run_all log (run c d) hs (h d p)

  -- Where every call locks the recursive mutex first, gives it back as often as it takes it, works
  -- on the data in between, and as a whole keeps `P`, the data satisfies `P` whenever nobody holds
  -- the mutex, in whatever way the commands of the threads are interleaved.
  pub Reach-keeps :
      (shared : D) (programs : ℕ → List (Call D)) (s : System D)
      → ((i : ℕ) → AllCalls (programs i))
      → ((i : ℕ) → AllKeep (programs i))
      → P shared
      → Reach shared programs s
      → s.mutex.owner ≡ none
      → P s.shared
  Reach-keeps shared programs s ok keep p r free =
      let (log, order, data_eq, _) = Reach-serial shared programs s ok r in
      subst P (sym (data_eq free)) (
        LogKeeps-run_all log shared
          (LogKeeps-calls_of log λ j.
            AllKeep-prefix (calls_of j log) (s.threads j).calls
              (subst AllKeep (sym (order j)) (keep j)))
          p)

-- A synchronized function is a call, and its work is the work of the function.
module _ {D : Type 0} (f : D → D) where
  pub synchronized-IsCall : IsCall (synchronized (plain f))
  unfolding synchronized plain
  synchronized-IsCall = tt

  pub run-synchronized : (d : D) → run (synchronized (plain f)) d ≡ f d
  unfolding synchronized plain
  run-synchronized d = refl
