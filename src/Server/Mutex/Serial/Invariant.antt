-- ===== src/Server/Mutex/Serial/Invariant.antt =====
-- What holds while threads make their calls: the data is where the calls begun lead to, but for
-- what is left of the call of the one that holds the mutex.
use mathlib.Core.Option.{some-injective}
use pr_shooter.Prelude.{
  ℕ, zero, suc, ◌<◌, ◌≡◌, ◌≢◌, refl, sym, ◌∙◌, ap, subst, none, some, List, [], ◌∷◌, ◌++◌, ◌==◌,
  true, false, arith, inl, inr, Bool-cases, Option-cases,
}
use package.pr_shooter.Server.Mutex.{
  recursive, Mutex, returned, waits, lock_mutex, lock_held_by, relock, unlock_mutex, unlock_held_by,
  unlock_once, init_recursive_mutex, init_mutex_with_attribute,
}
use package.pr_shooter.Server.Mutex.Calls.{Command, Call, System, go_on, start}
use package.pr_shooter.Server.Mutex.Serial.{
  Held, AllCalls, Log, update_self, update_ne, run, run_all, calls_of,
}

pub returned-injective : (a b : Mutex) → returned a ≡ returned b → a ≡ b
returned-injective a b e = cc

-- a recursive mutex that nobody holds, or that `i` holds
pub lock_free :
    (i : ℕ) (m : Mutex)
    → m.owner ≡ none
    → lock_mutex i m ≡ returned (record m { owner = some i; depth = 1 })
unfolding lock_mutex lock_held_by
lock_free i m e = rw e refl

pub lock_again :
    (i : ℕ) (m : Mutex)
    → m.owner ≡ some i
    → m.type ≡ recursive
    → lock_mutex i m ≡ returned (record m { depth = suc m.depth })
unfolding lock_mutex lock_held_by relock
lock_again i m e e' = ground arith

pub lock_other :
    (i o : ℕ) (m : Mutex) → m.owner ≡ some o → (o == i) ≡ false → lock_mutex i m ≡ waits
unfolding lock_mutex lock_held_by
lock_other i o m e ne = rw e (rw ne refl)

pub unlock_own :
    (i : ℕ) (m : Mutex) → m.owner ≡ some i → unlock_mutex i m ≡ returned (unlock_once m.depth m)
unfolding unlock_mutex unlock_held_by
unlock_own i m e = let same : (i == i) ≡ true = ground arith in rw e (rw same refl)

module _ {D : Type 0} (shared : D) (programs : ℕ → List (Call D)) where
  -- The log has every call that was begun. Whoever holds the mutex is the only thread inside a call,
  -- and what is left of it leads to what the whole calls of the log lead to.
  pub record IsSerial (s : System D) (log : Log D) : Type 0 where
    pub type_eq : s.mutex.type ≡ recursive
    pub others : (j : ℕ) → s.mutex.owner ≢ some j → (s.threads j).current ≡ []
    pub held : (i : ℕ) → s.mutex.owner ≡ some i → Held s.mutex.depth (s.threads i).current
    pub depth_pos : (i : ℕ) → s.mutex.owner ≡ some i → 0 < s.mutex.depth
    pub shared_eq :
        (i : ℕ) → s.mutex.owner ≡ some i → run (s.threads i).current s.shared ≡ run_all log shared
    pub free_eq : s.mutex.owner ≡ none → s.shared ≡ run_all log shared
    pub order : (j : ℕ) → calls_of j log ++ (s.threads j).calls ≡ programs j
    pub calls_ok : (j : ℕ) → AllCalls (s.threads j).calls

  -- A thread inside a call holds the mutex.
  pub current-owner :
      (s : System D) (log : Log D) (i : ℕ) (c : Command D) (rest : Call D)
      → IsSerial s log
      → (s.threads i).current ≡ c ∷ rest
      → s.mutex.owner ≡ some i
  current-owner s log i c rest serial e = elim (Option-cases s.mutex.owner) [
    | inl free ↦ absurd (nothing_left (λ e'. cc))
    | inr (o, owned) ↦ elim (Bool-cases (o == i)) [
      | inl same ↦ ground arith
      | inr other ↦ absurd (nothing_left (λ e'. ground arith))
    ]
  ]
    where
      nothing_left : (s.mutex.owner ≢ some i) → ⊥
      nothing_left ne = let empty = serial.others i ne in cc

  pub start-IsSerial : ((i : ℕ) → AllCalls (programs i)) → IsSerial (start shared programs) []
  unfolding init_recursive_mutex init_mutex_with_attribute
  start-IsSerial ok = record {
    type_eq = refl;
    others = λ j ne. refl;
    held = λ i e. absurd (cc);
    depth_pos = λ i e. absurd (cc);
    shared_eq = λ i e. absurd (cc);
    free_eq = λ e. refl;
    order = λ j. refl;
    calls_ok = ok;
  }

  -- Where the owner and his call stay, the invariant is about him alone.
  pub inside-IsSerial :
      (s : System D) (log : Log D) (i : ℕ) (depth : ℕ) (rest : Call D) (d : D)
      → IsSerial s log
      → s.mutex.owner ≡ some i
      → 0 < depth
      → Held depth rest
      → run rest d ≡ run_all log shared
      → IsSerial
          (record {
            mutex = record s.mutex { depth = depth };
            shared = d;
            threads = go_on i rest s;
          })
          log
  inside-IsSerial s log i depth rest d serial owned pos held eq = record {
    type_eq = serial.type_eq;
    others = λ j ne.
        let apart : i ≢ j = λ e. ne (owned ∙ ap (λ k. some k) e) in
        rw (update_ne i j (record { current = rest; calls = (s.threads i).calls }) s.threads apart)
          (serial.others j ne);
    held = λ j e.
        let same : i ≡ j = some-injective _ _ (sym owned ∙ e) in
        subst (λ k. Held depth (go_on i rest s k).current) same
          (rw (update_self i (record { current = rest; calls = (s.threads i).calls }) s.threads)
            held);
    depth_pos = λ j e. pos;
    shared_eq = λ j e.
        let same : i ≡ j = some-injective _ _ (sym owned ∙ e) in
        subst (λ k. run (go_on i rest s k).current d ≡ run_all log shared) same
          (rw (update_self i (record { current = rest; calls = (s.threads i).calls }) s.threads)
            eq);
    free_eq = λ e. absurd (cc);
    order = λ j. elim (Bool-cases (i == j)) [
      | inl e ↦
          let same : i ≡ j = ground arith in
          rw e (ap (λ k. calls_of j log ++ (s.threads k).calls) same ∙ serial.order j)
      | inr e ↦ rw e (serial.order j)
    ];
    calls_ok = λ j. elim (Bool-cases (i == j)) [
      | inl e ↦ rw e (serial.calls_ok i)
      | inr e ↦ rw e (serial.calls_ok j)
    ];
  }

  -- what is left of the owner's call
  pub Held-current :
      (s : System D) (log : Log D) (i : ℕ) (cs : Call D)
      → IsSerial s log
      → s.mutex.owner ≡ some i
      → (s.threads i).current ≡ cs
      → Held s.mutex.depth cs × (run cs s.shared ≡ run_all log shared)
  Held-current s log i cs serial owned e = (
    subst (λ c. Held s.mutex.depth c) e (serial.held i owned),
    subst (λ c. run c s.shared ≡ run_all log shared) e (serial.shared_eq i owned),
  )

  pub Held-pos : (n : ℕ) (c : Command D) (rest : Call D) → Held n (c ∷ rest) → (k : ℕ) × (n ≡ suc k)
  Held-pos zero c rest h = absurd h
  Held-pos (suc k) c rest h = (k, refl)
