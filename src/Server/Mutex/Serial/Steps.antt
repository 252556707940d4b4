-- ===== src/Server/Mutex/Serial/Steps.antt =====
-- Each command of a thread keeps the invariant.
use mathlib.Core.Option.{some-injective}
use pr_shooter.Prelude.{
  ℕ, zero, suc, ◌<◌, ◌≡◌, ◌≢◌, refl, sym, ◌∙◌, ap, subst, none, some, List, [], ◌∷◌, ◌++◌, ◌==◌,
  arith, inl, inr, Bool-cases, Option-cases,
}
use package.pr_shooter.Server.Mutex.{Mutex, returned, lock_mutex, unlock_mutex, unlock_once}
use package.pr_shooter.Server.Mutex.Calls.{lock, unlock, act, Call, System, update, go_on}
use package.pr_shooter.Server.Mutex.Serial.{
  Held, AllCalls, Log, update_self, update_ne, run, run_all, calls_of, run_all-append_last,
  calls_of-append_self, calls_of-append_ne,
}
use package.pr_shooter.Server.Mutex.Serial.Invariant.{
  returned-injective, lock_free, lock_again, lock_other, unlock_own, IsSerial, current-owner,
  inside-IsSerial, Held-current, Held-pos,
}

module _ {D : Type 0} (shared : D) (programs : ℕ → List (Call D)) where
  abbrev Serial : System D → Log D → Type 0
  Serial s log = IsSerial shared programs s log

  pub acts-IsSerial :
      (s : System D) (log : Log D) (i : ℕ) (f : D → D) (rest : Call D)
      → Serial s log
      → (s.threads i).current ≡ act f ∷ rest
      → Serial (record s { shared = f s.shared; threads = go_on i rest s }) log
  acts-IsSerial s log i f rest serial e =
      let owned = current-owner shared programs s log i (act f) rest serial e in
      let (held, eq) = Held-current shared programs s log i (act f ∷ rest) serial owned e in
      let (k, suc_k) = Held-pos shared programs s.mutex.depth (act f) rest held in
      inside-IsSerial shared programs s log i s.mutex.depth rest (f s.shared) serial owned
        (serial.depth_pos i owned)
        (subst (λ n. Held n rest) (sym suc_k) (subst (λ n. Held n (act f ∷ rest)) suc_k held)) eq

  pub locks-IsSerial :
      (s : System D) (log : Log D) (i : ℕ) (rest : Call D) (mutex : Mutex)
      → Serial s log
      → (s.threads i).current ≡ lock ∷ rest
      → lock_mutex i s.mutex ≡ returned mutex
      → Serial (record s { mutex = mutex; threads = go_on i rest s }) log
  locks-IsSerial s log i rest mutex serial e e' =
      let owned = current-owner shared programs s log i lock rest serial e in
      let (held, eq) = Held-current shared programs s log i (lock ∷ rest) serial owned e in
      let (k, suc_k) = Held-pos shared programs s.mutex.depth lock rest held in
      let same = returned-injective _ _ (sym (lock_again i s.mutex owned serial.type_eq) ∙ e') in
      subst (λ m. Serial (record s { mutex = m; threads = go_on i rest s }) log) same
        (inside-IsSerial shared programs s log i (suc s.mutex.depth) rest s.shared serial owned
          (omega arith)
          (subst (λ n. Held (suc n) rest) (sym suc_k)
            (subst (λ n. Held n (lock ∷ rest)) suc_k held))
          eq)

  -- The mutex is given back.
  leaves-IsSerial :
      (s : System D) (log : Log D) (i : ℕ)
      → Serial s log
      → s.mutex.owner ≡ some i
      → s.shared ≡ run_all log shared
      → Serial
          (record {
            mutex = record s.mutex { owner = none; depth = 0 };
            shared = s.shared;
            threads = go_on i [] s;
          })
          log
  leaves-IsSerial s log i serial owned eq = record {
    type_eq = serial.type_eq;
    others = λ j ne. elim (Bool-cases (i == j)) [
      | inl e ↦ rw e refl
      | inr e ↦
          rw e
            (serial.others j (λ e'. let same = some-injective _ _ (sym owned ∙ e') in ground arith))
    ];
    held = λ j e. absurd (cc);
    depth_pos = λ j e. absurd (cc);
    shared_eq = λ j e. absurd (cc);
    free_eq = λ e. eq;
    order = λ j. elim (Bool-cases (i == j)) [
      | inl e ↦
          let same : i ≡ j = ground arith in
          rw e (ap (λ k. calls_of j log ++ (s.threads k).calls) same ∙ serial.order j)
      | inr e ↦ rw e (serial.order j)
    ];
    calls_ok = λ j. elim (Bool-cases (i == j)) [
      | inl e ↦ rw e (serial.calls_ok i)
      | inr e ↦ rw e (serial.calls_ok j)
    ];
  }

  Held-zero : (rest : Call D) → Held 0 rest → rest ≡ []
  Held-zero [] h = refl
  Held-zero (c ∷ rest) h = absurd h

  pub unlocks-IsSerial :
      (s : System D) (log : Log D) (i : ℕ) (rest : Call D) (mutex : Mutex)
      → Serial s log
      → (s.threads i).current ≡ unlock ∷ rest
      → unlock_mutex i s.mutex ≡ returned mutex
      → Serial (record s { mutex = mutex; threads = go_on i rest s }) log
  unfolding unlock_once
  unlocks-IsSerial s log i rest mutex serial e e' =
      let owned = current-owner shared programs s log i unlock rest serial e in
      let (held, eq) = Held-current shared programs s log i (unlock ∷ rest) serial owned e in
      let same = returned-injective _ _ (sym (unlock_own i s.mutex owned) ∙ e') in
      subst (λ m. Serial (record s { mutex = m; threads = go_on i rest s }) log) same
        (given_back owned eq s.mutex.depth held)
    where
      given_back :
          s.mutex.owner ≡ some i
          → run rest s.shared ≡ run_all log shared
          → (depth : ℕ) → Held depth (unlock ∷ rest)
          → Serial (record s { mutex = unlock_once depth s.mutex; threads = go_on i rest s }) log
      given_back owned eq zero h = absurd h
      given_back owned eq (suc zero) h =
          let empty = Held-zero rest h in
          subst
            (λ r.
              Serial
                (record s {
                  mutex = record s.mutex { owner = none; depth = 0 };
                  threads = go_on i r s;
                })
                log)
            (sym empty)
            (leaves-IsSerial s log i serial owned
              (subst (λ r. run r s.shared ≡ run_all log shared) empty eq))
      given_back owned eq (suc (suc depth)) h =
          inside-IsSerial shared programs s log i (suc depth) rest s.shared serial owned
            (omega arith) h eq

  -- A thread that begins a call finds the mutex free.
  enters-free :
      (s : System D) (log : Log D) (i : ℕ) (mutex : Mutex)
      → Serial s log
      → (s.threads i).current ≡ []
      → lock_mutex i s.mutex ≡ returned mutex
      → s.mutex.owner ≡ none
  enters-free s log i mutex serial idle e = elim (Option-cases s.mutex.owner) [
    | inl free ↦ free
    | inr (o, owned) ↦ elim (Bool-cases (o == i)) [
      | inl same ↦
          let own : s.mutex.owner ≡ some i = ground arith in
          absurd (
            nothing_held own s.mutex.depth (serial.depth_pos i own)
              (Held-current shared programs s log i [] serial own idle).0)
      | inr other ↦ let blocked = lock_other i o s.mutex owned other in absurd (cc)
    ]
  ]
    where
      nothing_held : s.mutex.owner ≡ some i → (n : ℕ) → 0 < n → Held {D = D} n [] → ⊥
      nothing_held own zero pos h = omega arith
      nothing_held own (suc n) pos h = h

  pub enters-IsSerial :
      (s : System D) (log : Log D) (i : ℕ) (rest : Call D) (calls : List (Call D)) (mutex : Mutex)
      → Serial s log
      → (s.threads i).current ≡ []
      → (s.threads i).calls ≡ (lock ∷ rest) ∷ calls
      → lock_mutex i s.mutex ≡ returned mutex
      → Serial
          (record s {
            mutex = mutex;
            threads = update i (record { current = rest; calls = calls }) s.threads;
          })
          (log ++ ((i, lock ∷ rest) ∷ []))
  enters-IsSerial s log i rest calls mutex serial idle e e' =
      let free = enters-free s log i mutex serial idle e' in
      let same = returned-injective _ _ (sym (lock_free i s.mutex free) ∙ e') in
      let ok = subst (λ cs. AllCalls cs) e (serial.calls_ok i) in
      let whole = run_all-append_last log i (lock ∷ rest) shared in
      subst
        (λ m.
          Serial
            (record s {
              mutex = m;
              threads = update i (record { current = rest; calls = calls }) s.threads;
            })
            (log ++ ((i, lock ∷ rest) ∷ [])))
        same
        (record {
          type_eq = serial.type_eq;
          others = λ j ne.
              let apart : i ≢ j = λ a. ne (ap (λ k. some k) a) in
              rw (update_ne i j (record { current = rest; calls = calls }) s.threads apart)
                (serial.others j (λ a. let n = sym free ∙ a in cc));
          held = λ j a.
              let own : i ≡ j = some-injective _ _ a in
              subst
                (λ k.
                  Held 1 (update i (record { current = rest; calls = calls }) s.threads k).current)
                own (rw (update_self i (record { current = rest; calls = calls }) s.threads) ok.0);
          depth_pos = λ j a. omega arith;
          shared_eq = λ j a.
              let own : i ≡ j = some-injective _ _ a in
              subst
                (λ k.
                  run (update i (record { current = rest; calls = calls }) s.threads k).current
                    s.shared
                  ≡ run_all (log ++ ((i, lock ∷ rest) ∷ [])) shared)
                own
                (rw (update_self i (record { current = rest; calls = calls }) s.threads)
                  (ap (run rest) (serial.free_eq free) ∙ sym whole));
          free_eq = λ a. absurd (cc);
          order = λ j. elim (Bool-cases (i == j)) [
            | inl a ↦
                let own : i ≡ j = ground arith in
                rw a (
                  subst (λ k. calls_of k (log ++ ((i, lock ∷ rest) ∷ [])) ++ calls ≡ programs k) own
                    (calls_of-append_self log i (lock ∷ rest) calls
                      ∙ ap (λ cs. calls_of i log ++ cs) (sym e)
                      ∙ serial.order i))
            | inr a ↦
                let apart : i ≢ j = ground arith in
                rw a (
                  ap (λ cs. cs ++ (s.threads j).calls)
                    (calls_of-append_ne log i j (lock ∷ rest) apart)
                  ∙ serial.order j)
          ];
          calls_ok = λ j. elim (Bool-cases (i == j)) [
            | inl a ↦ rw a ok.1
            | inr a ↦ rw a (serial.calls_ok j)
          ];
        })
