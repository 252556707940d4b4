-- ===== src/Server/Mutex/Serial/Requests.antt =====
-- Calls that are made for requests: an order of calls is an order of requests.
use pr_shooter.Prelude.{
  ℕ, ◌≡◌, refl, sym, ◌∙◌, ap, subst, true, List, [], ◌∷◌, ◌++◌, map, arith, ◌==◌, if◌then◌else◌,
  inl, inr, Bool-cases,
}
use package.pr_shooter.Server.Mutex.Calls.{Call, update}
use package.pr_shooter.Server.Mutex.Serial.{Log, calls_of, update_self}

module _ {R : Type 0} where
  -- the requests of thread `j`, of those that the log has with their threads
  abbrev pub requests_of : ℕ → List (ℕ × R) → List R
  requests_of j [] = []
  requests_of j ((i, r) ∷ served) =
      if i == j then r ∷ requests_of j served else requests_of j served

module _ {R D : Type 0} (call : ℕ → R → Call D) where
  abbrev pub as_calls : List (ℕ × R) → Log D
  as_calls [] = []
  as_calls ((i, r) ∷ served) = (i, call i r) ∷ as_calls served

  first_request :
      (i : ℕ) (c : Call D) (cs : List (Call D)) (rs : List R)
      → c ∷ cs ≡ map (call i) rs
      → (r : R) × (rs' : List R) × (rs ≡ r ∷ rs') × (c ≡ call i r) × (cs ≡ map (call i) rs')
  first_request i c cs [] e = absurd (cc)
  first_request i c cs (r ∷ rs') e = (r, rs', refl, cc, cc)

  -- Where the calls of a log, and what is left, are the calls for the requests of each thread, the
  -- log is a log of these requests, in the order of each thread, and others are left.
  pub as_calls-requests :
      (log : Log D) (left : ℕ → List (Call D)) (rs : ℕ → List R)
      → ((j : ℕ) → calls_of j log ++ left j ≡ map (call j) (rs j))
      → (served : List (ℕ × R)) × (rest : ℕ → List R) × (log ≡ as_calls served)
        × ((j : ℕ) → requests_of j served ++ rest j ≡ rs j)
  as_calls-requests [] left rs h = ([], rs, refl, λ j. refl)
  as_calls-requests ((i, c) ∷ log) left rs h =
      let same : (i == i) ≡ true = ground arith in
      let (r, rs', first, made, others) =
        first_request i c (calls_of i log ++ left i) (rs i) (rw same at (h i)) in
      let next = update i rs' rs in
      let own : calls_of i log ++ left i ≡ map (call i) (next i) =
        subst (λ qs. calls_of i log ++ left i ≡ map (call i) qs) (sym (update_self i rs' rs))
          others in
      let next_holds : (j : ℕ) → calls_of j log ++ left j ≡ map (call j) (next j) = λ j.
        elim (Bool-cases (i == j)) [
          | inl e ↦
              let eq : i ≡ j = ground arith in
              subst (λ k. calls_of k log ++ left k ≡ map (call k) (next k)) eq own
          | inr e ↦ let before = rw e at (h j) in rw e before
        ] in
      let (served, rest, log_eq, order) = as_calls-requests log left next next_holds in
      let own_order : requests_of i ((i, r) ∷ served) ++ rest i ≡ rs i =
        rw same (ap (λ qs. r ∷ qs) (order i ∙ update_self i rs' rs) ∙ sym first) in
      (
        (i, r) ∷ served,
        rest,
        ap (λ d. (i, d) ∷ log) made ∙ ap (λ cs. (i, call i r) ∷ cs) log_eq,
        λ j. elim (Bool-cases (i == j)) [
          | inl e ↦
              let eq : i ≡ j = ground arith in
              subst (λ k. requests_of k ((i, r) ∷ served) ++ rest k ≡ rs k) eq own_order
          | inr e ↦ let later = rw e at (order j) in rw e later
        ],
      )
