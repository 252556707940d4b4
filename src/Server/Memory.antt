-- ===== src/Server/Memory.antt =====
-- Blocks of memory on the heap, where only their owner matters: the addresses that are allocated, in
-- no order. Address 0 is `NULL`.
use pr_shooter.Prelude.{
  ℕ, zero, suc, ◌+◌, ◌<◌, ◌≡◌, refl, ◌≢◌, false, Option, none, some, List, [], ◌∷◌, ◌==◌, arith,
  if◌then◌else◌, Bool-cases, inl, inr,
}
use pr_shooter.Wire.{◌>>=◌}

-- `free` of an address, given the addresses that are allocated: `none` frees what is not.
unfoldable pub free : ℕ → List ℕ → Option (List ℕ)
free address [] = if address == 0 then some [] else none
free address (a ∷ live) =
    let rest = free address live in
    if address == 0
    then some (a ∷ live)
    else if a == address
    then some live
    else (rest >>= λ kept. some (a ∷ kept))

-- how often an address stands in a list
abbrev pub count : ℕ → List ℕ → ℕ
count p [] = 0
count p (a ∷ live) = (if a == p then 1 else 0) + count p live

pub free_null : (live : List ℕ) → free 0 live ≡ some live
unfolding free
free_null [] = refl
free_null (a ∷ live) = refl

-- A block that is allocated can be freed, and everything else stays.
pub free_lem :
    (p : ℕ) (live : List ℕ)
    → p ≢ 0
    → 0 < count p live
    → (kept : List ℕ) × (free p live ≡ some kept)
      × ((q : ℕ) → count q live ≡ (if p == q then 1 else 0) + count q kept)
unfolding free
free_lem p [] ne h = absurd (omega arith)
free_lem p (a ∷ live) ne h =
    let nonzero : (p == 0) ≡ false = ground arith in
    elim (Bool-cases (a == p)) [
      | inl here ↦
          let same : a ≡ p = ground arith in (live, rw (nonzero, here) refl, λ q. rw same refl)
      | inr there ↦
          let later : 0 < count p live = ground arith in
          let (kept, freed, counts) = free_lem p live ne later in
          (a ∷ kept, rw (nonzero, there) (rw (freed, ◌>>=◌) refl), λ q. omega (arith, counts q))
    ]

-- A block that is not allocated cannot be freed.
pub free-dangling : (p : ℕ) (live : List ℕ) → p ≢ 0 → count p live ≡ 0 → free p live ≡ none
unfolding free
free-dangling p [] ne h = ground arith
free-dangling p (a ∷ live) ne h =
    let nonzero : (p == 0) ≡ false = ground arith in
    elim (Bool-cases (a == p)) [
      | inl here ↦ absurd (ground arith)
      | inr there ↦
          let later : count p live ≡ 0 = ground arith in
          rw (nonzero, there) (rw (free-dangling p live ne later, ◌>>=◌) refl)
    ]

-- The same for a block that may be `NULL`, where only the other addresses are counted.
pub free_any :
    (p : ℕ) (live : List ℕ)
    → (p ≢ 0 → 0 < count p live)
    → (kept : List ℕ) × (free p live ≡ some kept)
      × ((q : ℕ) → q ≢ 0 → count q live ≡ (if p == q then 1 else 0) + count q kept)
free_any zero live h = (live, free_null live, λ q ne. ground arith)
free_any (suc p) live h =
    let (kept, freed, counts) = free_lem (suc p) live (λ e. omega arith) (h (λ e. omega arith)) in
    (kept, freed, λ q _. counts q)
