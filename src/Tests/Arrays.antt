-- ===== src/Tests/Arrays.antt =====
-- The theorems on the array at an array that is full.
use pr_shooter.Prelude.{ℕ, zero, suc, ◌≡◌, refl, ap, none, some, [], ◌∷◌, arith, get_elem?}
use pr_shooter.Server.Array.{Array, array_push_back}
use pr_shooter.Server.Array.Holds.{Holds, array_push_back-Holds}

abbrev full : Array ℕ
full = record { size = 2; capacity = 2; slots = some 10 ∷ some 20 ∷ [] }

full_slots :
    (i x : ℕ) → get_elem? (10 ∷ 20 ∷ []) i ≡ some x → get_elem? full.slots i ≡ some (some x)
full_slots zero x e = ap (λ y. some y) e
full_slots (suc zero) x e = ap (λ y. some y) e
full_slots (suc (suc i)) x e = absurd (cc)

full-Holds : Holds full (10 ∷ 20 ∷ [])
full-Holds = record {
  size_eq = refl;
  size_le = omega arith;
  length_slots = refl;
  slot_eq = λ i x lt e. full_slots i x e;
}

-- it doubles
doubled :
    array_push_back 30 full
    ≡ some (2, record { size = 3; capacity = 4; slots = some 10 ∷ some 20 ∷ some 30 ∷ none ∷ [] })
unfolding array_push_back
doubled = refl

array_push_back-Holds_example :
    (after : Array ℕ) × (array_push_back 30 full ≡ some (2, after))
    × Holds after (10 ∷ 20 ∷ 30 ∷ [])
array_push_back-Holds_example =
    array_push_back-Holds full (10 ∷ 20 ∷ []) 30 (omega arith) full-Holds
