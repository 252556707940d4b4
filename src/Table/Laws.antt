-- ===== src/Table/Laws.antt =====
-- Laws of the tables of `unordered_map`.
use pr_shooter.Prelude.{
  ◌≢◌, ℕ, suc, ◌≡◌, refl, ap, true, false, ◌||◌, none, some, [], ◌∷◌, arith, ◌==◌, if◌then◌else◌,
  length, Bool-cases, inl, inr,
}
use pr_shooter.Table.{
  Table, lookup, get, insert, erase, modify, map_values, Every, has_key, Distinct,
}

module _ {V : Type 0} where
  pub lookup-insert :
      (k j : ℕ) (v : V) (t : Table V)
      → lookup j (insert k v t) ≡ (if k == j then some v else lookup j t)
  unfolding lookup insert
  lookup-insert k j v [] = refl
  lookup-insert k j v ((i, w) ∷ t) = ground (arith, lookup-insert k j v t)

  pub lookup-erase :
      (k j : ℕ) (t : Table V) → lookup j (erase k t) ≡ (if k == j then none else lookup j t)
  unfolding lookup erase
  lookup-erase k j [] = ground arith
  lookup-erase k j ((i, w) ∷ t) = ground (arith, lookup-erase k j t)

  pub lookup-modify :
      (d : V) (k j : ℕ) (f : V → V) (t : Table V)
      → lookup j (modify d k f t) ≡ (if k == j then some (f (get d k t)) else lookup j t)
  unfolding modify
  lookup-modify d k j f t = lookup-insert k j (f (get d k t)) t

  pub Every-insert :
      (P : ℕ → V → Type 0) (k : ℕ) (v : V) (t : Table V)
      → Every P t
      → P k v
      → Every P (insert k v t)
  unfolding insert
  Every-insert P k v [] h p = (p, tt)
  Every-insert P k v ((j, w) ∷ t) h p = elim (Bool-cases (j == k)) [
    | inl e ↦ rw e (subst_key e, h.1)
    | inr e ↦ rw e (h.0, Every-insert P k v t h.1 p)
  ]
    where
      subst_key : (j == k) ≡ true → P j v
      subst_key e = let same : j ≡ k = ground arith in rw same p

  pub Every-lookup :
      (P : ℕ → V → Type 0) (k : ℕ) (t : Table V) (v : V) → Every P t → lookup k t ≡ some v → P k v
  unfolding lookup
  Every-lookup P k [] v h e = absurd (cc)
  Every-lookup P k ((j, w) ∷ t) v h e = elim (Bool-cases (j == k)) [
    | inl hit ↦
        let same : k ≡ j = ground arith in let held : v ≡ w = ground arith in rw (same, held) h.0
    | inr miss ↦ Every-lookup P k t v h.1 (ground arith)
  ]

  pub Every-erase : (P : ℕ → V → Type 0) (k : ℕ) (t : Table V) → Every P t → Every P (erase k t)
  unfolding erase
  Every-erase P k [] h = tt
  Every-erase P k ((j, w) ∷ t) h = elim (Bool-cases (j == k)) [
    | inl e ↦ rw e (Every-erase P k t h.1)
    | inr e ↦ rw e (h.0, Every-erase P k t h.1)
  ]

  pub Every-map_values :
      (P Q : ℕ → V → Type 0) (f : V → V)
      → ((k : ℕ) (v : V) → P k v → Q k (f v))
      → (t : Table V) → Every P t
      → Every Q (map_values f t)
  unfolding map_values
  Every-map_values P Q f step [] h = tt
  Every-map_values P Q f step ((k, v) ∷ t) h = (step k v h.0, Every-map_values P Q f step t h.1)

  pub has_key-insert :
      (k j : ℕ) (v : V) (t : Table V) → has_key j (insert k v t) ≡ ((k == j) || has_key j t)
  unfolding insert
  has_key-insert k j v [] = refl
  has_key-insert k j v ((i, w) ∷ t) = ground (arith, has_key-insert k j v t)

  pub has_key-erase :
      (k j : ℕ) (t : Table V) → has_key j (erase k t) ≡ (if k == j then false else has_key j t)
  unfolding erase
  has_key-erase k j [] = ground arith
  has_key-erase k j ((i, w) ∷ t) = ground (arith, has_key-erase k j t)

  pub Distinct-insert : (k : ℕ) (v : V) (t : Table V) → Distinct t → Distinct (insert k v t)
  unfolding insert
  Distinct-insert k v [] h = (refl, tt)
  Distinct-insert k v ((i, w) ∷ t) h = ground (arith, has_key-insert k i v t, Distinct-insert k v t)

  pub Distinct-erase : (k : ℕ) (t : Table V) → Distinct t → Distinct (erase k t)
  unfolding erase
  Distinct-erase k [] h = tt
  Distinct-erase k ((i, w) ∷ t) h = ground (arith, has_key-erase k i t, Distinct-erase k t)

  pub lookup-map_values :
      (f : V → V) (k : ℕ) (t : Table V)
      → lookup k (map_values f t) ≡ (elim (lookup k t) [ none ↦ none | some v ↦ some (f v) ])
  unfolding lookup map_values
  lookup-map_values f k [] = refl
  lookup-map_values f k ((j, v) ∷ t) = ground (arith, lookup-map_values f k t)

  pub has_key-map_values :
      (f : V → V) (k : ℕ) (t : Table V) → has_key k (map_values f t) ≡ has_key k t
  unfolding map_values
  has_key-map_values f k [] = refl
  has_key-map_values f k ((j, v) ∷ t) = ground (arith, has_key-map_values f k t)

  pub length-map_values : (f : V → V) (t : Table V) → length (map_values f t) ≡ length t
  unfolding map_values
  length-map_values f [] = refl
  length-map_values f (x ∷ t) = ap suc (length-map_values f t)

  pub lookup-insert_ne :
      (k j : ℕ) (v : V) (t : Table V) → j ≢ k → lookup j (insert k v t) ≡ lookup j t
  lookup-insert_ne k j v t ne = ground (arith, lookup-insert k j v t)

  pub lookup-insert_self : (k : ℕ) (v : V) (t : Table V) → lookup k (insert k v t) ≡ some v
  lookup-insert_self k v t = ground (arith, lookup-insert k k v t)

  pub lookup-erase_ne : (k j : ℕ) (t : Table V) → j ≢ k → lookup j (erase k t) ≡ lookup j t
  lookup-erase_ne k j t ne = ground (arith, lookup-erase k j t)

  pub lookup-erase_self : (k : ℕ) (t : Table V) → lookup k (erase k t) ≡ none
  lookup-erase_self k t = ground (arith, lookup-erase k k t)

  pub lookup-modify_ne :
      (d : V) (k j : ℕ) (f : V → V) (t : Table V) → j ≢ k → lookup j (modify d k f t) ≡ lookup j t
  unfolding modify
  lookup-modify_ne d k j f t = lookup-insert_ne k j (f (get d k t)) t
