-- ===== src/Table.antt =====
-- `std::unordered_map` with an unsigned key (Host/game.hpp: `players`, `packets`), as the list of
-- its entries in the order of iteration. The library leaves that order open; a new key comes last
-- here. `operator[]` inserts a default for a missing key, and `erase` drops the key.
pub mod Laws
use pr_shooter.Prelude.{
  ℕ, Bool, true, false, Option, none, some, List, [], ◌∷◌, ◌==◌, if◌then◌else◌, ◌≡◌, ◌||◌,
}

abbrev pub Table : Type 0 → Type 0
Table V = List (ℕ × V)

module _ {V : Type 0} where
  -- `find`
  unfoldable pub lookup : ℕ → Table V → Option V
  lookup k [] = none
  lookup k ((j, v) ∷ t) = if j == k then some v else lookup k t

  abbrev pub or_default : V → Option V → V
  or_default d none = d
  or_default d (some v) = v

  -- the value of `t[k]`, where `d` is the default
  abbrev pub get : V → ℕ → Table V → V
  get d k t = or_default d (lookup k t)

  -- `t[k] = v`
  unfoldable pub insert : ℕ → V → Table V → Table V
  insert k v [] = (k, v) ∷ []
  insert k v ((j, w) ∷ t) = if j == k then (j, v) ∷ t else (j, w) ∷ insert k v t

  unfoldable pub erase : ℕ → Table V → Table V
  erase k [] = []
  erase k ((j, v) ∷ t) = let rest = erase k t in if j == k then rest else (j, v) ∷ rest

  -- a statement that changes `t[k]` in place
  unfoldable pub modify : V → ℕ → (V → V) → Table V → Table V
  modify d k f t = insert k (f (get d k t)) t

  unfoldable pub keys : Table V → List ℕ
  keys [] = []
  keys ((k, v) ∷ t) = k ∷ keys t

  -- `for(auto& [k, v] : t) v = f(v);`
  unfoldable pub map_values : (V → V) → Table V → Table V
  map_values f [] = []
  map_values f ((k, v) ∷ t) = (k, f v) ∷ map_values f t

  -- Every entry satisfies `P`.
  abbrev pub Every : (ℕ → V → Type 0) → Table V → Type 0
  Every P [] = Unit {0}
  Every P ((k, v) ∷ t) = P k v × Every P t

  abbrev pub has_key : ℕ → Table V → Bool
  has_key k [] = false
  has_key k ((j, _) ∷ t) = (j == k) || has_key k t

  -- No key stands twice.
  abbrev pub Distinct : Table V → Type 0
  Distinct [] = Unit {0}
  Distinct ((k, v) ∷ t) = (has_key k t ≡ false) × Distinct t
