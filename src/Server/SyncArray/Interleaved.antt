-- ===== src/Server/SyncArray/Interleaved.antt =====
-- What threads make of a synchronized array.
use pr_shooter.Prelude.{ℕ, ◌≤◌, ◌<◌, ◌≡◌, Option, some, List, [], ◌∷◌}
use package.pr_shooter.Server.Array.{Array}
use package.pr_shooter.Server.Array.Holds.{Holds}
use package.pr_shooter.Server.SyncArray.{Shared, Request, push_back, get_size, get_item, clear}

-- A request for an item asks for one below `n`.
abbrev pub Below : {A : Type 0} → ℕ → List (Request A) → Type 0
Below n [] = Unit {0}
Below n (get_item i ∷ requests) = (i < n) × Below n requests
Below n (push_back x ∷ requests) = Below n requests
Below n (get_size ∷ requests) = Below n requests
Below n (clear ∷ requests) = Below n requests

module _ {A : Type 0} (n : ℕ) where
  -- No assertion has failed, and the array holds some list, with room for `n` or more.
  abbrev pub IsSound : Option (Shared A) → Type 0
  IsSound shared =
      (s : Shared A) × (xs : List A) × (shared ≡ some s)
      × Holds s.array xs
      × (0 < s.array.capacity)
      × (n ≤ s.array.capacity)
