-- ===== src/Tests/Queues.antt =====
-- The theorems on the queue at a queue of two elements.
use pr_shooter.Prelude.{ℕ, ◌≡◌, refl, some, [], ◌∷◌, arith}
use pr_shooter.Table.{lookup, insert}
use pr_shooter.Wire.{◌>>=◌}
use pr_shooter.Server.Queue.{
  Heap, Queue, queue_create, push_back, push_front, pop_copy_front, queue_clear,
}
use pr_shooter.Server.Queue.Cells.{Represents}
use pr_shooter.Server.Queue.Pop.{pop_copy_front-Represents}
use pr_shooter.Server.Queue.Push.{push_front-Represents}
use pr_shooter.Server.Queue.Push.Back.{push_back-Represents}
use pr_shooter.Server.Queue.Clear.{queue_clear-Represents}

-- 20 was pushed to the back of an empty queue, and then 10 to the front.
abbrev two : Queue ℕ
two = record {
  first = 3;
  last = 1;
  heap = record {
    nodes =
        (1, record { previous = 3; next = 0; data_address = 2 })
        ∷ (3, record { previous = 0; next = 1; data_address = 4 })
        ∷ [];
    blocks = (2, 20) ∷ (4, 10) ∷ [];
    unused = 5;
  };
}

abbrev no_heap : Heap ℕ
no_heap = record { nodes = []; blocks = []; unused = 1 }

-- the two pushes
two_pushes : (push_back 20 (queue_create no_heap) >>= push_front 10) ≡ some two
unfolding push_back push_front queue_create lookup insert
two_pushes = refl

two-Represents : Represents two (10 ∷ 20 ∷ [])
unfolding lookup
two-Represents = (
  record { address = 3; block = 4; element = 10 }
      ∷ record { address = 1; block = 2; element = 20 }
      ∷ [],
  refl,
  refl,
  (
    record {
      node_at = refl;
      block_at = refl;
      address_pos = omega arith;
      address_lt = omega arith;
      block_lt = omega arith;
    },
    (λ e. omega arith, λ e. omega arith, tt),
    (
      record {
        node_at = refl;
        block_at = refl;
        address_pos = omega arith;
        address_lt = omega arith;
        block_lt = omega arith;
      },
      tt,
      tt,
    ),
  ),
  refl,
  omega arith,
)

push_front-Represents_example :
    (after : Queue ℕ) × (push_front 5 two ≡ some after) × Represents after (5 ∷ 10 ∷ 20 ∷ [])
push_front-Represents_example = push_front-Represents 5 two (10 ∷ 20 ∷ []) two-Represents

push_back-Represents_example :
    (after : Queue ℕ) × (push_back 30 two ≡ some after) × Represents after (10 ∷ 20 ∷ 30 ∷ [])
push_back-Represents_example = push_back-Represents 30 two (10 ∷ 20 ∷ []) two-Represents

pop_copy_front-Represents_example :
    (rest : Queue ℕ) × (pop_copy_front two ≡ some (10, rest)) × Represents rest (20 ∷ [])
pop_copy_front-Represents_example = pop_copy_front-Represents two 10 (20 ∷ []) two-Represents

queue_clear-Represents_example :
    (after : Queue ℕ) × (queue_clear 3 two ≡ some after) × Represents after []
queue_clear-Represents_example = queue_clear-Represents two (10 ∷ 20 ∷ []) two-Represents
