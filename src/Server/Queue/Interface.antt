-- ===== src/Server/Queue/Interface.antt =====
-- What the threads of the server rely on in a queue: Server/server_queue.h, as operations on a state
-- that holds a list. The linked queue of Server/server_queue.c keeps to it.
use pr_shooter.Prelude.{◌≡◌, Bool, true, false, Option, some, List, [], ◌∷◌, ◌++◌}
use package.pr_shooter.Server.Queue.{Queue, push_back, push_front, pop_copy_front, is_empty}
use package.pr_shooter.Server.Queue.Cells.{Represents, is_empty_lem}
use package.pr_shooter.Server.Queue.Push.{push_front-Represents}
use package.pr_shooter.Server.Queue.Push.Back.{push_back-Represents}
use package.pr_shooter.Server.Queue.Pop.{pop_copy_front-Represents}

abbrev pub is_nil : {A : Type 0} → List A → Bool
is_nil [] = true
is_nil (x ∷ xs) = false

pub record QueueOf (A : Type 0) : Type 1 where
  pub State : Type 0
  pub Contains : State → List A → Type 0
  pub add_back : A → State → Option State
  pub add_front : A → State → Option State
  pub take_front : State → Option (A × State)
  pub has_none : State → Bool
  pub add_back_lem :
      (x : A) (s : State) (xs : List A)
      → Contains s xs
      → (after : State) × (add_back x s ≡ some after) × Contains after (xs ++ (x ∷ []))
  pub add_front_lem :
      (x : A) (s : State) (xs : List A)
      → Contains s xs
      → (after : State) × (add_front x s ≡ some after) × Contains after (x ∷ xs)
  pub take_front_lem :
      (s : State) (x : A) (xs : List A)
      → Contains s (x ∷ xs)
      → (rest : State) × (take_front s ≡ some (x, rest)) × Contains rest xs
  pub has_none_lem : (s : State) (xs : List A) → Contains s xs → has_none s ≡ is_nil xs

pub has_none-Represents :
    {A : Type 0} (queue : Queue A) (xs : List A) → Represents queue xs → is_empty queue ≡ is_nil xs
has_none-Represents queue [] h = is_empty_lem queue [] h
has_none-Represents queue (x ∷ xs) h = is_empty_lem queue (x ∷ xs) h

abbrev pub linked_queue : (A : Type 0) → QueueOf A
linked_queue A = record {
  State = Queue A;
  Contains = Represents;
  add_back = push_back;
  add_front = push_front;
  take_front = pop_copy_front;
  has_none = is_empty;
  add_back_lem = push_back-Represents;
  add_front_lem = push_front-Represents;
  take_front_lem = pop_copy_front-Represents;
  has_none_lem = has_none-Represents;
}
