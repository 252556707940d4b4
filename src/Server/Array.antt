-- ===== src/Server/Array.antt =====
-- Server/server_array.c: an array that doubles its memory. A slot of the memory holds an element, or
-- nothing where it was allocated and never written. Each operation of the synchronized array holds
-- its mutex around the operation of the plain array, so it is one step. `none` is a failed assertion.
pub mod Holds
pub mod Items
use pr_shooter.Prelude.{
  ℕ, zero, suc, ◌+◌, ◌-◌, ◌*◌, Option, none, some, List, [], ◌∷◌, ◌++◌, ltb, leb, if◌then◌else◌,
  replicate, length, take, set, get_elem?,
}
use pr_shooter.Wire.{◌>>=◌}

pub record Array (A : Type 0) : Type 0 where
  pub size : ℕ
  pub capacity : ℕ
  pub slots : List (Option A)

module _ {A : Type 0} where
  -- `arrayCreate`
  unfoldable pub array_create : ℕ → Array A
  array_create starting_item_capacity = record {
    size = 0;
    capacity = starting_item_capacity;
    slots = replicate starting_item_capacity none;
  }

  -- `resize`; `realloc` keeps what was there.
  unfoldable pub resize : Array A → ℕ → Array A
  resize array capacity = if ltb capacity array.capacity then array else record array {
    capacity = capacity;
    slots = array.slots ++ replicate (capacity - array.capacity) none;
  }

  -- `memcpy(getIndexAddress(array, index), item, …); ++(array->size);`
  unfoldable pub write_item : ℕ → A → Array A → Option (Array A)
  write_item index item array =
      if ltb index array.capacity
      then some (record array { size = array.size + 1; slots = set array.slots index (some item) })
      else none

  -- the array in which `arrayPushBack` writes
  unfoldable pub make_room : Array A → Array A
  unfolding resize
  make_room array =
      if leb array.capacity array.size then resize array (array.capacity * 2) else array

  -- `arrayPushBack`; it returns the old size.
  unfoldable pub array_push_back : A → Array A → Option (ℕ × Array A)
  unfolding write_item make_room
  array_push_back item array =
      write_item array.size item (make_room array) >>= λ after. some (array.size, after)

  -- `arrayGetItem`
  unfoldable pub array_get_item : ℕ → Array A → Option (Option A)
  array_get_item index array =
      if ltb index array.capacity then get_elem? array.slots index else none

  -- a statement that changes `*arrayUnsafeGetItem(array, index)`
  unfoldable pub array_change_item : ℕ → (A → A) → Array A → Option (Array A)
  unfolding array_get_item
  array_change_item index f array = array_get_item index array >>= λ slot.
      slot >>= λ item. some (record array { slots = set array.slots index (some (f item)) })

  -- `arrayClear`
  unfoldable pub array_clear : Array A → Array A
  array_clear array = record array { size = 0 }

  -- `arrayGetCopy`
  unfoldable pub array_get_copy : Array A → Array A
  unfolding array_create
  array_get_copy array = record (array_create array.size) {
    size = array.size;
    slots = take array.size array.slots;
  }
