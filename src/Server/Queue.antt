-- ===== src/Server/Queue.antt =====
-- Server/server_queue.c: a doubly linked queue on the heap. Addresses are numbers, and 0 is `NULL`;
-- `malloc` never fails and never gives an address twice. An element is copied by `memcpy`, so the
-- model keeps its value. Each operation holds the queue's mutex, so it is one step. `none` is a
-- failed assertion or the use of memory that is not allocated.
pub mod Cells
pub mod Pop
pub mod Push
pub mod Clear
pub mod Interface
use pr_shooter.Prelude.{
  ℕ, zero, suc, ◌+◌, Bool, true, false, Option, none, some, ◌==◌, if◌then◌else◌,
}
use pr_shooter.Table.{Table, lookup, insert, erase}
use pr_shooter.Wire.{◌>>=◌}

pub record QueueNode : Type 0 where
  pub previous : ℕ
  pub next : ℕ
  pub data_address : ℕ

-- the nodes, the copies of elements, and the first address that was never given out
pub record Heap (A : Type 0) : Type 0 where
  pub nodes : Table QueueNode
  pub blocks : Table A
  pub unused : ℕ

-- `SynchronizedQueue`, and the heap that it lives on
pub record Queue (A : Type 0) : Type 0 where
  pub first : ℕ
  pub last : ℕ
  pub heap : Heap A

-- a statement that changes `*p`
unfoldable pub change_node :
    ℕ → (QueueNode → QueueNode) → Table QueueNode → Option (Table QueueNode)
change_node p f nodes = elim (lookup p nodes) [
  | none ↦ none
  | some node ↦ some (insert p (f node) nodes)
]

module _ {A : Type 0} where
  -- `queueSyncCreate`
  unfoldable pub queue_create : Heap A → Queue A
  queue_create heap = record { first = 0; last = 0; heap = heap }

  -- `createNewNode`; the node's own address is `heap.unused`
  unfoldable pub create_new_node : A → Heap A → Heap A
  create_new_node element heap = record {
    nodes =
        insert heap.unused (record { previous = 0; next = 0; data_address = heap.unused + 1 })
          heap.nodes;
    blocks = insert (heap.unused + 1) element heap.blocks;
    unused = heap.unused + 2;
  }

  -- the queue with other nodes
  abbrev pub with_nodes : (first last : ℕ) → Heap A → Table QueueNode → Queue A
  with_nodes first last heap nodes = record {
    first = first;
    last = last;
    heap = record heap { nodes = nodes };
  }

  -- `queueSyncPushBack`
  unfoldable pub push_back : A → Queue A → Option (Queue A)
  unfolding create_new_node change_node
  push_back element queue =
      let new_node = queue.heap.unused in
      let heap = create_new_node element queue.heap in
      let old_last = queue.last in
      change_node new_node (λ node. record node { previous = old_last }) heap.nodes >>= λ nodes.
      let linked = change_node old_last (λ node. record node { next = new_node }) nodes in
      if old_last == 0
      then some (with_nodes new_node new_node heap nodes)
      else (linked >>= λ nodes'. some (with_nodes queue.first new_node heap nodes'))

  -- `queueSyncPushFront`
  unfoldable pub push_front : A → Queue A → Option (Queue A)
  unfolding create_new_node change_node
  push_front element queue =
      let new_node = queue.heap.unused in
      let heap = create_new_node element queue.heap in
      let old_first = queue.first in
      change_node new_node (λ node. record node { next = old_first }) heap.nodes >>= λ nodes.
      let linked = change_node old_first (λ node. record node { previous = new_node }) nodes in
      if old_first == 0
      then some (with_nodes new_node new_node heap nodes)
      else (linked >>= λ nodes'. some (with_nodes new_node queue.last heap nodes'))

  -- `popFrontNode` and `free(front)`: the address of the element that is taken off
  unfoldable pub pop_front : Queue A → Option (ℕ × Queue A)
  unfolding change_node
  pop_front queue =
      let popped = queue.first in
      let nodes = queue.heap.nodes in
      if popped == 0
      then none
      else (lookup popped nodes >>= λ node.
          let unlinked = change_node node.next (λ n. record n { previous = 0 }) nodes in
          if popped == queue.last
          then some (node.data_address, with_nodes node.next 0 queue.heap (erase popped nodes))
          else (unlinked >>= λ nodes'. some (
            node.data_address,
            with_nodes node.next queue.last queue.heap (erase popped nodes'),
          )))

  -- `queueSyncPopCopyFront`
  unfoldable pub pop_copy_front : Queue A → Option (A × Queue A)
  unfolding pop_front
  pop_copy_front queue = pop_front queue >>= λ (taken, rest).
      lookup taken rest.heap.blocks >>= λ element.
      some
        (element, record rest { heap = record rest.heap { blocks = erase taken rest.heap.blocks } })

  -- `queueSyncIsEmpty`
  unfoldable pub is_empty : Queue A → Bool
  is_empty queue = queue.first == 0

  -- The loop of `queueClear`: frees the element and the node at `current`, and goes on behind it.
  unfoldable pub free_nodes : ℕ → ℕ → Heap A → Option (Heap A)
  free_nodes zero current heap = none
  free_nodes (suc fuel) current heap = elim (current == 0) [
    | true ↦ some heap
    | false ↦ elim (lookup current heap.nodes) [
      | none ↦ none
      | some node ↦ elim (lookup node.data_address heap.blocks) [
        | none ↦ none
        | some element ↦ free_nodes fuel node.next (record heap {
          nodes = erase current heap.nodes;
          blocks = erase node.data_address heap.blocks;
        })
      ]
    ]
  ]

  -- `queueClear`, with at most `fuel` tests of its loop
  unfoldable pub queue_clear : ℕ → Queue A → Option (Queue A)
  unfolding free_nodes
  queue_clear fuel queue = free_nodes fuel queue.first queue.heap >>= λ heap.
      some (record { first = 0; last = 0; heap = heap })
