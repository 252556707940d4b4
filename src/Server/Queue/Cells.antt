-- ===== src/Server/Queue/Cells.antt =====
-- The list that a queue on the heap holds.
use pr_shooter.Prelude.{
  ℕ, ◌+◌, ◌≤◌, ◌<◌, ◌≡◌, refl, ◌≢◌, ◌∙◌, true, false, some, List, [], ◌∷◌, arith,
}
use pr_shooter.Table.{Table, lookup, insert, erase}
use pr_shooter.Table.Laws.{lookup-insert_ne, lookup-insert_self, lookup-erase_ne}
use package.pr_shooter.Server.Queue.{QueueNode, Heap, Queue, change_node, queue_create, is_empty}

-- A place in the queue: where its node is, where its element is, and the element.
pub record Cell (A : Type 0) : Type 0 where
  pub address : ℕ
  pub block : ℕ
  pub element : A

pub change_node_at :
    (p : ℕ) (f : QueueNode → QueueNode) (nodes : Table QueueNode) (node : QueueNode)
    → lookup p nodes ≡ some node
    → change_node p f nodes ≡ some (insert p (f node) nodes)
unfolding change_node
change_node_at p f nodes node e = rw (e, change_node) refl

module _ {A : Type 0} where
  abbrev pub head_address : List (Cell A) → ℕ
  head_address [] = 0
  head_address (c ∷ cs) = c.address

  abbrev pub last_address : ℕ → List (Cell A) → ℕ
  last_address p [] = p
  last_address p (c ∷ cs) = last_address c.address cs

  abbrev pub elements : List (Cell A) → List A
  elements [] = []
  elements (c ∷ cs) = c.element ∷ elements cs

  -- The cell's node is between `p` and `n`, and both its parts are allocated.
  pub record IsCell (h : Heap A) (p n : ℕ) (c : Cell A) : Type 0 where
    pub node_at :
        lookup c.address h.nodes ≡ some (record { previous = p; next = n; data_address = c.block })
    pub block_at : lookup c.block h.blocks ≡ some c.element
    pub address_pos : 0 < c.address
    pub address_lt : c.address < h.unused
    pub block_lt : c.block < h.unused

  -- No cell has its node at `k` or its element at `b`.
  abbrev pub NotAt : ℕ → ℕ → List (Cell A) → Type 0
  NotAt k b [] = Unit {0}
  NotAt k b (c ∷ cs) = (c.address ≢ k) × (c.block ≢ b) × NotAt k b cs

  abbrev pub Cells : Heap A → ℕ → List (Cell A) → Type 0
  Cells h p [] = Unit {0}
  Cells h p (c ∷ cs) =
      IsCell h p (head_address cs) c × NotAt c.address c.block cs × Cells h c.address cs

  -- The heaps agree on what was allocated, but for the node at `k` and the element at `b`.
  pub record Agrees (k b : ℕ) (h h' : Heap A) : Type 0 where
    pub same_node : (a : ℕ) → a < h.unused → a ≢ k → lookup a h'.nodes ≡ lookup a h.nodes
    pub same_block : (a : ℕ) → a < h.unused → a ≢ b → lookup a h'.blocks ≡ lookup a h.blocks
    pub unused_le : h.unused ≤ h'.unused

  pub IsCell-Agrees :
      (k b : ℕ) (h h' : Heap A) (p n : ℕ) (c : Cell A)
      → Agrees k b h h'
      → c.address ≢ k
      → c.block ≢ b
      → IsCell h p n c
      → IsCell h' p n c
  IsCell-Agrees k b h h' p n c agrees ne ne' cell = record {
    node_at = agrees.same_node c.address cell.address_lt ne ∙ cell.node_at;
    block_at = agrees.same_block c.block cell.block_lt ne' ∙ cell.block_at;
    address_pos = cell.address_pos;
    address_lt = omega (arith, agrees.unused_le, cell.address_lt);
    block_lt = omega (arith, agrees.unused_le, cell.block_lt);
  }

  pub Cells-Agrees :
      (k b : ℕ) (h h' : Heap A) (p : ℕ) (cs : List (Cell A))
      → Agrees k b h h'
      → NotAt k b cs
      → Cells h p cs
      → Cells h' p cs
  Cells-Agrees k b h h' p [] agrees away cells = tt
  Cells-Agrees k b h h' p (c ∷ cs) agrees (ne, ne', away) (cell, apart, cells) = (
    IsCell-Agrees k b h h' p _ c agrees ne ne' cell,
    apart,
    Cells-Agrees k b h h' c.address cs agrees away cells,
  )

  pub NotAt-unused :
      (h : Heap A) (p u : ℕ) (cs : List (Cell A)) → h.unused ≤ u → Cells h p cs → NotAt u (u + 1) cs
  NotAt-unused h p u [] le cells = tt
  NotAt-unused h p u (c ∷ cs) le (cell, apart, cells) = (
    λ e. omega (arith, cell.address_lt),
    λ e. omega (arith, cell.block_lt),
    NotAt-unused h c.address u cs le cells,
  )

  pub last_address-ne :
      (k b p : ℕ) (cs : List (Cell A)) → p ≢ k → NotAt k b cs → last_address p cs ≢ k
  last_address-ne k b p [] ne away = ne
  last_address-ne k b p (c ∷ cs) ne (ne', _, away) = last_address-ne k b c.address cs ne' away

  -- The queue holds the list `xs`, from the first element to the last.
  abbrev pub Represents : Queue A → List A → Type 0
  Represents queue xs =
      (cs : List (Cell A)) × (queue.first ≡ head_address cs)
      × (queue.last ≡ last_address 0 cs)
      × Cells queue.heap 0 cs
      × (elements cs ≡ xs)
      × (0 < queue.heap.unused)

  -- A queue that was just created is empty, where the heap never gives out `NULL`.
  pub queue_create-Represents : (h : Heap A) → 0 < h.unused → Represents (queue_create h) []
  unfolding queue_create
  queue_create-Represents h pos = ([], refl, refl, tt, refl, pos)

  -- the queue with its two ends written out
  pub queue_eta :
      (queue : Queue A) (f l : ℕ)
      → queue.first ≡ f
      → queue.last ≡ l
      → record { first = f; last = l; heap = queue.heap } ≡ queue
  queue_eta queue f l e e' = cc

  -- The node of `d` is linked to `p` and `n`.
  unfoldable pub relinked : Cell A → (p n : ℕ) → Heap A → Heap A
  relinked d p n h = record h {
    nodes = insert d.address (record { previous = p; next = n; data_address = d.block }) h.nodes;
  }

  pub relinked-Agrees :
      (d : Cell A) (p n : ℕ) (h : Heap A) → Agrees d.address d.block h (relinked d p n h)
  unfolding relinked
  relinked-Agrees d p n h = record {
    same_node = λ a _ ne. lookup-insert_ne d.address a _ h.nodes ne;
    same_block = λ a _ ne. refl;
    unused_le = omega arith;
  }

  pub relinked-IsCell :
      (d : Cell A) (p n p' n' : ℕ) (h : Heap A) → IsCell h p' n' d → IsCell (relinked d p n h) p n d
  unfolding relinked
  relinked-IsCell d p n p' n' h cell = record {
    node_at = lookup-insert_self d.address _ h.nodes;
    block_at = cell.block_at;
    address_pos = cell.address_pos;
    address_lt = cell.address_lt;
    block_lt = cell.block_lt;
  }

  -- the heap without the node at `k` and the element at `b`
  unfoldable pub without : ℕ → ℕ → Heap A → Heap A
  without k b h = record h { nodes = erase k h.nodes; blocks = erase b h.blocks }

  pub without-Agrees : (k b : ℕ) (h : Heap A) → Agrees k b h (without k b h)
  unfolding without
  without-Agrees k b h = record {
    same_node = λ a _ ne. lookup-erase_ne k a h.nodes ne;
    same_block = λ a _ ne. lookup-erase_ne b a h.blocks ne;
    unused_le = omega arith;
  }

  -- A queue that holds `xs` is empty exactly if `xs` is.
  pub is_empty_lem :
      (queue : Queue A) (xs : List A)
      → Represents queue xs
      → is_empty queue ≡ (elim xs [ [] ↦ true | x ∷ xs ↦ false ])
  unfolding is_empty
  is_empty_lem queue [] ([], at_first, _, _, e, _) = ground arith
  is_empty_lem queue (x ∷ xs) (c ∷ cs, at_first, _, (cell, apart, cells), e, _) =
      ground (arith, cell.address_pos)
  is_empty_lem queue [] (c ∷ cs, at_first, _, _, e, _) = absurd (cc)
  is_empty_lem queue (x ∷ xs) ([], at_first, _, _, e, _) = absurd (cc)
