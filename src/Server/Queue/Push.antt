-- ===== src/Server/Queue/Push.antt =====
-- `queueSyncPushFront` and `queueSyncPushBack` add an element to the list.
pub mod Back
use mathlib.Core.Option.{some-injective}
use mathlib.Core.List.{map-append}
use pr_shooter.Prelude.{
  ℕ, zero, suc, ◌+◌, ◌≤◌, ◌<◌, ◌≡◌, refl, ◌≢◌, sym, ◌∙◌, ap, subst, Bool, true, false, not, Option,
  none, some, List, [], ◌∷◌, ◌++◌, map, arith, ◌==◌, inl, inr, Bool-cases, if◌then◌else◌,
}
use pr_shooter.Table.{Table, lookup, insert, erase}
use pr_shooter.Table.Laws.{lookup-insert_ne, lookup-insert_self, lookup-erase_ne}
use pr_shooter.Wire.{◌>>=◌}
use package.pr_shooter.Server.Queue.{
  QueueNode, Heap, Queue, change_node, queue_create, create_new_node, with_nodes, push_back,
  push_front, pop_front, pop_copy_front, is_empty,
}
use package.pr_shooter.Server.Queue.Cells.{
  Cell, head_address, last_address, elements, IsCell, NotAt, Cells, Agrees, IsCell-Agrees,
  Cells-Agrees, NotAt-unused, last_address-ne, change_node_at, Represents, queue_eta, relinked,
  relinked-Agrees, relinked-IsCell,
}

module _ {A : Type 0} where
  -- the heap after a new node with `x` was linked to `p` and `n`
  linked : A → (p n : ℕ) → Heap A → Heap A
  unfolding create_new_node
  linked x p n h = record (create_new_node x h) {
    nodes =
        insert h.unused (record { previous = p; next = n; data_address = h.unused + 1 })
          (create_new_node x h).nodes;
  }

  new_cell : A → Heap A → Cell A
  new_cell x h = record { address = h.unused; block = h.unused + 1; element = x }

  linked-Agrees : (x : A) (p n k b : ℕ) (h : Heap A) → Agrees k b h (linked x p n h)
  unfolding linked create_new_node
  linked-Agrees x p n k b h = record {
    same_node = λ a lt _.
        lookup-insert_ne h.unused a _ _ (λ e. omega (arith, lt))
        ∙ lookup-insert_ne h.unused a _ h.nodes (λ e. omega (arith, lt));
    same_block = λ a lt _. lookup-insert_ne (h.unused + 1) a x h.blocks (λ e. omega (arith, lt));
    unused_le = omega arith;
  }

  linked-IsCell :
      (x : A) (p n : ℕ) (h : Heap A) → 0 < h.unused → IsCell (linked x p n h) p n (new_cell x h)
  unfolding linked create_new_node new_cell
  linked-IsCell x p n h pos = record {
    node_at = lookup-insert_self h.unused _ _;
    block_at = lookup-insert_self (h.unused + 1) x h.blocks;
    address_pos = pos;
    address_lt = omega arith;
    block_lt = omega arith;
  }

  change_new :
      (x : A) (h : Heap A) (f : QueueNode → QueueNode)
      → change_node h.unused f (create_new_node x h).nodes
        ≡ some (
            insert h.unused
              (f (record { previous = 0; next = 0; data_address = h.unused + 1 }))
              (create_new_node x h).nodes)
  unfolding create_new_node
  change_new x h f =
      change_node_at h.unused f _ (record { previous = 0; next = 0; data_address = h.unused + 1 })
        (lookup-insert_self h.unused _ h.nodes)

  push_front_empty :
      (x : A) (h : Heap A)
      → push_front x (record { first = 0; last = 0; heap = h })
        ≡ some (record { first = h.unused; last = h.unused; heap = linked x 0 0 h })
  unfolding push_front linked
  push_front_empty x h = rw (change_new x h (λ node. record node { next = 0 })) refl

  push_front_first :
      (x : A) (h : Heap A) (d : Cell A) (p n l : ℕ)
      → IsCell (linked x 0 d.address h) p n d
      → push_front x (record { first = d.address; last = l; heap = h })
        ≡ some (record {
          first = h.unused;
          last = l;
          heap = relinked d h.unused n (linked x 0 d.address h);
        })
  unfolding push_front linked relinked
  push_front_first x h d p n l cell =
      let nonzero : (d.address == 0) ≡ false = ground (arith, cell.address_pos) in
      rw (change_new x h (λ node. record node { next = d.address })) (
        rw
          (
            nonzero,
            change_node_at d.address (λ node. record node { previous = h.unused }) _
                (record { previous = p; next = n; data_address = d.block }) cell.node_at,
          )
          refl)

  push_back_empty :
      (x : A) (h : Heap A)
      → push_back x (record { first = 0; last = 0; heap = h })
        ≡ some (record { first = h.unused; last = h.unused; heap = linked x 0 0 h })
  unfolding push_back linked
  push_back_empty x h = rw (change_new x h (λ node. record node { previous = 0 })) refl

  push_back_last :
      (x : A) (h : Heap A) (z : Cell A) (p n f : ℕ)
      → IsCell (linked x z.address 0 h) p n z
      → push_back x (record { first = f; last = z.address; heap = h })
        ≡ some (record {
          first = f;
          last = h.unused;
          heap = relinked z p h.unused (linked x z.address 0 h);
        })
  unfolding push_back linked relinked
  push_back_last x h z p n f cell =
      let nonzero : (z.address == 0) ≡ false = ground (arith, cell.address_pos) in
      rw (change_new x h (λ node. record node { previous = z.address })) (
        rw
          (
            nonzero,
            change_node_at z.address (λ node. record node { next = h.unused }) _
                (record { previous = p; next = n; data_address = z.block }) cell.node_at,
          )
          refl)

  linked-unused_pos : (x : A) (p n : ℕ) (h : Heap A) → 0 < h.unused → 0 < (linked x p n h).unused
  unfolding linked create_new_node
  linked-unused_pos x p n h pos = omega arith

  -- A single cell, in a queue that was empty.
  linked-Represents :
      (x : A) (h : Heap A)
      → 0 < h.unused
      → Represents (record { first = h.unused; last = h.unused; heap = linked x 0 0 h }) (x ∷ [])
  unfolding new_cell
  linked-Represents x h pos = (
    new_cell x h ∷ [],
    refl,
    refl,
    (linked-IsCell x 0 0 h pos, tt, tt),
    refl,
    linked-unused_pos x 0 0 h pos,
  )

  relinked-unused_pos :
      (d : Cell A) (p n : ℕ) (h : Heap A) → 0 < h.unused → 0 < (relinked d p n h).unused
  unfolding relinked
  relinked-unused_pos d p n h pos = pos

  -- the cells after `x` is put in front of `d ∷ ds`
  Cells-front :
      (x : A) (h : Heap A) (d : Cell A) (ds : List (Cell A))
      → 0 < h.unused
      → Cells h 0 (d ∷ ds)
      → Cells
          (relinked d h.unused (head_address ds) (linked x 0 d.address h))
          0
          (new_cell x h ∷ d ∷ ds)
  unfolding new_cell
  Cells-front x h d ds pos (cell, apart, cells) =
      let h1 = linked x 0 d.address h in
      let away = NotAt-unused h 0 h.unused (d ∷ ds) (omega arith) (cell, apart, cells) in
      let grown = linked-Agrees x 0 d.address d.address d.block h in
      let there =
        IsCell-Agrees (d.address + 1) (d.block + 1) h h1 0 (head_address ds) d
          (linked-Agrees x 0 d.address (d.address + 1) (d.block + 1) h) (λ e. omega arith)
          (λ e. omega arith) cell in
      (
        IsCell-Agrees d.address d.block h1 _ 0 d.address (new_cell x h)
            (relinked-Agrees d h.unused (head_address ds) h1) (λ e. away.0 (sym e))
            (λ e. away.1 (sym e)) (linked-IsCell x 0 d.address h pos),
        away,
        (
          relinked-IsCell d h.unused (head_address ds) 0 (head_address ds) h1 there,
          apart,
          Cells-Agrees d.address d.block h1 _ d.address ds
              (relinked-Agrees d h.unused (head_address ds) h1) apart
              (Cells-Agrees d.address d.block h h1 d.address ds grown apart cells),
        ),
      )

  -- On a queue that holds `xs`, `queueSyncPushFront` of `x` succeeds, and the queue holds `x` and
  -- then `xs` afterwards.
  pub push_front-Represents :
      (x : A) (queue : Queue A) (xs : List A)
      → Represents queue xs
      → (after : Queue A) × (push_front x queue ≡ some after) × Represents after (x ∷ xs)
  unfolding new_cell
  push_front-Represents x queue xs ([], at_first, at_last, cells, e, pos) = (
    record { first = h.unused; last = h.unused; heap = linked x 0 0 h },
    subst
        (λ q.
          push_front x q
          ≡ some (record { first = h.unused; last = h.unused; heap = linked x 0 0 h }))
        (queue_eta queue 0 0 at_first at_last) (push_front_empty x h),
    subst
        (λ ys.
          Represents (record { first = h.unused; last = h.unused; heap = linked x 0 0 h }) (x ∷ ys))
        e (linked-Represents x h pos),
  )
    where
      h : Heap A
      h = queue.heap
  push_front-Represents x queue xs (d ∷ ds, at_first, at_last, cells, e, pos) = (
    after,
    subst (λ q. push_front x q ≡ some after) (queue_eta queue _ _ at_first at_last)
        (push_front_first x h d 0 (head_address ds) _ there),
    (
      new_cell x h ∷ d ∷ ds,
      refl,
      refl,
      Cells-front x h d ds pos cells,
      ap (λ ys. x ∷ ys) e,
      relinked-unused_pos d h.unused _ _ (linked-unused_pos x 0 d.address h pos),
    ),
  )
    where
      h : Heap A
      h = queue.heap

      h1 : Heap A
      h1 = linked x 0 d.address h

      after : Queue A
      after = record {
        first = h.unused;
        last = last_address 0 (d ∷ ds);
        heap = relinked d h.unused (head_address ds) h1;
      }

      there : IsCell h1 0 (head_address ds) d
      there =
          IsCell-Agrees (d.address + 1) (d.block + 1) h h1 0 (head_address ds) d
            (linked-Agrees x 0 d.address (d.address + 1) (d.block + 1) h) (λ e. omega arith)
            (λ e. omega arith) cells.0
