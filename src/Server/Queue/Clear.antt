-- ===== src/Server/Queue/Clear.antt =====
-- `queueClear` frees every node once.
use pr_shooter.Prelude.{
  ℕ, suc, ◌≡◌, refl, ◌∙◌, subst, false, some, List, [], ◌∷◌, arith, ◌==◌, length,
}
use pr_shooter.Wire.{◌>>=◌}
use package.pr_shooter.Server.Queue.{Heap, Queue, free_nodes, queue_clear}
use package.pr_shooter.Server.Queue.Cells.{
  Cell, head_address, elements, IsCell, Cells, Cells-Agrees, Represents, without, without-Agrees,
}

module _ {A : Type 0} where
  without-unused : (k b : ℕ) (h : Heap A) → (without k b h).unused ≡ h.unused
  unfolding without
  without-unused k b h = refl

  free_nodes-suc :
      (fuel : ℕ) (h h' : Heap A) (p n : ℕ) (c : Cell A)
      → IsCell h p n c
      → free_nodes fuel n (without c.address c.block h) ≡ some h'
      → free_nodes (suc fuel) c.address h ≡ some h'
  unfolding free_nodes without
  free_nodes-suc fuel h h' p n c cell freed =
      let nonzero : (c.address == 0) ≡ false = ground (arith, cell.address_pos) in
      rw (nonzero, free_nodes)
        (rw (cell.node_at, free_nodes) (rw (cell.block_at, free_nodes) freed))

  free_nodes-Cells :
      (h : Heap A) (p : ℕ) (cs : List (Cell A))
      → Cells h p cs
      → (h' : Heap A) × (free_nodes (suc (length (elements cs))) (head_address cs) h ≡ some h')
        × (h'.unused ≡ h.unused)
  unfolding free_nodes
  free_nodes-Cells h p [] cells = (h, refl, refl)
  free_nodes-Cells h p (c ∷ cs) (cell, apart, cells) =
      let (h', freed, same) = free_nodes-Cells (without c.address c.block h) c.address cs (
        Cells-Agrees c.address c.block h _ c.address cs (without-Agrees c.address c.block h) apart
          cells) in
      (
        h',
        free_nodes-suc (suc (length (elements cs))) h h' p _ c cell freed,
        same ∙ without-unused c.address c.block h,
      )

  queue_clear-free_nodes :
      (fuel first : ℕ) (queue : Queue A) (h' : Heap A)
      → queue.first ≡ first
      → free_nodes fuel first queue.heap ≡ some h'
      → queue_clear fuel queue ≡ some (record { first = 0; last = 0; heap = h' })
  unfolding queue_clear
  queue_clear-free_nodes fuel first queue h' at_first freed = rw (at_first, freed, ◌>>=◌) refl

  -- On a queue that holds `xs`, the loop of `queueClear` ends after `length xs` rounds, without
  -- using or freeing what is not allocated, and the queue is empty afterwards.
  pub queue_clear-Represents :
      (queue : Queue A) (xs : List A)
      → Represents queue xs
      → (after : Queue A) × (queue_clear (suc (length xs)) queue ≡ some after) × Represents after []
  queue_clear-Represents queue xs (cs, at_first, at_last, cells, e, pos) =
      let (h', freed, same) = free_nodes-Cells queue.heap 0 cs cells in
      (
        record { first = 0; last = 0; heap = h' },
        subst
            (λ ys.
              queue_clear (suc (length ys)) queue
              ≡ some (record { first = 0; last = 0; heap = h' }))
            e (queue_clear-free_nodes _ _ queue h' at_first freed),
        ([], refl, refl, tt, refl, rw same pos),
      )
