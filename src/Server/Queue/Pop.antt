-- ===== src/Server/Queue/Pop.antt =====
-- `queueSyncPopCopyFront` takes the first element off the list.
use pr_shooter.Prelude.{
  ℕ, ◌≡◌, refl, ◌≢◌, ◌∙◌, ap, subst, true, false, some, List, [], ◌∷◌, arith, ◌==◌,
}
use pr_shooter.Wire.{◌>>=◌}
use package.pr_shooter.Server.Queue.{Heap, Queue, pop_copy_front}
use package.pr_shooter.Server.Queue.Cells.{
  Cell, IsCell, Cells-Agrees, last_address-ne, change_node_at, Represents, queue_eta, relinked,
  relinked-Agrees, relinked-IsCell, without, without-Agrees,
}

module _ {A : Type 0} where
  pop_last :
      (c : Cell A) (h : Heap A)
      → IsCell h 0 0 c
      → pop_copy_front (record { first = c.address; last = c.address; heap = h })
        ≡ some (c.element, record { first = 0; last = 0; heap = without c.address c.block h })
  unfolding pop_copy_front without
  pop_last c h cell =
      let nonzero : (c.address == 0) ≡ false = ground (arith, cell.address_pos) in
      let same : (c.address == c.address) ≡ true = ground arith in
      rw (nonzero, cell.node_at, ◌>>=◌) (rw (same, cell.block_at, ◌>>=◌) refl)

  pop_first :
      (c d : Cell A) (n l : ℕ) (h : Heap A)
      → IsCell h 0 d.address c
      → IsCell h c.address n d
      → l ≢ c.address
      → pop_copy_front (record { first = c.address; last = l; heap = h })
        ≡ some (
          c.element,
          record {
            first = d.address;
            last = l;
            heap = without c.address c.block (relinked d 0 n h);
          },
        )
  unfolding pop_copy_front without relinked
  pop_first c d n l h cell next ne =
      let nonzero : (c.address == 0) ≡ false = ground (arith, cell.address_pos) in
      let other : (c.address == l) ≡ false = ground arith in
      rw (nonzero, cell.node_at, ◌>>=◌)
        (rw
          (other, change_node_at d.address (λ n. record n { previous = 0 }) h.nodes _ next.node_at)
          (rw (cell.block_at, ◌>>=◌) refl))

  popped_as :
      (queue : Queue A) {f l : ℕ} {x y : A} {rest : Queue A}
      → queue.first ≡ f
      → queue.last ≡ l
      → y ≡ x
      → pop_copy_front (record { first = f; last = l; heap = queue.heap }) ≡ some (y, rest)
      → pop_copy_front queue ≡ some (x, rest)
  popped_as queue {f} {l} {x} {y} {rest} at_first at_last same e =
      subst (λ q. pop_copy_front q ≡ some (x, rest)) (queue_eta queue f l at_first at_last)
        (e ∙ ap (λ z. some (z, rest)) same)

  cons_head : {x y : A} {xs ys : List A} → x ∷ xs ≡ y ∷ ys → x ≡ y
  cons_head e = cc

  cons_tail : {x y : A} {xs ys : List A} → x ∷ xs ≡ y ∷ ys → xs ≡ ys
  cons_tail e = cc

  -- From a queue that holds `x` and then `xs`, `queueSyncPopCopyFront` takes `x` off without a
  -- fault, and the queue holds `xs` afterwards.
  pub pop_copy_front-Represents :
      (queue : Queue A) (x : A) (xs : List A)
      → Represents queue (x ∷ xs)
      → (rest : Queue A) × (pop_copy_front queue ≡ some (x, rest)) × Represents rest xs
  unfolding without relinked
  pop_copy_front-Represents queue x xs ([], at_first, at_last, cells, e, pos) = absurd (cc)
  pop_copy_front-Represents queue x xs (c ∷ [], at_first, at_last, (cell, _, _), e, pos) = (
    _,
    popped_as queue at_first at_last (cons_head e) (pop_last c queue.heap cell),
    ([], refl, refl, tt, cons_tail e, pos),
  )
  pop_copy_front-Represents queue x xs
        (c ∷ d ∷ ds, at_first, at_last, (cell, apart, (next, apart', cells)), e, pos) =
      (
        _,
        popped_as queue at_first at_last (cons_head e) (
            pop_first c d _ _ queue.heap cell next
              (last_address-ne c.address c.block d.address ds apart.0 apart.2)),
        (
          d ∷ ds,
          refl,
          refl,
          Cells-Agrees c.address c.block (relinked d 0 _ queue.heap) _ 0 (d ∷ ds)
              (without-Agrees c.address c.block _) apart
              (
                relinked-IsCell d 0 _ c.address _ queue.heap next,
                apart',
                Cells-Agrees d.address d.block queue.heap _ d.address ds
                    (relinked-Agrees d 0 _ queue.heap) apart' cells,
              ),
          cons_tail e,
          pos,
        ),
      )
