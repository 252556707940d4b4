-- ===== src/Server/Queue/Push/Back.antt =====
-- `queueSyncPushBack`: the cell at the end gets a successor.
use pr_shooter.Prelude.{
  ℕ, ◌+◌, ◌≡◌, refl, ◌≢◌, sym, ◌∙◌, ap, subst, some, List, [], ◌∷◌, ◌++◌, arith,
}
use package.pr_shooter.Server.Queue.{Heap, Queue, push_back}
use package.pr_shooter.Server.Queue.Cells.{
  Cell, last_address, elements, IsCell, NotAt, Cells, Agrees, IsCell-Agrees, NotAt-unused,
  Represents, queue_eta, relinked, relinked-Agrees, relinked-IsCell,
}
use package.pr_shooter.Server.Queue.Push.{
  linked, new_cell, linked-Agrees, linked-IsCell, linked-unused_pos, linked-Represents,
  relinked-unused_pos, push_back_empty, push_back_last,
}

module _ {A : Type 0} where
  last_cell : Cell A → List (Cell A) → Cell A
  last_cell c [] = c
  last_cell c (d ∷ ds) = last_cell d ds

  -- what is in front of the last cell
  before_last : ℕ → Cell A → List (Cell A) → ℕ
  before_last p c [] = p
  before_last p c (d ∷ ds) = before_last c.address d ds

  last_address-last_cell :
      (p : ℕ) (c : Cell A) (cs : List (Cell A)) → last_address p (c ∷ cs) ≡ (last_cell c cs).address
  unfolding last_cell
  last_address-last_cell p c [] = refl
  last_address-last_cell p c (d ∷ ds) = last_address-last_cell c.address d ds

  last_cell-IsCell :
      (h : Heap A) (p : ℕ) (c : Cell A) (cs : List (Cell A))
      → Cells h p (c ∷ cs)
      → IsCell h (before_last p c cs) 0 (last_cell c cs)
  unfolding last_cell before_last
  last_cell-IsCell h p c [] cells = cells.0
  last_cell-IsCell h p c (d ∷ ds) cells = last_cell-IsCell h c.address d ds cells.2

  last_cell-ne :
      (k b : ℕ) (c : Cell A) (cs : List (Cell A))
      → NotAt k b (c ∷ cs)
      → ((last_cell c cs).address ≢ k) × ((last_cell c cs).block ≢ b)
  unfolding last_cell
  last_cell-ne k b c [] away = (away.0, away.1)
  last_cell-ne k b c (d ∷ ds) away = last_cell-ne k b d ds away.2

  NotAt-snoc :
      (k b : ℕ) (cs : List (Cell A)) (c : Cell A)
      → NotAt k b cs
      → c.address ≢ k
      → c.block ≢ b
      → NotAt k b (cs ++ (c ∷ []))
  NotAt-snoc k b [] c away ne ne' = (ne, ne', tt)
  NotAt-snoc k b (d ∷ ds) c away ne ne' = (away.0, away.1, NotAt-snoc k b ds c away.2 ne ne')

  -- Cells that keep their places but for the last, which is linked to a new one.
  Cells-snoc :
      (h h' : Heap A) (p : ℕ) (c : Cell A) (cs : List (Cell A)) (new : Cell A)
      → let z = last_cell c cs in
        Agrees z.address z.block h h'
        → IsCell h' (before_last p c cs) new.address z
        → IsCell h' z.address 0 new
        → NotAt new.address new.block (c ∷ cs)
        → Cells h p (c ∷ cs)
        → Cells h' p (c ∷ cs ++ (new ∷ []))
  unfolding last_cell before_last
  Cells-snoc h h' p c [] new agrees end added fresh cells =
      (end, (λ e. fresh.0 (sym e), λ e. fresh.1 (sym e), tt), (added, tt, tt))
  Cells-snoc h h' p c (d ∷ ds) new agrees end added fresh (cell, apart, cells) =
      let away = last_cell-ne c.address c.block d ds apart in
      (
        IsCell-Agrees _ _ h h' p d.address c agrees (λ e. away.0 (sym e)) (λ e. away.1 (sym e))
            cell,
        NotAt-snoc c.address c.block (d ∷ ds) new apart (λ e. fresh.0 (sym e))
            (λ e. fresh.1 (sym e)),
        Cells-snoc h h' c.address d ds new agrees end added fresh.2 cells,
      )

  elements-snoc :
      (cs : List (Cell A)) (c : Cell A)
      → elements (cs ++ (c ∷ [])) ≡ elements cs ++ (c.element ∷ [])
  elements-snoc [] c = refl
  elements-snoc (d ∷ ds) c = ap (λ ys. d.element ∷ ys) (elements-snoc ds c)

  last_address-snoc :
      (p : ℕ) (cs : List (Cell A)) (c : Cell A) → last_address p (cs ++ (c ∷ [])) ≡ c.address
  last_address-snoc p [] c = refl
  last_address-snoc p (d ∷ ds) c = last_address-snoc d.address ds c

  -- On a queue that holds `xs`, `queueSyncPushBack` of `x` succeeds, and the queue holds `xs` and
  -- then `x` afterwards.
  pub push_back-Represents :
      (x : A) (queue : Queue A) (xs : List A)
      → Represents queue xs
      → (after : Queue A) × (push_back x queue ≡ some after) × Represents after (xs ++ (x ∷ []))
  unfolding new_cell
  push_back-Represents x queue xs ([], at_first, at_last, cells, e, pos) = (
    record { first = h.unused; last = h.unused; heap = linked x 0 0 h },
    subst
        (λ q.
          push_back x q
          ≡ some (record { first = h.unused; last = h.unused; heap = linked x 0 0 h }))
        (queue_eta queue 0 0 at_first at_last) (push_back_empty x h),
    subst
        (λ ys.
          Represents (record { first = h.unused; last = h.unused; heap = linked x 0 0 h })
            (ys ++ (x ∷ [])))
        e (linked-Represents x h pos),
  )
    where
      h : Heap A
      h = queue.heap
  push_back-Represents x queue xs (c ∷ cs, at_first, at_last, cells, e, pos) = (
    after,
    subst (λ q. push_back x q ≡ some after)
        (queue_eta queue _ _ at_first (at_last ∙ last_address-last_cell 0 c cs))
        (push_back_last x h z p 0 c.address there),
    (
      c ∷ cs ++ (new_cell x h ∷ []),
      refl,
      sym (last_address-snoc 0 (c ∷ cs) (new_cell x h)),
      Cells-snoc h (relinked z p h.unused h1) 0 c cs (new_cell x h) agrees
          (relinked-IsCell z p h.unused p 0 h1 there)
          (IsCell-Agrees z.address z.block h1 _ z.address 0 (new_cell x h)
            (relinked-Agrees z p h.unused h1) (λ e. z_ne.0 (sym e)) (λ e. z_ne.1 (sym e))
            (linked-IsCell x z.address 0 h pos))
          away cells,
      elements-snoc (c ∷ cs) (new_cell x h) ∙ ap (λ ys. ys ++ (x ∷ [])) e,
      relinked-unused_pos z p h.unused h1 (linked-unused_pos x z.address 0 h pos),
    ),
  )
    where
      h : Heap A
      h = queue.heap

      z : Cell A
      z = last_cell c cs

      p : ℕ
      p = before_last 0 c cs

      h1 : Heap A
      h1 = linked x z.address 0 h

      after : Queue A
      after = record { first = c.address; last = h.unused; heap = relinked z p h.unused h1 }

      there : IsCell h1 p 0 z
      there =
          IsCell-Agrees (z.address + 1) (z.block + 1) h h1 p 0 z
            (linked-Agrees x z.address 0 (z.address + 1) (z.block + 1) h) (λ e. omega arith)
            (λ e. omega arith) (last_cell-IsCell h 0 c cs cells)

      away : NotAt h.unused (h.unused + 1) (c ∷ cs)
      away = NotAt-unused h 0 h.unused (c ∷ cs) (omega arith) cells

      z_ne : (z.address ≢ h.unused) × (z.block ≢ h.unused + 1)
      z_ne = last_cell-ne h.unused (h.unused + 1) c cs away

      agrees : Agrees z.address z.block h (relinked z p h.unused h1)
      agrees = record {
        same_node = λ a lt ne.
            (relinked-Agrees z p h.unused h1).same_node a (omega (arith, lt, grown.unused_le)) ne
            ∙ grown.same_node a lt ne;
        same_block = λ a lt ne.
            (relinked-Agrees z p h.unused h1).same_block a (omega (arith, lt, grown.unused_le)) ne
            ∙ grown.same_block a lt ne;
        unused_le = omega (arith, grown.unused_le, (relinked-Agrees z p h.unused h1).unused_le);
      }
        where
          grown : Agrees z.address z.block h h1
          grown = linked-Agrees x z.address 0 z.address z.block h
