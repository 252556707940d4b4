-- ===== src/Game/Loop/Timestep.antt =====
-- The fixed timestep of `updateThread`.
use pr_shooter.Prelude.{
  ℕ, zero, suc, ◌+◌, ◌-◌, ◌*◌, ◌≤◌, ◌<◌, ◌≡◌, refl, ◌≢◌, Option, none, some, arith, ltb, inl, inr,
  Bool-cases, Option-cases, ltb→lt,
}
use pr_shooter.Machine.{Machine}
use package.pr_shooter.Game.{Game, timestep}
use package.pr_shooter.Game.Loop.{Run, done, fault, round, update_loop, update_tick}

-- `count` rounds in a row, from round `i` on; `none` as soon as one of them faults.
unfoldable pub rounds : {m : Machine} → (ℕ → ℕ × ℕ) → ℕ → ℕ → Game m → Option (Game m)
rounds clock i zero g = some g
rounds clock i (suc count) g = elim (round (clock i).0 (clock i).1 g) [
  | none ↦ none
  | some g' ↦ rounds clock (i + 1) count g'
]

-- A pass over `total` microseconds: it never runs out of fuel; unless a round faults it makes as
-- many rounds of `timestep` as leave a rest of at most one, and the game is what they make of it.
pub data Paced {m : Machine} (clock : ℕ → ℕ × ℕ) (total i : ℕ) (g : Game m) : Run m → Type 0 where
  faults : (count : ℕ) → rounds clock i count g ≡ none → Paced clock total i g fault
  paced :
      (rest count n : ℕ) (g' : Game m)
      → n ≡ i + count
      → total ≡ rest + count * timestep
      → rest ≤ timestep
      → (count ≢ 0 → 0 < rest)
      → rounds clock i count g ≡ some g'
      → Paced clock total i g (done rest n g')

module _ {m : Machine} (clock : ℕ → ℕ × ℕ) where
  -- One more round in front.
  Paced-suc :
      (i total : ℕ) (g g' : Game m) {r : Run m}
      → timestep < total
      → round (clock i).0 (clock i).1 g ≡ some g'
      → Paced clock (total - timestep) (i + 1) g' r
      → Paced clock total i g r
  unfolding rounds
  Paced-suc i total g g' more e (faults count e') = faults (suc count) (rw (e, rounds) e')
  Paced-suc i total g g' more e (paced rest count n g'' at split small left e') =
      paced rest (suc count) n g'' (omega arith) (omega arith) small
        (λ _. first_left count split left) (rw (e, rounds) e')
    where
      first_left : (c : ℕ) → total - timestep ≡ rest + c * timestep → (c ≢ 0 → 0 < rest) → 0 < rest
      first_left zero s l = omega arith
      first_left (suc c) s l = l (λ z. omega arith)

  update_loop-Paced :
      (fuel i total : ℕ) (g : Game m)
      → total < fuel
      → Paced clock total i g (update_loop clock fuel i total g)
  unfolding update_loop rounds
  update_loop-Paced zero i total g h = absurd (omega arith)
  update_loop-Paced (suc fuel) i total g h = elim (Bool-cases (ltb timestep total)) [
    | inl more ↦
        rw (more, update_loop)
          (elim (Option-cases (round (clock i).0 (clock i).1 g)) [
            | inl e ↦ rw (e, update_loop) (faults 1 (rw (e, rounds)))
            | inr (g', e) ↦
                rw (e, update_loop)
                  (Paced-suc i total g g' (ltb→lt timestep total more) e
                    (update_loop-Paced fuel (i + 1) (total - timestep) g' (ground arith)))
          ])
    | inr less ↦
        rw (less, update_loop)
          (paced total 0 i g (omega arith) (omega arith) (ground arith) (λ ne. absurd (ne refl))
            refl)
  ]

  -- One pass of `updateThread` never runs out of fuel. Unless a round faults, it makes as many
  -- rounds as leave at most one `timestep` in the accumulator, and more than nothing if it makes
  -- any: the time that has gone by is what the rounds take and what is left, and the game is what
  -- that many rounds in a row make of it.
  pub update_tick-Paced :
      (elapsed accumulator : ℕ) (g : Game m)
      → Paced clock (accumulator + elapsed) 0 g (update_tick clock elapsed accumulator g)
  unfolding update_tick rounds
  update_tick-Paced elapsed accumulator g = elim (Bool-cases (ltb timestep total)) [
    | inl more ↦ rw more (update_loop-Paced (suc total) 0 total g (omega arith))
    | inr less ↦
        rw less (
          paced total 0 0 g (omega arith) (omega arith) (ground arith) (λ ne. absurd (ne refl))
            refl)
  ]
    where
      total : ℕ
      total = accumulator + elapsed
