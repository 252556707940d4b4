-- ===== src/Game/Loop/Validity.antt =====
-- Whole passes of `updateThread` keep the game valid, and what its timings mean.
use mathlib.Core.Option.{some-injective}
use pr_shooter.Prelude.{
  ℕ, zero, suc, ◌+◌, ◌%◌, ◌^◌, ◌≡◌, subst, some, length, arith, inl, inr, Option-cases,
}
use pr_shooter.Machine.{Machine}
use pr_shooter.Wire.{◌>>=◌}
use package.pr_shooter.Game.{Game, record_time, collision, update}
use package.pr_shooter.Game.Handlers.Invariant.{IsValidGame, RestIsSlow}
use package.pr_shooter.Game.Physics.{update_positions}
use package.pr_shooter.Game.Hits.{check_collisions}
use package.pr_shooter.Game.Hits.Validity.{
  check_collisions-IsValidGame, update_positions-IsValidGame,
}
use package.pr_shooter.Game.Messages.Cases.{Ensures, Ensures-some, Ensures-of, Ensures->>=_of}
use package.pr_shooter.Game.Loop.{Run, done, fault, out_of_fuel, round, update_tick}
use package.pr_shooter.Game.Loop.Timestep.{rounds, Paced, faults, paced, update_tick-Paced}

module _ {m : Machine} (rest : RestIsSlow m) (clock : ℕ → ℕ × ℕ) where
  round-IsValidGame : (d e : ℕ) (g : Game m) → IsValidGame g → Ensures IsValidGame (round d e g)
  unfolding round
  round-IsValidGame d e g v =
      Ensures->>=_of IsValidGame IsValidGame (check_collisions (update_positions g)) _
        (Ensures-of IsValidGame (check_collisions (update_positions g)) (λ h.
          check_collisions-IsValidGame rest (update_positions g) h
            (update_positions-IsValidGame g v)))
        (λ h w. record { valid = w.valid; distinct = w.distinct })

  rounds-IsValidGame :
      (count i : ℕ) (g : Game m) → IsValidGame g → Ensures IsValidGame (rounds clock i count g)
  unfolding rounds
  rounds-IsValidGame zero i g v = v
  rounds-IsValidGame (suc count) i g v = elim (Option-cases (round (clock i).0 (clock i).1 g)) [
    | inl e ↦ rw (e, rounds) tt
    | inr (h, e) ↦
        rw (e, rounds)
          (rounds-IsValidGame count (i + 1) h
            (Ensures-some IsValidGame _ h (round-IsValidGame _ _ g v) e))
  ]

  abbrev ValidRun : Run m → Type 0
  ValidRun (done _ _ g) = IsValidGame g
  ValidRun fault = Unit {0}
  ValidRun out_of_fuel = Unit {0}

  Paced-ValidRun :
      (total : ℕ) (g : Game m) {r : Run m} → IsValidGame g → Paced clock total 0 g r → ValidRun r
  Paced-ValidRun total g v (faults count e) = tt
  Paced-ValidRun total g v (paced left count n h at split small more e) =
      Ensures-some IsValidGame _ h (rounds-IsValidGame count 0 g v) e

  -- Where the velocity (0, 0) passes the speed test, one pass of `updateThread`, however many
  -- rounds it makes, keeps a valid game valid if it does not fault.
  pub update_tick-IsValidGame :
      (elapsed accumulator left n : ℕ) (g g' : Game m)
      → IsValidGame g
      → update_tick clock elapsed accumulator g ≡ done left n g'
      → IsValidGame g'
  update_tick-IsValidGame elapsed accumulator left n g g' v e =
      subst ValidRun e
        (Paced-ValidRun (accumulator + elapsed) g v (update_tick-Paced clock elapsed accumulator g))

module _ {m : Machine} where
  -- A round that does not fault and measured `update_duration` for `updatePositions` and `collision_duration` for
  -- `checkCollisions` adds the first to the total of "collision" and the second to that of "update".
  pub round_timings :
      (update_duration collision_duration : ℕ) (g g' h : Game m)
      → check_collisions (update_positions g) ≡ some h
      → round update_duration collision_duration g ≡ some g'
      → let i = length h.players % 2 ^ 16 in
        let j = length h.projectiles % 2 ^ 16 in
        ((g'.calc_time i j collision).total ≡ (h.calc_time i j collision).total + update_duration)
        × ((g'.calc_time i j update).total ≡ (h.calc_time i j update).total + collision_duration)
  unfolding round record_time
  round_timings update_duration collision_duration g g' h checked e =
      rw (← some-injective _ _ (rw (checked, ◌>>=◌) at e)) (ground arith, ground arith)
