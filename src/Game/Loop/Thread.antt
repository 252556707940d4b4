-- ===== src/Game/Loop/Thread.antt =====
-- The turns of `updateThread`, one after the other.
use pr_shooter.Prelude.{
  ℕ, zero, suc, ◌+◌, ◌-◌, ◌*◌, ◌≤◌, ◌<◌, ◌≡◌, refl, sym, subst, ◌∙◌, ap, List, [], ◌∷◌, map, arith,
  ltb, inl, inr, true, false, Bool-cases, Option-cases, ltb→lt,
}
use pr_shooter.Machine.{Machine}
use package.pr_shooter.Game.{Game, timestep}
use package.pr_shooter.Game.Loop.{
  Run, done, fault, out_of_fuel, round, update_loop, update_tick, Beat, after_rounds, update_thread,
}
use package.pr_shooter.Game.Loop.Timestep.{Paced, faults, paced, update_tick-Paced}

-- the time that the turns take
abbrev pub span : {m : Machine} → List (Beat m) → ℕ
span [] = 0
span (beat ∷ beats) = beat.elapsed + span beats

-- Unless a round faults, the time that went by is what the rounds take and what is left, and what
-- is left is not more than one `timestep`.
abbrev pub Spends : {m : Machine} → ℕ → Run m → Type 0
Spends total (done left count g) = (total ≡ left + count * timestep) × (left ≤ timestep)
Spends total fault = Unit {0}
Spends total out_of_fuel = ⊥

module _ {m : Machine} where
  Paced-Spends :
      (clock : ℕ → ℕ × ℕ) (total : ℕ) (g : Game m) {r : Run m}
      → Paced clock total 0 g r
      → Spends total r
  Paced-Spends clock total g (faults count e) = tt
  Paced-Spends clock total g (paced left count n g' at split small more e) =
      (omega (arith, at, split), small)

  after_rounds-Spends :
      (total elapsed left count : ℕ) (r : Run m)
      → total ≡ left + count * timestep
      → Spends (left + elapsed) r
      → Spends (total + elapsed) (after_rounds count r)
  after_rounds-Spends total elapsed left count (done rest n g) split (spent, small) =
      (omega (arith, split, spent), small)
  after_rounds-Spends total elapsed left count fault split s = tt
  after_rounds-Spends total elapsed left count out_of_fuel split s = s

  turn-Spends :
      (total later : ℕ) (r : Run m) (rest : ℕ → Game m → Run m)
      → ((left : ℕ) (g : Game m) → left ≤ timestep → Spends (left + later) (rest left g))
      → Spends total r
      → Spends (total + later) (elim r [
        | done left count g ↦ after_rounds count (rest left g)
        | fault ↦ fault
        | out_of_fuel ↦ out_of_fuel
      ])
  turn-Spends total later (done left count g) rest go (split, small) =
      after_rounds-Spends total later left count (rest left g) split (go left g small)
  turn-Spends total later fault rest go s = tt
  turn-Spends total later out_of_fuel rest go s = s

  -- However many turns `updateThread` makes, how long each takes and whatever the other threads make
  -- of the game in between: from an accumulator of at most one `timestep` on, it never runs out of
  -- fuel, and unless a round faults no time is lost and none is made up. What was in the
  -- accumulator and what went by is what all the rounds take and what is left, and at most one
  -- `timestep` is left.
  pub update_thread-Spends :
      (beats : List (Beat m)) (accumulator : ℕ) (g : Game m)
      → accumulator ≤ timestep
      → Spends (accumulator + span beats) (update_thread beats accumulator g)
  unfolding update_thread
  update_thread-Spends [] accumulator g small = (omega arith, small)
  update_thread-Spends (beat ∷ beats) accumulator g small =
      subst (λ t. Spends t (update_thread (beat ∷ beats) accumulator g)) (omega arith)
        (turn-Spends (accumulator + beat.elapsed) (span beats)
          (update_tick beat.clock beat.elapsed accumulator (beat.meanwhile g)) (update_thread beats)
          (λ left g' fits. update_thread-Spends beats left g' fits)
          (Paced-Spends beat.clock (accumulator + beat.elapsed) (beat.meanwhile g)
            (update_tick-Paced beat.clock beat.elapsed accumulator (beat.meanwhile g))))

-- The same durations in every round: rounds do not depend on when they are made.
abbrev pub steady : ℕ × ℕ → ℕ → ℕ × ℕ
steady durations i = durations

module _ {m : Machine} (durations : ℕ × ℕ) where
  -- a turn in which nobody else does anything
  abbrev pub quiet : ℕ → Beat m
  quiet elapsed = record { elapsed = elapsed; clock = steady durations; meanwhile = λ g. g }

  shift :
      (fuel fuel' i j total : ℕ) (g : Game m)
      → total < fuel
      → total < fuel'
      → update_loop (steady durations) fuel (i + j) total g
        ≡ after_rounds i (update_loop (steady durations) fuel' j total g)
  unfolding update_loop
  shift zero fuel' i j total g h h' = absurd (omega arith)
  shift (suc fuel) zero i j total g h h' = absurd (omega arith)
  shift (suc fuel) (suc fuel') i j total g h h' = elim (Bool-cases (ltb timestep total)) [
    | inr less ↦ rw (less, update_loop) refl
    | inl more ↦ elim (Option-cases (round durations.0 durations.1 g)) [
      | inl e ↦ rw (more, update_loop, e) refl
      | inr (g', e) ↦
          let lt = ltb→lt timestep total more in
          rw (more, update_loop, e)
            (ap (λ n. update_loop (steady durations) fuel n (total - timestep) g') (omega arith)
              ∙ shift fuel fuel' i (j + 1) (total - timestep) g' (omega arith) (omega arith))
    ]
  ]

  -- a loop that goes on from where another one has stopped
  abbrev go_on : ℕ → Run m → Run m
  go_on later (done left count g) =
      after_rounds count (update_loop (steady durations) (suc (left + later)) 0 (left + later) g)
  go_on later fault = fault
  go_on later out_of_fuel = out_of_fuel

  update_loop-add :
      (fuel fuel' i total later : ℕ) (g : Game m)
      → total < fuel
      → total + later < fuel'
      → update_loop (steady durations) fuel' i (total + later) g
        ≡ go_on later (update_loop (steady durations) fuel i total g)
  unfolding update_loop
  update_loop-add zero fuel' i total later g h h' = absurd (omega arith)
  update_loop-add (suc fuel) zero i total later g h h' = absurd (omega arith)
  update_loop-add (suc fuel) (suc fuel') i total later g h h' =
      elim (Bool-cases (ltb timestep total)) [
        | inr less ↦
            subst
              (λ r. update_loop (steady durations) (suc fuel') i (total + later) g ≡ go_on later r)
              {x = done total i g} (sym (rw (less, update_loop) refl))
              (subst
                (λ n.
                  update_loop (steady durations) (suc fuel') n (total + later) g
                  ≡ go_on later (done total i g))
                (omega arith)
                (shift (suc fuel') (suc (total + later)) i 0 (total + later) g h' (omega arith)))
        | inl more ↦
            let lt = ltb→lt timestep total more in
            let more' : ltb timestep (total + later) ≡ true = ground arith in
            elim (Option-cases (round durations.0 durations.1 g)) [
              | inl e ↦ rw (more, more', update_loop, e) refl
              | inr (g', e) ↦
                  rw (more, more', update_loop, e)
                    (ap (λ n. update_loop (steady durations) fuel' (i + 1) n g') (omega arith)
                      ∙ update_loop-add fuel fuel' (i + 1) (total - timestep) later g' (omega arith)
                          (omega arith))
            ]
      ]

  update_tick-loop :
      (elapsed accumulator : ℕ) (g : Game m)
      → update_tick (steady durations) elapsed accumulator g
        ≡ update_loop (steady durations) (suc (accumulator + elapsed)) 0 (accumulator + elapsed) g
  unfolding update_tick update_loop
  update_tick-loop elapsed accumulator g =
      elim (Bool-cases (ltb timestep (accumulator + elapsed))) [
        | inl more ↦ rw more refl
        | inr less ↦ rw (less, update_loop) refl
      ]

  turn-go_on :
      (total later : ℕ) (r : Run m) (rest : ℕ → Game m → Run m)
      → ((left : ℕ) (g : Game m)
          → left ≤ timestep
          → rest left g ≡ update_tick (steady durations) later left g)
      → Spends total r
      → elim r [
        | done left count g ↦ after_rounds count (rest left g)
        | fault ↦ fault
        | out_of_fuel ↦ out_of_fuel
      ]
        ≡ go_on later r
  turn-go_on total later (done left count g) rest go (split, small) =
      ap (after_rounds count) (go left g small ∙ update_tick-loop later left g)
  turn-go_on total later fault rest go s = refl
  turn-go_on total later out_of_fuel rest go s = refl

  update_tick-add :
      (elapsed later accumulator : ℕ) (g : Game m)
      → update_tick (steady durations) (elapsed + later) accumulator g
        ≡ go_on later (update_tick (steady durations) elapsed accumulator g)
  update_tick-add elapsed later accumulator g =
      update_tick-loop (elapsed + later) accumulator g
      ∙ ap (λ n. update_loop (steady durations) (suc n) 0 n g) (omega arith)
      ∙ update_loop-add (suc (accumulator + elapsed)) (suc (accumulator + elapsed + later)) 0
          (accumulator + elapsed) later g (omega arith) (omega arith)
      ∙ ap (go_on later) (sym (update_tick-loop elapsed accumulator g))

  -- Where every round takes the same durations and nobody else works on the game, it makes no
  -- difference how often `updateThread` is woken: any turns, from an accumulator of at most one
  -- `timestep` on, come to what a single turn over the whole time comes to, faults included.
  pub update_thread-update_tick :
      (elapsed : List ℕ) (accumulator : ℕ) (g : Game m)
      → accumulator ≤ timestep
      → update_thread (map quiet elapsed) accumulator g
        ≡ update_tick (steady durations) (span (map quiet elapsed)) accumulator g
  unfolding update_thread
  update_thread-update_tick [] accumulator g small =
      let rests : ltb timestep (accumulator + 0) ≡ false = ground arith in
      rw (rests, update_tick) (ap (λ n. done n 0 g) (omega arith))
  update_thread-update_tick (time ∷ elapsed) accumulator g small =
      turn-go_on (accumulator + time) (span (map quiet elapsed))
        (update_tick (steady durations) time accumulator g) (update_thread (map quiet elapsed))
        (λ left g' fits. update_thread-update_tick elapsed left g' fits)
        (Paced-Spends (steady durations) (accumulator + time) g
          (update_tick-Paced (steady durations) time accumulator g))
      ∙ sym (update_tick-add time (span (map quiet elapsed)) accumulator g)
