-- ===== src/Game/Loop.antt =====
-- The bodies of `updateThread` and `sendThread` of Host/game.cpp: one pass through each loop, under
-- `update_mutex`. Durations are in microseconds and come from the clock, which is a parameter.
pub mod Timestep
pub mod Sending
pub mod Thread
pub mod Validity
use pr_shooter.Prelude.{
  ℕ, true, false, zero, suc, ◌+◌, ◌-◌, ◌%◌, ◌^◌, Option, none, some, List, [], ◌∷◌, ltb,
  if◌then◌else◌, length,
}
use pr_shooter.Table.{Table, modify, keys}
use pr_shooter.Machine.{Machine}
use pr_shooter.Wire.{Message, ◌>>=◌}
use package.pr_shooter.Game.{Game, Packets, timestep, record_time, collision, update, serialize}
use package.pr_shooter.Game.Physics.{update_positions}
use package.pr_shooter.Game.Hits.{check_collisions}
use package.pr_shooter.Game.Serialize.{serialize_game_state}

-- What a loop on fuel comes to: the accumulator that is left, the rounds made and the game.
pub data Run (m : Machine) : Type 0 where
  done : ℕ → ℕ → Game m → Run m
  fault : Run m
  out_of_fuel : Run m

-- `for(auto& [player_id, player] : players) packets[player_id].second += 1;`
unfoldable pub count_sent : List ℕ → Packets → Packets
unfolding modify
count_sent [] packets = packets
count_sent (id ∷ ids) packets =
    count_sent ids (modify (0, 0) id (λ (received, sent). (received, (sent + 1) % 2 ^ 64)) packets)

module _ {m : Machine} where
  -- One round of the inner loop. The entries get the durations in the order of the code: the time
  -- of `updatePositions` goes to "collision", and that of `checkCollisions` to "update".
  unfoldable pub round : (update_duration collision_duration : ℕ) → Game m → Option (Game m)
  unfolding record_time
  round update_duration collision_duration g = check_collisions (update_positions g) >>= λ g'.
      let players = length g'.players in
      let projectiles = length g'.projectiles in
      some (record g' {
        calc_time =
            record_time players projectiles update collision_duration
              (record_time players projectiles collision update_duration g'.calc_time);
      })

  -- `while(accumulator > timestep) { … }`; `clock i` has the durations of round `i`.
  unfoldable pub update_loop : (ℕ → ℕ × ℕ) → ℕ → ℕ → ℕ → Game m → Run m
  update_loop clock zero i accumulator g = out_of_fuel
  update_loop clock (suc fuel) i accumulator g = elim (ltb timestep accumulator) [
    | false ↦ done accumulator i g
    | true ↦ elim (round (clock i).0 (clock i).1 g) [
      | none ↦ fault
      | some g' ↦ update_loop clock fuel (i + 1) (accumulator - timestep) g'
    ]
  ]

  -- One pass of `updateThread`, in which `elapsed` microseconds have gone by. Every round takes
  -- `timestep` off the accumulator, so its value is fuel enough.
  unfoldable pub update_tick : (ℕ → ℕ × ℕ) → ℕ → ℕ → Game m → Run m
  unfolding update_loop
  update_tick clock elapsed accumulator g =
      let total = accumulator + elapsed in
      if ltb timestep total then update_loop clock (suc total) 0 total g else done total 0 g

  -- One pass of `sendThread`: the game and the message for everyone.
  unfoldable pub send_tick : ℕ → Game m → Option (Game m × Message)
  unfolding count_sent record_time keys
  send_tick duration g = serialize_game_state g >>= λ state. some (
    record g {
      packets = count_sent (keys g.players) g.packets;
      calc_time =
          record_time (length g.players) (length g.projectiles) serialize duration g.calc_time;
    },
    state,
  )

-- One turn of the outer loop of `updateThread`: the time that went by since the last one, the
-- durations of its rounds, and what the other threads make of the game before it has the mutex.
pub record Beat (m : Machine) : Type 0 where
  pub elapsed : ℕ
  pub clock : ℕ → ℕ × ℕ
  pub meanwhile : Game m → Game m

module _ {m : Machine} where
  -- the rounds of an earlier turn count too
  abbrev pub after_rounds : ℕ → Run m → Run m
  after_rounds n (done left count g) = done left (n + count) g
  after_rounds n fault = fault
  after_rounds n out_of_fuel = out_of_fuel

  -- `updateThread` from an accumulator on, as far as the turns go
  unfoldable pub update_thread : List (Beat m) → ℕ → Game m → Run m
  unfolding update_tick
  update_thread [] accumulator g = done accumulator 0 g
  update_thread (beat ∷ beats) accumulator g =
      elim (update_tick beat.clock beat.elapsed accumulator (beat.meanwhile g)) [
        | done left count g' ↦ after_rounds count (update_thread beats left g')
        | fault ↦ fault
        | out_of_fuel ↦ out_of_fuel
      ]
