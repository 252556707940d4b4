-- ===== src/Host/Reachable.antt =====
-- What holds of every game that the host reaches.
use pr_shooter.Prelude.{ℕ, ◌≡◌, some}
use pr_shooter.Machine.{Machine}
use pr_shooter.Wire.{Message}
use pr_shooter.Game.{Game, GameMap}
use pr_shooter.Game.Handlers.Invariant.{IsValidGame, RestIsSlow}
use pr_shooter.Game.Messages.Cases.{Ensures-some, Ensures->>=}
use pr_shooter.Game.Messages.Invariant.{handle_message-IsValidGame}
use pr_shooter.Game.Serialize.{serialize_game_state}
use pr_shooter.Game.Loop.{send_tick}
use pr_shooter.Game.Loop.Validity.{update_tick-IsValidGame}
use package.pr_shooter.Host.{new_game, Step, handled, updated, sent, Reach, started, step}

module _ {m : Machine} where
  new_game-IsValidGame : (world : GameMap m) → IsValidGame (new_game world)
  unfolding new_game
  new_game-IsValidGame world = record { valid = tt; distinct = tt }

  abbrev ValidAfter : Game m × Message → Type 0
  ValidAfter (g, _) = IsValidGame g

  send_tick-IsValidGame :
      (duration : ℕ) (g g' : Game m) (state : Message)
      → IsValidGame g
      → send_tick duration g ≡ some (g', state)
      → IsValidGame g'
  unfolding send_tick
  send_tick-IsValidGame duration g g' state v e =
      Ensures-some ValidAfter (send_tick duration g) (g', state)
        (Ensures->>= ValidAfter (serialize_game_state g) _
          (λ _. record { valid = v.valid; distinct = v.distinct }))
        e

  Step-IsValidGame : RestIsSlow m → {g g' : Game m} → IsValidGame g → Step g g' → IsValidGame g'
  Step-IsValidGame rest {g} {g'} v (handled dice duration incoming events e) =
      handle_message-IsValidGame dice duration incoming g g' events rest v e
  Step-IsValidGame rest {g} {g'} v (updated clock elapsed accumulator left rounds e) =
      update_tick-IsValidGame rest clock elapsed accumulator left rounds g g' v e
  Step-IsValidGame rest {g} {g'} v (sent duration state e) =
      send_tick-IsValidGame duration g g' state v e

  -- Where the velocity (0, 0) passes the speed test, every game that the passes of the three
  -- threads lead to from the start, in whatever order they come, is valid.
  pub Reach-IsValidGame :
      (world : GameMap m) (g : Game m) → RestIsSlow m → Reach world g → IsValidGame g
  Reach-IsValidGame world _ rest started = new_game-IsValidGame world
  Reach-IsValidGame world _ rest (step {g} {g'} r s) =
      Step-IsValidGame rest (Reach-IsValidGame world g rest r) s
