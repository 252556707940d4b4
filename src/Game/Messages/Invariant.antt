-- ===== src/Game/Messages/Invariant.antt =====
-- Messages keep the game valid.
use pr_shooter.Prelude.{ℕ, ◌≡◌, some, List}
use pr_shooter.Machine.{Machine}
use package.pr_shooter.Game.{Game}
use package.pr_shooter.Game.Handlers.{Dice}
use package.pr_shooter.Game.Handlers.Invariant.{
  IsValidGame, RestIsSlow, create_new_player-IsValidGame, delete_player-IsValidGame,
  shoot_projectile-IsValidGame, spawn_player-IsValidGame, change_player_orientation-IsValidGame,
  change_player_movement-IsValidGame,
}
use package.pr_shooter.Game.Messages.{IncomingMessage, Event, count_packet, handle_message}
use package.pr_shooter.Game.Messages.Cases.{Ensures-some, handle_data_cases, handle_message_cases}

module _ {m : Machine} where
  abbrev After : Game m × List Event → Type 0
  After (g, events) = IsValidGame g

  count_packet-IsValidGame :
      (id duration : ℕ) (g : Game m) → IsValidGame g → IsValidGame (count_packet id duration g)
  unfolding count_packet
  count_packet-IsValidGame id duration g v = record { valid = v.valid; distinct = v.distinct }

  -- Where the velocity (0, 0) passes the speed test, every message that is handled without a fault
  -- keeps the game valid: no id stands twice, whoever is alive has health left, health is at most
  -- 100, velocities pass the test, and kills and deaths stay below 2^16.
  pub handle_message-IsValidGame :
      (dice : Dice m) (duration : ℕ) (incoming : IncomingMessage) (g g' : Game m)
      (events : List Event)
      → RestIsSlow m
      → IsValidGame g
      → handle_message dice duration incoming g ≡ some (g', events)
      → IsValidGame g'
  handle_message-IsValidGame dice duration incoming g g' events rest v e =
      Ensures-some After (handle_message dice duration incoming g) (g', events)
        (handle_message_cases dice After After duration incoming g v
          (λ greeting world. create_new_player-IsValidGame rest id g v)
          (count_packet-IsValidGame id duration _ (delete_player-IsValidGame rest id g v))
          (λ kind.
            handle_data_cases dice After kind id incoming.buffer g
              (spawn_player-IsValidGame rest dice id g v) (shoot_projectile-IsValidGame rest id g v)
              (λ angle. change_player_orientation-IsValidGame rest id angle g v)
              (λ x y. change_player_movement-IsValidGame rest id x y g v) (λ answer. v) v)
          (λ g'' events' w. count_packet-IsValidGame id duration g'' w))
        e
    where
      open incoming use {client_id as id}
