-- ===== src/Game/Messages/Isolation.antt =====
-- A client's message touches nobody else.
use pr_shooter.Prelude.{ℕ, ◌≡◌, refl, ◌≢◌, ◌∙◌, some, List, Bool-cases, inl, inr}
use pr_shooter.Table.{lookup}
use pr_shooter.Table.Laws.{lookup-insert_ne, lookup-erase_ne, lookup-modify_ne}
use pr_shooter.Machine.{Machine}
use pr_shooter.Geometry.{point}
use package.pr_shooter.Game.{Game, Player, new_player}
use package.pr_shooter.Game.Handlers.{
  Dice, change_player, player_at, create_new_player, delete_player, shoot_projectile, spawn_player,
  change_player_orientation, change_player_movement, is_slow, respawn, place, draw_point,
  placing_rounds,
}
use package.pr_shooter.Game.Messages.{IncomingMessage, Event, count_packet, handle_message}
use package.pr_shooter.Game.Messages.Cases.{Ensures-some, handle_data_cases, handle_message_cases}

-- For every client but `id` the two games hold the same player and packet counts, and the map is
-- the same.
pub record SameForOthers {m : Machine} (id : ℕ) (g g' : Game m) : Type 0 where
  pub same_player : (j : ℕ) → j ≢ id → lookup j g'.players ≡ lookup j g.players
  pub same_packets : (j : ℕ) → j ≢ id → lookup j g'.packets ≡ lookup j g.packets
  pub same_map : g'.game_map ≡ g.game_map

module _ {m : Machine} (id : ℕ) (g : Game m) where
  change_player-SameForOthers :
      (f : Player m → Player m) → SameForOthers id g (change_player id f g)
  unfolding change_player
  change_player-SameForOthers f = record {
    same_player = λ j. lookup-insert_ne id j (f (player_at id g)) g.players;
    same_packets = λ j ne. refl;
    same_map = refl;
  }

  create_new_player-SameForOthers : SameForOthers id g (create_new_player id g)
  unfolding create_new_player
  create_new_player-SameForOthers = record {
    same_player = λ j. lookup-insert_ne id j (new_player m id) g.players;
    same_packets = λ j. lookup-insert_ne id j (0, 0) g.packets;
    same_map = refl;
  }

  delete_player-SameForOthers : SameForOthers id g (delete_player id g)
  unfolding delete_player
  delete_player-SameForOthers = record {
    same_player = λ j. lookup-erase_ne id j g.players;
    same_packets = λ j ne. refl;
    same_map = refl;
  }

  shoot_projectile-SameForOthers : SameForOthers id g (shoot_projectile id g)
  unfolding shoot_projectile
  shoot_projectile-SameForOthers = elim (Bool-cases (player_at id g).alive) [
    | inl e ↦ rw e (record {
      same_player = touched.same_player;
      same_packets = touched.same_packets;
      same_map = touched.same_map;
    })
    | inr e ↦ rw e touched
  ]
    where
      touched : SameForOthers id g (change_player id (λ p. p) g)
      touched = change_player-SameForOthers (λ p. p)

  spawn_player-SameForOthers : (dice : Dice m) → SameForOthers id g (spawn_player dice id g)
  unfolding spawn_player
  spawn_player-SameForOthers dice =
      change_player-SameForOthers
        (respawn (place (draw_point dice g.game_map) g.game_map placing_rounds 0))

  change_player_orientation-SameForOthers :
      (angle : m.Single) → SameForOthers id g (change_player_orientation id angle g)
  unfolding change_player_orientation
  change_player_orientation-SameForOthers angle =
      change_player-SameForOthers (λ p. record p { orientation_angle = angle })

  change_player_movement-SameForOthers :
      (x y : m.Double) → SameForOthers id g (change_player_movement id x y g)
  unfolding change_player_movement
  change_player_movement-SameForOthers x y = elim (Bool-cases (is_slow (point {m = m} x y))) [
    | inl e ↦ rw e (change_player-SameForOthers (λ p. record p { velocity = point x y }))
    | inr e ↦
        rw e (record { same_player = λ j ne. refl; same_packets = λ j ne. refl; same_map = refl })
  ]

  count_packet-SameForOthers :
      (duration : ℕ) (g' : Game m)
      → SameForOthers id g g'
      → SameForOthers id g (count_packet id duration g')
  unfolding count_packet
  count_packet-SameForOthers duration g' s = record {
    same_player = s.same_player;
    same_packets = λ j ne. lookup-modify_ne (0, 0) id j _ g'.packets ne ∙ s.same_packets j ne;
    same_map = s.same_map;
  }

module _ {m : Machine} where
  -- A message changes at most the player and the packet counts of the client that it comes from:
  -- every other client's player and counts, and the map, are afterwards what they were.
  pub handle_message-SameForOthers :
      (dice : Dice m) (duration : ℕ) (incoming : IncomingMessage) (g g' : Game m)
      (events : List Event)
      → handle_message dice duration incoming g ≡ some (g', events)
      → SameForOthers incoming.client_id g g'
  handle_message-SameForOthers dice duration incoming g g' events e =
      Ensures-some After (handle_message dice duration incoming g) (g', events)
        (handle_message_cases dice After After duration incoming g same
          (λ greeting world. create_new_player-SameForOthers id g)
          (count_packet-SameForOthers id g duration _ (delete_player-SameForOthers id g))
          (λ kind.
            handle_data_cases dice After kind id incoming.buffer g
              (spawn_player-SameForOthers id g dice) (shoot_projectile-SameForOthers id g)
              (change_player_orientation-SameForOthers id g)
              (change_player_movement-SameForOthers id g) (λ answer. same) same)
          (λ g'' events' s. count_packet-SameForOthers id g duration g'' s))
        e
    where
      open incoming use {client_id as id}

      After : Game m × List Event → Type 0
      After (h, _) = SameForOthers id g h

      same : SameForOthers id g g
      same = record { same_player = λ j ne. refl; same_packets = λ j ne. refl; same_map = refl }
