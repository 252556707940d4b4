-- ===== src/Game/Messages/Presence.antt =====
-- Who is in the game after a message.
use pr_shooter.Prelude.{ℕ, ◌≡◌, refl, true, some, [], List, arith, Bool-cases, inl, inr}
use pr_shooter.Table.{Table, has_key, insert}
use pr_shooter.Table.Laws.{has_key-insert}
use pr_shooter.Machine.{Machine}
use pr_shooter.Geometry.{point}
use pr_shooter.Wire.{Bytes, read_at, from_bytes}
use package.pr_shooter.Game.{Game, Player, new_player}
use package.pr_shooter.Game.Handlers.{
  Dice, change_player, player_at, create_new_player, shoot_projectile, spawn_player,
  change_player_orientation, change_player_movement, is_slow, respawn, place, draw_point,
  placing_rounds,
}
use package.pr_shooter.Game.Serialize.{serialize_map, welcome}
use package.pr_shooter.Game.Messages.{
  MessageType, new_connection, message, Event, count_packet, finish, handle_new_connection,
  handle_data, handle_typed, handle_message,
}
use package.pr_shooter.Game.Messages.Cases.{
  Ensures, Ensures-some, Ensures->>=, Ensures->>=_of, handle_data_cases,
}

has_key-insert_self : {V : Type 0} (k : ℕ) (v : V) (t : Table V) → has_key k (insert k v t) ≡ true
has_key-insert_self k v t = ground (arith, has_key-insert k k v t)

module _ {m : Machine} (id : ℕ) where
  abbrev pub IsInGame : Game m → Type 0
  IsInGame g = has_key id g.players ≡ true

  change_player-IsInGame : (f : Player m → Player m) (g : Game m) → IsInGame (change_player id f g)
  unfolding change_player
  change_player-IsInGame f g = has_key-insert_self id (f (player_at id g)) g.players

  shoot_projectile-IsInGame : (g : Game m) → IsInGame (shoot_projectile id g)
  unfolding shoot_projectile
  shoot_projectile-IsInGame g = elim (Bool-cases (player_at id g).alive) [
    | inl e ↦ rw e (change_player-IsInGame (λ p. p) g)
    | inr e ↦ rw e (change_player-IsInGame (λ p. p) g)
  ]

  change_player_movement-IsInGame :
      (x y : m.Double) (g : Game m) → IsInGame g → IsInGame (change_player_movement id x y g)
  unfolding change_player_movement
  change_player_movement-IsInGame x y g h = elim (Bool-cases (is_slow (point {m = m} x y))) [
    | inl e ↦ rw e (change_player-IsInGame (λ p. record p { velocity = point x y }) g)
    | inr e ↦ rw e h
  ]

  count_packet-IsInGame :
      (duration : ℕ) (g : Game m) → IsInGame g → IsInGame (count_packet id duration g)
  unfolding count_packet
  count_packet-IsInGame duration g h = h

  abbrev Stays : Game m × List Event → Type 0
  Stays (g, _) = IsInGame g

  spawn_player-IsInGame : (dice : Dice m) (g : Game m) → IsInGame (spawn_player dice id g)
  unfolding spawn_player
  spawn_player-IsInGame dice g =
      change_player-IsInGame
        (respawn (place (draw_point dice g.game_map) g.game_map placing_rounds 0)) g

  change_player_orientation-IsInGame :
      (angle : m.Single) (g : Game m) → IsInGame (change_player_orientation id angle g)
  unfolding change_player_orientation
  change_player_orientation-IsInGame angle =
      change_player-IsInGame (λ p. record p { orientation_angle = angle })

  handle_data-IsInGame :
      (dice : Dice m) (kind : ℕ) (buffer : Bytes) (g : Game m)
      → IsInGame g
      → Ensures Stays (handle_data dice kind id buffer g)
  handle_data-IsInGame dice kind buffer g h =
      handle_data_cases dice Stays kind id buffer g (spawn_player-IsInGame dice g)
        (shoot_projectile-IsInGame g) (λ angle. change_player_orientation-IsInGame angle g)
        (λ x y. change_player_movement-IsInGame x y g h) (λ answer. h) h

  -- A message from a client who is in the game leaves him in it.
  pub handle_message-IsInGame :
      (dice : Dice m) (duration : ℕ) (buffer : Bytes) (g g' : Game m) (events : List Event)
      → IsInGame g
      → handle_message dice duration
          (record { message_type = message; client_id = id; buffer = buffer })
          g
        ≡ some (g', events)
      → IsInGame g'
  unfolding handle_message handle_typed
  handle_message-IsInGame dice duration buffer g g' events h e =
      Ensures-some Stays
        (handle_message dice duration
          (record { message_type = message; client_id = id; buffer = buffer }) g)
        (g', events)
        (Ensures->>= Stays (read_at 0 1 buffer) _ λ kind.
          Ensures->>=_of Stays Stays (handle_data dice (from_bytes kind) id buffer g)
            (finish id duration) (handle_data-IsInGame dice (from_bytes kind) buffer g h)
            (λ (g'', events') h'. count_packet-IsInGame duration g'' h'))
        e

  -- A client whose connection is announced is in the game.
  pub new_connection-IsInGame :
      (dice : Dice m) (duration : ℕ) (buffer : Bytes) (g g' : Game m) (events : List Event)
      → handle_message dice duration
          (record { message_type = new_connection; client_id = id; buffer = buffer })
          g
        ≡ some (g', events)
      → IsInGame g'
  unfolding handle_message handle_typed handle_new_connection create_new_player
  new_connection-IsInGame dice duration buffer g g' events e =
      Ensures-some Stays (handle_new_connection id g) (g', events)
        (Ensures->>= Stays (welcome m id) _ λ greeting.
          Ensures->>= Stays (serialize_map (create_new_player id g).game_map) _
            (λ world. has_key-insert_self id (new_player m id) g.players))
        e

module _ {m : Machine} where
  -- A message of type `EMPTY` does nothing.
  pub handle_message-empty :
      (dice : Dice m) (duration client_id : ℕ) (buffer : Bytes) (g : Game m)
      → handle_message dice duration
          (record { message_type = MessageType.empty; client_id = client_id; buffer = buffer })
          g
        ≡ some (g, [])
  unfolding handle_message handle_typed
  handle_message-empty dice duration client_id buffer g = refl
