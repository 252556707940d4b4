-- ===== src/Game/Serialize.antt =====
-- The messages that Host/game.cpp writes: the welcome message, the map and the state of the game.
pub mod Layout
pub mod Bounds
use pr_shooter.Prelude.{
  ℕ, ◌+◌, ◌*◌, ◌%◌, ◌^◌, Bool, true, false, Option, some, List, [], ◌∷◌, ◌++◌, length,
}
use pr_shooter.Table.{Table}
use pr_shooter.Machine.{Machine}
use pr_shooter.Geometry.{Point, Rectangle, Circle}
use pr_shooter.Wire.{Bytes, ◌>>=◌, u8, u16, Writer, new_buffer, copy_to_buf, Message, message_of}
use package.pr_shooter.Game.{Game, GameMap, Player, Projectile, player_radius, projectile_radius}

-- `enum DataType`
abbrev pub welcome_message : ℕ
welcome_message = 0

abbrev pub game_map_message : ℕ
game_map_message = 1

abbrev pub game_state_message : ℕ
game_state_message = 2

-- `for(const auto& x : xs) { … }` for a body that writes
unfoldable pub copy_each :
    {A : Type 0} → (A → Writer → Option Writer) → List A → Writer → Option Writer
copy_each body [] w = some w
copy_each body (x ∷ xs) w = body x w >>= copy_each body xs

-- `static_cast<uint8_t>(alive)`
abbrev pub bool_number : Bool → ℕ
bool_number true = 1
bool_number false = 0

module _ {m : Machine} where
  open m use {Double, Single, double_bytes, single_bytes}

  -- `copyToBuf<double>(buf, point)`
  unfoldable pub copy_point : Point m → Writer → Option Writer
  copy_point p w = copy_to_buf (double_bytes p.x) w >>= copy_to_buf (double_bytes p.y)

  -- the body of the first loop of `serializeGameState`
  unfoldable pub copy_player : ℕ × Player m → Writer → Option Writer
  unfolding copy_point
  copy_player (_, player) w =
      copy_to_buf (u16 player.player_id) w
      >>= copy_to_buf (u8 (bool_number player.alive))
      >>= copy_to_buf (u8 player.health)
      >>= copy_point player.centre
      >>= copy_point player.velocity
      >>= copy_to_buf (single_bytes player.orientation_angle)
      >>= copy_to_buf (u16 player.kills)
      >>= copy_to_buf (u16 player.deaths)

  -- the body of its second loop
  unfoldable pub copy_projectile : Projectile m → Writer → Option Writer
  unfolding copy_point
  copy_projectile projectile w =
      copy_to_buf (u16 projectile.owner_id) w
      >>= copy_point projectile.centre
      >>= copy_point projectile.velocity

  -- `serializeGameState`; `none` is a write behind the end of the buffer.
  unfoldable pub serialize_game_state : Game m → Option Message
  unfolding copy_each copy_player copy_projectile
  serialize_game_state g =
      let players_size = length g.players % 2 ^ 16 in
      let projectiles_size = length g.projectiles % 2 ^ 16 in
      copy_to_buf (u8 game_state_message)
        (new_buffer (5 + players_size * m.sizeof_player + projectiles_size * m.sizeof_projectile))
      >>= copy_to_buf (u16 players_size)
      >>= copy_to_buf (u16 projectiles_size)
      >>= copy_each copy_player g.players
      >>= copy_each copy_projectile g.projectiles
      >>= λ w. some (message_of w)

  unfoldable pub copy_wall : Rectangle m → Writer → Option Writer
  unfolding copy_point
  copy_wall wall w =
      copy_point wall.p0 w >>= copy_point wall.p1 >>= copy_point wall.p2 >>= copy_point wall.p3

  unfoldable pub copy_obstacle : Circle m → Writer → Option Writer
  unfolding copy_point
  copy_obstacle obstacle w = copy_point obstacle.centre w >>= copy_to_buf (double_bytes obstacle.r)

  -- `serializeMap`
  unfoldable pub serialize_map : GameMap m → Option Message
  unfolding copy_each copy_wall copy_obstacle
  serialize_map game_map =
      let walls_size = length game_map.walls % 2 ^ 16 in
      let obstacles_size = length game_map.obstacles % 2 ^ 16 in
      let borders_size = length game_map.borders % 2 ^ 16 in
      copy_to_buf (u8 game_map_message) (
        new_buffer (
          7
          + walls_size * m.sizeof_rectangle
          + obstacles_size * m.sizeof_circle
          + borders_size * m.sizeof_point))
      >>= copy_to_buf (u16 walls_size)
      >>= copy_to_buf (u16 obstacles_size)
      >>= copy_to_buf (u16 borders_size)
      >>= copy_each copy_wall game_map.walls
      >>= copy_each copy_obstacle game_map.obstacles
      >>= copy_each copy_point game_map.borders
      >>= λ w. some (message_of w)

-- The message of `sendWelcomeMessage`. Its size is a constant of the code, not counted.
unfoldable pub welcome : (m : Machine) → ℕ → Option Message
welcome m player_id =
    let size = 1 + 2 + 8 * 2 in
    copy_to_buf (u8 welcome_message) (new_buffer size)
    >>= copy_to_buf (u16 player_id)
    >>= copy_to_buf (m.double_bytes (player_radius m))
    >>= copy_to_buf (m.double_bytes (projectile_radius m))
    >>= λ w. some (record { size = size; content = w.written })
