-- ===== src/Game/Serialize/Bounds.antt =====
-- The messages fit their buffers, announce their own length and have the sizes of the protocol.
use pr_shooter.Prelude.{
  ℕ, ◌+◌, ◌*◌, ◌%◌, ◌^◌, ◌≤◌, ◌<◌, ◌≡◌, some, List, [], ◌∷◌, ◌++◌, arith, length, length-append,
}
use pr_shooter.Machine.{Machine, HasBytes, HasSizes}
use pr_shooter.Geometry.{Point, Rectangle, Circle}
use pr_shooter.Wire.{Bytes, u8, u16, new_buffer}
use pr_shooter.Wire.Laws.{copy_to_buf-append, copy_to_buf-new_buffer}
use package.pr_shooter.Game.{Game, GameMap, Player, Projectile, player_radius, projectile_radius}
use package.pr_shooter.Game.Serialize.{
  serialize_game_state, serialize_map, welcome, welcome_message,
}
use package.pr_shooter.Game.Serialize.Layout.{
  flat_bytes, point_bytes, player_bytes, projectile_bytes, game_state_bytes, wall_bytes,
  obstacle_bytes, map_bytes, game_state_room, map_room, serialize_game_state_lem, serialize_map_lem,
}

length-flat_bytes :
    {A : Type 0} (f : A → Bytes) (k : ℕ)
    → ((x : A) → length (f x) ≡ k)
    → (xs : List A) → length (flat_bytes f xs) ≡ length xs * k
unfolding flat_bytes
length-flat_bytes f k h [] = omega arith
length-flat_bytes f k h (x ∷ xs) =
    omega (arith, length-append (f x) (flat_bytes f xs), h x, length-flat_bytes f k h xs)

product_fits : (n : ℕ) → n < 2 ^ 16 → (k s : ℕ) → k ≤ s → n * k ≤ n % 2 ^ 16 * s
product_fits n small k s h = let same : n % 2 ^ 16 ≡ n = omega arith in rw same (grind arith)

module _ {m : Machine} (bytes : HasBytes m) where
  open bytes use {length-double_bytes, length-single_bytes}

  pub length-point_bytes : (p : Point m) → length (point_bytes p) ≡ 16
  unfolding point_bytes
  length-point_bytes p = omega (
    arith,
    length-append (m.double_bytes p.x) (m.double_bytes p.y),
    length-double_bytes p.x,
    length-double_bytes p.y,
  )

  pub length-player_bytes : (p : ℕ × Player m) → length (player_bytes p) ≡ 44
  unfolding player_bytes
  length-player_bytes (k, p) = omega (
    arith,
    length-append {0},
    length-point_bytes p.centre,
    length-point_bytes p.velocity,
    length-single_bytes p.orientation_angle,
  )

  pub length-projectile_bytes : (p : Projectile m) → length (projectile_bytes p) ≡ 34
  unfolding projectile_bytes
  length-projectile_bytes p =
      omega (arith, length-append {0}, length-point_bytes p.centre, length-point_bytes p.velocity)

  pub length-wall_bytes : (r : Rectangle m) → length (wall_bytes r) ≡ 64
  unfolding wall_bytes
  length-wall_bytes r = omega (
    arith,
    length-append {0},
    length-point_bytes r.p0,
    length-point_bytes r.p1,
    length-point_bytes r.p2,
    length-point_bytes r.p3,
  )

  pub length-obstacle_bytes : (c : Circle m) → length (obstacle_bytes c) ≡ 24
  unfolding obstacle_bytes
  length-obstacle_bytes c =
      omega (arith, length-append {0}, length-point_bytes c.centre, length-double_bytes c.r)

  pub length-game_state_bytes :
      (g : Game m)
      → length (game_state_bytes g) ≡ 5 + length g.players * 44 + length g.projectiles * 34
  unfolding game_state_bytes
  length-game_state_bytes g = omega (
    arith,
    length-append (flat_bytes player_bytes g.players) (flat_bytes projectile_bytes g.projectiles),
    length-flat_bytes player_bytes 44 length-player_bytes g.players,
    length-flat_bytes projectile_bytes 34 length-projectile_bytes g.projectiles,
  )

  pub length-map_bytes :
      (g : GameMap m)
      → length (map_bytes g)
        ≡ 7 + length g.walls * 64 + length g.obstacles * 24 + length g.borders * 16
  unfolding map_bytes
  length-map_bytes g = omega (
    arith,
    length-append {0},
    length-flat_bytes wall_bytes 64 length-wall_bytes g.walls,
    length-flat_bytes obstacle_bytes 24 length-obstacle_bytes g.obstacles,
    length-flat_bytes point_bytes 16 length-point_bytes g.borders,
  )

  -- With fewer than 2^16 players and projectiles, `serializeGameState` never writes behind its
  -- buffer, and the message is the layout of the protocol with its own length as the size: 5 bytes,
  -- 44 for each player and 34 for each projectile.
  pub serialize_game_state_fits :
      HasSizes m
      → (g : Game m) → length g.players < 2 ^ 16
      → length g.projectiles < 2 ^ 16
      → serialize_game_state g
        ≡ some (record {
          size = 5 + length g.players * 44 + length g.projectiles * 34;
          content = game_state_bytes g;
        })
  unfolding game_state_room
  serialize_game_state_fits sizes g few_players few_projectiles = rw (
    serialize_game_state_lem g,
    copy_to_buf-new_buffer (game_state_bytes g) (game_state_room g)
        (omega (
          arith,
          length-game_state_bytes g,
          product_fits (length g.players) few_players 44 m.sizeof_player (omega arith),
          product_fits (length g.projectiles) few_projectiles 34 m.sizeof_projectile (omega arith),
        ))
        (omega (arith, length-game_state_bytes g)),
    length-game_state_bytes g,
  )

  -- The same of `serializeMap`: 7 bytes, 64 for each wall, 24 for each obstacle and 16 for each
  -- point of the border, with fewer than 2^16 of each.
  pub serialize_map_fits :
      HasSizes m
      → (g : GameMap m) → length g.walls < 2 ^ 16
      → length g.obstacles < 2 ^ 16
      → length g.borders < 2 ^ 16
      → serialize_map g
        ≡ some (record {
          size = 7 + length g.walls * 64 + length g.obstacles * 24 + length g.borders * 16;
          content = map_bytes g;
        })
  unfolding map_room
  serialize_map_fits sizes g few_walls few_obstacles few_borders = rw (
    serialize_map_lem g,
    copy_to_buf-new_buffer (map_bytes g) (map_room g)
        (omega (
          arith,
          length-map_bytes g,
          product_fits (length g.walls) few_walls 64 m.sizeof_rectangle sizes.rectangle_size,
          product_fits (length g.obstacles) few_obstacles 24 m.sizeof_circle sizes.circle_size,
          product_fits (length g.borders) few_borders 16 m.sizeof_point sizes.point_size,
        ))
        (omega (arith, length-map_bytes g)),
    length-map_bytes g,
  )

  -- `sendWelcomeMessage` fills its 19 bytes exactly.
  pub welcome_fits :
      (id : ℕ)
      → welcome m id
        ≡ some (record {
          size = 19;
          content =
              u8 welcome_message
              ++ (u16 id
                  ++ (m.double_bytes (player_radius m) ++ m.double_bytes (projectile_radius m)));
        })
  unfolding welcome
  welcome_fits id =
      let head = u8 welcome_message ++ u16 id in
      let first = m.double_bytes (player_radius m) in
      let second = m.double_bytes (projectile_radius m) in
      let count : length (head ++ first ++ second) ≡ 19 = omega (
        arith,
        length-append first second,
        length-double_bytes (player_radius m),
        length-double_bytes (projectile_radius m),
      ) in
      rw (
        copy_to_buf-append (u8 welcome_message) (u16 id) (new_buffer 19),
        copy_to_buf-append head first (new_buffer 19),
        copy_to_buf-append (head ++ first) second (new_buffer 19),
        copy_to_buf-new_buffer (head ++ first ++ second) 19 (omega arith) (omega arith),
      )
