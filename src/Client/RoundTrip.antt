-- ===== src/Client/RoundTrip.antt =====
-- What the client reads from a message is what the game wrote.
use pr_shooter.Prelude.{ℕ, ◌%◌, ◌^◌, ◌<◌, ◌≡◌, sym, some, [], map, arith, length, length-append}
use pr_shooter.Machine.{Machine, HasBytes, HasSizes}
use pr_shooter.Geometry.{Point, point, Rectangle, Circle}
use pr_shooter.Wire.{u16, Message}
use pr_shooter.Game.{player_radius, projectile_radius, Game, GameMap, Player, Projectile}
use pr_shooter.Game.Serialize.{
  serialize_game_state, serialize_map, game_state_message, game_map_message, welcome,
  welcome_message,
}
use pr_shooter.Game.Serialize.Layout.{
  point_bytes, player_bytes, projectile_bytes, game_state_bytes, wall_bytes, obstacle_bytes,
  map_bytes,
}
use pr_shooter.Game.Serialize.Bounds.{
  length-game_state_bytes, length-map_bytes, serialize_game_state_fits, serialize_map_fits,
  welcome_fits,
}
use package.pr_shooter.Client.{
  read_int, SeenPlayer, SeenProjectile, SeenState, SeenMap, read_double, read_single, read_point,
  read_player, read_projectile, read_wall, read_obstacle, read_message, welcomed, mapped, stated,
}
use package.pr_shooter.Client.Reads.{
  Reads, Reads-all, read_many_same, Reads-bind, Reads-last, Reads-as, Reads-read, read_int-u16,
  read_int-u8, read_bool-bool_number, read_many-flat_bytes,
}

module _ {m : Machine} where
  unfoldable pub seen_player : ℕ × Player m → SeenPlayer m
  seen_player (_, p) = record {
    id = p.player_id % 2 ^ 16;
    alive = p.alive;
    health = p.health % 2 ^ 8;
    position = p.centre;
    velocity = p.velocity;
    orientation_angle = p.orientation_angle;
    kills = p.kills % 2 ^ 16;
    deaths = p.deaths % 2 ^ 16;
  }

  unfoldable pub seen_projectile : Projectile m → SeenProjectile m
  seen_projectile p = record {
    owner_id = p.owner_id % 2 ^ 16;
    position = p.centre;
    velocity = p.velocity;
  }

  unfoldable pub seen_map : GameMap m → SeenMap m
  seen_map g = record { walls = g.walls; obstacles = g.obstacles; border = g.borders }

  unfoldable pub seen_state : Game m → SeenState m
  seen_state g = record {
    players = map seen_player g.players;
    projectiles = map seen_projectile g.projectiles;
  }

-- the number of entries, which fits the field
Reads-size : (n : ℕ) → n < 2 ^ 16 → Reads (read_int 2) (u16 (n % 2 ^ 16)) n
Reads-size n few = Reads-as (read_int-u16 (n % 2 ^ 16)) (omega arith)

module _ {m : Machine} (bytes : HasBytes m) where
  open bytes use {
    length-double_bytes, double_of-double_bytes, length-single_bytes, single_of-single_bytes,
  }

  read_double-double_bytes : (x : m.Double) → Reads (read_double m) (m.double_bytes x) x
  unfolding read_double
  read_double-double_bytes x =
      Reads-as (Reads-last m.double_of (Reads-read (m.double_bytes x) 8 (length-double_bytes x)))
        (double_of-double_bytes x)

  read_single-single_bytes : (x : m.Single) → Reads (read_single m) (m.single_bytes x) x
  unfolding read_single
  read_single-single_bytes x =
      Reads-as (Reads-last m.single_of (Reads-read (m.single_bytes x) 4 (length-single_bytes x)))
        (single_of-single_bytes x)

  read_point-point_bytes : (p : Point m) → Reads (read_point m) (point_bytes p) p
  unfolding read_point point_bytes
  read_point-point_bytes p =
      Reads-bind _ (read_double-double_bytes p.x)
        (Reads-last (point p.x) (read_double-double_bytes p.y))

  read_player-player_bytes :
      (p : ℕ × Player m) → Reads (read_player m) (player_bytes p) (seen_player p)
  unfolding read_player player_bytes seen_player
  read_player-player_bytes (k, p) = Reads-bind _ (read_int-u16 p.player_id) (
      Reads-bind _ (read_bool-bool_number p.alive) (
        Reads-bind _ (read_int-u8 p.health) (
          Reads-bind _ (read_point-point_bytes p.centre) (
            Reads-bind _ (read_point-point_bytes p.velocity) (
              Reads-bind _ (read_single-single_bytes p.orientation_angle)
                (Reads-bind _ (read_int-u16 p.kills) (Reads-last _ (read_int-u16 p.deaths))))))))

  read_projectile-projectile_bytes :
      (p : Projectile m) → Reads (read_projectile m) (projectile_bytes p) (seen_projectile p)
  unfolding read_projectile projectile_bytes seen_projectile
  read_projectile-projectile_bytes p = Reads-bind _ (read_int-u16 p.owner_id) (
      Reads-bind _ (read_point-point_bytes p.centre)
        (Reads-last _ (read_point-point_bytes p.velocity)))

  read_wall-wall_bytes : (r : Rectangle m) → Reads (read_wall m) (wall_bytes r) r
  unfolding read_wall wall_bytes
  read_wall-wall_bytes r = Reads-bind _ (read_point-point_bytes r.p0) (
      Reads-bind _ (read_point-point_bytes r.p1)
        (Reads-bind _ (read_point-point_bytes r.p2) (Reads-last _ (read_point-point_bytes r.p3))))

  read_obstacle-obstacle_bytes : (c : Circle m) → Reads (read_obstacle m) (obstacle_bytes c) c
  unfolding read_obstacle obstacle_bytes
  read_obstacle-obstacle_bytes c =
      Reads-bind _ (read_point-point_bytes c.centre) (Reads-last _ (read_double-double_bytes c.r))

  read_message-game_state_bytes :
      (g : Game m)
      → length g.players < 2 ^ 16
      → length g.projectiles < 2 ^ 16
      → Reads (read_message m) (game_state_bytes g) (stated (seen_state g))
  unfolding read_message game_state_bytes seen_state
  read_message-game_state_bytes g few_players few_projectiles =
      Reads-bind _ (read_int-u8 game_state_message) (
        Reads-last stated (
          Reads-bind _ (Reads-size (length g.players) few_players) (
            Reads-bind _ (Reads-size (length g.projectiles) few_projectiles) (
              Reads-bind _
                (read_many-flat_bytes (read_player m) player_bytes seen_player
                  read_player-player_bytes g.players)
                (Reads-last _ (
                  read_many-flat_bytes (read_projectile m) projectile_bytes seen_projectile
                    read_projectile-projectile_bytes g.projectiles))))))

  read_message-map_bytes :
      (g : GameMap m)
      → length g.walls < 2 ^ 16
      → length g.obstacles < 2 ^ 16
      → length g.borders < 2 ^ 16
      → Reads (read_message m) (map_bytes g) (mapped (seen_map g))
  unfolding read_message map_bytes seen_map
  read_message-map_bytes g few_walls few_obstacles few_borders =
      Reads-bind _ (read_int-u8 game_map_message) (
        Reads-last mapped (
          Reads-bind _ (Reads-size (length g.walls) few_walls) (
            Reads-bind _ (Reads-size (length g.obstacles) few_obstacles) (
              Reads-bind _ (Reads-size (length g.borders) few_borders) (
                Reads-bind _ (read_many_same (read_wall m) wall_bytes read_wall-wall_bytes g.walls)
                  (Reads-bind _
                    (read_many_same (read_obstacle m) obstacle_bytes read_obstacle-obstacle_bytes
                      g.obstacles)
                    (Reads-last _ (
                      read_many_same (read_point m) point_bytes read_point-point_bytes
                        g.borders))))))))

  -- Where values are read back from their bytes and structures hold their members, with fewer than
  -- 2^16 players and projectiles, `serializeGameState` succeeds, its message
  -- announces its own length, and the client reads from it, to the last byte, every player and
  -- projectile in order: positions, velocities, angles and whether a player is alive as they are,
  -- ids, kills and deaths modulo 2^16 and health modulo 2^8.
  pub serialize_game_state_round_trip :
      HasSizes m
      → (g : Game m) → length g.players < 2 ^ 16
      → length g.projectiles < 2 ^ 16
      → (message : Message) × (serialize_game_state g ≡ some message)
        × (message.size ≡ length message.content)
        × (read_message m message.content ≡ some (stated (seen_state g), []))
  serialize_game_state_round_trip sizes g few_players few_projectiles = (
    _,
    serialize_game_state_fits bytes sizes g few_players few_projectiles,
    sym (length-game_state_bytes bytes g),
    Reads-all (read_message-game_state_bytes g few_players few_projectiles),
  )

  -- Where values are read back from their bytes and structures hold their members, with fewer than
  -- 2^16 walls, obstacles and points of the border, `serializeMap` succeeds, its
  -- message announces its own length, and the client reads the same map from it, to the last byte.
  pub serialize_map_round_trip :
      HasSizes m
      → (g : GameMap m) → length g.walls < 2 ^ 16
      → length g.obstacles < 2 ^ 16
      → length g.borders < 2 ^ 16
      → (message : Message) × (serialize_map g ≡ some message)
        × (message.size ≡ length message.content)
        × (read_message m message.content ≡ some (mapped (seen_map g), []))
  serialize_map_round_trip sizes g few_walls few_obstacles few_borders = (
    _,
    serialize_map_fits bytes sizes g few_walls few_obstacles few_borders,
    sym (length-map_bytes bytes g),
    Reads-all (read_message-map_bytes g few_walls few_obstacles few_borders),
  )

  -- Where values are read back from their bytes, `sendWelcomeMessage` fills its 19 bytes and no more, and the client reads from them its id,
  -- modulo 2^16, and the two radii.
  pub welcome_round_trip :
      (id : ℕ)
      → (message : Message) × (welcome m id ≡ some message)
        × (message.size ≡ length message.content)
        × (read_message m message.content
            ≡ some (welcomed (id % 2 ^ 16) (player_radius m) (projectile_radius m), []))
  unfolding read_message
  welcome_round_trip id = (
    _,
    welcome_fits bytes id,
    omega (
      arith,
      length-append (m.double_bytes (player_radius m)) (m.double_bytes (projectile_radius m)),
      length-double_bytes (player_radius m),
      length-double_bytes (projectile_radius m),
    ),
    Reads-all (
        Reads-bind _ (read_int-u8 welcome_message) (
          Reads-bind _ (read_int-u16 id) (
            Reads-bind _ (read_double-double_bytes (player_radius m))
              (Reads-last _ (read_double-double_bytes (projectile_radius m)))))),
  )
