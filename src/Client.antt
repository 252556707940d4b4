-- ===== src/Client.antt =====
-- How Client/client.py reads the messages of the game: `receive_message`, `read_int`, `read_float`, `read_point`,
-- `get_gamestate_from_bytes` and `get_map_from_bytes`. It is the reader that Host/game.cpp writes
-- for, and an independent description of the layout.
pub mod Reads
pub mod RoundTrip
pub mod Commands
pub mod Receiving
use pr_shooter.Prelude.{
  ℕ, zero, suc, ◌==◌, Bool, not, Option, none, some, List, [], ◌∷◌, leb, if◌then◌else◌, length,
  take, drop,
}
use pr_shooter.Machine.{Machine}
use pr_shooter.Geometry.{Point, point, Rectangle, Circle}
use pr_shooter.Wire.{Bytes, from_bytes}

-- A reader takes bytes off the front; `none` is the exception of `struct.unpack` or a short read.
abbrev pub Reader : Type 0 → Type 0
Reader A = Bytes → Option (A × Bytes)

infixl 5 ◌>>=◌
abbrev pub ◌>>=◌ : {A B : Type 0} → Reader A → (A → Reader B) → Reader B
◌>>=◌ r f bytes = elim (r bytes) [ none ↦ none | some (a, rest) ↦ f a rest ]

abbrev pub pure : {A : Type 0} → A → Reader A
pure a bytes = some (a, bytes)

-- `num.read(count)`
unfoldable pub read : ℕ → Reader Bytes
read count bytes =
    if leb count (length bytes) then some (take count bytes, drop count bytes) else none

unfoldable pub read_int : ℕ → Reader ℕ
read_int count = do bytes ← read count; pure (from_bytes bytes)

unfoldable pub read_bool : Reader Bool
read_bool = do bytes ← read 1; pure (not (from_bytes bytes == 0))

-- `[reader() for _ in range(count)]`
unfoldable pub read_many : {A : Type 0} → Reader A → ℕ → Reader (List A)
read_many reader zero = pure []
read_many reader (suc count) = do x ← reader; xs ← read_many reader count; pure (x ∷ xs)

-- what the client knows of a player and of a projectile
pub record SeenPlayer (m : Machine) : Type 0 where
  pub id : ℕ
  pub alive : Bool
  pub health : ℕ
  pub position : Point m
  pub velocity : Point m
  pub orientation_angle : m.Single
  pub kills : ℕ
  pub deaths : ℕ

pub record SeenProjectile (m : Machine) : Type 0 where
  pub owner_id : ℕ
  pub position : Point m
  pub velocity : Point m

pub record SeenState (m : Machine) : Type 0 where
  pub players : List (SeenPlayer m)
  pub projectiles : List (SeenProjectile m)

pub record SeenMap (m : Machine) : Type 0 where
  pub walls : List (Rectangle m)
  pub obstacles : List (Circle m)
  pub border : List (Point m)

-- what `receive_message` finds
pub data Seen (m : Machine) : Type 0 where
  welcomed : ℕ → m.Double → m.Double → Seen m
  mapped : SeenMap m → Seen m
  ponged : ℕ → Seen m
  stated : SeenState m → Seen m
  unknown : Seen m

module _ (m : Machine) where
  open m use {Double, Single, double_of, single_of}

  unfoldable pub read_double : Reader Double
  read_double = do bytes ← read 8; pure (double_of bytes)

  unfoldable pub read_single : Reader Single
  read_single = do bytes ← read 4; pure (single_of bytes)

  unfoldable pub read_point : Reader (Point m)
  read_point = do x ← read_double; y ← read_double; pure (point x y)

  unfoldable pub read_player : Reader (SeenPlayer m)
  read_player = do
    id ← read_int 2
    alive ← read_bool
    health ← read_int 1
    position ← read_point
    velocity ← read_point
    angle ← read_single
    kills ← read_int 2
    deaths ← read_int 2
    pure (record {
      id = id;
      alive = alive;
      health = health;
      position = position;
      velocity = velocity;
      orientation_angle = angle;
      kills = kills;
      deaths = deaths;
    })

  unfoldable pub read_projectile : Reader (SeenProjectile m)
  read_projectile = do
    owner ← read_int 2
    position ← read_point
    velocity ← read_point
    pure (record { owner_id = owner; position = position; velocity = velocity })

  -- `get_gamestate_from_bytes`, behind the byte that says which message it is
  unfoldable pub read_state : Reader (SeenState m)
  read_state = do
    number_of_players ← read_int 2
    number_of_projectiles ← read_int 2
    players ← read_many read_player number_of_players
    projectiles ← read_many read_projectile number_of_projectiles
    pure (record { players = players; projectiles = projectiles })

  unfoldable pub read_wall : Reader (Rectangle m)
  read_wall = do
    p0 ← read_point
    p1 ← read_point
    p2 ← read_point
    p3 ← read_point
    pure (record { p0 = p0; p1 = p1; p2 = p2; p3 = p3 })

  unfoldable pub read_obstacle : Reader (Circle m)
  read_obstacle = do centre ← read_point; r ← read_double; pure (record { centre = centre; r = r })

  -- `get_map_from_bytes`
  unfoldable pub read_map : Reader (SeenMap m)
  read_map = do
    number_of_walls ← read_int 2
    number_of_obstacles ← read_int 2
    number_of_border_points ← read_int 2
    walls ← read_many read_wall number_of_walls
    obstacles ← read_many read_obstacle number_of_obstacles
    border ← read_many read_point number_of_border_points
    pure (record { walls = walls; obstacles = obstacles; border = border })

  read_welcome : Reader (Seen m)
  read_welcome = do
    id ← read_int 2
    player_radius ← read_double
    projectile_radius ← read_double
    pure (welcomed id player_radius projectile_radius)

  -- the cases of `receive_message`
  read_body : ℕ → Reader (Seen m)
  unfolding read_state read_map read_welcome
  read_body kind =
      if kind == 0
      then read_welcome
      else if kind == 1
      then (do seen ← read_map; pure (mapped seen))
      else if kind == 14
      then (do sent ← read_int 2; pure (ponged sent))
      else if kind == 2
      then (do seen ← read_state; pure (stated seen))
      else pure unknown

  -- `receive_message`, from the byte that says which message it is
  unfoldable pub read_message : Reader (Seen m)
  unfolding read_body
  read_message = do kind ← read_int 1; read_body kind
