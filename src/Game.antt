-- ===== src/Game.antt =====
-- Host/game.hpp and the constructors and constants of Host/game.cpp: the state of the game.
-- A `size_t` that counts objects in memory cannot wrap; other counters wrap as their type does.
pub mod Handlers
pub mod Messages
pub mod Physics
pub mod Hits
pub mod Loop
pub mod Serialize
pub mod MapFile
use pr_shooter.Prelude.{ℕ, ◌+◌, ◌%◌, ◌^◌, Bool, false, true, List, ◌==◌, ◌&&◌, if◌then◌else◌}
use pr_shooter.Table.{Table}
use pr_shooter.Machine.{Machine}
use pr_shooter.Geometry.{Point, point, Circle, Rectangle}

-- `Constants`; times are in microseconds, the unit of `Timer`.
module _ (m : Machine) where
  open m use {Double, literal}

  abbrev pub epsilon_one : Double
  epsilon_one = literal 1 5

  abbrev pub double_timestep : Double
  double_timestep = literal 3 3

  abbrev pub max_player_speed : Double
  max_player_speed = literal 300 0

  abbrev pub projectile_speed : Double
  projectile_speed = literal 500 0

  abbrev pub projectile_radius : Double
  projectile_radius = literal 4 0

  abbrev pub player_radius : Double
  player_radius = literal 30 0

  -- `Point()` and the velocity `{0, 0}`
  abbrev pub origin : Point m
  origin = point (literal 0 0) (literal 0 0)

abbrev pub timestep : ℕ
timestep = 3000

abbrev pub projectile_damage : ℕ
projectile_damage = 10

pub record Projectile (m : Machine) : Type 0 where
  pub circle : Circle m
  pub open circle use *
  pub owner_id : ℕ
  pub velocity : Point m

pub record Player (m : Machine) : Type 0 where
  pub circle : Circle m
  pub open circle use *
  pub player_id : ℕ
  pub alive : Bool
  -- `uint8_t`
  pub health : ℕ
  pub velocity : Point m
  pub orientation_angle : m.Single
  -- `uint16_t`
  pub kills : ℕ
  pub deaths : ℕ

-- `struct Map`
pub record GameMap (m : Machine) : Type 0 where
  pub borders : List (Point m)
  pub top_left : Point m
  pub bottom_right : Point m
  pub walls : List (Rectangle m)
  pub obstacles : List (Circle m)

-- the functions that `calc_time` times
pub data Timed : Type 0 where
  collision update serialize receive : Timed

pub record Timing : Type 0 where
  pub rounds : ℕ
  pub total : ℕ

-- `calc_time`, a map from the numbers of players and of projectiles, each as a `uint16_t`, and a
-- name. A missing entry reads as zeros, as `operator[]` gives it.
abbrev pub CalcTime : Type 0
CalcTime = ℕ → ℕ → Timed → Timing

-- The number of messages received from a client, and of game states sent to it.
abbrev pub Packets : Type 0
Packets = Table (ℕ × ℕ)

pub record Game (m : Machine) : Type 0 where
  pub game_map : GameMap m
  pub players : Table (Player m)
  pub projectiles : List (Projectile m)
  pub packets : Packets
  pub calc_time : CalcTime

module _ {m : Machine} where
  -- `Projectile(owner_id, start_position, velocity)`
  unfoldable pub new_projectile : ℕ → Point m → Point m → Projectile m
  new_projectile owner_id start velocity = record {
    circle = record { centre = start; r = projectile_radius m };
    owner_id = owner_id;
    velocity = velocity;
  }

  -- `getPosition() = p`, for a player and for a projectile
  unfoldable pub move_player : Player m → Point m → Player m
  move_player player p = record player { circle = record { centre = p; r = player.r } }

  unfoldable pub move_projectile : Projectile m → Point m → Projectile m
  move_projectile projectile p = record projectile {
    circle = record { centre = p; r = projectile.r };
  }

module _ (m : Machine) where
  -- `Player(player_id)`
  unfoldable pub new_player : ℕ → Player m
  new_player player_id = record {
    circle = record { centre = origin m; r = player_radius m };
    player_id = player_id;
    alive = false;
    health = 100;
    velocity = origin m;
    orientation_angle = m.single_zero;
    kills = 0;
    deaths = 0;
  }

  -- what `players[id]` inserts for a missing key: `Player(0)`
  abbrev pub default_player : Player m
  default_player = new_player 0

same_timed : Timed → Timed → Bool
same_timed collision collision = true
same_timed update update = true
same_timed serialize serialize = true
same_timed receive receive = true
same_timed _ _ = false

-- `auto& [n, total] = calc_time[{players, projectiles}][name]; n += 1; total += duration;`
unfoldable pub record_time : ℕ → ℕ → Timed → ℕ → CalcTime → CalcTime
unfolding same_timed
record_time players projectiles name duration times i j other =
    let old = times i j other in
    if i == players % 2 ^ 16 && j == projectiles % 2 ^ 16 && same_timed other name
    then record { rounds = (old.rounds + 1) % 2 ^ 64; total = old.total + duration }
    else old
