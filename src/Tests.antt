-- ===== src/Tests.antt =====
-- A small game on the machine of whole thousandths.
mod Witnesses
mod Rounds
mod Queues
mod Arrays
mod Hosts
mod Servers
mod Sending
mod Mutexes
mod Commands
mod Watching
mod SyncQueues
use pr_shooter.Prelude.{
  ℕ, ◌+◌, ◌*◌, ◌%◌, ◌^◌, ◌≤◌, ◌<◌, ◌≡◌, refl, ◌↔◌, ◌||◌, Bool, true, false, Option, none, some,
  List, [], ◌∷◌, ◌++◌, arith, length, if◌then◌else◌,
}
use pr_shooter.Prelude.Int.{ℤ, pos, negsuc, sub_ℕ}
use pr_shooter.Table.{Table, lookup, keys, Distinct}
use pr_shooter.Machine.{Machine}
use pr_shooter.Machine.Whole.{whole, whole-HasBytes, whole-HasSizes, whole-IsCommutative}
use pr_shooter.Geometry.{Point, point, Circle, Rectangle, plus, scale, square}
use pr_shooter.Geometry.Collisions.{circles_collide, rectangle_collides, segment_collides}
use pr_shooter.Geometry.Laws.{circles_collide_comm}
use pr_shooter.Wire.{Message, read_at, from_bytes}
use pr_shooter.Game.Hits.{check_projectile_collisions, damage, check_projectiles, check_collisions}
use pr_shooter.Game.{
  Game, GameMap, Player, Projectile, new_player, new_projectile, origin, record_time, update,
  collision,
}
use pr_shooter.Game.Handlers.{
  Dice, player_at, is_slow, spawn_player, create_new_player, shoot_projectile, delete_player,
}
use pr_shooter.Game.Handlers.Invariant.{RestIsSlow, IsValidGame, IsValidPlayer}
use pr_shooter.Game.Handlers.Effects.{IsUniform, Respawned}
use pr_shooter.Game.Messages.{IncomingMessage, message, count_packet, handle_message, lock, unlock}
use pr_shooter.Game.Messages.Invariant.{handle_message-IsValidGame}

abbrev pub meters : ℕ → whole.Double
meters n = whole.literal n 0

abbrev pub at : ℕ → ℕ → Point whole
at x y = point (meters x) (meters y)

-- a square of 1000, with a wall and an obstacle
abbrev pub field : GameMap whole
field = record {
  borders = at 0 0 ∷ at 1000 0 ∷ at 1000 1000 ∷ at 0 1000 ∷ [];
  top_left = at 0 0;
  bottom_right = at 1000 1000;
  walls = record { p0 = at 600 600; p1 = at 700 600; p2 = at 700 700; p3 = at 600 700 } ∷ [];
  obstacles = record { centre = at 300 700; r = meters 50 } ∷ [];
}

-- The first player is alive at a place with some health, the second is dead.
abbrev pub shooter : Player whole
shooter = record (new_player whole 7) {
  alive = true;
  circle = record { centre = at 100 100; r = meters 30 };
}

abbrev pub target : Player whole
target = record (new_player whole 8) {
  alive = true;
  health = 10;
  circle = record { centre = at 200 100; r = meters 30 };
}

abbrev pub shot : Projectile whole
shot = new_projectile 7 (at 170 100) (at 1 0)

abbrev pub sample : Game whole
sample = record {
  game_map = field;
  players = (7, shooter) ∷ (8, target) ∷ (9, new_player whole 9) ∷ [];
  projectiles = shot ∷ [];
  packets = (7, (3, 4)) ∷ [];
  calc_time = λ i j name. record { rounds = 0; total = 0 };
}

abbrev pub dice : Dice whole
dice = record { draw_x = λ lo hi i. lo; draw_y = λ lo hi i. hi }

pub dice-IsUniform : IsUniform dice
unfolding whole
dice-IsUniform = record {
  within_x = λ lo hi i h. (ground arith, h);
  within_y = λ lo hi i h. (h, ground arith);
}

pub sample-IsValidGame : IsValidGame sample
unfolding whole new_player is_slow square
sample-IsValidGame = record {
  valid = (
    record {
      healthy = λ e. omega arith;
      health_le = omega arith;
      slow = refl;
      kills_lt = omega arith;
      deaths_lt = omega arith;
    },
    (
      record {
        healthy = λ e. omega arith;
        health_le = omega arith;
        slow = refl;
        kills_lt = omega arith;
        deaths_lt = omega arith;
      },
      (
        record {
          healthy = λ e. cc;
          health_le = omega arith;
          slow = refl;
          kills_lt = omega arith;
          deaths_lt = omega arith;
        },
        tt,
      ),
    ),
  );
  distinct = (refl, (refl, (refl, tt)));
}

pub whole-RestIsSlow : RestIsSlow whole
unfolding whole is_slow square
whole-RestIsSlow = refl

abbrev pub spawn_request : IncomingMessage
spawn_request = record { message_type = message; client_id = 9; buffer = 10 ∷ [] }

abbrev pub short_request : IncomingMessage
short_request = record { message_type = message; client_id = 7; buffer = 13 ∷ 0 ∷ [] }
