-- ===== src/Game/Physics.antt =====
-- `updatePositions`, `calculateDisplacement` and the `moveAlongNormal` family of Host/game.cpp, and the
-- bodies of the loops over walls, obstacles and borders in `checkCollisions`.
pub mod Validity
use pr_shooter.Prelude.{
  ℕ, zero, suc, ◌+◌, ◌-◌, ◌*◌, ◌%◌, ◌^◌, Bool, true, false, not, Option, none, some, List, [], ◌∷◌,
  ◌++◌, map, ◌&&◌, ◌||◌, ◌==◌, leb, if◌then◌else◌, length,
}
use pr_shooter.Table.{Table, lookup, get, insert, modify, keys, map_values}
use pr_shooter.Machine.{Machine}
use pr_shooter.Geometry.{Point, point, Circle, Rectangle, plus, minus, scale, shrink, norm}
use pr_shooter.Geometry.Collisions.{
  distance, circles_collide, rectangle_collides, segment_collides, triangle_height,
}
use package.pr_shooter.Game.{
  Game, GameMap, Player, Projectile, default_player, move_player, move_projectile, max_player_speed,
  projectile_speed, double_timestep, projectile_damage,
}

module _ {m : Machine} where
  open m use {Double, add, sub, mul, div, neg, literal}

  -- `velocity * speed * double_timestep.count()`
  abbrev pub travelled : Point m → Double → Point m
  travelled velocity speed = scale (scale velocity speed) (double_timestep m)

  unfoldable pub step_player : Player m → Player m
  unfolding move_player
  step_player p =
      if not p.alive
      then p
      else move_player p (plus p.centre (travelled p.velocity (max_player_speed m)))

  unfoldable pub step_projectile : Projectile m → Projectile m
  unfolding move_projectile
  step_projectile p = move_projectile p (plus p.centre (travelled p.velocity (projectile_speed m)))

  -- `updatePositions`
  unfoldable pub update_positions : Game m → Game m
  unfolding step_player step_projectile map_values
  update_positions g = record g {
    players = map_values step_player g.players;
    projectiles = map step_projectile g.projectiles;
  }

  -- `calculateDisplacement(Circle, Circle)`: a direction and a length
  unfoldable pub circle_displacement : Circle m → Circle m → Point m × Double
  circle_displacement c1 c2 =
      let displacement = sub (add c1.r c2.r) (distance c1.centre c2.centre) in
      let away = minus c1.centre c2.centre in (shrink away (norm away), displacement)

  -- `calculateDisplacement(Circle, Point, Point)`
  unfoldable pub segment_displacement : Circle m → Point m → Point m → Point m × Double
  segment_displacement c p1 p2 =
      let dx = sub p2.x p1.x in
      let dy = sub p2.y p1.y in
      let normal = point (neg dy) dx in
      (shrink normal (norm normal), sub c.r (triangle_height c.centre p1 p2))

  abbrev pub shift : Player m → Point m → Player m
  shift p d = move_player p (plus p.centre d)

  -- `moveAlongNormal(Player, Player)`: the two players afterwards
  unfoldable pub part_players : Player m → Player m → Player m × Player m
  unfolding circle_displacement move_player
  part_players p1 p2 =
      let (direction, displacement) = circle_displacement p1.circle p2.circle in
      let half = div displacement (literal 2 0) in
      (shift p1 (scale direction half), shift p2 (scale (scale direction half) (neg (literal 1 0))))

  -- `moveAlongNormal(Player, Point, Point)`
  unfoldable pub leave_segment : Point m → Point m → Player m → Player m
  unfolding segment_displacement move_player
  leave_segment p1 p2 player =
      let (direction, displacement) = segment_displacement player.circle p1 p2 in
      shift player (scale direction displacement)

  -- `moveAlongNormal(Player, Circle)`
  unfoldable pub leave_circle : Circle m → Player m → Player m
  unfolding circle_displacement move_player
  leave_circle object player =
      let (direction, displacement) = circle_displacement player.circle object in
      shift player (scale direction displacement)

  -- `if(checkCollision(player, a, b)) moveAlongNormal(player, c, d);`
  unfoldable pub push_off : Point m → Point m → Point m → Point m → Player m → Player m
  unfolding leave_segment
  push_off a b c d player =
      if segment_collides player.circle a b then leave_segment c d player else player

  -- `moveAlongNormal(Player, Rectangle)`: each edge sees the player where the last one left him.
  unfoldable pub leave_rectangle : Rectangle m → Player m → Player m
  unfolding push_off
  leave_rectangle object player = push_off object.p3 object.p0 object.p0 object.p3 (
      push_off object.p2 object.p3 object.p3 object.p2 (
        push_off object.p1 object.p2 object.p2 object.p1
          (push_off object.p0 object.p1 object.p1 object.p0 player)))

  -- `for(const auto& x : xs) player = body(x, player);`
  unfoldable pub each : {A : Type 0} → (A → Player m → Player m) → List A → Player m → Player m
  each body [] player = player
  each body (x ∷ xs) player = each body xs (body x player)

  unfoldable pub meet_wall : Rectangle m → Player m → Player m
  unfolding leave_rectangle
  meet_wall wall player =
      if rectangle_collides player.circle wall then leave_rectangle wall player else player

  unfoldable pub meet_obstacle : Circle m → Player m → Player m
  unfolding leave_circle
  meet_obstacle obstacle player =
      if circles_collide player.circle obstacle then leave_circle obstacle player else player

  unfoldable pub meet_edge : Point m × Point m → Player m → Player m
  unfolding push_off
  meet_edge (a, b) = push_off a b a b
