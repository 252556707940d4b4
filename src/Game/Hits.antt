-- ===== src/Game/Hits.antt =====
-- `checkCollisions` and `checkProjectileCollisions` of Host/game.cpp. `none` is a read behind the
-- end of the borders: `borders.size() - 1` wraps around for a map without borders.
pub mod Validity
pub mod Scores
pub mod Wounds
pub mod Pushes
use pr_shooter.Prelude.{
  ℕ, zero, suc, ◌+◌, ◌-◌, ◌%◌, ◌^◌, Bool, true, false, not, Option, none, some, List, [], ◌∷◌, ◌++◌,
  ◌&&◌, ◌||◌, ◌==◌, leb, if◌then◌else◌,
}
use pr_shooter.Table.{Table, get, insert, modify, keys}
use pr_shooter.Machine.{Machine}
use pr_shooter.Geometry.{Point, Circle, Rectangle}
use pr_shooter.Geometry.Collisions.{circles_collide, rectangle_collides, segment_collides}
use pr_shooter.Wire.{◌>>=◌}
use package.pr_shooter.Game.{Game, GameMap, Player, Projectile, default_player, projectile_damage}
use package.pr_shooter.Game.Physics.{part_players, each, meet_wall, meet_obstacle, meet_edge}

unfoldable pub any : {A : Type 0} → (A → Bool) → List A → Bool
any f [] = false
any f (x ∷ xs) = f x || any f xs

-- `x` and the points behind it: each point with the next, and the last with `first`
unfoldable pub edges_from : {A : Type 0} → A → A → List A → List (A × A)
edges_from first x [] = (x, first) ∷ []
edges_from first x (y ∷ ys) = (x, y) ∷ edges_from first y ys

-- The edges that the loops over `borders` visit: the pairs i, i + 1 for i < size - 1, and then the
-- last point with the first.
unfoldable pub border_edges : {A : Type 0} → List A → Option (List (A × A))
unfolding edges_from
border_edges [] = none
border_edges (x ∷ xs) = some (edges_from x x xs)

module _ {m : Machine} where
  -- The body of the loop over the second player.
  unfoldable pub meet_player : ℕ → ℕ → Table (Player m) → Table (Player m)
  meet_player id second players =
      let p1 = get (default_player m) id players in
      let p2 = get (default_player m) second players in
      let (q1, q2) = part_players p1 p2 in
      if id == second
      then players
      else if circles_collide p1.circle p2.circle
      then insert second q2 (insert id q1 players)
      else players

  unfoldable pub meet_players : ℕ → List ℕ → Table (Player m) → Table (Player m)
  unfolding meet_player
  meet_players id [] players = players
  meet_players id (second ∷ others) players = meet_players id others (meet_player id second players)

  -- the loops over walls, obstacles and borders
  unfoldable pub meet_map : GameMap m → Player m → Option (Player m)
  unfolding border_edges each
  meet_map game_map player = border_edges game_map.borders >>= λ edges. some (
      each meet_edge edges
        (each meet_obstacle game_map.obstacles (each meet_wall game_map.walls player)))

  -- the body of the loop over the players
  unfoldable pub check_player : GameMap m → ℕ → Table (Player m) → Option (Table (Player m))
  unfolding meet_players meet_map
  check_player game_map id players =
      let moved = meet_players id (keys players) players in
      if not (get (default_player m) id players).alive
      then some players
      else (meet_map game_map (get (default_player m) id moved) >>= λ player.
          some (insert id player moved))

  unfoldable pub check_players : GameMap m → List ℕ → Table (Player m) → Option (Table (Player m))
  unfolding check_player
  check_players game_map [] players = some players
  check_players game_map (id ∷ ids) players =
      check_player game_map id players >>= check_players game_map ids

  -- the test on a player in `checkProjectileCollisions`
  unfoldable pub is_hit : Projectile m → ℕ → Player m → Bool
  is_hit projectile id player =
      player.alive
      && (not (id == projectile.owner_id) && circles_collide projectile.circle player.circle)

  -- the first player, in the order of iteration, that the projectile hits
  unfoldable pub find_hit : Projectile m → Table (Player m) → Option (ℕ × Player m)
  unfolding is_hit
  find_hit projectile [] = none
  find_hit projectile ((id, player) ∷ rest) =
      if is_hit projectile id player then some (id, player) else find_hit projectile rest

  abbrev pub bump_kills : Player m → Player m
  bump_kills p = record p { kills = (p.kills + 1) % 2 ^ 16 }

  -- What a hit does: the damage, or the death and the kill of the owner.
  unfoldable pub damage : ℕ → ℕ → Player m → Table (Player m) → Table (Player m)
  unfolding modify
  damage owner id player players =
      if leb player.health projectile_damage
      then modify (default_player m) owner bump_kills (
          insert id (record player { alive = false; deaths = (player.deaths + 1) % 2 ^ 16 })
            players)
      else insert id (record player { health = player.health - projectile_damage }) players

  -- the walls and obstacles of `checkProjectileCollisions`
  unfoldable pub is_blocked : GameMap m → Projectile m → Bool
  unfolding any
  is_blocked game_map projectile =
      any (rectangle_collides projectile.circle) game_map.walls
      || any (circles_collide projectile.circle) game_map.obstacles

  unfoldable pub leaves_map : List (Point m × Point m) → Projectile m → Bool
  unfolding any
  leaves_map edges projectile = any (λ (a, b). segment_collides projectile.circle a b) edges

  -- `checkProjectileCollisions`: whether the projectile is gone, and the players afterwards
  unfoldable pub check_projectile_collisions :
      GameMap m → Projectile m → Table (Player m) → Option (Bool × Table (Player m))
  unfolding is_blocked find_hit damage border_edges leaves_map
  check_projectile_collisions game_map projectile players =
      if is_blocked game_map projectile
      then some (true, players)
      else elim (find_hit projectile players) [
        | some (id, player) ↦ some (true, damage projectile.owner_id id player players)
        | none ↦
            border_edges game_map.borders >>= λ edges. some (leaves_map edges projectile, players)
      ]

  -- the loop over the projectiles, which erases those that are gone
  unfoldable pub check_projectiles :
      GameMap m
      → List (Projectile m)
      → Table (Player m)
      → Option (List (Projectile m) × Table (Player m))
  unfolding check_projectile_collisions
  check_projectiles game_map [] players = some ([], players)
  check_projectiles game_map (projectile ∷ rest) players =
      check_projectile_collisions game_map projectile players >>= λ (gone, players').
      check_projectiles game_map rest players' >>= λ (kept, players'').
      some ((if gone then kept else projectile ∷ kept), players'')

  -- `checkCollisions`
  unfoldable pub check_collisions : Game m → Option (Game m)
  unfolding check_players check_projectiles keys
  check_collisions g = check_players g.game_map (keys g.players) g.players >>= λ players.
      check_projectiles g.game_map g.projectiles players >>= λ (kept, players').
      some (record g { players = players'; projectiles = kept })
