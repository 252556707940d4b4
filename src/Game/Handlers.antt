-- ===== src/Game/Handlers.antt =====
-- The handlers of Host/game.cpp that a client's message or connection runs. `players[id]` inserts
-- `Player(0)` for a missing id, as `operator[]` of an `unordered_map` does.
pub mod Effects
pub mod Invariant
use pr_shooter.Prelude.{
  ℕ, zero, suc, ◌+◌, Bool, true, false, not, List, [], ◌∷◌, ◌++◌, if◌then◌else◌, ◌==◌,
}
use pr_shooter.Table.{Table, get, insert, erase, modify}
use pr_shooter.Machine.{Machine}
use pr_shooter.Geometry.{Point, point, square, plus, scale}
use package.pr_shooter.Game.{
  Game, GameMap, Player, Projectile, new_player, default_player, new_projectile, move_player,
  epsilon_one,
}

-- `std::uniform_int_distribution(lo, hi)` over a freshly seeded engine: the numbers that it draws
-- for the two coordinates, one after the other.
pub record Dice (m : Machine) : Type 0 where
  pub draw_x : m.Double → m.Double → ℕ → m.Double
  pub draw_y : m.Double → m.Double → ℕ → m.Double

-- `isInsideBorder` accepts every point, so one round is enough for any fuel.
abbrev pub placing_rounds : ℕ
placing_rounds = 1

module _ {m : Machine} where
  open m use {Double, Single, add, le, cos, sin, literal, trunc}

  -- a statement that changes `players[id]`
  unfoldable pub change_player : ℕ → (Player m → Player m) → Game m → Game m
  unfolding modify
  change_player id f g = record g { players = modify (default_player m) id f g.players }

  -- `players[id]`, read
  abbrev pub player_at : ℕ → Game m → Player m
  player_at id g = get (default_player m) id g.players

  -- `createNewPlayer`
  unfoldable pub create_new_player : ℕ → Game m → Game m
  create_new_player id g = record g {
    players = insert id (new_player m id) g.players;
    packets = insert id (0, 0) g.packets;
  }

  -- `deletePlayer`
  unfoldable pub delete_player : ℕ → Game m → Game m
  delete_player id g = record g { players = erase id g.players }

  -- `shootProjectile`; `const auto& player = players[player_id]` may insert.
  unfoldable pub shoot_projectile : ℕ → Game m → Game m
  unfolding change_player
  shoot_projectile id g =
      let player = player_at id g in
      let touched = change_player id (λ p. p) g in
      let direction = point (cos player.orientation_angle) (sin player.orientation_angle) in
      if not player.alive then touched else record touched {
        projectiles =
            g.projectiles
            ++ (new_projectile id (plus player.centre (scale direction player.r)) direction ∷ []);
      }

  -- `isInsideBorder`
  unfoldable pub is_inside_border : GameMap m → Point m → Bool
  is_inside_border game_map p = true

  -- `do { centre = draw; } while(!isInsideBorder(centre));` with at most `fuel` repetitions, from
  -- the `i`-th draw on
  unfoldable pub place : (ℕ → Point m) → GameMap m → ℕ → ℕ → Point m
  place draw game_map zero i = draw i
  place draw game_map (suc fuel) i =
      let later = place draw game_map fuel (i + 1) in
      if is_inside_border game_map (draw i) then draw i else later

  abbrev pub draw_point : Dice m → GameMap m → ℕ → Point m
  draw_point dice game_map i =
      point (dice.draw_x (trunc game_map.top_left.x) (trunc game_map.bottom_right.x) i)
        (dice.draw_y (trunc game_map.top_left.y) (trunc game_map.bottom_right.y) i)

  -- `if(player.alive == false) { … }`
  unfoldable pub respawn : Point m → Player m → Player m
  unfolding move_player
  respawn centre player =
      if not player.alive
      then move_player (record player { alive = true; health = 100 }) centre
      else player

  -- `spawnPlayer`
  unfoldable pub spawn_player : Dice m → ℕ → Game m → Game m
  unfolding change_player respawn place is_inside_border
  spawn_player dice id g =
      let centre = place (draw_point dice g.game_map) g.game_map placing_rounds 0 in
      change_player id (respawn centre) g

  -- `changePlayerOrientation`
  unfoldable pub change_player_orientation : ℕ → Single → Game m → Game m
  unfolding change_player
  change_player_orientation id angle =
      change_player id (λ p. record p { orientation_angle = angle })

  -- the test of `changePlayerMovement`: the square of the speed is at most 1 and a little
  unfoldable pub is_slow : Point m → Bool
  is_slow v = le (add (square m v.x) (square m v.y)) (add (literal 1 0) (epsilon_one m))

  -- `changePlayerMovement`
  unfoldable pub change_player_movement : ℕ → Double → Double → Game m → Game m
  unfolding change_player is_slow
  change_player_movement id velocity_x velocity_y g =
      let v = point velocity_x velocity_y in
      if is_slow v then change_player id (λ p. record p { velocity = v }) g else g
