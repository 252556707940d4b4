-- ===== src/Game/Handlers/Effects.antt =====
-- What a client's own player becomes.
use pr_shooter.Prelude.{ℕ, zero, suc, ◌≡◌, refl, true, some, [], ◌∷◌, ◌++◌, arith, if◌then◌else◌}
use pr_shooter.Table.{lookup, erase}
use pr_shooter.Table.Laws.{lookup-insert_self, lookup-erase_self}
use pr_shooter.Machine.{Machine}
use pr_shooter.Geometry.{Point, point, plus, scale}
use package.pr_shooter.Game.{Game, GameMap, Player, new_player, new_projectile, move_player}
use package.pr_shooter.Game.Handlers.{
  Dice, player_at, delete_player, shoot_projectile, place, is_inside_border, spawn_player,
}

-- A draw lies between the bounds of the distribution, which are in order.
pub record IsUniform {m : Machine} (dice : Dice m) : Type 0 where
  pub within_x :
      (lo hi : m.Double) (i : ℕ)
      → m.le lo hi ≡ true
      → (m.le lo (dice.draw_x lo hi i) ≡ true) × (m.le (dice.draw_x lo hi i) hi ≡ true)
  pub within_y :
      (lo hi : m.Double) (i : ℕ)
      → m.le lo hi ≡ true
      → (m.le lo (dice.draw_y lo hi i) ≡ true) × (m.le (dice.draw_y lo hi i) hi ≡ true)

module _ {m : Machine} where
  open m use {le, trunc}

  -- The box of the map, in whole numbers as `static_cast<int>` makes them.
  abbrev pub InBox : GameMap m → Point m → Type 0
  InBox game_map p =
      (le (trunc game_map.top_left.x) p.x ≡ true)
      × (le p.x (trunc game_map.bottom_right.x) ≡ true)
      × (le (trunc game_map.top_left.y) p.y ≡ true)
      × (le p.y (trunc game_map.bottom_right.y) ≡ true)

  -- The loop ends in its first round, however many it is given.
  place-first :
      (draw : ℕ → Point m) (game_map : GameMap m) (fuel i : ℕ) → place draw game_map fuel i ≡ draw i
  unfolding place is_inside_border
  place-first draw game_map zero i = refl
  place-first draw game_map (suc fuel) i = refl

  -- `p` come back to life somewhere in the box, with full health and otherwise as he was
  abbrev pub Respawned : GameMap m → Player m → Player m → Type 0
  Respawned game_map p q =
      (q.alive ≡ true)
      × (q.health ≡ 100)
      × InBox game_map q.centre
      × (q ≡ move_player (record p { alive = true; health = 100 }) q.centre)

  -- A shot of a player who is alive adds one projectile behind all others: it is his, it flies where
  -- he looks, and it starts on his rim. A dead or unknown player adds none.
  pub shoot_projectile_effect :
      (id : ℕ) (g : Game m)
      → let p = player_at id g in
        let aim = point (m.cos p.orientation_angle) (m.sin p.orientation_angle) in
        (shoot_projectile id g).projectiles ≡ (
          if p.alive
          then g.projectiles ++ (new_projectile id (plus p.centre (scale aim p.r)) aim ∷ [])
          else g.projectiles)
  unfolding shoot_projectile
  shoot_projectile_effect id g = ground arith

-- A client's messages that are handled after the end of his connection bring a player back whom
-- nobody plays: a spawn request puts a living player with id 0 under the client's id.
pub spawn_player-delete_player :
    {m : Machine} (dice : Dice m) (id : ℕ) (g : Game m)
    → (q : Player m) × (lookup id (spawn_player dice id (delete_player id g)).players ≡ some q)
      × (q.alive ≡ true)
      × (q.player_id ≡ 0)
unfolding spawn_player delete_player new_player
spawn_player-delete_player {m} dice id g = (
  _,
  lookup-insert_self id _ (erase id g.players),
  rw (lookup-erase_self id g.players) refl,
  rw (lookup-erase_self id g.players) refl,
)
