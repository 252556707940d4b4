-- ===== src/Game/Handlers/Invariant.antt =====
-- What holds of every player in the table, whatever the handlers do.
use pr_shooter.Prelude.{ℕ, ◌^◌, ◌≤◌, ◌<◌, ◌≡◌, true, arith, inl, inr, Bool-cases, Option-cases}
use pr_shooter.Table.{lookup, Every, Distinct}
use pr_shooter.Table.Laws.{Every-insert, Every-lookup, Every-erase, Distinct-insert, Distinct-erase}
use pr_shooter.Machine.{Machine}
use pr_shooter.Geometry.{Point, point}
use package.pr_shooter.Game.{Game, Player, new_player, origin}
use package.pr_shooter.Game.Handlers.{
  Dice, change_player, player_at, create_new_player, delete_player, shoot_projectile, respawn,
  spawn_player, change_player_orientation, is_slow, change_player_movement,
}

-- A player who is alive has health left, nobody has more than 100 or is too fast, and the scores are
-- `uint16_t`.
pub record IsValidPlayer {m : Machine} (p : Player m) : Type 0 where
  pub healthy : p.alive ≡ true → 0 < p.health
  pub health_le : p.health ≤ 100
  pub slow : is_slow p.velocity ≡ true
  pub kills_lt : p.kills < 2 ^ 16
  pub deaths_lt : p.deaths < 2 ^ 16

-- Every player is valid, and no id stands twice.
pub record IsValidGame {m : Machine} (g : Game m) : Type 0 where
  pub valid : Every (λ _ p. IsValidPlayer p) g.players
  pub distinct : Distinct g.players

-- The velocity `{0, 0}` passes the test of `changePlayerMovement`: 0 * 0 + 0 * 0 <= 1 + 0.00001.
abbrev pub RestIsSlow : Machine → Type 0
RestIsSlow m = is_slow (origin m) ≡ true

respawn-IsValidPlayer :
    {m : Machine} (centre : Point m) (p : Player m)
    → IsValidPlayer p
    → IsValidPlayer (respawn centre p)
unfolding respawn
respawn-IsValidPlayer centre p v = ground arith

module _ {m : Machine} (rest : RestIsSlow m) where
  pub new_player-IsValidPlayer : (id : ℕ) → IsValidPlayer (new_player m id)
  unfolding new_player
  new_player-IsValidPlayer id = record {
    healthy = λ e. cc;
    health_le = omega arith;
    slow = rest;
    kills_lt = omega arith;
    deaths_lt = omega arith;
  }

  pub get-IsValidPlayer : (id : ℕ) (g : Game m) → IsValidGame g → IsValidPlayer (player_at id g)
  get-IsValidPlayer id g v = elim (Option-cases (lookup id g.players)) [
    | inl e ↦ rw e (new_player-IsValidPlayer 0)
    | inr (p, e) ↦ rw e (Every-lookup (λ _ p. IsValidPlayer p) id g.players p v.valid e)
  ]

  -- Changing one player validly keeps the game valid.
  pub change_player-IsValidGame :
      (id : ℕ) (f : Player m → Player m) (g : Game m)
      → IsValidGame g
      → (IsValidPlayer (player_at id g) → IsValidPlayer (f (player_at id g)))
      → IsValidGame (change_player id f g)
  unfolding change_player
  change_player-IsValidGame id f g v keep = record {
    valid =
        Every-insert (λ _ p. IsValidPlayer p) id (f (player_at id g)) g.players v.valid
          (keep (get-IsValidPlayer id g v));
    distinct = Distinct-insert id (f (player_at id g)) g.players v.distinct;
  }

  pub create_new_player-IsValidGame :
      (id : ℕ) (g : Game m) → IsValidGame g → IsValidGame (create_new_player id g)
  unfolding create_new_player
  create_new_player-IsValidGame id g v = record {
    valid =
        Every-insert (λ _ p. IsValidPlayer p) id (new_player m id) g.players v.valid
          (new_player-IsValidPlayer id);
    distinct = Distinct-insert id (new_player m id) g.players v.distinct;
  }

  pub delete_player-IsValidGame :
      (id : ℕ) (g : Game m) → IsValidGame g → IsValidGame (delete_player id g)
  unfolding delete_player
  delete_player-IsValidGame id g v = record {
    valid = Every-erase (λ _ p. IsValidPlayer p) id g.players v.valid;
    distinct = Distinct-erase id g.players v.distinct;
  }

  pub shoot_projectile-IsValidGame :
      (id : ℕ) (g : Game m) → IsValidGame g → IsValidGame (shoot_projectile id g)
  unfolding shoot_projectile
  shoot_projectile-IsValidGame id g v = elim (Bool-cases (player_at id g).alive) [
    | inl e ↦ rw e (record { valid = touched.valid; distinct = touched.distinct })
    | inr e ↦ rw e touched
  ]
    where
      touched : IsValidGame (change_player id (λ p. p) g)
      touched = change_player-IsValidGame id (λ p. p) g v (λ p. p)

  pub spawn_player-IsValidGame :
      (dice : Dice m) (id : ℕ) (g : Game m) → IsValidGame g → IsValidGame (spawn_player dice id g)
  unfolding spawn_player
  spawn_player-IsValidGame dice id g v =
      change_player-IsValidGame id (respawn _) g v (respawn-IsValidPlayer _ (player_at id g))

  pub change_player_orientation-IsValidGame :
      (id : ℕ) (angle : m.Single) (g : Game m)
      → IsValidGame g
      → IsValidGame (change_player_orientation id angle g)
  unfolding change_player_orientation
  change_player_orientation-IsValidGame id angle g v =
      change_player-IsValidGame id (λ p. record p { orientation_angle = angle }) g v
        λ p. record {
          healthy = p.healthy;
          health_le = p.health_le;
          slow = p.slow;
          kills_lt = p.kills_lt;
          deaths_lt = p.deaths_lt;
        }

  pub change_player_movement-IsValidGame :
      (id : ℕ) (x y : m.Double) (g : Game m)
      → IsValidGame g
      → IsValidGame (change_player_movement id x y g)
  unfolding change_player_movement
  change_player_movement-IsValidGame id x y g v = elim (Bool-cases (is_slow (point {m = m} x y))) [
    | inl e ↦ rw e (
        change_player-IsValidGame id (λ p. record p { velocity = point x y }) g v
          λ p. record {
            healthy = p.healthy;
            health_le = p.health_le;
            slow = e;
            kills_lt = p.kills_lt;
            deaths_lt = p.deaths_lt;
          })
    | inr e ↦ rw e v
  ]
