-- ===== src/Game/Hits/Validity.antt =====
-- A round of the game keeps it valid: positions move, health falls, scores stay `uint16_t`.
use pr_shooter.Prelude.{
  ℕ, ◌+◌, ◌-◌, ◌%◌, ◌^◌, ◌≡◌, Bool, false, Option, none, some, List, [], ◌∷◌, arith, ◌==◌, leb, inl,
  inr, Bool-cases, Option-cases,
}
use pr_shooter.Table.{Table, lookup, get, insert, keys, map_values, Every, Distinct}
use pr_shooter.Table.Laws.{
  Every-insert, Every-lookup, Distinct-insert, Every-map_values, has_key-map_values,
}
use pr_shooter.Machine.{Machine}
use pr_shooter.Geometry.Collisions.{circles_collide}
use package.pr_shooter.Game.{Game, GameMap, Player, Projectile, default_player, projectile_damage}
use package.pr_shooter.Game.Handlers.Invariant.{
  IsValidPlayer, IsValidGame, RestIsSlow, new_player-IsValidPlayer,
}
use package.pr_shooter.Game.Physics.{step_player, update_positions, part_players}
use package.pr_shooter.Game.Physics.Validity.{part_players-IsValidPlayer, meet_map-IsValidPlayer}
use package.pr_shooter.Game.Messages.Cases.{Ensures, Ensures-some, Ensures->>=_of}
use package.pr_shooter.Game.Hits.{
  meet_player, meet_players, meet_map, check_player, check_players, find_hit, damage, bump_kills,
  check_projectile_collisions, check_projectiles, check_collisions, border_edges, is_hit,
  is_blocked,
}

module _ {m : Machine} (rest : RestIsSlow m) where
  -- the players of a valid game
  abbrev ValidTable : Table (Player m) → Type 0
  ValidTable players = Every (λ _ p. IsValidPlayer p) players × Distinct players

  get-valid :
      (id : ℕ) (t : Table (Player m)) → ValidTable t → IsValidPlayer (get (default_player m) id t)
  get-valid id t v = elim (Option-cases (lookup id t)) [
    | inl e ↦ rw e (new_player-IsValidPlayer rest 0)
    | inr (p, e) ↦ rw e (Every-lookup (λ _ p. IsValidPlayer p) id t p v.0 e)
  ]

  insert-valid :
      (id : ℕ) (p : Player m) (t : Table (Player m))
      → ValidTable t
      → IsValidPlayer p
      → ValidTable (insert id p t)
  insert-valid id p t v w =
      (Every-insert (λ _ p. IsValidPlayer p) id p t v.0 w, Distinct-insert id p t v.1)

  meet_player-valid :
      (id second : ℕ) (t : Table (Player m)) → ValidTable t → ValidTable (meet_player id second t)
  unfolding meet_player
  meet_player-valid id second t v = elim (Bool-cases (id == second)) [
    | inl same ↦ rw same v
    | inr other ↦ rw other (elim (Bool-cases (circles_collide p.circle q.circle)) [
      | inl hit ↦
          rw hit (insert-valid second _ (insert id _ t) (insert-valid id _ t v parted.0) parted.1)
      | inr miss ↦ rw miss v
    ])
  ]
    where
      p : Player m
      p = get (default_player m) id t

      q : Player m
      q = get (default_player m) second t

      parted : IsValidPlayer (part_players p q).0 × IsValidPlayer (part_players p q).1
      parted = part_players-IsValidPlayer p q (get-valid id t v) (get-valid second t v)

  meet_players-valid :
      (id : ℕ) (others : List ℕ) (t : Table (Player m))
      → ValidTable t
      → ValidTable (meet_players id others t)
  unfolding meet_players
  meet_players-valid id [] t v = v
  meet_players-valid id (second ∷ others) t v =
      meet_players-valid id others (meet_player id second t) (meet_player-valid id second t v)

  check_player-valid :
      (game_map : GameMap m) (id : ℕ) (t : Table (Player m))
      → ValidTable t
      → Ensures ValidTable (check_player game_map id t)
  unfolding check_player
  check_player-valid game_map id t v = elim (Bool-cases (get (default_player m) id t).alive) [
    | inl alive ↦ rw alive (
        Ensures->>=_of IsValidPlayer ValidTable (meet_map game_map _) _
          (meet_map-IsValidPlayer game_map _ (get-valid id moved moved_valid))
          (λ p w. insert-valid id p moved moved_valid w))
    | inr dead ↦ rw dead v
  ]
    where
      moved : Table (Player m)
      moved = meet_players id (keys t) t

      moved_valid : ValidTable moved
      moved_valid = meet_players-valid id (keys t) t v

  check_players-valid :
      (game_map : GameMap m) (ids : List ℕ) (t : Table (Player m))
      → ValidTable t
      → Ensures ValidTable (check_players game_map ids t)
  unfolding check_players
  check_players-valid game_map [] t v = v
  check_players-valid game_map (id ∷ ids) t v =
      Ensures->>=_of ValidTable ValidTable (check_player game_map id t) _
        (check_player-valid game_map id t v) (check_players-valid game_map ids)

  find_hit-valid :
      (projectile : Projectile m) (t : Table (Player m))
      → Every (λ _ p. IsValidPlayer p) t
      → Ensures (λ (_, p). IsValidPlayer p) (find_hit projectile t)
  unfolding find_hit
  find_hit-valid projectile [] v = tt
  find_hit-valid projectile ((id, p) ∷ t) v = elim (Bool-cases (is_hit projectile id p)) [
    | inl hit ↦ rw hit v.0
    | inr miss ↦ rw miss (find_hit-valid projectile t v.1)
  ]

  wounded-IsValidPlayer :
      (p : Player m)
      → IsValidPlayer p
      → leb p.health projectile_damage ≡ false
      → IsValidPlayer (record p { health = p.health - projectile_damage })
  wounded-IsValidPlayer p v more = record {
    healthy = λ _. ground arith;
    health_le = ground (arith, v.health_le);
    slow = v.slow;
    kills_lt = v.kills_lt;
    deaths_lt = v.deaths_lt;
  }

  dead-IsValidPlayer :
      (p : Player m) (n : ℕ)
      → IsValidPlayer p
      → IsValidPlayer (record p { alive = false; deaths = n % 2 ^ 16 })
  dead-IsValidPlayer p n v = record {
    healthy = λ e. cc;
    health_le = v.health_le;
    slow = v.slow;
    kills_lt = v.kills_lt;
    deaths_lt = omega arith;
  }

  bump_kills-IsValidPlayer : (p : Player m) → IsValidPlayer p → IsValidPlayer (bump_kills p)
  bump_kills-IsValidPlayer p v = record {
    healthy = v.healthy;
    health_le = v.health_le;
    slow = v.slow;
    kills_lt = omega arith;
    deaths_lt = v.deaths_lt;
  }

  damage-valid :
      (owner id : ℕ) (p : Player m) (t : Table (Player m))
      → ValidTable t
      → IsValidPlayer p
      → ValidTable (damage owner id p t)
  unfolding damage
  damage-valid owner id p t v w = elim (Bool-cases (leb p.health projectile_damage)) [
    | inl fatal ↦ rw fatal (
        insert-valid owner _ died died_valid
          (bump_kills-IsValidPlayer _ (get-valid owner died died_valid)))
    | inr wounded ↦ rw wounded (insert-valid id _ t v (wounded-IsValidPlayer p w wounded))
  ]
    where
      died : Table (Player m)
      died = insert id (record p { alive = false; deaths = (p.deaths + 1) % 2 ^ 16 }) t

      died_valid : ValidTable died
      died_valid = insert-valid id _ t v (dead-IsValidPlayer p (p.deaths + 1) w)

  check_projectile_collisions-valid :
      (game_map : GameMap m) (projectile : Projectile m) (t : Table (Player m))
      → ValidTable t
      → Ensures (λ (_, t'). ValidTable t') (check_projectile_collisions game_map projectile t)
  unfolding check_projectile_collisions
  check_projectile_collisions-valid game_map projectile t v =
      elim (Bool-cases (is_blocked game_map projectile)) [
        | inl blocked ↦ rw blocked v
        | inr free ↦ rw free (elim (Option-cases (find_hit projectile t)) [
          | inl nobody ↦
              rw (nobody, check_projectile_collisions)
                (Ensures->>=_of (λ _. Unit {0}) After (border_edges game_map.borders) _
                  (anything (border_edges game_map.borders)) (λ edges _. v))
          | inr ((id, p), hit) ↦
              rw (hit, check_projectile_collisions)
                (damage-valid projectile.owner_id id p t v (
                  Ensures-some (λ (_, p). IsValidPlayer p) _ (id, p)
                    (find_hit-valid projectile t v.0) hit))
        ])
      ]
    where
      After : Bool × Table (Player m) → Type 0
      After (_, t') = ValidTable t'

      anything : {A : Type 0} (o : Option A) → Ensures (λ _. Unit {0}) o
      anything none = tt
      anything (some a) = tt

  check_projectiles-valid :
      (game_map : GameMap m) (projectiles : List (Projectile m)) (t : Table (Player m))
      → ValidTable t
      → Ensures (λ (_, t'). ValidTable t') (check_projectiles game_map projectiles t)
  unfolding check_projectiles
  check_projectiles-valid game_map [] t v = v
  check_projectiles-valid game_map (projectile ∷ projectiles) t v =
      Ensures->>=_of (λ (_, t'). ValidTable t') (λ (_, t'). ValidTable t')
        (check_projectile_collisions game_map projectile t) _
        (check_projectile_collisions-valid game_map projectile t v)
        (λ (gone, t') v'.
          Ensures->>=_of (λ (_, t''). ValidTable t'') (λ (_, t''). ValidTable t'')
            (check_projectiles game_map projectiles t') _
            (check_projectiles-valid game_map projectiles t' v') (λ (kept, t'') v''. v''))

  -- Where the velocity (0, 0) passes the speed test, `checkCollisions` keeps the game valid
  -- unless it reads behind the end of the borders.
  pub check_collisions-IsValidGame :
      (g g' : Game m) → IsValidGame g → check_collisions g ≡ some g' → IsValidGame g'
  unfolding check_collisions
  check_collisions-IsValidGame g g' v e =
      Ensures-some IsValidGame (check_collisions g) g'
        (Ensures->>=_of ValidTable IsValidGame (check_players g.game_map (keys g.players) g.players)
          _ (check_players-valid g.game_map (keys g.players) g.players (v.valid, v.distinct))
          (λ t w.
            Ensures->>=_of (λ (_, t'). ValidTable t') IsValidGame
              (check_projectiles g.game_map g.projectiles t) _
              (check_projectiles-valid g.game_map g.projectiles t w)
              (λ (kept, t') w'. record { valid = w'.0; distinct = w'.1 })))
        e

step_player-IsValidPlayer :
    {m : Machine} (p : Player m) → IsValidPlayer p → IsValidPlayer (step_player p)
unfolding step_player
step_player-IsValidPlayer p v = ground arith

Distinct-map_values :
    {V : Type 0} (f : V → V) (t : Table V) → Distinct t → Distinct (map_values f t)
unfolding map_values
Distinct-map_values f [] h = tt
Distinct-map_values f ((k, v) ∷ t) h =
    ground (arith, has_key-map_values f k t, Distinct-map_values f t)

-- `updatePositions` keeps the game valid.
pub update_positions-IsValidGame :
    {m : Machine} (g : Game m) → IsValidGame g → IsValidGame (update_positions g)
unfolding update_positions
update_positions-IsValidGame g v = record {
  valid =
      Every-map_values (λ _ p. IsValidPlayer p) (λ _ p. IsValidPlayer p) step_player
        (λ k p w. step_player-IsValidPlayer p w) g.players v.valid;
  distinct = Distinct-map_values step_player g.players v.distinct;
}
