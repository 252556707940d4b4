-- ===== src/Game/Hits/Scores.antt =====
-- What projectiles do to health and to the scores.
use pr_shooter.Prelude.{
  ℕ, ◌+◌, ◌-◌, ◌%◌, ◌^◌, ◌<◌, ◌≡◌, refl, ◌≢◌, sym, ◌∙◌, Bool, true, false, Option, none, some, [],
  ◌∷◌, arith, leb, inl, inr, Bool-cases, Option-cases,
}
use pr_shooter.Table.{Table, lookup, insert, modify, Every, Distinct, has_key}
use pr_shooter.Table.Laws.{lookup-insert_ne, Every-lookup}
use pr_shooter.Machine.{Machine}
use package.pr_shooter.Game.{
  GameMap, Player, Projectile, default_player, new_player, projectile_damage,
}
use package.pr_shooter.Game.Messages.Cases.{Ensures, Ensures-some, Ensures->>=}
use package.pr_shooter.Game.Hits.{
  is_hit, find_hit, damage, bump_kills, is_blocked, border_edges, check_projectile_collisions,
}

lookup-has_key :
    {V : Type 0} (k : ℕ) (t : Table V) (v : V) → lookup k t ≡ some v → has_key k t ≡ true
unfolding lookup
lookup-has_key k [] v e = cc
lookup-has_key k ((j, w) ∷ t) v e = ground (arith, lookup-has_key k t v)

-- the sum of a number of each player
unfoldable pub total : {V : Type 0} → (V → ℕ) → Table V → ℕ
total f [] = 0
total f ((k, v) ∷ t) = f v + total f t

abbrev pub or_zero : {V : Type 0} → (V → ℕ) → Option V → ℕ
or_zero f none = 0
or_zero f (some v) = f v

pub total-insert :
    {V : Type 0} (f : V → ℕ) (k : ℕ) (v : V) (t : Table V)
    → total f (insert k v t) + or_zero f (lookup k t) ≡ total f t + f v
unfolding total insert lookup
total-insert f k v [] = omega arith
total-insert f k v ((j, w) ∷ t) = ground (arith, total-insert f k v t)

module _ {m : Machine} where
  -- The player that is hit stands under his id in the table, is alive and is not the owner.
  pub find_hit_lem :
      (projectile : Projectile m) (t : Table (Player m)) (id : ℕ) (p : Player m)
      → Distinct t
      → find_hit projectile t ≡ some (id, p)
      → (lookup id t ≡ some p) × (is_hit projectile id p ≡ true)
  unfolding find_hit lookup
  find_hit_lem projectile [] id p d e = cc
  find_hit_lem projectile ((j, q) ∷ t) id p d e =
      ground (arith, find_hit_lem projectile t id p, lookup-has_key id t p)

  is_hit-not-owner :
      (projectile : Projectile m) (id : ℕ) (p : Player m)
      → is_hit projectile id p ≡ true
      → id ≢ projectile.owner_id
  unfolding is_hit
  is_hit-not-owner projectile id p h = ground arith

  -- Room for one more in every score.
  abbrev pub RoomFor : ℕ → Player m → Type 0
  RoomFor _ p = (p.kills + 1 < 2 ^ 16) × (p.deaths + 1 < 2 ^ 16)

  abbrev pub HasRoom : Table (Player m) → Type 0
  HasRoom = Every RoomFor

  abbrev pub kills_of : Player m → ℕ
  kills_of p = p.kills

  abbrev pub deaths_of : Player m → ℕ
  deaths_of p = p.deaths

  bump_scores :
      (owner : ℕ) (t : Table (Player m))
      → ((q : Player m) → lookup owner t ≡ some q → q.kills + 1 < 2 ^ 16)
      → let bumped = modify (default_player m) owner bump_kills t in
        (total kills_of bumped ≡ total kills_of t + 1)
        × (total deaths_of bumped ≡ total deaths_of t)
  unfolding modify new_player
  bump_scores owner t room = elim (Option-cases (lookup owner t)) [
    | inl e ↦
        let player = default_player m in
        let kills = total-insert kills_of owner (bump_kills player) t in
        let deaths = total-insert deaths_of owner (bump_kills player) t in
        rw e (omega (arith, rw e at kills, rw e at deaths))
    | inr (q, e) ↦
        let kills = total-insert kills_of owner (bump_kills q) t in
        let deaths = total-insert deaths_of owner (bump_kills q) t in
        rw e (omega (arith, rw e at kills, rw e at deaths, room q e))
  ]

  -- A hit that is not fatal changes no score; a fatal one adds a death and a kill.
  damage_scores :
      (owner id : ℕ) (p : Player m) (t : Table (Player m))
      → lookup id t ≡ some p
      → id ≢ owner
      → HasRoom t
      → total kills_of (damage owner id p t) + total deaths_of t
        ≡ total kills_of t + total deaths_of (damage owner id p t)
  unfolding damage
  damage_scores owner id p t at_id other room = elim (Bool-cases (leb p.health projectile_damage)) [
    | inl fatal ↦
        let dead = record p { alive = false; deaths = (p.deaths + 1) % 2 ^ 16 } in
        let kills = total-insert kills_of id dead t in
        let deaths = total-insert deaths_of id dead t in
        let bumped = bump_scores owner (insert id dead t) (λ q e.
          (Every-lookup RoomFor owner t q room
            (sym (lookup-insert_ne id owner dead t (λ same. other (sym same))) ∙ e)).0) in
        rw fatal (omega (arith, rw at_id at kills, rw at_id at deaths, bumped, roomy.1))
    | inr wounded ↦
        let hurt = record p { health = p.health - projectile_damage } in
        let kills = total-insert kills_of id hurt t in
        let deaths = total-insert deaths_of id hurt t in
        rw wounded (omega (arith, rw at_id at kills, rw at_id at deaths))
  ]
    where
      roomy : (p.kills + 1 < 2 ^ 16) × (p.deaths + 1 < 2 ^ 16)
      roomy = Every-lookup RoomFor id t p room at_id

  -- What `checkProjectileCollisions` does, by what the projectile meets first: at a wall or an
  -- obstacle it goes and no player changes; the player that it hits takes the damage and it goes;
  -- otherwise no player changes, and it goes if it meets the border.
  pub data Flight (game_map : GameMap m) (projectile : Projectile m) (t : Table (Player m))
      : Bool → Table (Player m) → Type 0 where
    blocked : is_blocked game_map projectile ≡ true → Flight game_map projectile t true t
    hits :
        (id : ℕ) (p : Player m) {t' : Table (Player m)}
        → is_blocked game_map projectile ≡ false
        → find_hit projectile t ≡ some (id, p)
        → t' ≡ damage projectile.owner_id id p t
        → Flight game_map projectile t true t'
    flies :
        {gone : Bool}
        → is_blocked game_map projectile ≡ false
        → find_hit projectile t ≡ none
        → Flight game_map projectile t gone t

  pub check_projectile_collisions-Flight :
      (game_map : GameMap m) (projectile : Projectile m) (t : Table (Player m))
      → Ensures
          (λ (gone, t'). Flight game_map projectile t gone t')
          (check_projectile_collisions game_map projectile t)
  unfolding check_projectile_collisions
  check_projectile_collisions-Flight game_map projectile t =
      elim (Bool-cases (is_blocked game_map projectile)) [
        | inl stop ↦ rw stop (blocked stop)
        | inr free ↦ rw free (elim (Option-cases (find_hit projectile t)) [
          | inl nobody ↦
              rw (nobody, check_projectile_collisions)
                (Ensures->>= (λ (gone, t'). Flight game_map projectile t gone t')
                  (border_edges game_map.borders) _ (λ edges. flies free nobody))
          | inr ((id, p), hit) ↦ rw (hit, check_projectile_collisions) (hits id p free hit refl)
        ])
      ]

  Flight-scores :
      (game_map : GameMap m) (projectile : Projectile m) (t : Table (Player m)) {gone : Bool}
      {t' : Table (Player m)}
      → Distinct t
      → HasRoom t
      → Flight game_map projectile t gone t'
      → total kills_of t' + total deaths_of t ≡ total kills_of t + total deaths_of t'
  Flight-scores game_map projectile t d room (blocked stop) = refl
  Flight-scores game_map projectile t d room (hits id p free hit e) =
      let (at_id, is) = find_hit_lem projectile t id p d hit in
      rw e
        (damage_scores projectile.owner_id id p t at_id (is_hit-not-owner projectile id p is) room)
  Flight-scores game_map projectile t d room (flies free nobody) = refl

  -- Where no id stands twice and every score has room for one more, a projectile adds as many kills
  -- as deaths to the scores of all players together, also where its owner has left the game.
  pub check_projectile_collisions_scores :
      (game_map : GameMap m) (projectile : Projectile m) (t t' : Table (Player m)) (gone : Bool)
      → Distinct t
      → HasRoom t
      → check_projectile_collisions game_map projectile t ≡ some (gone, t')
      → total kills_of t' + total deaths_of t ≡ total kills_of t + total deaths_of t'
  check_projectile_collisions_scores game_map projectile t t' gone d room e =
      Flight-scores game_map projectile t d room (
        Ensures-some (λ (gone, t'). Flight game_map projectile t gone t')
          (check_projectile_collisions game_map projectile t) (gone, t')
          (check_projectile_collisions-Flight game_map projectile t) e)
