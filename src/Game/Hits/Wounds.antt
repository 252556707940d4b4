-- ===== src/Game/Hits/Wounds.antt =====
-- What projectiles do to the players: nobody is cured, revived, moved or removed.
use mathlib.Core.Option.{some-injective}
use native.Mathlib.Nat.{le_refl, le_trans}
use pr_shooter.Prelude.{
  ℕ, ◌+◌, ◌%◌, ◌^◌, ◌≤◌, ◌≡◌, refl, sym, ◌∙◌, Bool, false, some, List, [], ◌∷◌, arith, ◌==◌, leb,
  inl, inr, Bool-cases,
}
use pr_shooter.Table.{Table, lookup, insert, modify, Distinct}
use pr_shooter.Table.Laws.{lookup-insert, Distinct-insert}
use pr_shooter.Machine.{Machine}
use package.pr_shooter.Game.{GameMap, Player, Projectile, default_player, projectile_damage}
use package.pr_shooter.Game.Messages.Cases.{Ensures, Ensures-some, Ensures->>=_of}
use package.pr_shooter.Game.Hits.{
  damage, bump_kills, check_projectile_collisions, check_projectiles,
}
use package.pr_shooter.Game.Hits.Scores.{
  find_hit_lem, Flight, blocked, hits, flies, check_projectile_collisions-Flight,
}

module _ {m : Machine} where
  -- `q` is what `p` has become without a cure: no more health, not back from the dead, no death
  -- taken back, and the same id, velocity and aim.
  pub record IsHurt (p q : Player m) : Type 0 where
    pub health_le : q.health ≤ p.health
    pub not_revived : p.alive ≡ false → q.alive ≡ false
    pub same_circle : q.circle ≡ p.circle
    pub same_id : q.player_id ≡ p.player_id
    pub same_velocity : q.velocity ≡ p.velocity
    pub same_aim : q.orientation_angle ≡ p.orientation_angle

  -- Everybody in the table stays in it, at most hurt.
  abbrev pub OnlyHurt : Table (Player m) → Table (Player m) → Type 0
  OnlyHurt t t' =
      (j : ℕ) (p : Player m)
      → lookup j t ≡ some p
      → (q : Player m) × (lookup j t' ≡ some q) × IsHurt p q

  IsHurt-refl : (p : Player m) → IsHurt p p
  IsHurt-refl p = record {
    health_le = le_refl p.health;
    not_revived = λ e. e;
    same_circle = refl;
    same_id = refl;
    same_velocity = refl;
    same_aim = refl;
  }

  IsHurt-trans : (p q r : Player m) → IsHurt p q → IsHurt q r → IsHurt p r
  IsHurt-trans p q r a b = record {
    health_le = le_trans b.health_le a.health_le;
    not_revived = λ e. b.not_revived (a.not_revived e);
    same_circle = b.same_circle ∙ a.same_circle;
    same_id = b.same_id ∙ a.same_id;
    same_velocity = b.same_velocity ∙ a.same_velocity;
    same_aim = b.same_aim ∙ a.same_aim;
  }

  OnlyHurt-refl : (t : Table (Player m)) → OnlyHurt t t
  OnlyHurt-refl t j p e = (p, e, IsHurt-refl p)

  OnlyHurt-trans : (t t' t'' : Table (Player m)) → OnlyHurt t t' → OnlyHurt t' t'' → OnlyHurt t t''
  OnlyHurt-trans t t' t'' a b j p e =
      let (q, at_j, hurt) = a j p e in
      let (r, at_j', hurt') = b j q at_j in (r, at_j', IsHurt-trans p q r hurt hurt')

  OnlyHurt-insert :
      (k : ℕ) (v : Player m) (t : Table (Player m))
      → ((p : Player m) → lookup k t ≡ some p → IsHurt p v)
      → OnlyHurt t (insert k v t)
  OnlyHurt-insert k v t h j p e = elim (Bool-cases (k == j)) [
    | inl hit ↦
        let same : k ≡ j = ground arith in
        (v, ground (arith, lookup-insert k j v t), h p (rw same e))
    | inr miss ↦ (p, ground (arith, lookup-insert k j v t), IsHurt-refl p)
  ]

  OnlyHurt-bump :
      (owner : ℕ) (t : Table (Player m)) → OnlyHurt t (modify (default_player m) owner bump_kills t)
  unfolding modify
  OnlyHurt-bump owner t = OnlyHurt-insert owner _ t λ p e. rw e (record {
    health_le = le_refl p.health;
    not_revived = λ e. e;
    same_circle = refl;
    same_id = refl;
    same_velocity = refl;
    same_aim = refl;
  })

  OnlyHurt-damage :
      (owner id : ℕ) (p : Player m) (t : Table (Player m))
      → lookup id t ≡ some p
      → OnlyHurt t (damage owner id p t)
  unfolding damage
  OnlyHurt-damage owner id p t at_id = elim (Bool-cases (leb p.health projectile_damage)) [
    | inl fatal ↦
        let dead = record p { alive = false; deaths = (p.deaths + 1) % 2 ^ 16 } in
        rw fatal (
          OnlyHurt-trans t (insert id dead t) _
            (OnlyHurt-insert id dead t λ q e. rw (some-injective _ _ (sym e ∙ at_id)) (record {
              health_le = le_refl p.health;
              not_revived = λ _. refl;
              same_circle = refl;
              same_id = refl;
              same_velocity = refl;
              same_aim = refl;
            }))
            (OnlyHurt-bump owner (insert id dead t)))
    | inr wounded ↦ rw wounded (
        OnlyHurt-insert id _ t λ q e. rw (some-injective _ _ (sym e ∙ at_id)) (record {
          health_le = omega arith;
          not_revived = λ e. e;
          same_circle = refl;
          same_id = refl;
          same_velocity = refl;
          same_aim = refl;
        }))
  ]

  Distinct-damage :
      (owner id : ℕ) (p : Player m) (t : Table (Player m))
      → Distinct t
      → Distinct (damage owner id p t)
  unfolding damage
  Distinct-damage owner id p t d = elim (Bool-cases (leb p.health projectile_damage)) [
    | inl fatal ↦ rw fatal (Distinct-insert owner _ (insert id _ t) (Distinct-insert id _ t d))
    | inr wounded ↦ rw wounded (Distinct-insert id _ t d)
  ]

  Flight-OnlyHurt :
      (game_map : GameMap m) (projectile : Projectile m) (t : Table (Player m)) {gone : Bool}
      {t' : Table (Player m)}
      → Distinct t
      → Flight game_map projectile t gone t'
      → OnlyHurt t t' × Distinct t'
  Flight-OnlyHurt game_map projectile t d (blocked stop) = (OnlyHurt-refl t, d)
  Flight-OnlyHurt game_map projectile t d (hits id p free hit e) = rw e (
    OnlyHurt-damage projectile.owner_id id p t (find_hit_lem projectile t id p d hit).0,
    Distinct-damage projectile.owner_id id p t d,
  )
  Flight-OnlyHurt game_map projectile t d (flies free nobody) = (OnlyHurt-refl t, d)

  check_projectiles-Ensures :
      (game_map : GameMap m) (projectiles : List (Projectile m)) (t : Table (Player m))
      → Distinct t
      → Ensures (λ (_, t'). OnlyHurt t t') (check_projectiles game_map projectiles t)
  unfolding check_projectiles
  check_projectiles-Ensures game_map [] t d = OnlyHurt-refl t
  check_projectiles-Ensures game_map (projectile ∷ projectiles) t d =
      Ensures->>=_of (λ (gone, t'). Flight game_map projectile t gone t')
        (λ (_, t''). OnlyHurt t t'') (check_projectile_collisions game_map projectile t) _
        (check_projectile_collisions-Flight game_map projectile t)
        (λ (gone, t') flight.
          let (hurt, d') = Flight-OnlyHurt game_map projectile t d flight in
          Ensures->>=_of (λ (_, t''). OnlyHurt t' t'') (λ (_, t''). OnlyHurt t t'')
            (check_projectiles game_map projectiles t') _
            (check_projectiles-Ensures game_map projectiles t' d')
            (λ (kept, t'') hurt'. OnlyHurt-trans t t' t'' hurt hurt'))

  -- Where no id stands twice, the projectiles of a round only hurt: everybody who was in the table
  -- stays in it at the same place with the same id, velocity and aim, with no more health than
  -- before, and whoever was dead stays dead.
  pub check_projectiles-OnlyHurt :
      (game_map : GameMap m) (projectiles kept : List (Projectile m)) (t t' : Table (Player m))
      → Distinct t
      → check_projectiles game_map projectiles t ≡ some (kept, t')
      → OnlyHurt t t'
  check_projectiles-OnlyHurt game_map projectiles kept t t' d e =
      Ensures-some (λ (_, t'). OnlyHurt t t') (check_projectiles game_map projectiles t) (kept, t')
        (check_projectiles-Ensures game_map projectiles t d) e
