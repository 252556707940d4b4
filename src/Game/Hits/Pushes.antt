-- ===== src/Game/Hits/Pushes.antt =====
-- What the collisions of players with each other and with the map change.
use pr_shooter.Prelude.{
  ℕ, ◌≡◌, refl, Option, none, some, List, [], ◌∷◌, arith, ◌==◌, inl, inr, Bool-cases, Option-cases,
}
use pr_shooter.Table.{Table, lookup, get, insert, keys}
use pr_shooter.Table.Laws.{lookup-insert}
use pr_shooter.Machine.{Machine}
use pr_shooter.Geometry.{Point, Circle, Rectangle}
use pr_shooter.Geometry.Collisions.{circles_collide, rectangle_collides, segment_collides}
use pr_shooter.Wire.{◌>>=◌}
use package.pr_shooter.Game.{GameMap, Player, default_player, move_player}
use package.pr_shooter.Game.Physics.{
  part_players, push_off, leave_rectangle, each, meet_wall, meet_obstacle, meet_edge,
}
use package.pr_shooter.Game.Messages.Cases.{Ensures, Ensures-some, Ensures->>=_of}
use package.pr_shooter.Game.Hits.{
  meet_player, meet_players, meet_map, check_player, check_players, border_edges,
}

module _ {m : Machine} where
  -- `q` is `p` at some place, and otherwise as he was.
  abbrev pub IsMoved : Player m → Player m → Type 0
  IsMoved p q = (centre : Point m) × (q ≡ move_player p centre)

  IsMoved-refl : (p : Player m) → IsMoved p p
  unfolding move_player
  IsMoved-refl p = (p.centre, refl)

  IsMoved-trans : (p q r : Player m) → IsMoved p q → IsMoved q r → IsMoved p r
  unfolding move_player
  IsMoved-trans p q r (c, e) (d, e') = (d, rw e at e')

  push_off-IsMoved : (a b c d : Point m) (p : Player m) → IsMoved p (push_off a b c d p)
  unfolding push_off
  push_off-IsMoved a b c d p = elim (Bool-cases (segment_collides p.circle a b)) [
    | inl e ↦ rw e (_, refl)
    | inr e ↦ rw e (IsMoved-refl p)
  ]

  leave_rectangle-IsMoved : (r : Rectangle m) (p : Player m) → IsMoved p (leave_rectangle r p)
  unfolding leave_rectangle
  leave_rectangle-IsMoved r p =
      IsMoved-trans p _ _
        (IsMoved-trans p _ _
          (IsMoved-trans p _ _ (push_off-IsMoved _ _ _ _ p) (push_off-IsMoved _ _ _ _ _))
          (push_off-IsMoved _ _ _ _ _))
        (push_off-IsMoved _ _ _ _ _)

  meet_wall-IsMoved : (r : Rectangle m) (p : Player m) → IsMoved p (meet_wall r p)
  unfolding meet_wall
  meet_wall-IsMoved r p = elim (Bool-cases (rectangle_collides p.circle r)) [
    | inl e ↦ rw e (leave_rectangle-IsMoved r p)
    | inr e ↦ rw e (IsMoved-refl p)
  ]

  meet_obstacle-IsMoved : (c : Circle m) (p : Player m) → IsMoved p (meet_obstacle c p)
  unfolding meet_obstacle
  meet_obstacle-IsMoved c p = elim (Bool-cases (circles_collide p.circle c)) [
    | inl e ↦ rw e (_, refl)
    | inr e ↦ rw e (IsMoved-refl p)
  ]

  meet_edge-IsMoved : (e : Point m × Point m) (p : Player m) → IsMoved p (meet_edge e p)
  unfolding meet_edge
  meet_edge-IsMoved (a, b) p = push_off-IsMoved a b a b p

  each-IsMoved :
      {A : Type 0} (body : A → Player m → Player m)
      → ((x : A) (p : Player m) → IsMoved p (body x p))
      → (xs : List A) (p : Player m) → IsMoved p (each body xs p)
  unfolding each
  each-IsMoved body keep [] p = IsMoved-refl p
  each-IsMoved body keep (x ∷ xs) p =
      IsMoved-trans p (body x p) _ (keep x p) (each-IsMoved body keep xs (body x p))

  meet_map-IsMoved :
      (game_map : GameMap m) (p : Player m) → Ensures (IsMoved p) (meet_map game_map p)
  unfolding meet_map
  meet_map-IsMoved game_map p = elim (Option-cases (border_edges game_map.borders)) [
    | inl e ↦ rw (e, ◌>>=◌) tt
    | inr (edges, e) ↦
        rw (e, ◌>>=◌)
          (IsMoved-trans p _ _
            (IsMoved-trans p _ _ (each-IsMoved meet_wall meet_wall-IsMoved game_map.walls p)
              (each-IsMoved meet_obstacle meet_obstacle-IsMoved game_map.obstacles _))
            (each-IsMoved meet_edge meet_edge-IsMoved edges _))
  ]

  -- An entry that is there stays there, its player moved; one that is not stays away.
  abbrev pub MovedTo : Option (Player m) → Option (Player m) → Type 0
  MovedTo none none = Unit {0}
  MovedTo (some p) (some q) = IsMoved p q
  MovedTo none (some q) = ⊥
  MovedTo (some p) none = ⊥

  abbrev pub OnlyMoved : Table (Player m) → Table (Player m) → Type 0
  OnlyMoved t t' = (j : ℕ) → MovedTo (lookup j t) (lookup j t')

  MovedTo-refl : (o : Option (Player m)) → MovedTo o o
  MovedTo-refl none = tt
  MovedTo-refl (some p) = IsMoved-refl p

  MovedTo-trans : (o o' o'' : Option (Player m)) → MovedTo o o' → MovedTo o' o'' → MovedTo o o''
  MovedTo-trans none none none a b = tt
  MovedTo-trans (some p) (some q) (some r) a b = IsMoved-trans p q r a b
  MovedTo-trans none none (some r) a b = absurd b
  MovedTo-trans none (some q) o a b = absurd a
  MovedTo-trans (some p) none o a b = absurd a
  MovedTo-trans (some p) (some q) none a b = absurd b

  OnlyMoved-refl : (t : Table (Player m)) → OnlyMoved t t
  OnlyMoved-refl t j = MovedTo-refl (lookup j t)

  OnlyMoved-trans :
      (t t' t'' : Table (Player m)) → OnlyMoved t t' → OnlyMoved t' t'' → OnlyMoved t t''
  OnlyMoved-trans t t' t'' a b j =
      MovedTo-trans (lookup j t) (lookup j t') (lookup j t'') (a j) (b j)

  OnlyMoved-insert :
      (k : ℕ) (p q : Player m) (t : Table (Player m))
      → lookup k t ≡ some p
      → IsMoved p q
      → OnlyMoved t (insert k q t)
  OnlyMoved-insert k p q t at_k moved j = elim (Bool-cases (k == j)) [
    | inl hit ↦
        let same : k ≡ j = ground arith in rw (lookup-insert k j q t, hit, ← same, at_k) moved
    | inr miss ↦ rw (lookup-insert k j q t, miss) (MovedTo-refl (lookup j t))
  ]

  Known : ℕ → Table (Player m) → Type 0
  Known k t = (p : Player m) × (lookup k t ≡ some p)

  AllKnown : List ℕ → Table (Player m) → Type 0
  AllKnown [] t = Unit {0}
  AllKnown (k ∷ ks) t = Known k t × AllKnown ks t

  MovedTo-some :
      (o o' : Option (Player m)) (p : Player m)
      → MovedTo o o'
      → o ≡ some p
      → (q : Player m) × (o' ≡ some q)
  MovedTo-some none o' p a e = absurd (cc)
  MovedTo-some (some p') none p a e = absurd a
  MovedTo-some (some p') (some q) p a e = (q, refl)

  Known-OnlyMoved : (k : ℕ) (t t' : Table (Player m)) → OnlyMoved t t' → Known k t → Known k t'
  unfolding Known
  Known-OnlyMoved k t t' moved (p, e) = MovedTo-some (lookup k t) (lookup k t') p (moved k) e

  AllKnown-OnlyMoved :
      (ks : List ℕ) (t t' : Table (Player m)) → OnlyMoved t t' → AllKnown ks t → AllKnown ks t'
  unfolding AllKnown
  AllKnown-OnlyMoved [] t t' moved known = tt
  AllKnown-OnlyMoved (k ∷ ks) t t' moved known =
      (Known-OnlyMoved k t t' moved known.0, AllKnown-OnlyMoved ks t t' moved known.1)

  Known-cons : (k j : ℕ) (v : Player m) (t : Table (Player m)) → Known k t → Known k ((j, v) ∷ t)
  unfolding lookup Known
  Known-cons k j v t (p, e) = elim (Bool-cases (j == k)) [
    | inl hit ↦ (v, rw hit refl)
    | inr miss ↦ (p, rw miss e)
  ]

  AllKnown-cons :
      (ks : List ℕ) (j : ℕ) (v : Player m) (t : Table (Player m))
      → AllKnown ks t
      → AllKnown ks ((j, v) ∷ t)
  unfolding AllKnown
  AllKnown-cons [] j v t known = tt
  AllKnown-cons (k ∷ ks) j v t known = (Known-cons k j v t known.0, AllKnown-cons ks j v t known.1)

  keys-AllKnown : (t : Table (Player m)) → AllKnown (keys t) t
  unfolding keys AllKnown Known lookup
  keys-AllKnown [] = tt
  keys-AllKnown ((k, v) ∷ t) = ((v, ground arith), AllKnown-cons (keys t) k v t (keys-AllKnown t))

  meet_player-OnlyMoved :
      (id second : ℕ) (t : Table (Player m))
      → Known id t
      → Known second t
      → OnlyMoved t (meet_player id second t)
  unfolding meet_player Known part_players
  meet_player-OnlyMoved id second t (p, at_id) (q, at_second) = elim (Bool-cases (id == second)) [
    | inl same ↦ rw same (OnlyMoved-refl t)
    | inr other ↦
        let there : lookup second (insert id p' t) ≡ some q =
          rw (lookup-insert id second p' t, other) at_second in
        rw (other, at_id, at_second)
          (elim (Bool-cases (circles_collide p.circle q.circle)) [
            | inl hit ↦ rw hit (
                OnlyMoved-trans t (insert id p' t) _ (OnlyMoved-insert id p p' t at_id (_, refl))
                  (OnlyMoved-insert second q q' (insert id p' t) there (_, refl)))
            | inr miss ↦ rw miss (OnlyMoved-refl t)
          ])
  ]
    where
      p' : Player m
      p' = (part_players p q).0

      q' : Player m
      q' = (part_players p q).1

  meet_players-OnlyMoved :
      (id : ℕ) (others : List ℕ) (t : Table (Player m))
      → Known id t
      → AllKnown others t
      → OnlyMoved t (meet_players id others t)
  unfolding meet_players AllKnown
  meet_players-OnlyMoved id [] t known all = OnlyMoved-refl t
  meet_players-OnlyMoved id (second ∷ others) t known all =
      let step = meet_player-OnlyMoved id second t known all.0 in
      OnlyMoved-trans t (meet_player id second t) _ step (
        meet_players-OnlyMoved id others (meet_player id second t)
          (Known-OnlyMoved id t _ step known) (AllKnown-OnlyMoved others t _ step all.1))

  check_player-OnlyMoved :
      (game_map : GameMap m) (id : ℕ) (t : Table (Player m))
      → Known id t
      → Ensures (OnlyMoved t) (check_player game_map id t)
  unfolding check_player Known
  check_player-OnlyMoved game_map id t known =
      elim (Bool-cases (get (default_player m) id t).alive) [
        | inl alive ↦
            rw (alive, there.1)
              (Ensures->>=_of (IsMoved there.0) (OnlyMoved t) (meet_map game_map there.0) _
                (meet_map-IsMoved game_map there.0)
                (λ p w.
                  OnlyMoved-trans t moved _ step (OnlyMoved-insert id there.0 p moved there.1 w)))
        | inr dead ↦ rw dead (OnlyMoved-refl t)
      ]
    where
      moved : Table (Player m)
      moved = meet_players id (keys t) t

      step : OnlyMoved t moved
      step = meet_players-OnlyMoved id (keys t) t known (keys-AllKnown t)

      there : Known id moved
      there = Known-OnlyMoved id t moved step known

  check_players-Ensures :
      (game_map : GameMap m) (ids : List ℕ) (t : Table (Player m))
      → AllKnown ids t
      → Ensures (OnlyMoved t) (check_players game_map ids t)
  unfolding check_players AllKnown
  check_players-Ensures game_map [] t known = OnlyMoved-refl t
  check_players-Ensures game_map (id ∷ ids) t known =
      Ensures->>=_of (OnlyMoved t) (OnlyMoved t) (check_player game_map id t) _
        (check_player-OnlyMoved game_map id t known.0)
        (λ t' step.
          Ensures->>=_map t t' step (check_players game_map ids t')
            (check_players-Ensures game_map ids t' (AllKnown-OnlyMoved ids t t' step known.1)))
    where
      Ensures->>=_map :
          (t t' : Table (Player m))
          → OnlyMoved t t'
          → (o : Option (Table (Player m))) → Ensures (OnlyMoved t') o
          → Ensures (OnlyMoved t) o
      Ensures->>=_map t t' step none h = tt
      Ensures->>=_map t t' step (some t'') h = OnlyMoved-trans t t' t'' step h

  -- The collisions of the players with each other and with the map only move players: the table
  -- has the same ids before and after, and every player has the radius, id, health, speed, aim and
  -- scores that he had, and is alive exactly if he was.
  pub check_players-OnlyMoved :
      (game_map : GameMap m) (t t' : Table (Player m))
      → check_players game_map (keys t) t ≡ some t'
      → OnlyMoved t t'
  check_players-OnlyMoved game_map t t' e =
      Ensures-some (OnlyMoved t) (check_players game_map (keys t) t) t'
        (check_players-Ensures game_map (keys t) t (keys-AllKnown t)) e
