-- ===== src/Game/Physics/Validity.antt =====
-- Moving a player keeps him valid.
use pr_shooter.Prelude.{List, [], ◌∷◌, inl, inr, Bool-cases, Option-cases}
use pr_shooter.Machine.{Machine}
use pr_shooter.Geometry.{Point, Circle, Rectangle}
use pr_shooter.Geometry.Collisions.{circles_collide, rectangle_collides, segment_collides}
use pr_shooter.Wire.{◌>>=◌}
use package.pr_shooter.Game.{GameMap, Player, move_player}
use package.pr_shooter.Game.Handlers.Invariant.{IsValidPlayer}
use package.pr_shooter.Game.Physics.{
  part_players, push_off, leave_rectangle, each, meet_wall, meet_obstacle, meet_edge,
}
use package.pr_shooter.Game.Messages.Cases.{Ensures}
use package.pr_shooter.Game.Hits.{meet_map, border_edges}

module _ {m : Machine} where
  pub move_player-IsValidPlayer :
      (p : Player m) (c : Point m) → IsValidPlayer p → IsValidPlayer (move_player p c)
  unfolding move_player
  move_player-IsValidPlayer p c v = record {
    healthy = v.healthy;
    health_le = v.health_le;
    slow = v.slow;
    kills_lt = v.kills_lt;
    deaths_lt = v.deaths_lt;
  }

  pub part_players-IsValidPlayer :
      (p q : Player m)
      → IsValidPlayer p
      → IsValidPlayer q
      → IsValidPlayer (part_players p q).0 × IsValidPlayer (part_players p q).1
  unfolding part_players
  part_players-IsValidPlayer p q v w =
      (move_player-IsValidPlayer p _ v, move_player-IsValidPlayer q _ w)

  push_off-IsValidPlayer :
      (a b c d : Point m) (p : Player m) → IsValidPlayer p → IsValidPlayer (push_off a b c d p)
  unfolding push_off
  push_off-IsValidPlayer a b c d p v = elim (Bool-cases (segment_collides p.circle a b)) [
    | inl e ↦ rw e (move_player-IsValidPlayer p _ v)
    | inr e ↦ rw e v
  ]

  leave_rectangle-IsValidPlayer :
      (r : Rectangle m) (p : Player m) → IsValidPlayer p → IsValidPlayer (leave_rectangle r p)
  unfolding leave_rectangle
  leave_rectangle-IsValidPlayer r p v = push_off-IsValidPlayer _ _ _ _ _ (
      push_off-IsValidPlayer _ _ _ _ _
        (push_off-IsValidPlayer _ _ _ _ _ (push_off-IsValidPlayer _ _ _ _ p v)))

  meet_wall-IsValidPlayer :
      (r : Rectangle m) (p : Player m) → IsValidPlayer p → IsValidPlayer (meet_wall r p)
  unfolding meet_wall
  meet_wall-IsValidPlayer r p v = elim (Bool-cases (rectangle_collides p.circle r)) [
    | inl e ↦ rw e (leave_rectangle-IsValidPlayer r p v)
    | inr e ↦ rw e v
  ]

  meet_obstacle-IsValidPlayer :
      (c : Circle m) (p : Player m) → IsValidPlayer p → IsValidPlayer (meet_obstacle c p)
  unfolding meet_obstacle
  meet_obstacle-IsValidPlayer c p v = elim (Bool-cases (circles_collide p.circle c)) [
    | inl e ↦ rw e (move_player-IsValidPlayer p _ v)
    | inr e ↦ rw e v
  ]

  meet_edge-IsValidPlayer :
      (e : Point m × Point m) (p : Player m) → IsValidPlayer p → IsValidPlayer (meet_edge e p)
  unfolding meet_edge
  meet_edge-IsValidPlayer (a, b) p v = push_off-IsValidPlayer a b a b p v

  each-IsValidPlayer :
      {A : Type 0} (body : A → Player m → Player m)
      → ((x : A) (p : Player m) → IsValidPlayer p → IsValidPlayer (body x p))
      → (xs : List A) (p : Player m) → IsValidPlayer p
      → IsValidPlayer (each body xs p)
  unfolding each
  each-IsValidPlayer body keep [] p v = v
  each-IsValidPlayer body keep (x ∷ xs) p v =
      each-IsValidPlayer body keep xs (body x p) (keep x p v)

  pub meet_map-IsValidPlayer :
      (game_map : GameMap m) (p : Player m)
      → IsValidPlayer p
      → Ensures IsValidPlayer (meet_map game_map p)
  unfolding meet_map
  meet_map-IsValidPlayer game_map p v = elim (Option-cases (border_edges game_map.borders)) [
    | inl e ↦ rw (e, ◌>>=◌) tt
    | inr (edges, e) ↦
        rw (e, ◌>>=◌)
          (each-IsValidPlayer meet_edge meet_edge-IsValidPlayer edges _ (
            each-IsValidPlayer meet_obstacle meet_obstacle-IsValidPlayer game_map.obstacles _
              (each-IsValidPlayer meet_wall meet_wall-IsValidPlayer game_map.walls p v)))
  ]
