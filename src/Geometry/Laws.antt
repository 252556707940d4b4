-- ===== src/Geometry/Laws.antt =====
-- Properties of the collision tests of Host/collisions.cpp.
use pr_shooter.Prelude.{◌≡◌}
use pr_shooter.Machine.{Machine, IsCommutative}
use package.pr_shooter.Geometry.{Point, Circle, square}
use package.pr_shooter.Geometry.Collisions.{distance, circles_collide}

module _ {m : Machine} (laws : IsCommutative m) where
  -- The distance from `a` to `b` is the distance from `b` to `a`.
  pub distance_comm : (a b : Point m) → distance a b ≡ distance b a
  unfolding distance square
  distance_comm a b = cc (laws.square-sub_comm b.x a.x, laws.square-sub_comm b.y a.y)

  -- Where sums commute and a difference has the same square as its reverse, two circles collide
  -- whichever of them is asked.
  pub circles_collide_comm : (c d : Circle m) → circles_collide c d ≡ circles_collide d c
  unfolding circles_collide square
  circles_collide_comm c d = cc (
    laws.square-sub_comm c.centre.x d.centre.x,
    laws.square-sub_comm c.centre.y d.centre.y,
    laws.add_comm c.r d.r,
  )
