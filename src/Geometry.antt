-- ===== src/Geometry.antt =====
-- Host/basic_structs.hpp and basic_structs.cpp: points, circles and rectangles.
pub mod Collisions
pub mod Laws
use pr_shooter.Prelude.{ℕ}
use pr_shooter.Machine.{Machine}

pub record Point (m : Machine) : Type 0 where
  pub x : m.Double
  pub y : m.Double

pub record Rectangle (m : Machine) : Type 0 where
  pub p0 : Point m
  pub p1 : Point m
  pub p2 : Point m
  pub p3 : Point m

pub record Circle (m : Machine) : Type 0 where
  pub centre : Point m
  pub r : m.Double

-- Host/collisions.cpp, `square`
unfoldable pub square : (m : Machine) → m.Double → m.Double
square m x = m.mul x x

module _ {m : Machine} where
  open m use {Double, add, sub, mul, div, sqrt}

  abbrev pub point : Double → Double → Point m
  point x y = record { x = x; y = y }

  -- `Point::length`
  unfoldable pub norm : Point m → Double
  unfolding square
  norm p = sqrt (add (square m p.x) (square m p.y))

  -- `operator*` and `operator*=`
  unfoldable pub scale : Point m → Double → Point m
  scale p k = point (mul p.x k) (mul p.y k)

  -- `operator/=`
  unfoldable pub shrink : Point m → Double → Point m
  shrink p k = point (div p.x k) (div p.y k)

  -- `operator+` and `operator+=`
  unfoldable pub plus : Point m → Point m → Point m
  plus p q = point (add p.x q.x) (add p.y q.y)

  -- `operator-`
  unfoldable pub minus : Point m → Point m → Point m
  minus p q = point (sub p.x q.x) (sub p.y q.y)
