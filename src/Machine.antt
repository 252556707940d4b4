-- ===== src/Machine.antt =====
-- What the C++ compiler and its mathematics library supply to the code in Host/: the types `double`
-- and `float` with their operations, their bytes in memory, and the sizes of the structures that
-- the code multiplies by. None of it is in the repository, so it is a parameter of the model.
pub mod Whole
use pr_shooter.Prelude.{ℕ, ◌≡◌, ◌≤◌, Bool, List, length}

pub record Machine : Type 1 where
  pub Double : Type 0
  pub Single : Type 0
  pub add : Double → Double → Double
  pub sub : Double → Double → Double
  pub mul : Double → Double → Double
  pub div : Double → Double → Double
  pub neg : Double → Double
  pub sqrt : Double → Double
  pub lt : Double → Double → Bool
  pub le : Double → Double → Bool
  -- the constant `n / 10^k`, as a `double`
  pub literal : ℕ → ℕ → Double
  -- `std::numeric_limits<double>::max()` and `::min()`
  pub max_double : Double
  pub min_double : Double
  -- `static_cast<int>(x)`, as a `double` again
  pub trunc : Double → Double
  -- `cos` and `sin` of a `float`
  pub cos : Single → Double
  pub sin : Single → Double
  pub single_zero : Single
  -- the bytes of a value in memory, and the value that bytes in memory stand for
  pub double_bytes : Double → List ℕ
  pub double_of : List ℕ → Double
  pub single_bytes : Single → List ℕ
  pub single_of : List ℕ → Single
  -- `sizeof(Player)` and so on
  pub sizeof_player : ℕ
  pub sizeof_projectile : ℕ
  pub sizeof_rectangle : ℕ
  pub sizeof_circle : ℕ
  pub sizeof_point : ℕ

-- A value read back from its own bytes is the value; a `double` has 8 bytes, a `float` 4.
pub record HasBytes (m : Machine) : Type 0 where
  pub length-double_bytes : (x : m.Double) → length (m.double_bytes x) ≡ 8
  pub double_of-double_bytes : (x : m.Double) → m.double_of (m.double_bytes x) ≡ x
  pub length-single_bytes : (x : m.Single) → length (m.single_bytes x) ≡ 4
  pub single_of-single_bytes : (x : m.Single) → m.single_of (m.single_bytes x) ≡ x

-- A structure is at least as large as its members together: a point has two doubles, a circle a
-- point and a double, a rectangle four points; a player is a circle with 34 bytes of members, a
-- projectile a circle with 24.
pub record HasSizes (m : Machine) : Type 0 where
  pub point_size : 16 ≤ m.sizeof_point
  pub circle_size : 24 ≤ m.sizeof_circle
  pub rectangle_size : 64 ≤ m.sizeof_rectangle
  pub player_size : 58 ≤ m.sizeof_player
  pub projectile_size : 48 ≤ m.sizeof_projectile

-- What IEEE 754 arithmetic keeps of the laws of a ring, up to the payload of a NaN, which no
-- comparison sees: sums commute, and a difference and its reverse have the same square.
pub record IsCommutative (m : Machine) : Type 0 where
  pub add_comm : (x y : m.Double) → m.add x y ≡ m.add y x
  pub square-sub_comm :
      (x y : m.Double) → m.mul (m.sub x y) (m.sub x y) ≡ m.mul (m.sub y x) (m.sub y x)
