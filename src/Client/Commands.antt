-- ===== src/Client/Commands.antt =====
-- `send_message` of Client/client.py, with `DataType` and `directionToVelocity` of
-- Client/game_objects.py: what the client sends to the game. A number of Python that is packed as
-- a `float` is a `Single` here.
pub mod Handled
pub mod Stream
use pr_shooter.Prelude.{
  ℕ, ◌+◌, ◌^◌, Bool, true, false, Option, none, some, List, [], ◌∷◌, ◌++◌, ltb, if◌then◌else◌,
}
use pr_shooter.Machine.{Machine}
use pr_shooter.Geometry.{Point, point}
use pr_shooter.Wire.{Bytes, u16, ◌>>=◌}

-- `DataType`, what goes out
pub data DataType : Type 0 where
  spawn shoot change_orientation change_movement_direction ping : DataType

abbrev pub number : DataType → ℕ
number spawn = 10
number shoot = 11
number change_orientation = 12
number change_movement_direction = 13
number ping = 14

-- `Direction`: the keys that are held
pub record Direction : Type 0 where
  pub left : Bool
  pub up : Bool
  pub right : Bool
  pub down : Bool

-- the fields of `Game` that `send_message` uses; `last_ping` without its time
pub record Sender (m : Machine) : Type 0 where
  pub connected : Bool
  pub angle : m.Single
  pub direction : Direction
  pub last_ping : ℕ

module _ (m : Machine) where
  open m use {Double, literal, neg, sqrt, div}

  abbrev one : Double
  one = literal 1 0

  -- `math.sqrt(2)/2`
  abbrev half_root : Double
  half_root = div (sqrt (literal 2 0)) (literal 2 0)

  -- `-math.sqrt(2)/2`
  abbrev minus_half_root : Double
  minus_half_root = div (neg (sqrt (literal 2 0))) (literal 2 0)

  velocity_of : (left up right down : Bool) → Point m
  velocity_of false false false false = point (literal 0 0) (literal 0 0)
  velocity_of false true false false = point (literal 0 0) (neg one)
  velocity_of true false false false = point (neg one) (literal 0 0)
  velocity_of false false true false = point one (literal 0 0)
  velocity_of false false false true = point (literal 0 0) one
  velocity_of true true false false = point minus_half_root minus_half_root
  velocity_of false true true false = point half_root minus_half_root
  velocity_of false false true true = point half_root half_root
  velocity_of true false false true = point minus_half_root half_root
  velocity_of true false true false = point (literal 0 0) (literal 0 0)
  velocity_of false true false true = point (literal 0 0) (literal 0 0)
  velocity_of true true true false = point (literal 0 0) (neg one)
  velocity_of true false true true = point (literal 0 0) one
  velocity_of false true true true = point one (literal 0 0)
  velocity_of true true false true = point (neg one) (literal 0 0)
  velocity_of true true true true = point (literal 0 0) (literal 0 0)

  -- `directionToVelocity`
  unfoldable pub direction_to_velocity : Direction → Point m
  unfolding velocity_of
  direction_to_velocity d = velocity_of d.left d.up d.right d.down

module _ {m : Machine} where
  open m use {double_bytes, single_bytes}

  -- the branches of `send_message`; `to_bytes` raises an exception for a number that does not fit
  unfoldable pub send_typed : DataType → Sender m → Option (Bytes × Sender m)
  unfolding direction_to_velocity
  send_typed spawn c = some (1 ∷ 0 ∷ 0 ∷ 0 ∷ number spawn ∷ [], c)
  send_typed shoot c = some (1 ∷ 0 ∷ 0 ∷ 0 ∷ number shoot ∷ [], c)
  send_typed change_orientation c =
      some ((5 ∷ 0 ∷ 0 ∷ 0 ∷ number change_orientation ∷ []) ++ single_bytes c.angle, c)
  send_typed change_movement_direction c = some (
    (17 ∷ 0 ∷ 0 ∷ 0 ∷ number change_movement_direction ∷ [])
        ++ double_bytes (direction_to_velocity m c.direction).x
        ++ double_bytes (direction_to_velocity m c.direction).y,
    c,
  )
  send_typed ping c =
      if ltb (c.last_ping + 1) (2 ^ 16)
      then some (
        (3 ∷ 0 ∷ 0 ∷ 0 ∷ number ping ∷ []) ++ u16 (c.last_ping + 1),
        record c { last_ping = c.last_ping + 1 },
      )
      else none

  -- `send_message`: the bytes that go out, and the client; `none` is the exception.
  unfoldable pub send_message : DataType → Sender m → Option (Bytes × Sender m)
  unfolding send_typed
  send_message data_type c = if c.connected then send_typed data_type c else some ([], c)
