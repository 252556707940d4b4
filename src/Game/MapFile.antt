-- ===== src/Game/MapFile.antt =====
-- `splitMapLine` and `Game::getMap` of Host/game.cpp: the map that a file describes. A line is the
-- codes of its characters; `std::stod`, which throws where a text is no number, is a parameter.
-- `none` is an exception, or a read behind the end of the numbers of a line.
pub mod Files
pub mod Box
use pr_shooter.Prelude.{ℕ, Option, none, some, List, [], ◌∷◌, ◌++◌, ◌==◌, if◌then◌else◌}
use pr_shooter.Machine.{Machine}
use pr_shooter.Geometry.{Point, point, Rectangle, Circle}
use pr_shooter.Wire.{Bytes, ◌>>=◌}
use package.pr_shooter.Game.{GameMap}

abbrev pub comma : ℕ
comma = 44

-- the characters that a line starts with: `#`, `B`, `W` and `O`
abbrev pub comment_mark : ℕ
comment_mark = 35

abbrev pub border_mark : ℕ
border_mark = 66

abbrev pub wall_mark : ℕ
wall_mark = 87

abbrev pub obstacle_mark : ℕ
obstacle_mark = 79

-- Puts a character in front of the first field.
abbrev pub in_front : ℕ → List Bytes → List Bytes
in_front c [] = (c ∷ []) ∷ []
in_front c (field ∷ fields) = (c ∷ field) ∷ fields

-- What `std::getline(stream, value, ',')` gives, call after call, until it fails: it fails where
-- there is nothing left, so that a comma at the end of a line adds no empty field.
unfoldable pub fields : Bytes → List Bytes
fields [] = []
fields (c ∷ line) = let rest = fields line in if c == comma then [] ∷ rest else in_front c rest

-- `type[0]`, which is 0 for an empty string
abbrev pub first_char : Bytes → ℕ
first_char [] = 0
first_char (c ∷ _) = c

-- `numeric_limits` aside, `std::min(a, b)` and `std::max(a, b)`
unfoldable pub std_min : (m : Machine) → m.Double → m.Double → m.Double
std_min m a b = if m.lt b a then b else a

unfoldable pub std_max : (m : Machine) → m.Double → m.Double → m.Double
std_max m a b = if m.lt a b then b else a

-- the four bounds of the loop over the borders
pub record Bounds (m : Machine) : Type 0 where
  pub min_x : m.Double
  pub min_y : m.Double
  pub max_x : m.Double
  pub max_y : m.Double

module _ {m : Machine} where
  -- `for(size_t i = 0; i < values.size(); i += 2)` of a border line
  unfoldable pub border_points : List m.Double → Option (List (Point m))
  border_points [] = some []
  border_points (x ∷ []) = none
  border_points (x ∷ y ∷ values) = border_points values >>= λ points. some (point x y ∷ points)

  unfoldable pub wall_of : List m.Double → Option (Rectangle m)
  wall_of (x0 ∷ y0 ∷ x1 ∷ y1 ∷ x2 ∷ y2 ∷ x3 ∷ y3 ∷ _) =
      some (record { p0 = point x0 y0; p1 = point x1 y1; p2 = point x2 y2; p3 = point x3 y3 })
  wall_of _ = none

  unfoldable pub obstacle_of : List m.Double → Option (Circle m)
  obstacle_of (x ∷ y ∷ r ∷ _) = some (record { centre = point x y; r = r })
  obstacle_of _ = none

  -- the `switch` of `getMap`
  unfoldable pub add_line : ℕ × List m.Double → GameMap m → Option (GameMap m)
  unfolding border_points wall_of obstacle_of
  add_line (type, values) world =
      if type == border_mark
      then (border_points values >>= λ points.
          some (record world { borders = world.borders ++ points }))
      else if type == wall_mark
      then (wall_of values >>= λ wall. some (record world { walls = world.walls ++ (wall ∷ []) }))
      else if type == obstacle_mark
      then (obstacle_of values >>= λ obstacle.
          some (record world { obstacles = world.obstacles ++ (obstacle ∷ []) }))
      else some world

  -- the loop over the points of the border
  unfoldable pub bounds : List (Point m) → Bounds m → Bounds m
  unfolding std_min std_max
  bounds [] b = b
  bounds (p ∷ points) b = bounds points (record {
    min_x = std_min m b.min_x p.x;
    min_y = std_min m b.min_y p.y;
    max_x = std_max m b.max_x p.x;
    max_y = std_max m b.max_y p.y;
  })

  -- the end of `getMap`
  unfoldable pub with_box : GameMap m → GameMap m
  unfolding bounds
  with_box world =
      let b = bounds world.borders (record {
        min_x = m.max_double;
        min_y = m.max_double;
        max_x = m.min_double;
        max_y = m.min_double;
      }) in
      record world { top_left = point b.min_x b.min_y; bottom_right = point b.max_x b.max_y }

module _ (m : Machine) (stod : Bytes → Option m.Double) where
  -- `while(std::getline(stream, value, ',')) values.push_back(std::stod(value));`
  unfoldable pub numbers : List Bytes → Option (List m.Double)
  numbers [] = some []
  numbers (field ∷ others) = stod field >>= λ x. numbers others >>= λ values. some (x ∷ values)

  -- what `splitMapLine` makes of the fields of a line
  unfoldable pub split_fields : List Bytes → Option (ℕ × List m.Double)
  unfolding numbers
  split_fields [] = some (0, [])
  split_fields (type ∷ others) =
      if first_char type == comment_mark
      then some (comment_mark, [])
      else (numbers others >>= λ values. some (first_char type, values))

  -- `splitMapLine`
  unfoldable pub split_map_line : Bytes → Option (ℕ × List m.Double)
  unfolding split_fields fields
  split_map_line line = split_fields (fields line)

  -- the loop of `getMap` over the lines of the file
  unfoldable pub add_lines : List Bytes → GameMap m → Option (GameMap m)
  unfolding split_map_line add_line
  add_lines [] world = some world
  add_lines (line ∷ lines) world =
      split_map_line line >>= λ split. add_line split world >>= add_lines lines

  -- `Game::getMap`, given the lines of the file, or `none` where neither path can be opened
  unfoldable pub get_map : Option (List Bytes) → GameMap m → Option (GameMap m)
  unfolding add_lines with_box
  get_map none world = some world
  get_map (some lines) world = add_lines lines world >>= λ read. some (with_box read)
