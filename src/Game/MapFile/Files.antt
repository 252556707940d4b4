-- ===== src/Game/MapFile/Files.antt =====
-- Writing a map to a file, as the comments in Maps/map1 describe the lines, and reading it back.
use mathlib.Core.List.{append_assoc, append-nil}
use pr_shooter.Prelude.{ℕ, ◌≡◌, refl, sym, ap, ◌∙◌, false, Option, some, List, [], ◌∷◌, ◌++◌, ◌==◌}
use pr_shooter.Machine.{Machine}
use pr_shooter.Geometry.{Point, Rectangle, Circle}
use pr_shooter.Wire.{Bytes, ◌>>=◌}
use package.pr_shooter.Game.{GameMap}
use package.pr_shooter.Game.MapFile.{
  comma, in_front, fields, border_mark, wall_mark, obstacle_mark, comment_mark, border_points,
  wall_of, obstacle_of, add_line, with_box, numbers, split_fields, split_map_line, add_lines,
  get_map,
}

-- No character of a text is a comma.
abbrev pub NoComma : Bytes → Type 0
NoComma [] = Unit {0}
NoComma (c ∷ text) = ((c == comma) ≡ false) × NoComma text

-- A way to write a number: a text without a comma, and not empty, that `stod` reads as the number.
pub record Writes (m : Machine) (stod : Bytes → Option m.Double) : Type 0 where
  pub first : m.Double → ℕ
  pub others : m.Double → Bytes
  pub no_comma : (x : m.Double) → NoComma (first x ∷ others x)
  pub stod_eq : (x : m.Double) → stod (first x ∷ others x) ≡ some x

fields-append :
    (c : ℕ) (text rest : Bytes)
    → NoComma (c ∷ text)
    → fields ((c ∷ text) ++ (comma ∷ rest)) ≡ (c ∷ text) ∷ fields rest
unfolding fields
fields-append c [] rest h = rw (h.0) refl
fields-append c (d ∷ text) rest h = rw (h.0) (ap (in_front c) (fields-append d text rest h.1))

fields_self : (c : ℕ) (text : Bytes) → NoComma (c ∷ text) → fields (c ∷ text) ≡ (c ∷ text) ∷ []
unfolding fields
fields_self c [] h = rw (h.0) refl
fields_self c (d ∷ text) h = rw (h.0) (ap (in_front c) (fields_self d text h.1))

module _ {m : Machine} {stod : Bytes → Option m.Double} (w : Writes m stod) where
  abbrev pub text_of : m.Double → Bytes
  text_of x = w.first x ∷ w.others x

  -- numbers with commas between them
  abbrev pub row : List m.Double → Bytes
  row [] = []
  row (x ∷ []) = text_of x
  row (x ∷ y ∷ values) = text_of x ++ (comma ∷ row (y ∷ values))

  numbers-row : (values : List m.Double) → numbers m stod (fields (row values)) ≡ some values
  unfolding numbers fields
  numbers-row [] = refl
  numbers-row (x ∷ []) =
      rw (fields_self (w.first x) (w.others x) (w.no_comma x)) (rw (w.stod_eq x, ◌>>=◌) refl)
  numbers-row (x ∷ y ∷ values) =
      rw (fields-append (w.first x) (w.others x) (row (y ∷ values)) (w.no_comma x))
        (rw (w.stod_eq x, ◌>>=◌) (rw (numbers-row (y ∷ values), ◌>>=◌) refl))

  -- a line: its mark, and its numbers
  abbrev pub line_of : ℕ → List m.Double → Bytes
  line_of mark values = mark ∷ comma ∷ row values

  split_map_line-line_of :
      (mark : ℕ) (values : List m.Double)
      → (mark == comma) ≡ false
      → (mark == comment_mark) ≡ false
      → split_map_line m stod (line_of mark values) ≡ some (mark, values)
  unfolding split_map_line split_fields fields
  split_map_line-line_of mark values no_comma no_comment =
      rw (no_comma, no_comment) (rw (numbers-row values, ◌>>=◌) refl)

  abbrev pub coordinates : List (Point m) → List m.Double
  coordinates [] = []
  coordinates (p ∷ points) = p.x ∷ p.y ∷ coordinates points

  abbrev pub corners : Rectangle m → List m.Double
  corners r = r.p0.x ∷ r.p0.y ∷ r.p1.x ∷ r.p1.y ∷ r.p2.x ∷ r.p2.y ∷ r.p3.x ∷ r.p3.y ∷ []

  abbrev pub disc : Circle m → List m.Double
  disc c = c.centre.x ∷ c.centre.y ∷ c.r ∷ []

  abbrev pub wall_lines : List (Rectangle m) → List Bytes
  wall_lines [] = []
  wall_lines (r ∷ walls) = line_of wall_mark (corners r) ∷ wall_lines walls

  abbrev pub obstacle_lines : List (Circle m) → List Bytes
  obstacle_lines [] = []
  obstacle_lines (c ∷ obstacles) = line_of obstacle_mark (disc c) ∷ obstacle_lines obstacles

  -- the file of a map: its border, its walls, its obstacles
  abbrev pub file_of : List (Point m) → List (Rectangle m) → List (Circle m) → List Bytes
  file_of border walls obstacles =
      line_of border_mark (coordinates border) ∷ (wall_lines walls ++ obstacle_lines obstacles)

  border_points-coordinates :
      (points : List (Point m)) → border_points (coordinates points) ≡ some points
  unfolding border_points
  border_points-coordinates [] = refl
  border_points-coordinates (p ∷ points) = rw (border_points-coordinates points, ◌>>=◌) refl

  -- A line that stands first is added first.
  add_lines-line_of :
      (mark : ℕ) (values : List m.Double) (lines : List Bytes) (world after : GameMap m)
      → (mark == comma) ≡ false
      → (mark == comment_mark) ≡ false
      → add_line (mark, values) world ≡ some after
      → add_lines m stod (line_of mark values ∷ lines) world ≡ add_lines m stod lines after
  unfolding add_lines
  add_lines-line_of mark values lines world after no_comma no_comment added =
      rw (split_map_line-line_of mark values no_comma no_comment, ◌>>=◌) (rw (added, ◌>>=◌) refl)

  add_line-border :
      (border : List (Point m)) (world : GameMap m)
      → add_line (border_mark, coordinates border) world
        ≡ some (record world { borders = world.borders ++ border })
  unfolding add_line
  add_line-border border world = rw (border_points-coordinates border, ◌>>=◌) refl

  add_line-wall :
      (r : Rectangle m) (world : GameMap m)
      → add_line (wall_mark, corners r) world
        ≡ some (record world { walls = world.walls ++ (r ∷ []) })
  unfolding add_line wall_of
  add_line-wall r world = refl

  add_line-obstacle :
      (c : Circle m) (world : GameMap m)
      → add_line (obstacle_mark, disc c) world
        ≡ some (record world { obstacles = world.obstacles ++ (c ∷ []) })
  unfolding add_line obstacle_of
  add_line-obstacle c world = refl

  add_lines-obstacle_lines :
      (obstacles : List (Circle m)) (world : GameMap m)
      → add_lines m stod (obstacle_lines obstacles) world
        ≡ some (record world { obstacles = world.obstacles ++ obstacles })
  unfolding add_lines
  add_lines-obstacle_lines [] world =
      ap (λ os. some (record world { obstacles = os })) (sym (append-nil world.obstacles))
  add_lines-obstacle_lines (c ∷ obstacles) world =
      let after = record world { obstacles = world.obstacles ++ (c ∷ []) } in
      add_lines-line_of obstacle_mark (disc c) (obstacle_lines obstacles) world after refl refl
        (add_line-obstacle c world)
      ∙ add_lines-obstacle_lines obstacles after
      ∙ ap (λ os. some (record world { obstacles = os }))
          (append_assoc world.obstacles (c ∷ []) obstacles)

  add_lines-wall_lines :
      (walls : List (Rectangle m)) (lines : List Bytes) (world : GameMap m)
      → add_lines m stod (wall_lines walls ++ lines) world
        ≡ add_lines m stod lines (record world { walls = world.walls ++ walls })
  add_lines-wall_lines [] lines world =
      ap (λ ws. add_lines m stod lines (record world { walls = ws })) (sym (append-nil world.walls))
  add_lines-wall_lines (r ∷ walls) lines world =
      let after = record world { walls = world.walls ++ (r ∷ []) } in
      add_lines-line_of wall_mark (corners r) (wall_lines walls ++ lines) world after refl refl
        (add_line-wall r world)
      ∙ add_lines-wall_lines walls lines after
      ∙ ap (λ ws. add_lines m stod lines (record world { walls = ws }))
          (append_assoc world.walls (r ∷ []) walls)

  -- If numbers can be written without commas so that `stod` reads them back, then the file that has
  -- a line for the border, one for each wall and one for each obstacle is read without a fault, and
  -- they come behind those that the map had, in order; then the box is set.
  pub get_map-file_of :
      (border : List (Point m)) (walls : List (Rectangle m)) (obstacles : List (Circle m))
      (world : GameMap m)
      → get_map m stod (some (file_of border walls obstacles)) world
        ≡ some (
            with_box (record world {
              borders = world.borders ++ border;
              walls = world.walls ++ walls;
              obstacles = world.obstacles ++ obstacles;
            }))
  unfolding get_map
  get_map-file_of border walls obstacles world =
      let bordered = record world { borders = world.borders ++ border } in
      let walled = record bordered { walls = world.walls ++ walls } in
      ap (λ o. o >>= λ read. some (with_box read))
        (add_lines-line_of border_mark (coordinates border)
            (wall_lines walls ++ obstacle_lines obstacles) world bordered refl refl
            (add_line-border border world)
          ∙ add_lines-wall_lines walls (obstacle_lines obstacles) bordered
          ∙ add_lines-obstacle_lines obstacles walled)
