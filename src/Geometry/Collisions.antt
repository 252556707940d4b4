-- ===== src/Geometry/Collisions.antt =====
-- Host/collisions.cpp.
use pr_shooter.Prelude.{Bool, true, false, not, ◌&&◌, ◌||◌, if◌then◌else◌}
use pr_shooter.Machine.{Machine}
use package.pr_shooter.Geometry.{Point, point, Rectangle, Circle, square}

module _ {m : Machine} where
  open m use {Double, add, sub, mul, div, sqrt, lt, le, literal}

  unfoldable pub distance : Point m → Point m → Double
  distance a b = sqrt (add (square m (sub b.x a.x)) (square m (sub b.y a.y)))

  -- `checkCollision(Circle, Circle)`
  unfoldable pub circles_collide : Circle m → Circle m → Bool
  circles_collide c1 c2 =
      lt (add (square m (sub c1.centre.x c2.centre.x)) (square m (sub c1.centre.y c2.centre.y)))
        (sub (square m (add c1.r c2.r)) (literal 1 10))

  unfoldable pub triangle_area : Point m → Point m → Point m → Double
  unfolding distance
  triangle_area a b c =
      let edge1 = distance a b in
      let edge2 = distance b c in
      let edge3 = distance c a in
      let p = div (add (add edge1 edge2) edge3) (literal 2 0) in
      sqrt (mul (mul (mul p (sub p edge1)) (sub p edge2)) (sub p edge3))

  unfoldable pub triangle_height : Point m → Point m → Point m → Double
  unfolding triangle_area
  triangle_height a b c = div (mul (literal 2 0) (triangle_area a b c)) (distance b c)

  -- `ciclePointCollision`
  unfoldable pub circle_point_collision : Circle m → Point m → Bool
  circle_point_collision c a =
      let dis_x = sub c.centre.x a.x in
      let dis_y = sub c.centre.y a.y in
      if le (sqrt (add (mul dis_x dis_x) (mul dis_y dis_y))) c.r then true else false

  -- the point of the line through `a` and `b` that is nearest to the circle's centre
  unfoldable pub closest_point : Circle m → Point m → Point m → Point m
  unfolding distance
  closest_point c a b =
      let line_length = distance a b in
      let dot =
        div (add (mul (sub c.centre.x a.x) (sub b.x a.x)) (mul (sub c.centre.y a.y) (sub b.y a.y)))
          (mul line_length line_length) in
      point (add a.x (mul dot (sub b.x a.x))) (add a.y (mul dot (sub b.y a.y)))

  unfoldable pub circle_line_segment_collision : Circle m → Point m → Point m → Bool
  unfolding closest_point circle_point_collision
  circle_line_segment_collision c a b =
      if circle_point_collision c a || circle_point_collision c b
      then true
      else (let line_length = distance a b in
          let closest = closest_point c a b in
          let length_ac = distance a closest in
          let length_bc = distance b closest in
          if not (
            le (sub line_length (literal 1 2)) (add length_ac length_bc)
            && le (add length_ac length_bc) (add line_length (literal 1 2)))
          then false
          else if le (distance closest c.centre) c.r
          then true
          else false)

  -- The first test of `checkCollision(Circle, Rectangle)`: the areas of the triangles that the
  -- centre makes with the edges add up to the area of the rectangle.
  unfoldable pub centre_inside : Circle m → Rectangle m → Bool
  unfolding triangle_area
  centre_inside c rec =
      let field1 =
        add
          (add (add (triangle_area rec.p0 rec.p1 c.centre) (triangle_area rec.p1 rec.p2 c.centre))
            (triangle_area rec.p2 rec.p3 c.centre))
          (triangle_area rec.p3 rec.p0 c.centre) in
      let field2 = add (triangle_area rec.p0 rec.p1 rec.p2) (triangle_area rec.p2 rec.p3 rec.p0) in
      le (sub field2 (literal 1 2)) field1 && le field1 (add field2 (literal 1 2))

  -- `checkCollision(Circle, Rectangle)`, and with the arguments the other way round
  unfoldable pub rectangle_collides : Circle m → Rectangle m → Bool
  unfolding centre_inside circle_line_segment_collision
  rectangle_collides c rec =
      if centre_inside c rec
      then true
      else if circle_line_segment_collision c rec.p0 rec.p1
          || circle_line_segment_collision c rec.p1 rec.p2
      then true
      else if circle_line_segment_collision c rec.p2 rec.p3
          || circle_line_segment_collision c rec.p3 rec.p0
      then true
      else false

  -- `checkCollision(Circle, Point, Point)`
  unfoldable pub segment_collides : Circle m → Point m → Point m → Bool
  unfolding circle_line_segment_collision
  segment_collides c p1 p2 = circle_line_segment_collision c p1 p2
