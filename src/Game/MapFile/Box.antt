-- ===== src/Game/MapFile/Box.antt =====
-- The box around the border.
use pr_shooter.Prelude.{
  ◌≡◌, refl, Bool, true, false, List, [], ◌∷◌, if◌then◌else◌, inl, inr, Bool-cases, map,
}
use pr_shooter.Machine.{Machine}
use pr_shooter.Geometry.{Point, point}
use package.pr_shooter.Game.{GameMap}
use package.pr_shooter.Game.MapFile.{std_min, std_max, Bounds, bounds, with_box}

-- What IEEE 754 says of `<`: it is asymmetric, and among numbers, that is without NaN, "not less" is
-- transitive. The two limits are numbers.
pub record IsOrdered (m : Machine) (IsNumber : m.Double → Type 0) : Type 0 where
  pub lt_irrefl : (x : m.Double) → m.lt x x ≡ false
  pub lt_asymm : (x y : m.Double) → m.lt x y ≡ true → m.lt y x ≡ false
  pub lt_trans :
      (x y z : m.Double) → IsNumber y → m.lt x y ≡ false → m.lt y z ≡ false → m.lt x z ≡ false
  pub max_double_number : IsNumber m.max_double
  pub min_double_number : IsNumber m.min_double

module _ {A : Type 0} where
  abbrev pub Each : (A → Type 0) → List A → Type 0
  Each P [] = Unit {0}
  Each P (x ∷ xs) = P x × Each P xs

  -- the running choice between `a` and the elements, by a relation
  extreme : (A → A → Bool) → List A → A → A
  extreme r [] a = a
  extreme r (x ∷ xs) a = extreme r xs (if r x a then x else a)

  -- Neither the start nor an element is beyond the choice.
  extreme_lem :
      (r : A → A → Bool) (P : A → Type 0)
      → ((x : A) → r x x ≡ false)
      → ((x y : A) → r x y ≡ true → r y x ≡ false)
      → ((x y z : A) → P y → r x y ≡ false → r y z ≡ false → r x z ≡ false)
      → (xs : List A) (a : A) → P a
      → Each P xs
      → (r a (extreme r xs a) ≡ false) × Each (λ x. r x (extreme r xs a) ≡ false) xs
  unfolding extreme
  extreme_lem r P irrefl asymm trans [] a p ps = (irrefl a, tt)
  extreme_lem r P irrefl asymm trans (x ∷ xs) a p (q, ps) =
      let next = if r x a then x else a in
      let (number, after_a, after_x) = chosen in
      let (first, others) = extreme_lem r P irrefl asymm trans xs next number ps in
      (
        trans a next (extreme r xs next) number after_a first,
        (trans x next (extreme r xs next) number after_x first, others),
      )
    where
      chosen : let next = if r x a then x else a in P next × (r a next ≡ false) × (r x next ≡ false)
      chosen = elim (Bool-cases (r x a)) [
        | inl less ↦ rw less (q, asymm x a less, irrefl x)
        | inr not_less ↦ rw not_less (p, irrefl a, not_less)
      ]

  extreme-none :
      (r : A → A → Bool) (xs : List A) (a : A) → Each (λ x. r x a ≡ false) xs → extreme r xs a ≡ a
  unfolding extreme
  extreme-none r [] a h = refl
  extreme-none r (x ∷ xs) a (h, hs) = rw h (extreme-none r xs a hs)

module _ {m : Machine} where
  bounds-extreme :
      (ps : List (Point m)) (b : Bounds m)
      → ((bounds ps b).min_x ≡ extreme m.lt (map (λ p. p.x) ps) b.min_x)
        × ((bounds ps b).min_y ≡ extreme m.lt (map (λ p. p.y) ps) b.min_y)
        × ((bounds ps b).max_x ≡ extreme (λ x y. m.lt y x) (map (λ p. p.x) ps) b.max_x)
        × ((bounds ps b).max_y ≡ extreme (λ x y. m.lt y x) (map (λ p. p.y) ps) b.max_y)
  unfolding bounds extreme std_min std_max
  bounds-extreme [] b = (refl, refl, refl, refl)
  bounds-extreme (p ∷ ps) b = bounds-extreme ps (record {
    min_x = std_min m b.min_x p.x;
    min_y = std_min m b.min_y p.y;
    max_x = std_max m b.max_x p.x;
    max_y = std_max m b.max_y p.y;
  })

  -- No coordinate of the point is less than the top left corner's, or greater than the bottom right
  -- corner's.
  abbrev pub InBox : GameMap m → Point m → Type 0
  InBox world p =
      (m.lt p.x world.top_left.x ≡ false)
      × (m.lt p.y world.top_left.y ≡ false)
      × (m.lt world.bottom_right.x p.x ≡ false)
      × (m.lt world.bottom_right.y p.y ≡ false)

  Each-map :
      (P : m.Double → Type 0) (f : Point m → m.Double) (ps : List (Point m))
      → Each (λ p. P (f p)) ps
      → Each P (map f ps)
  Each-map P f [] h = tt
  Each-map P f (p ∷ ps) (h, hs) = (h, Each-map P f ps hs)

  zip_box :
      (world : GameMap m) (ps : List (Point m))
      → Each (λ x. m.lt x world.top_left.x ≡ false) (map (λ p. p.x) ps)
      → Each (λ y. m.lt y world.top_left.y ≡ false) (map (λ p. p.y) ps)
      → Each (λ x. m.lt world.bottom_right.x x ≡ false) (map (λ p. p.x) ps)
      → Each (λ y. m.lt world.bottom_right.y y ≡ false) (map (λ p. p.y) ps)
      → Each (InBox world) ps
  zip_box world [] a b c d = tt
  zip_box world (p ∷ ps) (a, h1) (b, h2) (c, h3) (d, h4) =
      ((a, b, c, d), zip_box world ps h1 h2 h3 h4)

  -- Where `<` orders the numbers, and the coordinates of the border are numbers, the box that is set
  -- behind the reading of a map has every point of the border inside.
  pub with_box-InBox :
      (IsNumber : m.Double → Type 0) (world : GameMap m)
      → IsOrdered m IsNumber
      → Each (λ p. IsNumber p.x) world.borders
      → Each (λ p. IsNumber p.y) world.borders
      → Each (InBox (with_box world)) world.borders
  unfolding with_box
  with_box-InBox IsNumber world order xs ys =
      let ps = world.borders in
      let (e1, e2, e3, e4) = bounds-extreme ps (record {
        min_x = m.max_double;
        min_y = m.max_double;
        max_x = m.min_double;
        max_y = m.min_double;
      }) in
      let pxs = Each-map IsNumber (λ p. p.x) ps xs in
      let pys = Each-map IsNumber (λ p. p.y) ps ys in
      let low = extreme_lem m.lt IsNumber order.lt_irrefl order.lt_asymm order.lt_trans in
      let high =
        extreme_lem (λ x y. m.lt y x) IsNumber order.lt_irrefl (λ x y. order.lt_asymm y x)
          (λ x y z n h h'. order.lt_trans z y x n h' h) in
      zip_box (with_box world) ps
        (rw e1 ((low (map (λ p. p.x) ps) m.max_double order.max_double_number pxs).1))
        (rw e2 ((low (map (λ p. p.y) ps) m.max_double order.max_double_number pys).1))
        (rw e3 ((high (map (λ p. p.x) ps) m.min_double order.min_double_number pxs).1))
        (rw e4 ((high (map (λ p. p.y) ps) m.min_double order.min_double_number pys).1))

  -- Where no point of the border has a coordinate greater than `numeric_limits<double>::min()`,
  -- which is positive, the bottom right corner is not at the border: it has that number for both
  -- coordinates.
  pub with_box-min_double :
      (world : GameMap m)
      → Each (λ p. m.lt m.min_double p.x ≡ false) world.borders
      → Each (λ p. m.lt m.min_double p.y ≡ false) world.borders
      → (with_box world).bottom_right ≡ point m.min_double m.min_double
  unfolding with_box
  with_box-min_double world xs ys =
      let ps = world.borders in
      let (_, _, e3, e4) = bounds-extreme ps (record {
        min_x = m.max_double;
        min_y = m.max_double;
        max_x = m.min_double;
        max_y = m.min_double;
      }) in
      let beyond = λ (x y : m.Double). m.lt y x in
      rw
        (
          e3,
          e4,
          extreme-none beyond (map (λ p. p.x) ps) m.min_double (Each-map _ (λ p. p.x) ps xs),
          extreme-none beyond (map (λ p. p.y) ps) m.min_double (Each-map _ (λ p. p.y) ps ys),
        )
        refl
