-- ===== src/Server/Array/Holds.antt =====
-- The list that an array holds.
use pr_shooter.Prelude.{
  ℕ, zero, suc, ◌+◌, ◌-◌, ◌*◌, ◌≤◌, ◌<◌, ◌≡◌, refl, sym, ◌∙◌, ap, subst, true, false, Option, none,
  some, List, [], ◌∷◌, ◌++◌, arith, inl, inr, Bool-cases, ltb, leb, replicate, length,
  length-append, length-replicate, get_elem?, set, length-set, get_elem?-set_self, get_elem?-set_ne,
  ◌↔◌,
}
use pr_shooter.Wire.{◌>>=◌}
use package.pr_shooter.Server.Array.{
  Array, array_create, resize, write_item, make_room, array_push_back, array_get_item,
}

-- The index is one of the list.
get_elem?-append :
    {B : Type 0} (xs ys : List B) (i : ℕ) → i < length xs → get_elem? (xs ++ ys) i ≡ get_elem? xs i
get_elem?-append [] ys i h = absurd (omega arith)
get_elem?-append (x ∷ xs) ys zero h = refl
get_elem?-append (x ∷ xs) ys (suc i) h = get_elem?-append xs ys i (omega arith)

pub get_elem?-append_last :
    {B : Type 0} (xs : List B) (x : B) → get_elem? (xs ++ (x ∷ [])) (length xs) ≡ some x
get_elem?-append_last [] x = refl
get_elem?-append_last (y ∷ xs) x = get_elem?-append_last xs x

module _ {A : Type 0} where
  -- The size is that of `xs`, and the first slots have its elements.
  pub record Holds (array : Array A) (xs : List A) : Type 0 where
    pub size_eq : array.size ≡ length xs
    pub size_le : array.size ≤ array.capacity
    pub length_slots : length array.slots ≡ array.capacity
    pub slot_eq :
        (i : ℕ) (x : A)
        → i < length xs
        → get_elem? xs i ≡ some x
        → get_elem? array.slots i ≡ some (some x)

  pub array_create-Holds : (capacity : ℕ) → Holds (array_create {A = A} capacity) []
  unfolding array_create
  array_create-Holds capacity = record {
    size_eq = refl;
    size_le = omega arith;
    length_slots = length-replicate capacity none;
    slot_eq = λ i x h e. absurd (omega arith);
  }

  -- After `make_room` there is room for one more.
  make_room-Holds :
      (array : Array A) (xs : List A)
      → Holds array xs
      → 0 < array.capacity
      → Holds (make_room array) xs × ((make_room array).size < (make_room array).capacity)
  unfolding make_room resize
  make_room-Holds array xs h pos = elim (Bool-cases (leb array.capacity array.size)) [
    | inl full ↦
        let grows : ltb (array.capacity * 2) array.capacity ≡ false = ground arith in
        rw (full, grows)
          (
            record {
              size_eq = h.size_eq;
              size_le = omega (arith, h.size_le);
              length_slots = omega (
                arith,
                length-append array.slots (replicate (array.capacity * 2 - array.capacity) none),
                length-replicate {A = Option A} (array.capacity * 2 - array.capacity) none,
                h.length_slots,
              );
              slot_eq = λ i x lt e.
                  get_elem?-append array.slots _ i
                    (omega (arith, h.length_slots, h.size_eq, h.size_le))
                  ∙ h.slot_eq i x lt e;
            },
            omega (arith, h.size_le),
          )
    | inr room ↦ rw room (h, ground arith)
  ]

  write_item-Holds :
      (array : Array A) (xs : List A) (item : A)
      → Holds array xs
      → array.size < array.capacity
      → (after : Array A) × (write_item array.size item array ≡ some after)
        × Holds after (xs ++ (item ∷ []))
  unfolding write_item
  write_item-Holds array xs item h room =
      let fits : ltb array.size array.capacity ≡ true = ground arith in
      let slots = set array.slots array.size (some item) in
      (
        record array { size = array.size + 1; slots = slots },
        rw fits refl,
        record {
          size_eq = omega (arith, h.size_eq, length-append xs (item ∷ []));
          size_le = omega arith;
          length_slots = length-set array.slots array.size (some item) ∙ h.length_slots;
          slot_eq = λ i x lt e. slot i x (omega (arith, length-append xs (item ∷ []), lt)) e;
        },
      )
    where
      slot :
          (i : ℕ) (x : A)
          → i ≤ length xs
          → get_elem? (xs ++ (item ∷ [])) i ≡ some x
          → get_elem? (set array.slots array.size (some item)) i ≡ some (some x)
      slot i x le e = elim (Bool-cases (ltb i (length xs))) [
        | inl old ↦
            let lt : i < length xs = ground arith in
            get_elem?-set_ne array.slots (some item) (λ e. omega (arith, h.size_eq))
            ∙ h.slot_eq i x lt (sym (get_elem?-append xs (item ∷ []) i lt) ∙ e)
        | inr new ↦
            let same : i ≡ length xs = ground arith in
            subst (λ k. get_elem? (set array.slots array.size (some item)) k ≡ some (some x))
              (h.size_eq ∙ sym same)
              (get_elem?-set_self array.slots array.size (some item) (omega (arith, h.length_slots))
                ∙ ap (λ y. some y)
                    (sym (get_elem?-append_last xs item)
                      ∙ ap (λ k. get_elem? (xs ++ (item ∷ [])) k) (sym same)
                      ∙ e))
      ]

  -- On an array with a capacity that is not zero and that holds `xs`, `arrayPushBack` of `item`
  -- succeeds, whether or not the memory is full: it returns the length of `xs`, and the array holds `xs` and then `item`.
  pub array_push_back-Holds :
      (array : Array A) (xs : List A) (item : A)
      → 0 < array.capacity
      → Holds array xs
      → (after : Array A) × (array_push_back item array ≡ some (length xs, after))
        × Holds after (xs ++ (item ∷ []))
  unfolding array_push_back
  array_push_back-Holds array xs item pos h =
      let (after, written, holds) = written_at in
      (after, rw (written, ◌>>=◌) (ap (λ n. some (n, after)) h.size_eq), holds)
    where
      written_at :
          (after : Array A) × (write_item array.size item (make_room array) ≡ some after)
          × Holds after (xs ++ (item ∷ []))
      written_at =
          let (roomy, room) = make_room-Holds array xs h pos in
          subst
            (λ n.
              (after : Array A) × (write_item n item (make_room array) ≡ some after)
              × Holds after (xs ++ (item ∷ [])))
            (roomy.size_eq ∙ sym h.size_eq) (write_item-Holds (make_room array) xs item roomy room)

  -- From an array that holds `xs`, `arrayGetItem` of an index below the length copies the element
  -- of `xs` at that index.
  pub array_get_item-Holds :
      (array : Array A) (xs : List A) (i : ℕ) (x : A)
      → Holds array xs
      → i < length xs
      → get_elem? xs i ≡ some x
      → array_get_item i array ≡ some (some x)
  unfolding array_get_item
  array_get_item-Holds array xs i x h lt e =
      let inside : ltb i array.capacity ≡ true = ground (arith, h.size_eq, h.size_le) in
      rw inside (h.slot_eq i x lt e)

  -- On an array that holds a list, `arrayPushBack` fails its assertion exactly if the capacity is
  -- zero: twice nothing is still nothing.
  pub array_push_back-eq-none_iff :
      (array : Array A) (xs : List A) (item : A)
      → Holds array xs
      → (array_push_back item array ≡ none) ↔ (array.capacity ≡ 0)
  unfolding array_push_back make_room resize write_item
  array_push_back-eq-none_iff array xs item h = (
    λ e. elim (Bool-cases (ltb 0 array.capacity)) [
      | inl pos ↦
          let (after, pushed, _) = array_push_back-Holds array xs item (ground arith) h in
          absurd (cc)
      | inr zero_capacity ↦ ground arith
    ],
    λ z. ground (arith, h.size_le),
  )
