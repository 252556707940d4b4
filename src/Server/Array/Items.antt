-- ===== src/Server/Array/Items.antt =====
-- Changes of one item of an array, copies, and clearing.
use pr_shooter.Prelude.{
  ℕ, zero, suc, ◌<◌, ◌≡◌, refl, sym, ◌∙◌, ap, subst, some, List, [], ◌∷◌, arith, inl, inr,
  Bool-cases, ◌==◌, length, get_elem?, set, take, length-take, length-set, get_elem?-set_self,
  get_elem?-set_ne, ◌≢◌,
}
use pr_shooter.Wire.{◌>>=◌}
use package.pr_shooter.Server.Array.{Array, array_change_item, array_create, array_get_copy}
use package.pr_shooter.Server.Array.Holds.{Holds, array_get_item-Holds}

pub get_elem?-lt :
    {B : Type 0} (xs : List B) (i : ℕ) (x : B) → get_elem? xs i ≡ some x → i < length xs
get_elem?-lt [] i x e = absurd (cc)
get_elem?-lt (y ∷ xs) zero x e = omega arith
get_elem?-lt (y ∷ xs) (suc i) x e = omega (arith, get_elem?-lt xs i x e)

pub get_elem?-some :
    {B : Type 0} (xs : List B) (i : ℕ) → i < length xs → (x : B) × (get_elem? xs i ≡ some x)
get_elem?-some [] i h = absurd (omega arith)
get_elem?-some (x ∷ xs) zero h = (x, refl)
get_elem?-some (x ∷ xs) (suc i) h = get_elem?-some xs i (omega arith)

get_elem?-take :
    {B : Type 0} (xs : List B) (n i : ℕ) → i < n → get_elem? (take n xs) i ≡ get_elem? xs i
get_elem?-take xs zero i h = absurd (omega arith)
get_elem?-take [] (suc n) i h = refl
get_elem?-take (x ∷ xs) (suc n) zero h = refl
get_elem?-take (x ∷ xs) (suc n) (suc i) h = get_elem?-take xs n i (omega arith)

module _ {A : Type 0} where
  -- On an array that holds `xs`, changing the item at an index below the length changes that item
  -- of `xs` and no other.
  pub array_change_item-Holds :
      (array : Array A) (xs : List A) (i : ℕ) (x : A) (f : A → A)
      → Holds array xs
      → get_elem? xs i ≡ some x
      → (after : Array A) × (array_change_item i f array ≡ some after)
        × Holds after (set xs i (f x))
        × (after.capacity ≡ array.capacity)
  unfolding array_change_item
  array_change_item-Holds array xs i x f h e = (
    record array { slots = set array.slots i (some (f x)) },
    rw (array_get_item-Holds array xs i x h (get_elem?-lt xs i x e) e, ◌>>=◌) refl,
    record {
      size_eq = h.size_eq ∙ sym (length-set xs i (f x));
      size_le = h.size_le;
      length_slots = length-set array.slots i (some (f x)) ∙ h.length_slots;
      slot_eq = slot;
    },
    refl,
  )
    where
      below : i < length xs
      below = get_elem?-lt xs i x e

      slot :
          (j : ℕ) (y : A)
          → j < length (set xs i (f x))
          → get_elem? (set xs i (f x)) j ≡ some y
          → get_elem? (set array.slots i (some (f x))) j ≡ some (some y)
      slot j y lt e' = elim (Bool-cases (i == j)) [
        | inl same ↦
            let at : i ≡ j = ground arith in
            subst (λ k. get_elem? (set array.slots i (some (f x))) k ≡ some (some y)) at
              (get_elem?-set_self array.slots i (some (f x))
                  (omega (arith, below, h.length_slots, h.size_eq, h.size_le))
                ∙ ap (λ z. some z)
                    (sym (get_elem?-set_self xs i (f x) below)
                      ∙ ap (λ k. get_elem? (set xs i (f x)) k) at
                      ∙ e'))
        | inr other ↦
            let ne : i ≢ j = ground arith in
            get_elem?-set_ne array.slots (some (f x)) ne
            ∙ h.slot_eq j y (omega (arith, length-set xs i (f x), lt))
                (sym (get_elem?-set_ne xs (f x) ne) ∙ e')
      ]

  -- A copy of an array that holds `xs` holds `xs` too, and has no room for more.
  pub array_get_copy-Holds :
      (array : Array A) (xs : List A)
      → Holds array xs
      → Holds (array_get_copy array) xs × ((array_get_copy array).capacity ≡ length xs)
  unfolding array_get_copy array_create
  array_get_copy-Holds array xs h = (
    record {
      size_eq = h.size_eq;
      size_le = omega arith;
      length_slots = omega (arith, length-take array.size array.slots, h.length_slots, h.size_le);
      slot_eq = λ i x lt e.
          get_elem?-take array.slots array.size i (omega (arith, h.size_eq)) ∙ h.slot_eq i x lt e;
    },
    h.size_eq,
  )
