-- ===== src/Client/Reads.antt =====
-- Readers that take just the bytes of a value, whatever follows, and how they compose.
use mathlib.Core.List.{append_assoc, append-nil}
use pr_shooter.Prelude.{
  ℕ, ◌%◌, ◌^◌, ◌≡◌, refl, ap, subst, Bool, true, false, some, List, [], ◌∷◌, ◌++◌, map, arith,
  length, length-append, take, drop,
}
use pr_shooter.Wire.{Bytes, u8, u16, from_bytes}
use pr_shooter.Wire.Laws.{from_bytes-u8, from_bytes-u16}
use pr_shooter.Game.Serialize.{bool_number}
use pr_shooter.Game.Serialize.Layout.{flat_bytes}
use package.pr_shooter.Client.{Reader, ◌>>=◌, pure, read, read_int, read_bool, read_many}

-- Whatever follows the bytes `bs`, the reader takes just these and finds `a`.
pub record Reads {A : Type 0} (r : Reader A) (bs : Bytes) (a : A) : Type 0 where
  pub reads : (rest : Bytes) → r (bs ++ rest) ≡ some (a, rest)

take-append : (bs rest : Bytes) → take (length bs) (bs ++ rest) ≡ bs
take-append [] rest = refl
take-append (b ∷ bs) rest = ap (◌∷◌ b) (take-append bs rest)

drop-append : (bs rest : Bytes) → drop (length bs) (bs ++ rest) ≡ rest
drop-append [] rest = refl
drop-append (b ∷ bs) rest = drop-append bs rest

-- At the end of a message nothing follows.
pub Reads-all :
    {A : Type 0} {r : Reader A} {bs : Bytes} {a : A} → Reads r bs a → r bs ≡ some (a, [])
Reads-all {r} {bs} {a} h = subst (λ all. r all ≡ some (a, [])) (append-nil bs) (h.reads [])

pub Reads-read : (bs : Bytes) (n : ℕ) → length bs ≡ n → Reads (read n) bs bs
unfolding read
Reads-read bs n h = record {
  reads = λ rest.
      rw (← h) (ground (arith, length-append bs rest, take-append bs rest, drop-append bs rest));
}

pub Reads-bind :
    {A B : Type 0} {r : Reader A} {bs cs : Bytes} {a : A} {b : B} (f : A → Reader B)
    → Reads r bs a
    → Reads (f a) cs b
    → Reads (r >>= f) (bs ++ cs) b
Reads-bind {bs} {cs} f h k = record {
  reads = λ rest. rw (append_assoc bs cs rest, h.reads (cs ++ rest), ◌>>=◌) (k.reads rest);
}

pub Reads-last :
    {A B : Type 0} {r : Reader A} {bs : Bytes} {a : A} (f : A → B)
    → Reads r bs a
    → Reads (r >>= λ x. pure (f x)) bs (f a)
Reads-last f h = record { reads = λ rest. rw (h.reads rest, ◌>>=◌) }

pub Reads-as :
    {A : Type 0} {r : Reader A} {bs : Bytes} {a b : A} → Reads r bs a → a ≡ b → Reads r bs b
Reads-as h e = record { reads = λ rest. rw (← e) (h.reads rest) }

pub read_int-u16 : (n : ℕ) → Reads (read_int 2) (u16 n) (n % 2 ^ 16)
unfolding read_int
read_int-u16 n = Reads-as (Reads-last from_bytes (Reads-read (u16 n) 2 refl)) (from_bytes-u16 n)

pub read_int-u8 : (n : ℕ) → Reads (read_int 1) (u8 n) (n % 2 ^ 8)
unfolding read_int
read_int-u8 n = Reads-as (Reads-last from_bytes (Reads-read (u8 n) 1 refl)) (from_bytes-u8 n)

pub read_bool-bool_number : (b : Bool) → Reads read_bool (u8 (bool_number b)) b
unfolding read_bool read from_bytes
read_bool-bool_number true = record { reads = λ rest. ground arith }
read_bool-bool_number false = record { reads = λ rest. ground arith }

map-id : {A : Type 0} (xs : List A) → map (λ x. x) xs ≡ xs
map-id [] = refl
map-id (x ∷ xs) = ap (◌∷◌ x) (map-id xs)

pub read_many-flat_bytes :
    {A B : Type 0} (reader : Reader B) (f : A → Bytes) (view : A → B)
    → ((x : A) → Reads reader (f x) (view x))
    → (xs : List A) → Reads (read_many reader (length xs)) (flat_bytes f xs) (map view xs)
unfolding read_many flat_bytes
read_many-flat_bytes reader f view h [] = record { reads = λ rest. refl }
read_many-flat_bytes reader f view h (x ∷ xs) =
    Reads-bind _ (h x) (Reads-last (◌∷◌ (view x)) (read_many-flat_bytes reader f view h xs))

pub read_many_same :
    {A : Type 0} (reader : Reader A) (f : A → Bytes)
    → ((x : A) → Reads reader (f x) x)
    → (xs : List A) → Reads (read_many reader (length xs)) (flat_bytes f xs) xs
read_many_same reader f h xs = Reads-as (read_many-flat_bytes reader f (λ x. x) h xs) (map-id xs)
