-- ===== src/Client/Receiving/Pieces.antt =====
-- A message arrives whole, in whatever pieces.
use mathlib.Core.Path.{ap₂}
use mathlib.Core.List.{append_assoc, append-nil}
use pr_shooter.Prelude.{
  ℕ, zero, suc, ◌+◌, ◌-◌, ◌^◌, ◌≤◌, ◌<◌, ◌≡◌, refl, sym, ◌∙◌, ap, subst, true, false, none, some,
  List, [], ◌∷◌, ◌++◌, arith, leb, length, take, drop, length-append, length-drop, length-take,
  take-append-drop,
}
use pr_shooter.Wire.{Bytes, from_bytes, u32}
use pr_shooter.Wire.Laws.{from_bytes-u32}
use package.pr_shooter.Client.Receiving.{received, receive_rest, receive_frame}

take-append_le : (n : ℕ) (xs ys : Bytes) → n ≤ length xs → take n (xs ++ ys) ≡ take n xs
take-append_le zero xs ys h = refl
take-append_le (suc n) [] ys h = absurd (omega arith)
take-append_le (suc n) (x ∷ xs) ys h = ap (λ zs. x ∷ zs) (take-append_le n xs ys (omega arith))

drop-append_le : (n : ℕ) (xs ys : Bytes) → n ≤ length xs → drop n (xs ++ ys) ≡ drop n xs ++ ys
drop-append_le zero xs ys h = refl
drop-append_le (suc n) [] ys h = absurd (omega arith)
drop-append_le (suc n) (x ∷ xs) ys h = drop-append_le n xs ys (omega arith)

length-zero : (xs : Bytes) → length xs ≤ 0 → xs ≡ []
length-zero [] h = refl
length-zero (x ∷ xs) h = absurd (omega arith)

receive_rest-all :
    (calls : List ℕ) (rest later : Bytes)
    → receive_rest calls (length rest) rest later ≡ some (rest, later)
unfolding receive_rest
receive_rest-all [] rest later =
    let complete : leb (length rest) (length rest) ≡ true = ground arith in rw complete refl
receive_rest-all (come ∷ calls) rest later =
    let complete : leb (length rest) (length rest) ≡ true = ground arith in rw complete refl

-- Where `content` is what has been received and what is still to come of it, and there are calls
-- enough for a byte each, the loop ends with `content`.
receive_rest-content :
    (calls : List ℕ) (content rest missing later : Bytes)
    → rest ++ missing ≡ content
    → length missing ≤ length calls
    → receive_rest calls (length content) rest (missing ++ later) ≡ some (content, later)
unfolding receive_rest
receive_rest-content calls content rest [] later e enough =
    let same : rest ≡ content = sym (append-nil rest) ∙ e in
    subst (λ bs. receive_rest calls (length content) bs later ≡ some (content, later)) (sym same)
      (receive_rest-all calls content later)
receive_rest-content [] content rest (x ∷ missing) later e enough = absurd (omega arith)
receive_rest-content (come ∷ calls) content rest (x ∷ missing) later e enough =
    let ys = x ∷ missing in
    let size : length content ≡ length rest + length ys =
      sym (ap length e) ∙ length-append rest ys in
    let waits : leb (length content) (length rest) ≡ false = ground arith in
    let n = received come (length content - length rest) in
    let fits : n ≤ length ys = omega arith in
    let some_come : 1 ≤ n = omega arith in
    let e' : (rest ++ take n ys) ++ drop n ys ≡ content =
      append_assoc rest (take n ys) (drop n ys)
      ∙ ap (λ bs. rest ++ bs) (take-append-drop n ys)
      ∙ e in
    rw waits (
      subst
        (λ (bs : Bytes × Bytes).
          receive_rest calls (length content) (rest ++ bs.0) bs.1 ≡ some (content, later))
        (ap₂ (λ a b. (a, b)) (sym (take-append_le n ys later fits))
          (sym (drop-append_le n ys later fits)))
        (receive_rest-content calls content (rest ++ take n ys) (drop n ys) later e'
          (omega (arith, length-drop n ys))))

-- A stream that ends before the message does leaves the client in its loop for ever.
pub receive_rest-eq-none :
    (calls : List ℕ) (size : ℕ) (rest stream : Bytes)
    → length rest + length stream < size
    → receive_rest calls size rest stream ≡ none
unfolding receive_rest
receive_rest-eq-none [] size rest stream short =
    let waits : leb size (length rest) ≡ false = ground arith in rw waits refl
receive_rest-eq-none (come ∷ calls) size rest stream short =
    let n = received come (size - length rest) in
    let waits : leb size (length rest) ≡ false = ground arith in
    rw waits (
      receive_rest-eq-none calls size (rest ++ take n stream) (drop n stream) (
        omega
          (arith, length-append rest (take n stream), length-take n stream, length-drop n stream)))

-- A message with its size in front.
pub receive_frame-content :
    (come : ℕ) (calls : List ℕ) (content later : Bytes)
    → 3 ≤ come
    → length content < 2 ^ 32
    → length content ≤ length calls
    → receive_frame come calls (u32 (length content) ++ (content ++ later)) ≡ some (content, later)
unfolding receive_frame
receive_frame-content come calls content later four small enough =
    let stream = u32 (length content) ++ (content ++ later) in
    let n : received come 4 ≡ 4 = omega arith in
    subst
      (λ k.
        receive_rest calls (from_bytes (take k stream)) [] (drop k stream) ≡ some (content, later))
      (sym n)
      (subst (λ k. receive_rest calls k [] (content ++ later) ≡ some (content, later))
        (sym (from_bytes-u32 (length content) small))
        (receive_rest-content calls content [] content later refl enough))
