-- ===== src/Server/Receive/Frames.antt =====
-- The messages that a client sends are the messages that his thread passes on.
use mathlib.Core.List.{append_assoc}
use pr_shooter.Prelude.{
  ℕ, zero, suc, ◌^◌, ◌≤◌, ◌<◌, ◌≡◌, refl, sym, ◌∙◌, ap, subst, true, false, List, [], ◌∷◌, ◌++◌,
  arith, ◌==◌, length, map, some, length-take, take-append, drop-append, take, drop, inl, inr, ◌⊎◌,
}
use pr_shooter.Wire.{Bytes, u32, from_bytes}
use pr_shooter.Wire.Laws.{from_bytes-u32}
use package.pr_shooter.Server.Clients.{running}
use package.pr_shooter.Server.Receive.{
  event, received, Round, Action, allocate, release, enqueue_back, stay, leave, as_int,
  receive_content, receive_message, receive_round, receive_loop, perform_all,
}
use package.pr_shooter.Server.Queue.Interface.{QueueOf}
use package.pr_shooter.Game.Messages.{IncomingMessage}
use package.pr_shooter.Server.Receive.Thread.{Traffic, quiet, dropped, passed, data_message}
use package.pr_shooter.Server.Receive.Delivery.{Traffic-Contains}

-- Every message is of a size that an `int` holds.
abbrev pub AllSmall : List Bytes → Type 0
AllSmall [] = Unit {0}
AllSmall (m ∷ ms) = (length m < 2 ^ 31) × AllSmall ms

-- A message on the wire: its size, then its bytes.
abbrev pub frame : Bytes → Bytes
frame m = u32 (length m) ++ m

abbrev pub frames : List Bytes → Bytes
frames [] = []
frames (m ∷ ms) = frame m ++ frames ms

-- What the calls of a round return when the client has sent `stream` and nothing more: as many
-- bytes as are asked for, or all that there are.
abbrev pub stream_round : Bytes → Round
stream_round stream = record {
  status = running;
  polled = event true;
  sized = received (take 4 stream);
  filled = received (take (from_bytes (take 4 stream)) (drop 4 stream));
}

-- The rounds that read a stream, one after the other.
unfoldable pub stream_rounds : ℕ → Bytes → List Round
stream_rounds zero stream = []
stream_rounds (suc rounds) stream =
    stream_round stream ∷ stream_rounds rounds (drop (from_bytes (take 4 stream)) (drop 4 stream))

stream_rounds-suc :
    (rounds : ℕ) (stream : Bytes)
    → stream_rounds (suc rounds) stream
      ≡ stream_round stream
        ∷ stream_rounds rounds (drop (from_bytes (take 4 stream)) (drop 4 stream))
unfolding stream_rounds
stream_rounds-suc rounds stream = refl

-- A stream that ends inside the size of a message, or that announces a size and then ends too
-- early, or a size that no `int` holds. Four bytes are below 2^32.
abbrev pub IsCut : Bytes → Type 0
IsCut stream =
    (length stream < 4)
    ⊎ ((4 ≤ length stream)
        × (from_bytes (take 4 stream) < 2 ^ 32)
        × ((length (drop 4 stream) < from_bytes (take 4 stream))
            ⊎ (2 ^ 31 ≤ from_bytes (take 4 stream))))

as_int_small : (n : ℕ) → n < 2 ^ 31 → as_int n ≡ n
unfolding as_int
as_int_small n small = ground arith

-- What is received is taken for another size where it is too little or too much.
as_int_other :
    (n size : ℕ)
    → n ≤ size
    → size < 2 ^ 32
    → (n < size) ⊎ (2 ^ 31 ≤ size)
    → (as_int n == size) ≡ false
unfolding as_int
as_int_other n size le fits other = ground arith

too_few :
    (size : ℕ) (stream : Bytes)
    → (length stream < size) ⊎ (2 ^ 31 ≤ size)
    → (length (take size stream) < size) ⊎ (2 ^ 31 ≤ size)
too_few size stream (inl short) = inl (omega (arith, length-take size stream))
too_few size stream (inr large) = inr large

module _ (client_id : ℕ) where
  -- the round that reads a whole message
  whole_round :
      (m rest : Bytes)
      → length m < 2 ^ 31
      → let r = stream_round (frame m ++ rest) in
        receive_round client_id r.polled r.sized r.filled
        ≡ stay (allocate ∷ enqueue_back (data_message client_id m) ∷ [])
  unfolding receive_round receive_message receive_content
  whole_round m rest small =
      let same : (as_int (length m) == length m) ≡ true =
        rw (as_int_small (length m) small) (ground arith) in
      rw (from_bytes-u32 (length m) (omega arith)) (rw (take-append m rest) (rw same refl))

  -- the round that reads what was broken off
  cut_round :
      (stream : Bytes)
      → IsCut stream
      → let r = stream_round stream in
        (actions : List Action) × (receive_round client_id r.polled r.sized r.filled
          ≡ leave actions)
        × Traffic client_id actions []
  unfolding receive_round receive_message receive_content
  cut_round stream (inl short) =
      let count = length (take 4 stream) in
      let few : (as_int count == 4) ≡ false =
        rw (as_int_small count (omega (arith, length-take 4 stream)))
          (ground (arith, length-take 4 stream)) in
      ([], rw few refl, quiet)
  cut_round stream (inr (long, fits, cut)) =
      let size = from_bytes (take 4 stream) in
      let count = length (take 4 stream) in
      let four : (as_int count == 4) ≡ true =
        rw (as_int_small count (omega (arith, length-take 4 stream)))
          (ground (arith, length-take 4 stream)) in
      let content = length (take size (drop 4 stream)) in
      let few : (as_int content == size) ≡ false =
        as_int_other content size (omega (arith, length-take size (drop 4 stream))) fits
          (too_few size (drop 4 stream) cut) in
      (allocate ∷ release ∷ [], rw four (rw few refl), dropped quiet)

  loop_stay :
      (r : Round) (rounds : List Round) (actions : List Action)
      → r.status ≡ running
      → receive_round client_id r.polled r.sized r.filled ≡ stay actions
      → receive_loop client_id (r ∷ rounds)
        ≡ (actions ++ (receive_loop client_id rounds).0, (receive_loop client_id rounds).1)
  unfolding receive_loop
  loop_stay r rounds actions runs e = rw (runs, e) refl

  loop_leave :
      (r : Round) (rounds : List Round) (actions : List Action)
      → r.status ≡ running
      → receive_round client_id r.polled r.sized r.filled ≡ leave actions
      → receive_loop client_id (r ∷ rounds) ≡ (actions, true)
  unfolding receive_loop
  loop_leave r rounds actions runs e = rw (runs, e) refl

  stream_rounds-frame :
      (rounds : ℕ) (m rest : Bytes)
      → length m < 2 ^ 31
      → stream_rounds (suc rounds) (frame m ++ rest)
        ≡ stream_round (frame m ++ rest) ∷ stream_rounds rounds rest
  unfolding stream_rounds
  stream_rounds-frame rounds m rest small =
      ap (λ s. stream_round (frame m ++ rest) ∷ stream_rounds rounds s)
        (ap (λ n. drop n (m ++ rest)) (from_bytes-u32 (length m) (omega arith))
          ∙ drop-append m rest)

  frames-Traffic :
      (ms : List Bytes) (rest : Bytes)
      → AllSmall ms
      → IsCut rest
      → let loop = receive_loop client_id (stream_rounds (suc (length ms)) (frames ms ++ rest)) in
        (loop.1 ≡ true) × Traffic client_id loop.0 ms
  frames-Traffic [] rest small cut =
      let (actions, left, none_passed) = cut_round rest cut in
      let done =
        loop_leave (stream_round rest)
          (stream_rounds 0 (drop (from_bytes (take 4 rest)) (drop 4 rest))) actions refl left in
      subst
        (λ rs.
          ((receive_loop client_id rs).1 ≡ true)
          × Traffic client_id (receive_loop client_id rs).0 [])
        (sym (stream_rounds-suc 0 rest)) (rw done (refl, none_passed))
  frames-Traffic (m ∷ ms) rest small cut =
      let tail = frames ms ++ rest in
      let (left, passed_on) = frames-Traffic ms rest small.1 cut in
      let step =
        loop_stay (stream_round (frame m ++ tail)) (stream_rounds (suc (length ms)) tail)
          (allocate ∷ enqueue_back (data_message client_id m) ∷ []) refl
          (whole_round m tail small.0) in
      subst
        (λ rs.
          ((receive_loop client_id rs).1 ≡ true)
          × Traffic client_id (receive_loop client_id rs).0 (m ∷ ms))
        (sym (
          ap (stream_rounds (suc (suc (length ms)))) (append_assoc (frame m) (frames ms) rest)
          ∙ stream_rounds-frame (suc (length ms)) m tail small.0))
        (rw step (left, passed m passed_on))

  -- If a client sends messages of fewer than 2^31 bytes, each with its size in front, and then
  -- breaks off, inside a message or between two, or announces a message of 2^31 bytes or more, where
  -- the four bytes of that size are below 2^32, then
  -- after one round more than there are messages his thread has left its loop; and what it did to
  -- the queue has put exactly these messages behind those that waited, in order, each as a message
  -- with data from this client.
  pub receive_loop-frames :
      (q : QueueOf IncomingMessage) (ms : List Bytes) (rest : Bytes) (s : q.State)
      (xs : List IncomingMessage)
      → AllSmall ms
      → IsCut rest
      → q.Contains s xs
      → let loop = receive_loop client_id (stream_rounds (suc (length ms)) (frames ms ++ rest)) in
        (loop.1 ≡ true)
        × ((after : q.State) × (perform_all q loop.0 s ≡ some after)
            × q.Contains after (xs ++ map (data_message client_id) ms))
  receive_loop-frames q ms rest s xs small cut h =
      let (left, passed_on) = frames-Traffic ms rest small cut in
      (left, Traffic-Contains q client_id s xs passed_on h)
