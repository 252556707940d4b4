-- ===== src/Client/Receiving.antt =====
-- The front of `receive_message` of Client/client.py: the size of a message and its bytes, from the
-- bytes that the server has sent. For each call of `recv` a number says how many bytes have come by
-- then: one more than the number, since `recv` waits for one.
pub mod Pieces
use Prim.Native.Nat.{min}
use pr_shooter.Prelude.{
  ℕ, suc, ◌-◌, Option, none, some, List, [], ◌∷◌, ◌++◌, leb, if◌then◌else◌, length, take, drop,
}
use pr_shooter.Machine.{Machine}
use pr_shooter.Wire.{Bytes, from_bytes, ◌>>=◌}
use package.pr_shooter.Client.{Seen, read_message}

-- the bytes that a call of `recv` returns, when `count` are asked for: none only at the end of the
-- stream
abbrev pub received : (come count : ℕ) → ℕ
received come count = min (suc come) count

-- `while len(rest) < size: rest += recv(size - len(rest))`; `none`: the loop goes on.
unfoldable pub receive_rest : List ℕ → (size : ℕ) → Bytes → Bytes → Option (Bytes × Bytes)
receive_rest [] size rest stream = if leb size (length rest) then some (rest, stream) else none
receive_rest (come ∷ calls) size rest stream =
    let n = received come (size - length rest) in
    let later = receive_rest calls size (rest ++ take n stream) (drop n stream) in
    if leb size (length rest) then some (rest, stream) else later

-- The size, with one call of `recv`, and the bytes.
unfoldable pub receive_frame : ℕ → List ℕ → Bytes → Option (Bytes × Bytes)
unfolding receive_rest
receive_frame come calls stream =
    let n = received come 4 in receive_rest calls (from_bytes (take n stream)) [] (drop n stream)

-- `receive_message`, where there is something to receive: what the client finds, and what is left
-- of the stream
unfoldable pub receive_message : (m : Machine) → ℕ → List ℕ → Bytes → Option (Seen m × Bytes)
unfolding receive_frame
receive_message m come calls stream = receive_frame come calls stream >>= λ (body, later).
    read_message m body >>= λ (seen, _). some (seen, later)
