-- ===== src/Wire.antt =====
-- The byte buffers of Host/game.cpp: a block of fixed room that `copyToBuf` fills from the front,
-- and the bytes of a received message, which the handlers read at fixed offsets. Integers are
-- little-endian, as on the machines that the protocol (Client/client.py) takes for granted.
pub mod Laws
use mathlib.Core.Option
use pr_shooter.Prelude.{
  ℕ, zero, suc, ◌+◌, ◌*◌, ◌/◌, ◌%◌, ◌^◌, Option, none, some, List, [], ◌∷◌, ◌++◌, leb,
  if◌then◌else◌, length, take, drop, Bool,
}

abbrev pub Bytes : Type 0
Bytes = List ℕ

infixl 5 ◌>>=◌
abbrev pub ◌>>=◌ {ℓ κ} : {A : Type ℓ} {B : Type κ} → Option A → (A → Option B) → Option B
none >>= f = none
some a >>= f = f a

-- `static_cast<uint8_t>(n)` and so on, as bytes in memory
abbrev pub u8 : ℕ → Bytes
u8 n = n % 2 ^ 8 ∷ []

abbrev pub u16 : ℕ → Bytes
u16 n = n % 2 ^ 8 ∷ n / 2 ^ 8 % 2 ^ 8 ∷ []

abbrev pub u32 : ℕ → Bytes
u32 n = n % 2 ^ 8 ∷ n / 2 ^ 8 % 2 ^ 8 ∷ n / 2 ^ 16 % 2 ^ 8 ∷ n / 2 ^ 24 % 2 ^ 8 ∷ []

-- `room` bytes were allocated, `written` are filled, and `size` is the code's `uint32_t` count.
pub record Writer : Type 0 where
  pub room : ℕ
  pub written : Bytes
  pub size : ℕ

-- `new unsigned char[room]`
unfoldable pub new_buffer : ℕ → Writer
new_buffer room = record { room = room; written = []; size = 0 }

-- `size += copyToBuf<T>(buf, value)`, given the bytes of the value as a `T`; `none` is a write
-- behind the end of the block.
unfoldable pub copy_to_buf : Bytes → Writer → Option Writer
copy_to_buf bytes w =
    if leb (length w.written + length bytes) w.room
    then some (record w { written = w.written ++ bytes; size = (w.size + length bytes) % 2 ^ 32 })
    else none

-- `struct Message`: the size that is announced, and the filled part of the block.
pub record Message : Type 0 where
  pub size : ℕ
  pub content : Bytes

abbrev pub message_of : Writer → Message
message_of w = record { size = w.size; content = w.written }

-- `*reinterpret_cast<T*>(buffer + offset)` for a `T` of `count` bytes; `none` is a read behind the
-- end of the buffer.
unfoldable pub read_at : ℕ → ℕ → Bytes → Option Bytes
read_at offset count buffer =
    if leb (offset + count) (length buffer) then some (take count (drop offset buffer)) else none

-- the number that bytes stand for
unfoldable pub from_bytes : Bytes → ℕ
from_bytes [] = 0
from_bytes (b ∷ bs) = b + 2 ^ 8 * from_bytes bs
