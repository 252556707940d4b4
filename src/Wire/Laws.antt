-- ===== src/Wire/Laws.antt =====
-- Laws of the byte buffers.
use mathlib.Core.List.{append_assoc, append-nil}
use pr_shooter.Prelude.{
  ℕ, ◌%◌, ◌^◌, ◌≤◌, ◌<◌, ◌≡◌, none, some, ◌++◌, [], arith, length, length-append,
}
use package.pr_shooter.Wire.{
  Bytes, ◌>>=◌, u8, u16, u32, Writer, new_buffer, copy_to_buf, from_bytes,
}

-- Two copies in a row are one copy of the joined bytes.
pub copy_to_buf-append :
    (bs cs : Bytes) (w : Writer) → (copy_to_buf bs w >>= copy_to_buf cs) ≡ copy_to_buf (bs ++ cs) w
unfolding copy_to_buf
copy_to_buf-append bs cs w =
    ground (arith, length-append bs cs, length-append w.written bs, append_assoc w.written bs cs)

-- What has been written fits the room, and the count is a `uint32_t`.
pub record IsWithin (w : Writer) : Type 0 where
  pub fits : length w.written ≤ w.room
  pub counted : w.size < 2 ^ 32

pub copy_to_buf-IsWithin :
    (bs : Bytes) (w : Writer) → IsWithin w → (v : Writer) → copy_to_buf bs w ≡ some v → IsWithin v
unfolding copy_to_buf
copy_to_buf-IsWithin bs w i v e = ground (arith, length-append w.written bs)

pub copy_to_buf-nil : (w : Writer) → IsWithin w → copy_to_buf [] w ≡ some w
unfolding copy_to_buf
copy_to_buf-nil w i = ground (arith, append-nil w.written)

-- Copies that fit the room succeed, and the count is the number of bytes.
pub copy_to_buf-new_buffer :
    (bs : Bytes) (room : ℕ)
    → length bs ≤ room
    → length bs < 2 ^ 32
    → copy_to_buf bs (new_buffer room)
      ≡ some (record { room = room; written = bs; size = length bs })
unfolding copy_to_buf new_buffer
copy_to_buf-new_buffer bs room fits small = ground arith

-- Copies that do not fit write behind the end.
pub copy_to_buf-overflow :
    (bs : Bytes) (room : ℕ) → room < length bs → copy_to_buf bs (new_buffer room) ≡ none
unfolding copy_to_buf new_buffer
copy_to_buf-overflow bs room h = ground arith

pub from_bytes-u8 : (n : ℕ) → from_bytes (u8 n) ≡ n % 2 ^ 8
unfolding from_bytes
from_bytes-u8 n = omega arith

pub from_bytes-u16 : (n : ℕ) → from_bytes (u16 n) ≡ n % 2 ^ 16
unfolding from_bytes
from_bytes-u16 n = omega arith

pub from_bytes-u32 : (n : ℕ) → n < 2 ^ 32 → from_bytes (u32 n) ≡ n
unfolding from_bytes
from_bytes-u32 n h = omega arith
