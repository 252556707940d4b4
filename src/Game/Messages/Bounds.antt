-- ===== src/Game/Messages/Bounds.antt =====
-- Which messages the handler reads beyond their end: those that are shorter than their kind needs.
use native.Mathlib.Decide.{dec_le}
use pr_shooter.Prelude.{
  ℕ, ◌≤◌, ◌<◌, ◌≡◌, refl, ◌↔◌, Option, none, some, [], ◌∷◌, arith, ◌==◌, if◌then◌else◌, length,
  take, drop, ◌++◌, ◌≢◌,
}
use pr_shooter.Machine.{Machine}
use pr_shooter.Wire.{Bytes, u8, u16, ◌>>=◌, read_at, from_bytes, Message, copy_to_buf, new_buffer}
use package.pr_shooter.Game.{Game}
use package.pr_shooter.Game.Handlers.{Dice}
use package.pr_shooter.Game.Messages.{
  message, IncomingMessage, Outcome, change_orientation, change_movement_direction, ping, pong,
  handle_data, finish, handle_typed, handle_message,
}

-- The bytes of a message of each kind, with the byte that says the kind: an angle is a `float`, a
-- velocity two `double`s, the number of a ping a `uint16_t`.
unfoldable pub needed : ℕ → ℕ
needed kind =
    if kind == change_orientation
    then 5
    else if kind == change_movement_direction
    then 17
    else if kind == ping
    then 3
    else 1

unfoldable pub needed_size : Bytes → ℕ
unfolding needed
needed_size [] = 1
needed_size (kind ∷ _) = needed kind

abbrev IsFault : {A : Type 0} → Option A → Type 0
IsFault o = o ≡ none

pong_short : (buffer : Bytes) → length buffer < 3 → pong buffer ≡ none
unfolding pong read_at copy_to_buf new_buffer
pong_short buffer h = ground arith

-- the answer repeats the number of the ping
abbrev pub answer_to : Bytes → Message
answer_to buffer = record {
  size = 3;
  content = u8 ping ++ u16 (from_bytes (take 2 (drop 1 buffer)));
}

pub pong_complete : (buffer : Bytes) → 3 ≤ length buffer → pong buffer ≡ some (answer_to buffer)
unfolding pong read_at copy_to_buf new_buffer
pong_complete buffer h = ground arith

no_byte : read_at 0 1 [] ≡ none
unfolding read_at
no_byte = refl

pub first_byte : (kind : ℕ) (rest : Bytes) → read_at 0 1 (kind ∷ rest) ≡ some (kind ∷ [])
unfolding read_at
first_byte kind rest = ground arith

pub from_bytes-byte : (kind : ℕ) → from_bytes (kind ∷ []) ≡ kind
unfolding from_bytes
from_bytes-byte kind = omega arith

module _ {m : Machine} (dice : Dice m) where
  handle_data_short :
      (kind id : ℕ) (buffer : Bytes) (g : Game m)
      → 1 ≤ length buffer
      → length buffer < needed kind
      → handle_data dice kind id buffer g ≡ none
  unfolding handle_data needed read_at
  handle_data_short kind id buffer g start h = ground (arith, pong_short buffer)

  handle_data_complete :
      (kind id : ℕ) (buffer : Bytes) (g : Game m)
      → needed kind ≤ length buffer
      → handle_data dice kind id buffer g ≢ none
  unfolding handle_data needed read_at
  handle_data_complete kind id buffer g h = ground (arith, pong_complete buffer)

  needed_pos : (kind : ℕ) → 1 ≤ needed kind
  unfolding needed
  needed_pos kind = ground arith

  finish-ne-none : (id duration : ℕ) (o : Outcome m) → o ≢ none → (o >>= finish id duration) ≢ none
  unfolding finish
  finish-ne-none id duration none h = h
  finish-ne-none id duration (some (g, events)) h = λ e. cc

  typed_message_iff :
      (duration id : ℕ) (buffer : Bytes) (g : Game m)
      → (handle_typed dice message duration id buffer g ≡ none)
        ↔ (length buffer < needed_size buffer)
  unfolding handle_typed needed_size
  typed_message_iff duration id [] g = (λ _. omega arith, λ _. rw (no_byte, ◌>>=◌))
  typed_message_iff duration id (kind ∷ rest) g =
      rw (first_byte kind rest, from_bytes-byte kind)
        (
          λ e. elim (dec_le (needed kind) (length buffer)) [
            | yes h ↦ absurd (
                finish-ne-none id duration (handle_data dice kind id buffer g)
                  (handle_data_complete kind id buffer g h) e)
            | no h ↦ omega arith
          ],
          λ h. rw (handle_data_short kind id buffer g (omega arith) h, ◌>>=◌),
        )
    where
      buffer : Bytes
      buffer = kind ∷ rest

  -- A message with data is read behind its end exactly when it is shorter than its kind needs: a
  -- byte for the kind, and behind it 4 for an orientation, 16 for a movement, 2 for a ping.
  pub handle_message-eq-none_iff :
      (duration : ℕ) (incoming : IncomingMessage) (g : Game m)
      → incoming.message_type ≡ message
      → (handle_message dice duration incoming g ≡ none)
        ↔ (length incoming.buffer < needed_size incoming.buffer)
  unfolding handle_message
  handle_message-eq-none_iff duration incoming g e =
      rw e (typed_message_iff duration incoming.client_id incoming.buffer g)
