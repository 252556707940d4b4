-- ===== src/Client/Commands/Stream.antt =====
-- The commands of a client, from his keys to the game.
use pr_shooter.Prelude.{
  ℕ, suc, ◌+◌, ◌^◌, ◌≤◌, ◌<◌, ◌≡◌, refl, ◌∙◌, ap, sym, subst, true, Option, some, List, [], ◌∷◌,
  ◌++◌, arith, length, ltb, if◌then◌else◌, length-append, map,
}
use pr_shooter.Machine.{Machine, HasBytes}
use pr_shooter.Wire.{Bytes, u32, ◌>>=◌}
use pr_shooter.Game.Messages.{IncomingMessage}
use pr_shooter.Server.Queue.Interface.{QueueOf}
use pr_shooter.Server.Receive.{receive_loop, perform_all}
use pr_shooter.Server.Receive.Thread.{data_message}
use pr_shooter.Server.Receive.Frames.{
  frame, frames, stream_rounds, IsCut, AllSmall, receive_loop-frames,
}
use package.pr_shooter.Client.Commands.{
  DataType, spawn, shoot, change_orientation, change_movement_direction, ping, Sender, Direction,
  direction_to_velocity, send_message, send_typed,
}
use package.pr_shooter.Client.Commands.Handled.{IsHeard, body_of, body_of-IsHeard}

-- What the client wants to send next, and the fields that his keys and his mouse have set by then.
pub record Turn (m : Machine) : Type 0 where
  pub kind : DataType
  pub angle : m.Single
  pub direction : Direction

-- the bytes of a message of each kind
abbrev size_of : DataType → ℕ
size_of spawn = 1
size_of shoot = 1
size_of change_orientation = 5
size_of change_movement_direction = 17
size_of ping = 3

module _ {m : Machine} where
  abbrev pub turned : Turn m → Sender m → Sender m
  turned turn c = record c { angle = turn.angle; direction = turn.direction }

  -- the commands that the client sends, one after the other, and the bytes that go out
  unfoldable pub send_all : List (Turn m) → Sender m → Option Bytes
  unfolding send_message
  send_all [] c = some []
  send_all (turn ∷ turns) c = send_message turn.kind (turned turn c) >>= λ (bytes, next).
      send_all turns next >>= λ later. some (bytes ++ later)

  abbrev pub after : DataType → Sender m → Sender m
  after ping c = record c { last_ping = c.last_ping + 1 }
  after spawn c = c
  after shoot c = c
  after change_orientation c = c
  after change_movement_direction c = c

  -- The game handles each message as the command of its turn is meant.
  abbrev pub AllHeard : List (Turn m) → Sender m → ℕ → List IncomingMessage → Type 0
  AllHeard [] c client_id [] = Unit {0}
  AllHeard [] c client_id (incoming ∷ queued) = ⊥
  AllHeard (turn ∷ turns) c client_id [] = ⊥
  AllHeard (turn ∷ turns) c client_id (incoming ∷ queued) =
      IsHeard client_id turn.kind (turned turn c) incoming
      × AllHeard turns (after turn.kind (turned turn c)) client_id queued

  abbrev bodies_of : List (Turn m) → Sender m → List Bytes
  bodies_of [] c = []
  bodies_of (turn ∷ turns) c =
      body_of turn.kind (turned turn c) ∷ bodies_of turns (after turn.kind (turned turn c))

  after-last_ping : (t : DataType) (c : Sender m) → (after t c).last_ping ≤ c.last_ping + 1
  after-last_ping ping c = omega arith
  after-last_ping spawn c = omega arith
  after-last_ping shoot c = omega arith
  after-last_ping change_orientation c = omega arith
  after-last_ping change_movement_direction c = omega arith

  after-connected : (t : DataType) (c : Sender m) → (after t c).connected ≡ c.connected
  after-connected ping c = refl
  after-connected spawn c = refl
  after-connected shoot c = refl
  after-connected change_orientation c = refl
  after-connected change_movement_direction c = refl

  module _ (bytes : HasBytes m) where
    length-body_of : (t : DataType) (c : Sender m) → length (body_of t c) ≡ size_of t
    length-body_of spawn c = refl
    length-body_of shoot c = refl
    length-body_of change_orientation c = omega (arith, bytes.length-single_bytes c.angle)
    length-body_of change_movement_direction c =
        let v = direction_to_velocity m c.direction in
        omega (
          arith,
          length-append (m.double_bytes v.x) (m.double_bytes v.y),
          bytes.length-double_bytes v.x,
          bytes.length-double_bytes v.y,
        )
    length-body_of ping c = refl

    size_of_lt : (t : DataType) → size_of t < 2 ^ 31
    size_of_lt spawn = omega arith
    size_of_lt shoot = omega arith
    size_of_lt change_orientation = omega arith
    size_of_lt change_movement_direction = omega arith
    size_of_lt ping = omega arith

    send_typed_sized :
        (t : DataType) (c : Sender m)
        → c.last_ping + 1 < 2 ^ 16
        → send_typed t c ≡ some (u32 (size_of t) ++ body_of t c, after t c)
    unfolding send_typed
    send_typed_sized spawn c small = refl
    send_typed_sized shoot c small = refl
    send_typed_sized change_orientation c small = refl
    send_typed_sized change_movement_direction c small = refl
    send_typed_sized ping c small =
        let fits : ltb (c.last_ping + 1) (2 ^ 16) ≡ true = ground arith in rw fits refl

    send_message-frame :
        (t : DataType) (c : Sender m)
        → c.connected ≡ true
        → c.last_ping + 1 < 2 ^ 16
        → send_message t c ≡ some (frame (body_of t c), after t c)
    unfolding send_message
    send_message-frame t c on small =
        subst
          (λ b.
            (if b then send_typed t c else some ([], c)) ≡ some (frame (body_of t c), after t c))
          (sym on) (rw (length-body_of t c) (send_typed_sized t c small))

    send_all-frames :
        (turns : List (Turn m)) (c : Sender m)
        → c.connected ≡ true
        → c.last_ping + length turns < 2 ^ 16
        → send_all turns c ≡ some (frames (bodies_of turns c))
    unfolding send_all
    send_all-frames [] c on small = refl
    send_all-frames (turn ∷ turns) c on small =
        let next = after turn.kind (turned turn c) in
        let fits = after-last_ping turn.kind (turned turn c) in
        rw (send_message-frame turn.kind (turned turn c) on (omega arith), ◌>>=◌)
          (rw
            (
              send_all-frames turns next (after-connected turn.kind (turned turn c) ∙ on)
                  (omega arith),
              ◌>>=◌,
            )
            refl)

    bodies_of-AllSmall :
        (turns : List (Turn m)) (c : Sender m)
        → AllSmall (bodies_of turns c) × (length (bodies_of turns c) ≡ length turns)
    bodies_of-AllSmall [] c = (tt, refl)
    bodies_of-AllSmall (turn ∷ turns) c =
        let (short, count) = bodies_of-AllSmall turns (after turn.kind (turned turn c)) in
        (
          (omega (arith, length-body_of turn.kind (turned turn c), size_of_lt turn.kind), short),
          ap suc count,
        )

    bodies_of-AllHeard :
        (client_id : ℕ) (turns : List (Turn m)) (c : Sender m)
        → c.last_ping + length turns < 2 ^ 16
        → AllHeard turns c client_id (map (data_message client_id) (bodies_of turns c))
    bodies_of-AllHeard client_id [] c small = tt
    bodies_of-AllHeard client_id (turn ∷ turns) c small =
        let fits = after-last_ping turn.kind (turned turn c) in
        (
          body_of-IsHeard bytes client_id turn.kind (turned turn c) (omega arith),
          bodies_of-AllHeard client_id turns (after turn.kind (turned turn c)) (omega arith),
        )

    -- From the keys of the client to the game, where values are read back from their bytes: a client
    -- that is connected sends commands, whatever his keys and his mouse say by then, so that the
    -- number of his last ping and the number of commands together stay below 65536; then his
    -- connection breaks off, inside a message or between two, or what follows announces a message
    -- of 2^31 bytes or more, where the four bytes of that size are below 2^32. All of it goes out; his thread in the server leaves its loop, and has
    -- put one message for each command into the queue behind those that waited, in order; and the
    -- game handles each of these messages, in whatever state it is by then, as what this client
    -- meant: his player spawns, shoots, turns to the angle or is asked to take the velocity of the
    -- keys, and a ping is answered to him with its own number.
    pub send_all-AllHeard :
        (turns : List (Turn m)) (c : Sender m) (rest : Bytes) (client_id : ℕ)
        (q : QueueOf IncomingMessage) (s : q.State) (xs : List IncomingMessage)
        → c.connected ≡ true
        → c.last_ping + length turns < 2 ^ 16
        → IsCut rest
        → q.Contains s xs
        → (stream : Bytes) × (after : q.State) × (queued : List IncomingMessage) × (send_all turns c
            ≡ some stream)
          × ((receive_loop client_id (stream_rounds (suc (length turns)) (stream ++ rest))).1
              ≡ true)
          × (perform_all q
                (receive_loop client_id (stream_rounds (suc (length turns)) (stream ++ rest))).0
                s
              ≡ some after)
          × q.Contains after (xs ++ queued)
          × AllHeard turns c client_id queued
    send_all-AllHeard turns c rest client_id q s xs on small cut h =
        let bodies = bodies_of turns c in
        let (short, count) = bodies_of-AllSmall turns c in
        let (left, (last, done, holds)) =
          receive_loop-frames client_id q bodies rest s xs short cut h in
        let loop =
          λ (n : ℕ). receive_loop client_id (stream_rounds (suc n) (frames bodies ++ rest)) in
        (
          frames bodies,
          last,
          map (data_message client_id) bodies,
          send_all-frames turns c on small,
          subst (λ n. (loop n).1 ≡ true) count left,
          subst (λ n. perform_all q (loop n).0 s ≡ some last) count done,
          holds,
          bodies_of-AllHeard client_id turns c small,
        )
