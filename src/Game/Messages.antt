-- ===== src/Game/Messages.antt =====
-- `Game::handleMessage` of Host/game.cpp, with `sendWelcomeMessage` and the answer to a ping.
pub mod Cases
pub mod Isolation
pub mod Locking
pub mod Bounds
pub mod Invariant
pub mod Presence
pub mod Data
use pr_shooter.Prelude.{
  ℕ, ◌+◌, ◌*◌, ◌%◌, ◌^◌, Bool, Option, none, some, List, [], ◌∷◌, ◌++◌, if◌then◌else◌, ◌==◌, length,
}
use pr_shooter.Table.{Table, modify}
use pr_shooter.Machine.{Machine}
use pr_shooter.Wire.{
  Bytes, ◌>>=◌, u8, u16, new_buffer, copy_to_buf, Message, message_of, read_at, from_bytes,
}
use package.pr_shooter.Game.{Game, record_time, receive}
use package.pr_shooter.Game.Handlers.{
  Dice, create_new_player, delete_player, shoot_projectile, spawn_player, change_player_orientation,
  change_player_movement,
}
use package.pr_shooter.Game.Serialize.{serialize_map, welcome}

-- `IncomingMessage` of Server/server_structs.h; the buffer is as long as the message's size.
pub data MessageType : Type 0 where
  new_connection lost_connection empty message : MessageType

pub record IncomingMessage : Type 0 where
  pub message_type : MessageType
  pub client_id : ℕ
  pub buffer : Bytes

-- what `handleMessage` does that others can see, in order
pub data Event : Type 0 where
  lock unlock : Event
  send_to : Message → ℕ → Event

-- `none` is a read behind the end of the message or a write behind the end of a buffer.
abbrev pub Outcome : Machine → Type 0
Outcome m = Option (Game m × List Event)

-- `enum DataType`, what comes in
abbrev pub spawn : ℕ
spawn = 10

abbrev pub shoot : ℕ
shoot = 11

abbrev pub change_orientation : ℕ
change_orientation = 12

abbrev pub change_movement_direction : ℕ
change_movement_direction = 13

abbrev pub ping : ℕ
ping = 14

-- the answer to a ping: its kind and the number that the client sent
unfoldable pub pong : Bytes → Option Message
pong buffer = copy_to_buf (u8 ping) (new_buffer 3) >>= λ w. read_at 1 2 buffer >>= λ number.
    copy_to_buf (u16 (from_bytes number)) w >>= λ v. some (record { size = 3; content = v.written })

module _ {m : Machine} where
  -- The end of `handleMessage`: the time taken, and one more packet received from the client.
  unfoldable pub count_packet : ℕ → ℕ → Game m → Game m
  unfolding record_time
  count_packet id duration g = record g {
    packets = modify (0, 0) id (λ (received, sent). ((received + 1) % 2 ^ 64, sent)) g.packets;
    calc_time = record_time (length g.players) (length g.projectiles) receive duration g.calc_time;
  }

  finish : ℕ → ℕ → Game m × List Event → Outcome m
  unfolding count_packet
  finish id duration (g, events) =
      some (count_packet id duration g, lock ∷ (events ++ (unlock ∷ [])))

  -- `case NEW_CONNECTION`; the map is sent after the lock is given back.
  unfoldable pub handle_new_connection : ℕ → Game m → Outcome m
  handle_new_connection id g =
      let created = create_new_player id g in
      welcome m id >>= λ greeting. serialize_map created.game_map >>= λ map_message.
      some (created, lock ∷ send_to greeting id ∷ unlock ∷ send_to map_message id ∷ [])

module _ {m : Machine} (dice : Dice m) where
  open m use {double_of, single_of}

  -- the inner `switch`, on the first byte of the message
  unfoldable pub handle_data : ℕ → ℕ → Bytes → Game m → Outcome m
  unfolding pong
  handle_data kind id buffer g =
      if kind == spawn
      then some (spawn_player dice id g, [])
      else if kind == shoot
      then some (shoot_projectile id g, [])
      else if kind == change_orientation
      then (read_at 1 4 buffer >>= λ angle.
          some (change_player_orientation id (single_of angle) g, []))
      else if kind == change_movement_direction
      then (read_at 1 8 buffer >>= λ x. read_at 9 8 buffer >>= λ y.
          some (change_player_movement id (double_of x) (double_of y) g, []))
      else if kind == ping
      then (pong buffer >>= λ answer. some (g, send_to answer id ∷ []))
      else some (g, [])

  -- the outer `switch` of `handleMessage`
  handle_typed : MessageType → ℕ → ℕ → Bytes → Game m → Outcome m
  unfolding finish handle_data
  handle_typed MessageType.empty duration id buffer g = some (g, [])
  handle_typed new_connection duration id buffer g = handle_new_connection id g
  handle_typed lost_connection duration id buffer g = finish id duration (delete_player id g, [])
  handle_typed message duration id buffer g = read_at 0 1 buffer >>= λ kind.
      handle_data (from_bytes kind) id buffer g >>= finish id duration

  -- `handleMessage`, where `duration` is the time that it takes
  unfoldable pub handle_message : ℕ → IncomingMessage → Game m → Outcome m
  unfolding handle_typed
  handle_message duration incoming =
      handle_typed incoming.message_type duration incoming.client_id incoming.buffer
