-- ===== src/Client/Commands/Handled.antt =====
-- What the client sends is what the game handles.
use mathlib.Core.List.{append-nil}
use pr_shooter.Prelude.{
  ℕ, ◌+◌, ◌^◌, ◌<◌, ◌≡◌, refl, ◌∙◌, ap, subst, true, some, List, [], ◌∷◌, ◌++◌, arith, length, take,
  drop, length-append, take-append, drop-append, leb,
}
use pr_shooter.Machine.{Machine, HasBytes}
use pr_shooter.Wire.{Bytes, u8, u16, ◌>>=◌, read_at, from_bytes}
use pr_shooter.Wire.Laws.{from_bytes-u16}
use pr_shooter.Game.{Game}
use pr_shooter.Game.Handlers.{
  Dice, spawn_player, shoot_projectile, change_player_orientation, change_player_movement,
}
use pr_shooter.Game.Messages.{
  IncomingMessage, Event, lock, unlock, send_to, handle_message, handle_data, count_packet,
}
use pr_shooter.Game.Messages.Bounds.{pong_complete}
use pr_shooter.Game.Messages.Data.{handle_message-message}
use pr_shooter.Server.Receive.Thread.{data_message}
use package.pr_shooter.Client.Commands.{
  DataType, spawn, shoot, change_orientation, change_movement_direction, ping, number, Sender,
  direction_to_velocity,
}

-- `xs` behind a prefix of `i` bytes
read_at-append :
    (pre xs post : Bytes) (i n : ℕ)
    → length pre ≡ i
    → length xs ≡ n
    → read_at i n (pre ++ (xs ++ post)) ≡ some xs
unfolding read_at
read_at-append pre xs post i n e e' =
    let fits : leb (i + n) (length (pre ++ (xs ++ post))) ≡ true =
      ground (arith, length-append pre (xs ++ post), length-append xs post) in
    let dropped : drop i (pre ++ (xs ++ post)) ≡ xs ++ post =
      subst (λ k. drop k (pre ++ (xs ++ post)) ≡ xs ++ post) e (drop-append pre (xs ++ post)) in
    let taken : take n (xs ++ post) ≡ xs =
      subst (λ k. take k (xs ++ post) ≡ xs) e' (take-append xs post) in
    rw (fits, dropped, taken) refl

module _ {m : Machine} where
  -- what the game is to do for a command
  abbrev pub meant : Dice m → DataType → Sender m → ℕ → Game m → Game m × List Event
  meant dice spawn c id g = (spawn_player dice id g, [])
  meant dice shoot c id g = (shoot_projectile id g, [])
  meant dice change_orientation c id g = (change_player_orientation id c.angle g, [])
  meant dice change_movement_direction c id g =
      let v = direction_to_velocity m c.direction in (change_player_movement id v.x v.y g, [])
  meant dice ping c id g =
      (g, send_to (record { size = 3; content = u8 14 ++ u16 (c.last_ping + 1) }) id ∷ [])

  abbrev pub body_of : DataType → Sender m → Bytes
  body_of spawn c = number spawn ∷ []
  body_of shoot c = number shoot ∷ []
  body_of change_orientation c = number change_orientation ∷ m.single_bytes c.angle
  body_of change_movement_direction c =
      number change_movement_direction
      ∷ (m.double_bytes (direction_to_velocity m c.direction).x
          ++ m.double_bytes (direction_to_velocity m c.direction).y)
  body_of ping c = number ping ∷ u16 (c.last_ping + 1)

  -- The game handles the message as the command of this client is meant, in whatever state it is.
  abbrev pub IsHeard : ℕ → DataType → Sender m → IncomingMessage → Type 0
  IsHeard client_id data_type c incoming =
      (dice : Dice m) (duration : ℕ) (g : Game m)
      → handle_message dice duration incoming g
        ≡ some (
          count_packet client_id duration (meant dice data_type c client_id g).0,
          lock ∷ ((meant dice data_type c client_id g).1 ++ (unlock ∷ [])),
        )

  pub body_of-IsHeard :
      HasBytes m
      → (id : ℕ) (t : DataType) (c : Sender m) → c.last_ping + 1 < 2 ^ 16
      → IsHeard id t c (data_message id (body_of t c))
  unfolding handle_data
  body_of-IsHeard bytes id spawn c small dice duration g =
      handle_message-message dice duration id (number spawn) [] g (meant dice spawn c id g) refl
  body_of-IsHeard bytes id shoot c small dice duration g =
      handle_message-message dice duration id (number shoot) [] g (meant dice shoot c id g) refl
  body_of-IsHeard bytes id change_orientation c small dice duration g =
      let angle = m.single_bytes c.angle in
      let kind = number change_orientation in
      let read : read_at 1 4 (kind ∷ angle) ≡ some angle =
        subst (λ xs. read_at 1 4 (kind ∷ xs) ≡ some angle) (append-nil angle)
          (read_at-append (kind ∷ []) angle [] 1 4 refl (bytes.length-single_bytes c.angle)) in
      handle_message-message dice duration id kind angle g (meant dice change_orientation c id g)
        (rw (read, ◌>>=◌) (rw (bytes.single_of-single_bytes c.angle) refl))
  body_of-IsHeard bytes id change_movement_direction c small dice duration g =
      let v = direction_to_velocity m c.direction in
      let kind = number change_movement_direction in
      let x = m.double_bytes v.x in
      let y = m.double_bytes v.y in
      let read_x : read_at 1 8 (kind ∷ (x ++ y)) ≡ some x =
        read_at-append (kind ∷ []) x y 1 8 refl (bytes.length-double_bytes v.x) in
      let read_y : read_at 9 8 (kind ∷ (x ++ y)) ≡ some y =
        subst (λ ys. read_at 9 8 (kind ∷ (x ++ ys)) ≡ some y) (append-nil y)
          (read_at-append (kind ∷ x) y [] 9 8 (omega (arith, bytes.length-double_bytes v.x))
            (bytes.length-double_bytes v.y)) in
      handle_message-message dice duration id kind (x ++ y) g
        (meant dice change_movement_direction c id g)
        (rw (read_x, ◌>>=◌)
          (rw (read_y, ◌>>=◌)
            (rw (bytes.double_of-double_bytes v.x, bytes.double_of-double_bytes v.y) refl)))
  body_of-IsHeard bytes id ping c small dice duration g =
      let body = body_of ping c in
      let n = c.last_ping + 1 in
      let same : from_bytes (u16 n) ≡ n = from_bytes-u16 n ∙ omega arith in
      handle_message-message dice duration id (number ping) (u16 (c.last_ping + 1)) g
        (meant dice ping c id g)
        (rw (pong_complete body (omega arith), ◌>>=◌)
          (ap (λ k. some (g, send_to (record { size = 3; content = u8 14 ++ u16 k }) id ∷ []))
            same))
