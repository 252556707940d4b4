-- ===== src/Host/Ghosts.antt =====
-- A client that leaves before the host has handled its arrival.
use mathlib.Core.Option.{some-injective}
use pr_shooter.Prelude.{ℕ, ◌≡◌, Option, none, some, true, List, [], ◌∷◌, map, sym, ap, subst, ◌∙◌}
use pr_shooter.Machine.{Machine}
use pr_shooter.Wire.{Bytes}
use pr_shooter.Game.{Game}
use pr_shooter.Game.Handlers.{Dice}
use pr_shooter.Game.Messages.{
  IncomingMessage, Event, new_connection, lost_connection, handle_message,
}
use pr_shooter.Game.Messages.Cases.{Ensures, Ensures-of, Ensures->>=, Ensures->>=_of}
use pr_shooter.Game.Messages.Presence.{IsInGame, handle_message-IsInGame, new_connection-IsInGame}
use pr_shooter.Server.Queue.Interface.{QueueOf}
use pr_shooter.Server.Receive.{Round, receive_loop, start_receiving, notice, perform_all}
use pr_shooter.Server.Receive.Thread.{data_message, contents}
use pr_shooter.Server.Receive.Delivery.{start_receiving-Contains}
use package.pr_shooter.Host.{Pass, receive_thread}
use package.pr_shooter.Host.Threads.{handle_in_order, Agree, receive_thread-handle_in_order}

-- a pass during which nothing arrives
abbrev pub quiet : {m : Machine} → ℕ × Dice m → Pass m
quiet (duration, dice) = record { arrived = []; duration = duration; dice = dice }

module _ {m : Machine} (client_id : ℕ) where
  abbrev Ghost : List IncomingMessage × Game m × List Event → Type 0
  Ghost (xs, g, events) = IsInGame client_id g

  abbrev GhostAfter : Game m × List Event → Type 0
  GhostAfter (g, events) = IsInGame client_id g

  -- Behind his own messages a client is still in the game.
  handle_in_order-IsInGame :
      (draws : List (ℕ × Dice m)) (contents : List Bytes) (g : Game m)
      → IsInGame client_id g
      → Ensures Ghost (handle_in_order (map quiet draws) (map (data_message client_id) contents) g)
  handle_in_order-IsInGame [] contents g h = h
  handle_in_order-IsInGame (_ ∷ draws) [] g h = handle_in_order-IsInGame draws [] g h
  handle_in_order-IsInGame ((duration, dice) ∷ draws) (bytes ∷ contents) g h =
      Ensures->>=_of GhostAfter Ghost
        (handle_message dice duration (data_message client_id bytes) g) _
        (Ensures-of GhostAfter _ (λ (after, events).
          handle_message-IsInGame client_id dice duration bytes g after events h))
        (λ (after, events) there.
          Ensures->>=_of Ghost Ghost
            (handle_in_order (map quiet draws) (map (data_message client_id) contents) after) _
            (handle_in_order-IsInGame draws contents after there)
            (λ (xs, last, later) there'. there'))

  announced-IsInGame :
      (pass : ℕ × Dice m) (draws : List (ℕ × Dice m)) (contents : List Bytes) (g : Game m)
      → Ensures Ghost (
          handle_in_order
            (map quiet (pass ∷ draws))
            (notice new_connection client_id ∷ map (data_message client_id) contents)
            g)
  announced-IsInGame (duration, dice) draws contents g =
      Ensures->>=_of GhostAfter Ghost
        (handle_message dice duration (notice new_connection client_id) g) _
        (Ensures-of GhostAfter _
          (λ (after, events). new_connection-IsInGame client_id dice duration [] g after events))
        (λ (after, events) there.
          Ensures->>=_of Ghost Ghost
            (handle_in_order (map quiet draws) (map (data_message client_id) contents) after) _
            (handle_in_order-IsInGame draws contents after there)
            (λ (xs, last, later) there'. there'))

  arrived_late-IsInGame :
      (first second : ℕ × Dice m) (draws : List (ℕ × Dice m)) (contents : List Bytes) (g : Game m)
      → Ensures Ghost (
          handle_in_order
            (map quiet (first ∷ second ∷ draws))
            (notice lost_connection client_id
              ∷ notice new_connection client_id
              ∷ map (data_message client_id) contents)
            g)
  arrived_late-IsInGame (duration, dice) second draws contents g =
      Ensures->>= Ghost (handle_message dice duration (notice lost_connection client_id) g) _
        (λ (gone, events).
          Ensures->>=_of Ghost Ghost
            (handle_in_order (map quiet (second ∷ draws))
              (notice new_connection client_id ∷ map (data_message client_id) contents) gone)
            _ (announced-IsInGame second draws contents gone) (λ (xs, last, later) there. there))

  module _ (q : QueueOf IncomingMessage) where
    abbrev EndsWith : Option (q.State × Game m × List Event) → Type 0
    EndsWith r =
        (s : q.State) (g : Game m) (events : List Event)
        → r ≡ some (s, g, events)
        → IsInGame client_id g

    Agree-EndsWith :
        (o : Option (List IncomingMessage × Game m × List Event))
        (r : Option (q.State × Game m × List Event))
        → Agree q o r
        → Ensures Ghost o
        → EndsWith r
    Agree-EndsWith none r e there s g events e' = absurd (cc)
    Agree-EndsWith (some (xs, g', events')) r (s', e, h) there s g events e' =
        let same =
          ap (λ (x : q.State × Game m × List Event). x.1) (some-injective _ _ (sym e ∙ e')) in
        subst (IsInGame client_id) same there

    -- If the thread of a client runs to its end while nothing waits, before `receiveThread` takes
    -- anything, and nothing else arrives, then the client is in the game after every run of two
    -- passes or more that does not fault, however many there are, although his connection is
    -- closed: the notice that he is lost is handled before the notice that he is new.
    pub start_receiving-IsInGame :
        (rounds : List Round) (s : q.State) (first second : ℕ × Dice m) (draws : List (ℕ × Dice m))
        (g : Game m)
        → (receive_loop client_id rounds).1 ≡ true
        → q.Contains s []
        → (after : q.State) × (perform_all q (start_receiving client_id rounds) s ≡ some after)
          × EndsWith (receive_thread q (map quiet (first ∷ second ∷ draws)) after g)
    start_receiving-IsInGame rounds s first second draws g left h =
        let sent = contents (receive_loop client_id rounds).0 in
        let (after, done, h') = start_receiving-Contains q client_id rounds s [] left h in
        let passes = map quiet (first ∷ second ∷ draws) in
        let waiting =
          notice lost_connection client_id
          ∷ notice new_connection client_id
          ∷ map (data_message client_id) sent in
        (
          after,
          done,
          Agree-EndsWith (handle_in_order passes waiting g) (receive_thread q passes after g)
              (receive_thread-handle_in_order q passes after waiting g h')
              (arrived_late-IsInGame first second draws sent g),
        )
