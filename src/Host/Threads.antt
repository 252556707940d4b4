-- ===== src/Host/Threads.antt =====
-- The thread that handles messages, over the queue as a list.
use pr_shooter.Prelude.{◌≡◌, refl, Option, none, some, List, [], ◌∷◌, ◌++◌, inl, inr, Option-cases}
use pr_shooter.Machine.{Machine}
use pr_shooter.Wire.{◌>>=◌}
use pr_shooter.Game.{Game}
use pr_shooter.Game.Messages.{IncomingMessage, Event, handle_message}
use pr_shooter.Game.Messages.Presence.{handle_message-empty}
use pr_shooter.Server.Queue.Interface.{QueueOf}
use pr_shooter.Server.Receive.{take_message}
use pr_shooter.Server.Receive.Delivered.{deliver, perform_all-deliver}
use package.pr_shooter.Host.{Pass, receive_thread}

module _ {m : Machine} where
  -- The passes over a list: each handles the first message, if there is one.
  abbrev pub handle_in_order :
      List (Pass m)
      → List IncomingMessage
      → Game m
      → Option (List IncomingMessage × Game m × List Event)
  handle_in_order [] xs g = some (xs, g, [])
  handle_in_order (pass ∷ passes) xs g = elim (deliver pass.arrived xs) [
    | [] ↦ handle_in_order passes [] g
    | x ∷ ys ↦ handle_message pass.dice pass.duration x g >>= λ (after, events).
        handle_in_order passes ys after >>= λ (left, last, later).
        some (left, last, events ++ later)
  ]

  module _ (q : QueueOf IncomingMessage) where
    -- The two runs fault together; else they end with the same game and events, and the queue holds
    -- the list.
    abbrev pub Agree :
        Option (List IncomingMessage × Game m × List Event)
        → Option (q.State × Game m × List Event)
        → Type 0
    Agree none r = r ≡ none
    Agree (some (xs, g, events)) r = (s : q.State) × (r ≡ some (s, g, events)) × q.Contains s xs

    Agree->>= :
        (events : List Event) (o : Option (List IncomingMessage × Game m × List Event))
        (r : Option (q.State × Game m × List Event))
        → Agree o r
        → Agree
            (o >>= λ (left, last, later). some (left, last, events ++ later))
            (r >>= λ (left, last, later). some (left, last, events ++ later))
    Agree->>= events none r e = rw (e, ◌>>=◌) refl
    Agree->>= events (some (xs, g, later)) r (s, e, h) = (s, rw (e, ◌>>=◌) refl, h)

    abbrev take_first :
        Pass m → List (Pass m) → q.State → Game m → Option (q.State × Game m × List Event)
    take_first pass passes waited g = take_message q waited >>= λ (incoming, rest).
        handle_message pass.dice pass.duration incoming g >>= λ (after, events).
        receive_thread q passes rest after >>= λ (left, last, later).
        some (left, last, events ++ later)

    take_first-Agree :
        (pass : Pass m) (passes : List (Pass m)) (ys : List IncomingMessage) (waited : q.State)
        (g : Game m)
        → q.Contains waited ys
        → ((rest : q.State) (zs : List IncomingMessage) (after : Game m)
            → q.Contains rest zs
            → Agree (handle_in_order passes zs after) (receive_thread q passes rest after))
        → Agree
            (elim ys [
              | [] ↦ handle_in_order passes [] g
              | x ∷ zs ↦ handle_message pass.dice pass.duration x g >>= λ (after, events).
                  handle_in_order passes zs after >>= λ (left, last, later).
                  some (left, last, events ++ later)
            ])
            (take_first pass passes waited g)
    unfolding take_message
    take_first-Agree pass passes [] waited g h ih =
        rw (q.has_none_lem waited [] h, handle_message-empty, ◌>>=◌) (idle _ _ (ih waited [] g h))
      where
        idle :
            (o : Option (List IncomingMessage × Game m × List Event))
            (r : Option (q.State × Game m × List Event))
            → Agree o r
            → Agree o (r >>= λ (left, last, later). some (left, last, later))
        idle none r e = rw (e, ◌>>=◌) refl
        idle (some (xs, g, later)) r (s, e, h) = (s, rw (e, ◌>>=◌) refl, h)
    take_first-Agree pass passes (x ∷ zs) waited g h ih =
        let (rest, taken, h') = q.take_front_lem waited x zs h in
        rw (q.has_none_lem waited (x ∷ zs) h) (
          rw (taken, ◌>>=◌)
            (elim (Option-cases (handle_message pass.dice pass.duration x g)) [
              | inl e ↦ rw (e, ◌>>=◌) refl
              | inr ((after, events), e) ↦
                  rw (e, ◌>>=◌)
                    (Agree->>= events (handle_in_order passes zs after)
                      (receive_thread q passes rest after) (ih rest zs after h'))
            ]))

    -- Over a queue that holds a list, `receiveThread` does what its passes do over the list: in
    -- each, the threads of the clients put in what arrives, and the first message that waits is
    -- handled, or nothing is done where none does. The one faults exactly where the other does.
    pub receive_thread-handle_in_order :
        (passes : List (Pass m)) (s : q.State) (xs : List IncomingMessage) (g : Game m)
        → q.Contains s xs
        → Agree (handle_in_order passes xs g) (receive_thread q passes s g)
    unfolding receive_thread
    receive_thread-handle_in_order [] s xs g h = (s, refl, h)
    receive_thread-handle_in_order (pass ∷ passes) s xs g h =
        let (waited, done, h') = perform_all-deliver q pass.arrived s xs h in
        rw (done, ◌>>=◌)
          (take_first-Agree pass passes (deliver pass.arrived xs) waited g h'
            (receive_thread-handle_in_order passes))
