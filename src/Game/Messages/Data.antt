-- ===== src/Game/Messages/Data.antt =====
-- `handleMessage` on a message with data, by the byte that says its kind.
use pr_shooter.Prelude.{ℕ, ◌≡◌, refl, some, List, [], ◌∷◌, ◌++◌}
use pr_shooter.Machine.{Machine}
use pr_shooter.Wire.{Bytes, ◌>>=◌}
use package.pr_shooter.Game.{Game}
use package.pr_shooter.Game.Handlers.{Dice}
use package.pr_shooter.Game.Messages.Bounds.{first_byte, from_bytes-byte}
use package.pr_shooter.Game.Messages.{
  message, Event, lock, unlock, handle_message, handle_data, handle_typed, finish, count_packet,
}

pub handle_message-message :
    {m : Machine} (dice : Dice m) (duration id kind : ℕ) (rest : Bytes) (g : Game m)
    (r : Game m × List Event)
    → handle_data dice kind id (kind ∷ rest) g ≡ some r
    → handle_message dice duration
        (record { message_type = message; client_id = id; buffer = kind ∷ rest })
        g
      ≡ some (count_packet id duration r.0, lock ∷ (r.1 ++ (unlock ∷ [])))
unfolding handle_message handle_typed finish
handle_message-message {m} dice duration id kind rest g r e =
    rw (first_byte kind rest, from_bytes-byte kind) (rw (e, ◌>>=◌) refl)
