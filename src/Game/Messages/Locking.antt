-- ===== src/Game/Messages/Locking.antt =====
-- How `handleMessage` uses `update_mutex`.
use pr_shooter.Prelude.{
  ℕ, ◌≡◌, refl, Bool, true, false, Option, none, some, List, [], ◌∷◌, ◌⊎◌, inl, inr,
}
use pr_shooter.Machine.{Machine}
use pr_shooter.Wire.{Message}
use package.pr_shooter.Game.{Game}
use package.pr_shooter.Game.Handlers.{Dice}
use package.pr_shooter.Game.Messages.{IncomingMessage, Event, lock, unlock, send_to, handle_message}
use package.pr_shooter.Game.Messages.Cases.{Ensures-some, handle_data_cases, handle_message_cases}

-- The mutex after a run of events: `none` where a mutex that is held would be locked again, or one
-- that is free would be given back.
unfoldable pub held_after : Bool → List Event → Option Bool
held_after held [] = some held
held_after false (lock ∷ events) = held_after true events
held_after true (lock ∷ events) = none
held_after true (unlock ∷ events) = held_after false events
held_after false (unlock ∷ events) = none
held_after held (send_to _ _ ∷ events) = held_after held events

-- the clients that messages are sent to
unfoldable pub recipients : List Event → List ℕ
recipients [] = []
recipients (lock ∷ events) = recipients events
recipients (unlock ∷ events) = recipients events
recipients (send_to _ id ∷ events) = id ∷ recipients events

-- Every message goes to client `id`.
abbrev pub OnlyTo : ℕ → List ℕ → Type 0
OnlyTo id [] = Unit {0}
OnlyTo id (j ∷ ids) = (j ≡ id) × OnlyTo id ids

module _ {m : Machine} where
  -- Whatever the message, the mutex is taken before it is given back, is never taken twice, and is
  -- free at the end if it was free at the start; and everything that is sent goes to the client
  -- that the message came from.
  pub handle_message_locking :
      (dice : Dice m) (duration : ℕ) (incoming : IncomingMessage) (g g' : Game m)
      (events : List Event)
      → handle_message dice duration incoming g ≡ some (g', events)
      → (held_after false events ≡ some false) × OnlyTo incoming.client_id (recipients events)
  unfolding held_after recipients
  handle_message_locking dice duration incoming g g' events e =
      Ensures-some Free (handle_message dice duration incoming g) (g', events)
        (handle_message_cases dice Free Inner duration incoming g (refl, tt)
          (λ greeting world. (refl, (refl, (refl, tt)))) (refl, tt)
          (λ kind.
            handle_data_cases dice Inner kind incoming.client_id incoming.buffer g (inl refl)
              (inl refl) (λ angle. inl refl) (λ x y. inl refl) (λ answer. inr (answer, refl))
              (inl refl))
          (λ g'' es q. elim q [
            | inl none_sent ↦ rw none_sent (refl, tt)
            | inr (answer, sent) ↦ rw sent (refl, (refl, tt))
          ]))
        e
    where
      Free : Game m × List Event → Type 0
      Free (h, es) = (held_after false es ≡ some false) × OnlyTo incoming.client_id (recipients es)

      Inner : Game m × List Event → Type 0
      Inner (h, es) =
          (es ≡ []) ⊎ ((answer : Message) × (es ≡ send_to answer incoming.client_id ∷ []))
