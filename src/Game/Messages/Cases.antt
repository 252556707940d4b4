-- ===== src/Game/Messages/Cases.antt =====
-- The branches of `handleMessage`, as one rule: what holds on each of them holds of its outcome.
use mathlib.Core.Option.{some-injective}
use pr_shooter.Prelude.{
  ℕ, ◌≡◌, refl, Option, none, some, List, [], ◌∷◌, ◌++◌, ◌==◌, inl, inr, Bool-cases,
}
use pr_shooter.Machine.{Machine}
use pr_shooter.Wire.{Bytes, ◌>>=◌, read_at, from_bytes, Message}
use package.pr_shooter.Game.{Game}
use package.pr_shooter.Game.Handlers.{
  Dice, create_new_player, delete_player, shoot_projectile, spawn_player, change_player_orientation,
  change_player_movement,
}
use package.pr_shooter.Game.Serialize.{serialize_map, welcome}
use package.pr_shooter.Game.Messages.{
  MessageType, new_connection, lost_connection, message, IncomingMessage, Event, lock, unlock,
  send_to, spawn, shoot, change_orientation, change_movement_direction, ping, pong, handle_data,
  count_packet, finish, handle_new_connection, handle_typed, handle_message,
}

-- An outcome that is not a fault satisfies `P`.
abbrev pub Ensures : {A : Type 0} → (A → Type 0) → Option A → Type 0
Ensures P none = Unit {0}
Ensures P (some a) = P a

pub Ensures-some :
    {A : Type 0} (P : A → Type 0) (o : Option A) (a : A) → Ensures P o → o ≡ some a → P a
Ensures-some P none a h e = absurd (cc)
Ensures-some P (some b) a h e = rw (← some-injective _ _ e) h

pub Ensures-of :
    {A : Type 0} (P : A → Type 0) (o : Option A) → ((a : A) → o ≡ some a → P a) → Ensures P o
Ensures-of P none h = tt
Ensures-of P (some a) h = h a refl

pub Ensures->>= :
    {A B : Type 0} (P : B → Type 0) (o : Option A) (f : A → Option B)
    → ((a : A) → Ensures P (f a))
    → Ensures P (o >>= f)
Ensures->>= P none f h = tt
Ensures->>= P (some a) f h = h a

-- The same, where the first part ensures `Q`.
pub Ensures->>=_of :
    {A B : Type 0} (Q : A → Type 0) (P : B → Type 0) (o : Option A) (f : A → Option B)
    → Ensures Q o
    → ((a : A) → Q a → Ensures P (f a))
    → Ensures P (o >>= f)
Ensures->>=_of Q P none f q h = tt
Ensures->>=_of Q P (some a) f q h = h a q

module _ {m : Machine} (dice : Dice m) (P : Game m × List Event → Type 0) where
  pub handle_data_cases :
      (kind id : ℕ) (buffer : Bytes) (g : Game m)
      → P (spawn_player dice id g, [])
      → P (shoot_projectile id g, [])
      → ((angle : m.Single) → P (change_player_orientation id angle g, []))
      → ((x y : m.Double) → P (change_player_movement id x y g, []))
      → ((answer : Message) → P (g, send_to answer id ∷ []))
      → P (g, [])
      → Ensures P (handle_data dice kind id buffer g)
  unfolding handle_data
  handle_data_cases kind id buffer g spawned shot turned moved ponged other =
      elim (Bool-cases (kind == spawn)) [
        | inl e ↦ rw e spawned
        | inr e ↦ rw e (elim (Bool-cases (kind == shoot)) [
          | inl e ↦ rw e shot
          | inr e ↦ rw e (elim (Bool-cases (kind == change_orientation)) [
            | inl e ↦ rw e (Ensures->>= P (read_at 1 4 buffer) _ (λ angle. turned _))
            | inr e ↦ rw e (elim (Bool-cases (kind == change_movement_direction)) [
              | inl e ↦ rw e (
                  Ensures->>= P (read_at 1 8 buffer) _
                    (λ x. Ensures->>= P (read_at 9 8 buffer) _ (λ y. moved _ _)))
              | inr e ↦ rw e (elim (Bool-cases (kind == ping)) [
                | inl e ↦ rw e (Ensures->>= P (pong buffer) _ (λ answer. ponged answer))
                | inr e ↦ rw e other
              ])
            ])
          ])
        ])
      ]

  -- The branches of the whole handler, where `Q` is what `handle_data` ensures.
  handle_typed_cases :
      (Q : Game m × List Event → Type 0) (kind : MessageType) (duration id : ℕ) (buffer : Bytes)
      (g : Game m)
      → P (g, [])
      → ((greeting world : Message)
          → P (create_new_player id g, lock ∷ send_to greeting id ∷ unlock ∷ send_to world id ∷ []))
      → P (count_packet id duration (delete_player id g), lock ∷ unlock ∷ [])
      → ((data_kind : ℕ) → Ensures Q (handle_data dice data_kind id buffer g))
      → ((g' : Game m) (events : List Event)
          → Q (g', events)
          → P (count_packet id duration g', lock ∷ (events ++ (unlock ∷ []))))
      → Ensures P (handle_typed dice kind duration id buffer g)
  unfolding handle_typed handle_new_connection
  handle_typed_cases Q MessageType.empty duration id buffer g idle created deleted inner finished =
      idle
  handle_typed_cases Q new_connection duration id buffer g idle created deleted inner finished =
      Ensures->>= P (welcome m id) _ (λ greeting.
        Ensures->>= P (serialize_map (create_new_player id g).game_map) _
          (λ world. created greeting world))
  handle_typed_cases Q lost_connection duration id buffer g idle created deleted inner finished =
      deleted
  handle_typed_cases Q message duration id buffer g idle created deleted inner finished =
      Ensures->>= P (read_at 0 1 buffer) _ λ kind.
        Ensures->>=_of Q P (handle_data dice (from_bytes kind) id buffer g) (finish id duration)
          (inner (from_bytes kind)) (λ (g', events) q. finished g' events q)

  pub handle_message_cases :
      (Q : Game m × List Event → Type 0) (duration : ℕ) (incoming : IncomingMessage) (g : Game m)
      → P (g, [])
      → ((greeting world : Message)
          → P (
            create_new_player incoming.client_id g,
            lock
                ∷ send_to greeting incoming.client_id
                ∷ unlock
                ∷ send_to world incoming.client_id
                ∷ [],
          ))
      → P (
        count_packet incoming.client_id duration (delete_player incoming.client_id g),
        lock ∷ unlock ∷ [],
      )
      → ((data_kind : ℕ)
          → Ensures Q (handle_data dice data_kind incoming.client_id incoming.buffer g))
      → ((g' : Game m) (events : List Event)
          → Q (g', events)
          → P (count_packet incoming.client_id duration g', lock ∷ (events ++ (unlock ∷ []))))
      → Ensures P (handle_message dice duration incoming g)
  unfolding handle_message
  handle_message_cases Q duration incoming g =
      handle_typed_cases Q incoming.message_type duration incoming.client_id incoming.buffer g
