-- ===== src/Tests/Witnesses.antt =====
-- The theorems at the small game.
use pr_shooter.Prelude.{◌<◌, ◌≡◌, refl, ◌↔◌, false, none, some, [], ◌∷◌, length}
use pr_shooter.Wire.{read_at, from_bytes}
use pr_shooter.Game.Handlers.{spawn_player}
use pr_shooter.Game.Handlers.Invariant.{IsValidGame}
use pr_shooter.Game.Messages.{count_packet, handle_message, lock, unlock}
use pr_shooter.Game.Messages.Invariant.{handle_message-IsValidGame}
use pr_shooter.Game.Messages.Isolation.{SameForOthers, handle_message-SameForOthers}
use pr_shooter.Game.Messages.Locking.{held_after, OnlyTo, recipients, handle_message_locking}
use pr_shooter.Game.Messages.Bounds.{needed_size, handle_message-eq-none_iff}
use package.pr_shooter.Tests.{
  sample, dice, sample-IsValidGame, whole-RestIsSlow, spawn_request, short_request,
}

handle_message-IsValidGame_example : IsValidGame (count_packet 9 5 (spawn_player dice 9 sample))
unfolding handle_message read_at from_bytes
handle_message-IsValidGame_example =
    handle_message-IsValidGame dice 5 spawn_request sample
      (count_packet 9 5 (spawn_player dice 9 sample)) (lock ∷ unlock ∷ []) whole-RestIsSlow
      sample-IsValidGame refl

handle_message-SameForOthers_example :
    SameForOthers 9 sample (count_packet 9 5 (spawn_player dice 9 sample))
unfolding handle_message read_at from_bytes
handle_message-SameForOthers_example =
    handle_message-SameForOthers dice 5 spawn_request sample
      (count_packet 9 5 (spawn_player dice 9 sample)) (lock ∷ unlock ∷ []) refl

handle_message_locking_example :
    (held_after false (lock ∷ unlock ∷ []) ≡ some false)
    × OnlyTo 9 (recipients (lock ∷ unlock ∷ []))
unfolding handle_message read_at from_bytes
handle_message_locking_example =
    handle_message_locking dice 5 spawn_request sample
      (count_packet 9 5 (spawn_player dice 9 sample)) (lock ∷ unlock ∷ []) refl

handle_message-eq-none_iff_example :
    (handle_message dice 5 short_request sample ≡ none)
    ↔ (length short_request.buffer < needed_size short_request.buffer)
handle_message-eq-none_iff_example = handle_message-eq-none_iff dice 5 short_request sample refl
