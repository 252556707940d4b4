-- ===== src/Tests/Commands.antt =====
-- The commands of a client, and the turns of the thread that moves the game.
use pr_shooter.Prelude.{◌+◌, ◌≡◌, refl, some, List, [], ◌∷◌, ◌++◌, arith, inl, true, false, map}
use pr_shooter.Machine.Whole.{whole, whole-HasBytes}
use pr_shooter.Wire.{Bytes}
use pr_shooter.Game.Loop.{Beat, update_tick, update_thread}
use pr_shooter.Game.Loop.Thread.{
  Spends, span, quiet, steady, update_thread-Spends, update_thread-update_tick,
}
use pr_shooter.Game.Messages.{IncomingMessage}
use pr_shooter.Server.Queue.{Queue}
use pr_shooter.Server.Queue.Cells.{Represents}
use pr_shooter.Server.Receive.{receive_loop, perform_all}
use pr_shooter.Server.Receive.Frames.{stream_rounds}
use pr_shooter.Client.Commands.{
  change_orientation, change_movement_direction, ping, Sender, Direction,
}
use pr_shooter.Client.Commands.Stream.{Turn, send_all, AllHeard, send_all-AllHeard}
use package.pr_shooter.Tests.{sample}
use package.pr_shooter.Tests.Servers.{incoming, nothing_waits, nothing_waits-Represents}

abbrev keys : Direction
keys = record { left = true; up = true; right = false; down = false }

abbrev client : Sender whole
client = record { connected = true; angle = whole.single_zero; direction = keys; last_ping = 300 }

abbrev turns : List (Turn whole)
turns =
    record { kind = change_movement_direction; angle = whole.single_zero; direction = keys }
    ∷ record { kind = change_orientation; angle = whole.single_zero; direction = keys }
    ∷ record { kind = ping; angle = whole.single_zero; direction = keys }
    ∷ []

-- The connection breaks off inside the size of a message.
abbrev broken_off : Bytes
broken_off = 1 ∷ 0 ∷ []

send_all-AllHeard_example :
    (stream : Bytes) × (after : Queue IncomingMessage) × (queued : List IncomingMessage) × (send_all
        turns client
      ≡ some stream)
    × ((receive_loop 7 (stream_rounds 4 (stream ++ broken_off))).1 ≡ true)
    × (perform_all incoming
          (receive_loop 7 (stream_rounds 4 (stream ++ broken_off))).0
          nothing_waits
        ≡ some after)
    × Represents after queued
    × AllHeard turns client 7 queued
send_all-AllHeard_example =
    send_all-AllHeard whole-HasBytes turns client broken_off 7 incoming nothing_waits [] refl
      (omega arith) (inl (omega arith)) nothing_waits-Represents

-- In the first turn too little time goes by for a round; in the second the other threads work on
-- the game, and there are rounds.
abbrev beats : List (Beat whole)
beats =
    record { elapsed = 2000; clock = λ i. (4, 5); meanwhile = λ g. g }
    ∷ record {
      elapsed = 30000;
      clock = λ i. (4, 5);
      meanwhile = λ g. record g { projectiles = [] };
    }
    ∷ []

update_thread-Spends_example : Spends (200 + span beats) (update_thread beats 200 sample)
update_thread-Spends_example = update_thread-Spends beats 200 sample (omega arith)

update_thread-update_tick_example :
    update_thread (map (quiet (4, 5)) (2000 ∷ 30000 ∷ [])) 200 sample
    ≡ update_tick
        (steady (4, 5))
        (span (map (quiet {m = whole} (4, 5)) (2000 ∷ 30000 ∷ [])))
        200
        sample
update_thread-update_tick_example =
    update_thread-update_tick (4, 5) (2000 ∷ 30000 ∷ []) 200 sample (omega arith)
