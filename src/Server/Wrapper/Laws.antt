-- ===== src/Server/Wrapper/Laws.antt =====
-- What the class `Server` and the message wrapper keep to.
use pr_shooter.Prelude.{
  Option, ℕ, ◌+◌, ◌<◌, ◌≡◌, refl, ◌≢◌, true, false, none, some, List, [], map, ◌==◌, if◌then◌else◌,
}
use pr_shooter.Wire.{◌>>=◌}
use package.pr_shooter.Server.Memory.{count, free_null, free_lem}
use package.pr_shooter.Server.Array.Holds.{Holds}
use package.pr_shooter.Server.Clients.{Client, Clients, with_status, stop}
use package.pr_shooter.Server.LifeCycle.{LifeEvent}
use package.pr_shooter.Server.LifeCycle.Balance.{
  held_by, threads_of, stop_events, all_held, nothing_held, stop_server-held_by,
}
use package.pr_shooter.Server.Wrapper.{Wrapper, run, Owned, take_over, destroy_message}
use package.pr_shooter.Server.Wrapper

-- A server that runs is stopped with nothing left, the threads of its clients included. After that
-- it counts as running for good: it cannot be run again, and stopping it again waits for threads and
-- destroys resources that are gone.
pub stop-stop :
    (w : Wrapper) (cs : List Client)
    → w.running ≡ true
    → Holds w.server.clients cs
    → (w' w'' : Wrapper) × (again : List LifeEvent) × ((events : List LifeEvent) × (Wrapper.stop w
          ≡ some (w', events))
        × (held_by (threads_of cs) events all_held ≡ some nothing_held))
      × (w'.server.stopped ≡ true)
      × ((listen_err send_err : ℕ) (filled : Clients)
          → run listen_err send_err filled w' ≡ some (false, w', []))
      × (Wrapper.stop w' ≡ some (w'', again))
      × ((ids : List (Option ℕ)) → held_by ids again nothing_held ≡ none)
unfolding Wrapper.stop run held_by
stop-stop w cs runs h =
    let (after, once, balanced, holds, is_stopped) = stop_server-held_by w.server cs h in
    let (after', twice, _, _, _) = stop_server-held_by after (map (with_status stop) cs) holds in
    (
      record w { server = after },
      record w { server = after' },
      stop_events (map (with_status stop) cs),
      (stop_events cs, rw runs (rw (once, ◌>>=◌) refl), balanced),
      is_stopped,
      λ listen_err send_err filled. rw runs refl,
      rw runs (rw (twice, ◌>>=◌) refl),
      λ ids. refl,
    )

-- A message that is moved into a wrapper is freed once: when both the wrapper and what is left
-- behind are destroyed, its block is gone and every other block stays.
pub destroy_message-take_over :
    (message : Owned) (live : List ℕ)
    → message.address ≢ 0
    → 0 < count message.address live
    → (kept : List ℕ) × ((destroy_message (take_over message).0 live
          >>= destroy_message (take_over message).1)
        ≡ some kept)
      × ((q : ℕ) → count q live ≡ (if message.address == q then 1 else 0) + count q kept)
unfolding destroy_message take_over
destroy_message-take_over message live ne h =
    let (kept, freed, counts) = free_lem message.address live ne h in
    (kept, rw (freed, ◌>>=◌) (free_null kept), counts)
