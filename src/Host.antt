-- ===== src/Host.antt =====
-- How the parts of the host work together: `receiveThread` of Host/game.cpp over the queue of the
-- server, `Game::Game`, and the three threads of `Game::run` as steps on the game. Each thread works
-- under `update_mutex`, so that one pass is one step.
pub mod Threads
pub mod Reachable
pub mod Ghosts
pub mod Progress
pub mod Watching
use pr_shooter.Prelude.{ℕ, Option, some, List, [], ◌∷◌, ◌++◌, ◌≡◌}
use pr_shooter.Machine.{Machine}
use pr_shooter.Wire.{◌>>=◌, Message}
use pr_shooter.Game.{Game, GameMap}
use pr_shooter.Game.Handlers.{Dice}
use pr_shooter.Game.Messages.{IncomingMessage, Event, handle_message}
use pr_shooter.Game.Loop.{done, update_tick, send_tick}
use pr_shooter.Server.Queue.Interface.{QueueOf}
use pr_shooter.Server.Receive.{Action, perform_all, take_message}

-- `Game::Game`, when the map has been read
unfoldable pub new_game : {m : Machine} → GameMap m → Game m
new_game game_map = record {
  game_map = game_map;
  players = [];
  projectiles = [];
  packets = [];
  calc_time = λ _ _ _. record { rounds = 0; total = 0 };
}

-- One pass of `receiveThread`: what the threads of the clients do before it takes a message, and
-- the time and the numbers that the handler draws.
pub record Pass (m : Machine) : Type 0 where
  pub arrived : List Action
  pub duration : ℕ
  pub dice : Dice m

module _ {m : Machine} (q : QueueOf IncomingMessage) where
  -- `receiveThread`, as far as the passes go: the queue, the game, and what the handlers did
  unfoldable pub receive_thread :
      List (Pass m) → q.State → Game m → Option (q.State × Game m × List Event)
  receive_thread [] s g = some (s, g, [])
  receive_thread (pass ∷ passes) s g = perform_all q pass.arrived s >>= λ waited.
      take_message q waited >>= λ (incoming, rest).
      handle_message pass.dice pass.duration incoming g >>= λ (after, events).
      receive_thread passes rest after >>= λ (left, last, later). some (left, last, events ++ later)

-- A pass of one of the three threads, none of which faults.
pub data Step {m : Machine} (g : Game m) : Game m → Type 0 where
  handled :
      {g' : Game m} (dice : Dice m) (duration : ℕ) (incoming : IncomingMessage)
      (events : List Event)
      → handle_message dice duration incoming g ≡ some (g', events)
      → Step g g'
  updated :
      {g' : Game m} (clock : ℕ → ℕ × ℕ) (elapsed accumulator left rounds : ℕ)
      → update_tick clock elapsed accumulator g ≡ done left rounds g'
      → Step g g'
  sent :
      {g' : Game m} (duration : ℕ) (state : Message)
      → send_tick duration g ≡ some (g', state)
      → Step g g'

-- The games that the passes of the three threads, in any order, lead to.
pub data Reach {m : Machine} (world : GameMap m) : Game m → Type 0 where
  started : Reach world (new_game world)
  step : {g g' : Game m} → Reach world g → Step g g' → Reach world g'
