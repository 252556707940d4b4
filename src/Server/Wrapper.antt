-- ===== src/Server/Wrapper.antt =====
-- Host/server_wrapper.cpp: the class `Server`, which starts and stops the server library, and
-- `IncomingMessageWrapper`, which owns the bytes of a message.
pub mod Laws
use pr_shooter.Prelude.{
  ℕ, Bool, true, false, not, Option, none, some, List, [], ◌∷◌, ◌==◌, if◌then◌else◌,
}
use pr_shooter.Wire.{◌>>=◌, Bytes}
use package.pr_shooter.Server.Memory.{free}
use package.pr_shooter.Server.Clients.{Clients}
use package.pr_shooter.Server.LifeCycle.{Server, LifeEvent, run_server, stop_server}

-- the static variable `running`, and the library behind the class
pub record Wrapper : Type 0 where
  pub running : Bool
  pub server : Server

-- `Server::run`, with the parameters of `run_server`; the result is whether the server runs.
unfoldable pub run :
    (listen_err send_err : ℕ) → Clients → Wrapper → Option (Bool × Wrapper × List LifeEvent)
run listen_err send_err filled w =
    if w.running
    then some (false, w, [])
    else (run_server listen_err send_err filled >>= λ (code, server, events).
        let running = if code == 0 then true else w.running in
        some (running, record { running = running; server = server }, events))

-- `Server::stop`
unfoldable pub stop : Wrapper → Option (Wrapper × List LifeEvent)
stop w =
    if w.running
    then (stop_server w.server >>= λ (server, events). some (record w { server = server }, events))
    else some (w, [])

-- A message that the wrapper owns: the address of its bytes, 0 for `nullptr`, and their number.
pub record Owned : Type 0 where
  pub address : ℕ
  pub size : ℕ

-- The constructor takes the message over, and leaves `nullptr` in the one it was given.
unfoldable pub take_over : Owned → Owned × Owned
take_over message = (message, record message { address = 0 })

-- `isMessage`
unfoldable pub is_message : Owned → Bool
is_message message = not (message.address == 0)

-- The destructor.
unfoldable pub destroy_message : Owned → List ℕ → Option (List ℕ)
unfolding free
destroy_message message = free message.address
