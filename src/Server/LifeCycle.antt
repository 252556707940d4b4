-- ===== src/Server/LifeCycle.antt =====
-- `runServer`, `stopServer` and `clearEverything` of Server/server.c, with what they create, start,
-- wait for and destroy, in order. Whether `pthread_create` succeeds is a parameter, and so is the
-- table of clients that the listening thread has filled in the meantime.
pub mod Balance
use pr_shooter.Prelude.{
  ℕ, Bool, true, false, Option, none, some, List, [], ◌∷◌, ◌++◌, map, ◌==◌, if◌then◌else◌,
}
use pr_shooter.Wire.{◌>>=◌}
use package.pr_shooter.Server.Array.{array_create}
use package.pr_shooter.Server.Clients.{Client, Clients, ThreadEvent, stop_receiving_threads}

pub data Resource : Type 0 where
  clients_array received_queue outgoing_queue : Resource

pub data ServerThread : Type 0 where
  listening sending : ServerThread

pub data LifeEvent : Type 0 where
  block_signals restore_signals : LifeEvent
  create destroy : Resource → LifeEvent
  start not_started join : ServerThread → LifeEvent
  receiving : ThreadEvent → LifeEvent

-- the static variables of Server/server.c
pub record Server : Type 0 where
  pub stopped : Bool
  pub clients : Clients

-- `clearEverything`; `clearActiveClients` does nothing.
abbrev pub clear_everything : List LifeEvent
clear_everything = destroy received_queue ∷ destroy outgoing_queue ∷ destroy clients_array ∷ []

-- The beginning of `runServer`.
abbrev pub set_up : List LifeEvent
set_up = block_signals ∷ create clients_array ∷ create received_queue ∷ create outgoing_queue ∷ []

-- `runServer`, given the results of starting the two threads, and the table when the second fails
unfoldable pub run_server :
    (listen_err send_err : ℕ) → Clients → Option (ℕ × Server × List LifeEvent)
run_server listen_err send_err filled =
    let fresh : Clients = array_create 16 in
    if listen_err == 0
    then (if send_err == 0
        then some (
          0,
          record { stopped = false; clients = fresh },
          set_up ++ (start listening ∷ start sending ∷ restore_signals ∷ []),
        )
        else (stop_receiving_threads filled >>= λ (table, events). some (
          2,
          record { stopped = true; clients = table },
          set_up
              ++ (start listening
                  ∷ not_started sending
                  ∷ join listening
                  ∷ (map receiving events ++ (clear_everything ++ (restore_signals ∷ [])))),
        )))
    else some (
      1,
      record { stopped = true; clients = fresh },
      set_up ++ (not_started listening ∷ (clear_everything ++ (restore_signals ∷ []))),
    )

-- `stopServer`
unfoldable pub stop_server : Server → Option (Server × List LifeEvent)
stop_server server = stop_receiving_threads server.clients >>= λ (table, events). some (
  record { stopped = true; clients = table },
  join listening ∷ join sending ∷ (map receiving events ++ clear_everything),
)
