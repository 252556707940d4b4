-- ===== src/Server/Listen.antt =====
-- Server/server_listen.c: the thread that accepts connections. What `poll`, `accept` and
-- `pthread_create` return is given round by round; setting the socket up is left out.
pub mod Arrivals
use pr_shooter.Prelude.{
  Bool, true, false, ℕ, Option, none, some, List, [], ◌∷◌, ◌++◌, if◌then◌else◌,
}
use pr_shooter.Wire.{◌>>=◌}
use package.pr_shooter.Server.Clients.{Clients, ThreadEvent, close_socket, add_client}
use package.pr_shooter.Server.Receive.{Poll, poll_error, timed_out, event}

-- One round of the loop: `isStopped` when it starts, the socket that `accept` returns, and the
-- thread that is made for it.
pub record ListenRound : Type 0 where
  pub is_stopped : Bool
  pub polled : Poll
  pub accepted : Option ℕ
  pub created : Option ℕ

unfoldable pub accept_client :
    Option ℕ → Option ℕ → Clients → Option (Bool × Clients × List ThreadEvent)
accept_client none created clients = some (true, clients, [])
accept_client (some socket) created clients =
    add_client socket created clients >>= λ (table, events). some (true, table, events)

-- The body of the loop, and whether the loop goes on.
unfoldable pub listen_round :
    Poll → Option ℕ → Option ℕ → Clients → Option (Bool × Clients × List ThreadEvent)
unfolding accept_client
listen_round (poll_error interrupted) accepted created clients = some (interrupted, clients, [])
listen_round timed_out accepted created clients = some (true, clients, [])
listen_round (event readable) accepted created clients =
    if readable then accept_client accepted created clients else some (true, clients, [])

-- The loop over the rounds that have happened, and whether it has been left.
unfoldable pub listen_loop : List ListenRound → Clients → Option (Clients × List ThreadEvent × Bool)
unfolding listen_round
listen_loop [] clients = some (clients, [], false)
listen_loop (r ∷ rounds) clients = elim r.is_stopped [
  | true ↦ some (clients, [], true)
  | false ↦ listen_round r.polled r.accepted r.created clients >>= λ (goes_on, table, events).
      elim goes_on [
        | false ↦ some (table, events, true)
        | true ↦
            listen_loop rounds table >>= λ (last, later, left). some (last, events ++ later, left)
      ]
]

-- `startListening`, as far as the rounds go
unfoldable pub start_listening :
    ℕ → List ListenRound → Clients → Option (Clients × List ThreadEvent)
unfolding listen_loop
start_listening socket rounds clients = listen_loop rounds clients >>= λ (table, events, left).
    some (table, events ++ (if left then close_socket socket ∷ [] else []))
