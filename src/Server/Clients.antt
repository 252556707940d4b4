-- ===== src/Server/Clients.antt =====
-- The table of clients of Server/server.c and Server/server_internal.h: `addClient`, `getClient`,
-- `getAllClients`, `getClientStatus`, `stopClient`, `signalClientToStop`, `stopReceivingThreads`.
-- Each holds the mutex of the array, so it is one step; `none` is a failed assertion of the array or
-- the use of memory that was never written.
pub mod Table
use pr_shooter.Prelude.{ℕ, zero, suc, ◌+◌, Option, none, some, List, [], ◌∷◌, ◌++◌}
use pr_shooter.Wire.{◌>>=◌}
use package.pr_shooter.Server.Array.{
  Array, array_push_back, array_get_item, array_change_item, array_get_copy,
}

pub data ThreadStatus : Type 0 where
  running stop stopped : ThreadStatus

-- `thread_id` is `none` where the code leaves it unset.
pub record Client : Type 0 where
  pub thread_id : Option ℕ
  pub socket : ℕ
  pub status : ThreadStatus

abbrev pub Clients : Type 0
Clients = Array Client

-- what the operations do besides
pub data ThreadEvent : Type 0 where
  start_receiving : (client_id thread_id : ℕ) → ThreadEvent
  close_socket : ℕ → ThreadEvent
  join_thread : Option ℕ → ThreadEvent

-- `getClient`
unfoldable pub get_client : ℕ → Clients → Option Client
get_client client_id clients = array_get_item client_id clients >>= λ client. client

-- `getAllClients`
unfoldable pub get_all_clients : Clients → Clients
get_all_clients clients = array_get_copy clients

-- `getClientStatus`
unfoldable pub get_client_status : ℕ → Clients → Option ThreadStatus
get_client_status client_id clients =
    array_get_item client_id clients >>= λ client. client >>= λ c. some c.status

-- `client->status = status;`
abbrev pub with_status : ThreadStatus → Client → Client
with_status status client = record client { status = status }

-- `stopClient`
unfoldable pub stop_client : ℕ → Clients → Option Clients
stop_client client_id = array_change_item client_id (with_status stopped)

-- `signalClientToStop`
unfoldable pub signal_client_to_stop : ℕ → Clients → Option Clients
signal_client_to_stop client_id = array_change_item client_id (with_status stop)

-- What `pthread_create` leads to: a thread, or the closing of the socket.
unfoldable pub created_events : (client_socket client_id : ℕ) → Option ℕ → List ThreadEvent
created_events client_socket client_id (some thread_id) = start_receiving client_id thread_id ∷ []
created_events client_socket client_id none = close_socket client_socket ∷ []

-- `addClient`, given the thread that `pthread_create` makes, or `none` where it fails; the variable
-- `thread_id` stays unset then, and is copied all the same.
unfoldable pub add_client :
    (client_socket : ℕ) → Option ℕ → Clients → Option (Clients × List ThreadEvent)
unfolding created_events
add_client client_socket created clients =
    array_push_back (record { thread_id = none; socket = client_socket; status = running }) clients
    >>= λ (client_id, grown).
        array_change_item client_id (λ c. record c { thread_id = created }) grown >>= λ table.
        some (table, created_events client_socket client_id created)

-- The first loop of `stopReceivingThreads`, from index `i` on: the table and the threads to wait for.
unfoldable pub stop_all : (rounds i : ℕ) → Clients → Option (Clients × List (Option ℕ))
stop_all zero i clients = some (clients, [])
stop_all (suc rounds) i clients = array_get_item i clients >>= λ client. client >>= λ c.
    array_change_item i (with_status stop) clients >>= λ marked.
    stop_all rounds (i + 1) marked >>= λ (table, ids). some (table, c.thread_id ∷ ids)

unfoldable pub join_all : List (Option ℕ) → List ThreadEvent
join_all [] = []
join_all (thread_id ∷ ids) = join_thread thread_id ∷ join_all ids

-- `stopReceivingThreads`
unfoldable pub stop_receiving_threads : Clients → Option (Clients × List ThreadEvent)
unfolding stop_all join_all
stop_receiving_threads clients =
    stop_all clients.size 0 clients >>= λ (table, ids). some (table, join_all ids)
