-- ===== src/Server/LifeCycle/Balance.antt =====
-- Whatever is created is destroyed, and whatever is started is waited for, once; the threads of the
-- clients, which the listening thread starts, are counted from when it ends.
use pr_shooter.Prelude.{
  ℕ, ◌≡◌, refl, Bool, true, false, not, Option, none, some, List, [], ◌∷◌, ◌++◌, map, arith, ◌==◌,
  if◌then◌else◌,
}
use pr_shooter.Wire.{◌>>=◌}
use package.pr_shooter.Server.Array.Holds.{Holds}
use package.pr_shooter.Server.Clients.{Client, Clients, join_thread, with_status, stop}
use package.pr_shooter.Server.Clients.Table.{stop_receiving_threads-Holds}
use package.pr_shooter.Server.LifeCycle.{
  clients_array, received_queue, outgoing_queue, listening, sending, LifeEvent, block_signals,
  restore_signals, create, destroy, start, not_started, join, receiving, Server, clear_everything,
  stop_server,
}

-- what the server holds at a time
pub record Held : Type 0 where
  pub blocked : Bool
  pub clients : Bool
  pub received : Bool
  pub outgoing : Bool
  pub listens : Bool
  pub sends : Bool
  pub receives : List (Option ℕ)

abbrev no_thread : List (Option ℕ) → Bool
no_thread [] = true
no_thread (id ∷ ids) = false

abbrev same_thread : Option ℕ → Option ℕ → Bool
same_thread none none = true
same_thread none (some j) = false
same_thread (some i) none = false
same_thread (some i) (some j) = i == j

-- a thread that works with what the server holds
abbrev in_use : Held → Bool
in_use h = if h.listens then true else if h.sends then true else not (no_thread h.receives)

-- `none` where something that is held would be taken again, or something else given back
abbrev pub take : Bool → Held → Option Held
take held h = if held then none else some h

abbrev pub give : Bool → Held → Option Held
give held h = if held then some h else none

-- what no thread works with any longer
abbrev pub dispose : Bool → Held → Held → Option Held
dispose held h after = if in_use h then none else give held after

-- The first of the clients' threads is waited for.
abbrev pub join_client : Option ℕ → List (Option ℕ) → Held → Option Held
join_client id [] h = none
join_client id (first ∷ others) h =
    if same_thread id first then some (record h { receives = others }) else none

-- What an event takes or gives back, where `ids` are the threads of clients that the listening
-- thread leaves behind when it ends.
abbrev pub hold : List (Option ℕ) → LifeEvent → Held → Option Held
hold ids block_signals h = take h.blocked (record h { blocked = true })
hold ids restore_signals h = give h.blocked (record h { blocked = false })
hold ids (create clients_array) h = take h.clients (record h { clients = true })
hold ids (create received_queue) h = take h.received (record h { received = true })
hold ids (create outgoing_queue) h = take h.outgoing (record h { outgoing = true })
hold ids (destroy clients_array) h = dispose h.clients h (record h { clients = false })
hold ids (destroy received_queue) h = dispose h.received h (record h { received = false })
hold ids (destroy outgoing_queue) h = dispose h.outgoing h (record h { outgoing = false })
hold ids (start listening) h = take h.listens (record h { listens = true })
hold ids (start sending) h = take h.sends (record h { sends = true })
hold ids (not_started _) h = some h
hold ids (join listening) h = give h.listens (record h { listens = false; receives = ids })
hold ids (join sending) h = give h.sends (record h { sends = false })
hold ids (receiving (join_thread id)) h = join_client id h.receives h
hold ids (receiving _) h = some h

unfoldable pub held_by : List (Option ℕ) → List LifeEvent → Held → Option Held
held_by ids [] h = some h
held_by ids (event ∷ events) h = hold ids event h >>= held_by ids events

abbrev pub nothing_held : Held
nothing_held = record {
  blocked = false;
  clients = false;
  received = false;
  outgoing = false;
  listens = false;
  sends = false;
  receives = [];
}

-- a server that runs
abbrev pub all_held : Held
all_held = record {
  blocked = false;
  clients = true;
  received = true;
  outgoing = true;
  listens = true;
  sends = true;
  receives = [];
}

abbrev pub threads_of : List Client → List (Option ℕ)
threads_of [] = []
threads_of (c ∷ cs) = c.thread_id ∷ threads_of cs

same_thread_refl : (id : Option ℕ) → same_thread id id ≡ true
same_thread_refl none = refl
same_thread_refl (some i) = ground arith

-- Each of the clients' threads is waited for.
held_by-receiving :
    (ids : List (Option ℕ)) (cs : List Client) (rest : List LifeEvent) (h : Held)
    → held_by ids
        (map receiving (map (λ c. join_thread c.thread_id) cs) ++ rest)
        (record h { receives = threads_of cs })
      ≡ held_by ids rest (record h { receives = [] })
unfolding held_by
held_by-receiving ids [] rest h = refl
held_by-receiving ids (c ∷ cs) rest h =
    rw (same_thread_refl c.thread_id, ◌>>=◌) (held_by-receiving ids cs rest h)

abbrev pub stop_events : List Client → List LifeEvent
stop_events cs =
    join listening
    ∷ join sending
    ∷ (map receiving (map (λ c. join_thread c.thread_id) cs) ++ clear_everything)

-- `stopServer` of a server that runs returns with nothing left, every client marked to stop and
-- his thread waited for once, before anything is destroyed.
pub stop_server-held_by :
    (server : Server) (cs : List Client)
    → Holds server.clients cs
    → (after : Server) × (stop_server server ≡ some (after, stop_events cs))
      × (held_by (threads_of cs) (stop_events cs) all_held ≡ some nothing_held)
      × Holds after.clients (map (with_status stop) cs)
      × (after.stopped ≡ true)
unfolding stop_server held_by
stop_server-held_by server cs h =
    let (table, joined, holds) = stop_receiving_threads-Holds server.clients cs h in
    (
      record { stopped = true; clients = table },
      rw (joined, ◌>>=◌) refl,
      held_by-receiving (threads_of cs) cs _ (record all_held { listens = false; sends = false }),
      holds,
      refl,
    )
