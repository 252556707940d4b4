-- ===== src/Server/Clients/Table.antt =====
-- The table of clients as a list: a client's id is his place in it.
use mathlib.Core.List.{append_assoc}
use pr_shooter.Prelude.{
  ℕ, ◌+◌, ◌<◌, ◌≡◌, refl, sym, ◌∙◌, ap, subst, Option, none, some, List, [], ◌∷◌, ◌++◌, map, length,
  get_elem?, set, length-append,
}
use pr_shooter.Wire.{◌>>=◌}
use package.pr_shooter.Server.Array.Holds.{
  Holds, array_push_back-Holds, array_get_item-Holds, get_elem?-append_last,
}
use package.pr_shooter.Server.Array.Items.{array_change_item-Holds, get_elem?-lt}
use package.pr_shooter.Server.Clients.{
  running, stop, stopped, Client, Clients, ThreadEvent, join_thread, get_client, get_client_status,
  with_status, stop_client, signal_client_to_stop, created_events, add_client, stop_all, join_all,
  stop_receiving_threads,
}

set-append_last :
    {B : Type 0} (xs : List B) (x y : B) → set (xs ++ (x ∷ [])) (length xs) y ≡ xs ++ (y ∷ [])
set-append_last [] x y = refl
set-append_last (z ∷ xs) x y = ap (λ ys. z ∷ ys) (set-append_last xs x y)

-- `addClient` gives the new client the next id, whatever `pthread_create` does; he counts as running,
-- with the thread that was made, if any, and every other client stays as he was. If no thread was
-- made, his socket is closed.
pub add_client-Holds :
    (client_socket : ℕ) (created : Option ℕ) (clients : Clients) (cs : List Client)
    → 0 < clients.capacity
    → Holds clients cs
    → (table : Clients) × (add_client client_socket created clients
        ≡ some (table, created_events client_socket (length cs) created))
      × Holds table
          (cs ++ (record { thread_id = created; socket = client_socket; status = running } ∷ []))
unfolding add_client
add_client-Holds client_socket created clients cs pos h =
    let unset : Client = record { thread_id = none; socket = client_socket; status = running } in
    let (grown, pushed, holds) = array_push_back-Holds clients cs unset pos h in
    let (table, changed, holds', _) =
      array_change_item-Holds grown (cs ++ (unset ∷ [])) (length cs) unset
        (λ c. record c { thread_id = created }) holds (get_elem?-append_last cs unset) in
    (
      table,
      rw (pushed, ◌>>=◌) (rw (changed, ◌>>=◌) refl),
      subst (λ ys. Holds table ys) (set-append_last cs unset _) holds',
    )

-- `getClient` and `getClientStatus` of an id in the table.
pub get_client-Holds :
    (clients : Clients) (cs : List Client) (client_id : ℕ) (c : Client)
    → Holds clients cs
    → get_elem? cs client_id ≡ some c
    → (get_client client_id clients ≡ some c)
      × (get_client_status client_id clients ≡ some c.status)
unfolding get_client get_client_status
get_client-Holds clients cs client_id c h e =
    let found = array_get_item-Holds clients cs client_id c h (get_elem?-lt cs client_id c e) e in
    (rw (found, ◌>>=◌) refl, rw (found, ◌>>=◌) refl)

pub get_elem?-append_here :
    {B : Type 0} (xs ys : List B) (x : B) → get_elem? (xs ++ (x ∷ ys)) (length xs) ≡ some x
get_elem?-append_here [] ys x = refl
get_elem?-append_here (z ∷ xs) ys x = get_elem?-append_here xs ys x

set-append_here :
    {B : Type 0} (xs ys : List B) (x y : B) → set (xs ++ (x ∷ ys)) (length xs) y ≡ xs ++ (y ∷ ys)
set-append_here [] ys x y = refl
set-append_here (z ∷ xs) ys x y = ap (λ zs. z ∷ zs) (set-append_here xs ys x y)

-- From the place behind `done` on, the loop marks everyone and collects his thread.
stop_all-Holds :
    (clients : Clients) (done rest : List Client)
    → Holds clients (done ++ rest)
    → (table : Clients) × (stop_all (length rest) (length done) clients
        ≡ some (table, map (λ c. c.thread_id) rest))
      × Holds table (done ++ map (with_status stop) rest)
unfolding stop_all
stop_all-Holds clients done [] h = (clients, refl, h)
stop_all-Holds clients done (c ∷ rest) h =
    let at : get_elem? (done ++ (c ∷ rest)) (length done) ≡ some c =
      get_elem?-append_here done rest c in
    let (marked, changed, holds, _) =
      array_change_item-Holds clients (done ++ (c ∷ rest)) (length done) c (with_status stop) h
        at in
    let next : length (done ++ (with_status stop c ∷ [])) ≡ length done + 1 =
      length-append done (with_status stop c ∷ []) in
    let (table, stopped_rest, holds') =
      stop_all-Holds marked (done ++ (with_status stop c ∷ [])) rest (
        subst (λ ys. Holds marked ys)
          (set-append_here done rest c (with_status stop c)
            ∙ sym (append_assoc done (with_status stop c ∷ []) rest))
          holds) in
    (
      table,
      rw
          (
            array_get_item-Holds clients (done ++ (c ∷ rest)) (length done) c h
                (get_elem?-lt (done ++ (c ∷ rest)) (length done) c at) at,
            ◌>>=◌,
          )
          (rw (changed, ◌>>=◌) (rw (rw next at stopped_rest, ◌>>=◌) refl)),
      subst (λ ys. Holds table ys)
          (append_assoc done (with_status stop c ∷ []) (map (with_status stop) rest)) holds',
    )

-- `stopReceivingThreads` marks every client to stop, and waits for the thread of each of them once,
-- in the order of the ids.
pub stop_receiving_threads-Holds :
    (clients : Clients) (cs : List Client)
    → Holds clients cs
    → (table : Clients) × (stop_receiving_threads clients
        ≡ some (table, map (λ c. join_thread c.thread_id) cs))
      × Holds table (map (with_status stop) cs)
unfolding stop_receiving_threads
stop_receiving_threads-Holds clients cs h =
    let (table, done, holds) = stop_all-Holds clients [] cs h in
    (
      table,
      subst
          (λ n.
            ◌>>=◌ {A = Clients × List (Option ℕ)} {B = Clients × List ThreadEvent}
              (stop_all n 0 clients) (λ (t, ids). some (t, join_all ids))
            ≡ some (table, map (λ c. join_thread c.thread_id) cs))
          (sym h.size_eq) (rw (done, ◌>>=◌) (ap (λ es. some (table, es)) (join_all-map cs))),
      holds,
    )
  where
    join_all-map :
        (ds : List Client)
        → join_all (map (λ c. c.thread_id) ds) ≡ map (λ c. join_thread c.thread_id) ds
    join_all-map [] = refl
    join_all-map (d ∷ ds) = ap (λ es. join_thread d.thread_id ∷ es) (join_all-map ds)

-- `stopClient` and `signalClientToStop` change the status of their client, and nothing of any
-- other; a client who has stopped already is marked to stop again.
pub stop_client-Holds :
    (clients : Clients) (cs : List Client) (client_id : ℕ) (c : Client)
    → Holds clients cs
    → get_elem? cs client_id ≡ some c
    → ((table : Clients) × (stop_client client_id clients ≡ some table)
        × Holds table (set cs client_id (with_status stopped c)))
      × ((table : Clients) × (signal_client_to_stop client_id clients ≡ some table)
          × Holds table (set cs client_id (with_status stop c)))
unfolding stop_client signal_client_to_stop
stop_client-Holds clients cs client_id c h e =
    let (t, changed, holds, _) =
      array_change_item-Holds clients cs client_id c (with_status stopped) h e in
    let (t', changed', holds', _) =
      array_change_item-Holds clients cs client_id c (with_status stop) h e in
    ((t, changed, holds), (t', changed', holds'))
