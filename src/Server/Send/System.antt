-- ===== src/Server/Send/System.antt =====
-- The thread that sends, the threads that hand messages over, and the thread that adds clients, as
-- steps on the messages that wait and the table of clients.
use mathlib.Core.Option.{some-injective}
use pr_shooter.Prelude.{
  ℕ, suc, ◌+◌, ◌≤◌, ◌<◌, ◌≡◌, sym, ◌∙◌, ap, subst, Option, some, List, [], ◌∷◌, ◌++◌, arith, length,
  length-append, ◌≢◌,
}
use package.pr_shooter.Server.Memory.{count}
use package.pr_shooter.Server.Array.{array_create}
use package.pr_shooter.Server.Array.Holds.{Holds, array_create-Holds}
use package.pr_shooter.Server.Queue.Interface.{QueueOf}
use package.pr_shooter.Server.Clients.{
  Client, Clients, ThreadEvent, running, created_events, add_client,
}
use package.pr_shooter.Server.Clients.Table.{add_client-Holds}
use package.pr_shooter.Server.Send.{
  OutMessage, IndividualMessage, Sender, SendEvent, Results, send_to_everyone, send_to, send_round,
  finish_sending,
}
use package.pr_shooter.Server.Array.Items.{get_elem?-some}
use package.pr_shooter.Server.Send.Ownership.{
  IsOwned, with_block, send_to_everyone-IsOwned, send_to-IsOwned, finish_sending-IsOwned,
}
use package.pr_shooter.Server.Send.Round.{send_round-broadcast, send_round-sends}

module _ (q : QueueOf IndividualMessage) where
  -- One step, in which nothing faults: a new block is handed over, to everyone or for a client of
  -- the table; a round of `startSending`; or a connection is added.
  pub data SendStep (s : Sender q.State) (c : Clients) : Sender q.State → Clients → Type 0 where
    to_everyone :
        {s' : Sender q.State} (message : OutMessage)
        → send_to_everyone q message (with_block q message.address s) ≡ some s'
        → SendStep s c s' c
    to_one :
        {s' : Sender q.State} (message : OutMessage) (client_id : ℕ)
        → client_id < c.size
        → send_to q message client_id (with_block q message.address s) ≡ some s'
        → SendStep s c s' c
    rounded :
        {s' : Sender q.State} {c' : Clients} (results : Results) (events : List SendEvent)
        → send_round q results s c ≡ some (s', c', events)
        → SendStep s c s' c'
    added :
        {c' : Clients} (socket : ℕ) (created : Option ℕ) (events : List ThreadEvent)
        → add_client socket created c ≡ some (c', events)
        → SendStep s c s c'

  -- What the steps lead to from an empty queue, with no message and no block, and the table that
  -- `runServer` creates.
  pub data ReachSend : Sender q.State → Clients → Type 0 where
    started :
        (queue : q.State) (size : ℕ)
        → q.Contains queue []
        → ReachSend
            (record {
              outgoing_queue = queue;
              message_to_everyone = record { size = size; address = 0; content = [] };
              live = [];
            })
            (array_create 16)
    step :
        {s s' : Sender q.State} {c c' : Clients}
        → ReachSend s c
        → SendStep s c s' c'
        → ReachSend s' c'

  -- Every message that waits is for a client with an id below `n`.
  abbrev pub AllKnown : ℕ → List IndividualMessage → Type 0
  AllKnown n [] = Unit {0}
  AllKnown n (x ∷ xs) = (x.client_id < n) × AllKnown n xs

  AllKnown-weaken : (n k : ℕ) (xs : List IndividualMessage) → n ≤ k → AllKnown n xs → AllKnown k xs
  AllKnown-weaken n k [] le h = tt
  AllKnown-weaken n k (x ∷ xs) le (h, hs) = (omega arith, AllKnown-weaken n k xs le hs)

  AllKnown-append_last :
      (n : ℕ) (xs : List IndividualMessage) (x : IndividualMessage)
      → AllKnown n xs
      → x.client_id < n
      → AllKnown n (xs ++ (x ∷ []))
  AllKnown-append_last n [] x h lt = (lt, tt)
  AllKnown-append_last n (y ∷ xs) x (h, hs) lt = (h, AllKnown-append_last n xs x hs lt)

  pub record IsSafe (s : Sender q.State) (c : Clients) : Type 0 where
    pub waiting : List IndividualMessage
    pub clients : List Client
    pub owned : IsOwned q s waiting
    pub holds : Holds c clients
    pub known : AllKnown (length clients) waiting
    pub capacity_pos : 0 < c.capacity

  -- A round from a safe state never faults, whatever the calls of `send` return, and leads to a safe state.
  pub send_round-IsSafe :
      (results : Results) (s : Sender q.State) (c : Clients)
      → IsSafe s c
      → (s' : Sender q.State) × (c' : Clients) × (events : List SendEvent) × (send_round q results s
            c
          ≡ some (s', c', events))
        × IsSafe s' c'
  send_round-IsSafe results s c safe = go safe.waiting safe.owned safe.known
    where
      go :
          (xs : List IndividualMessage)
          → IsOwned q s xs
          → AllKnown (length safe.clients) xs
          → (s' : Sender q.State) × (c' : Clients) × (events : List SendEvent) × (send_round q
                results s c
              ≡ some (s', c', events))
            × IsSafe s' c'
      go [] owned known =
          let (s', c', e, owned', _, (cs', holds', same, kept)) =
            send_round-broadcast q results s c safe.clients owned safe.holds in
          (
            s',
            c',
            _,
            e,
            record {
              waiting = [];
              clients = cs';
              owned = owned';
              holds = holds';
              known = tt;
              capacity_pos = omega (arith, kept, safe.capacity_pos);
            },
          )
      go (x ∷ xs) owned (lt, known) =
          let (client, found) = get_elem?-some safe.clients x.client_id lt in
          let (s', c', e, owned', _, (cs', holds', same, kept)) =
            send_round-sends q results s x xs c safe.clients client owned safe.holds found in
          (
            s',
            c',
            _,
            e,
            record {
              waiting = xs;
              clients = cs';
              owned = owned';
              holds = holds';
              known =
                  AllKnown-weaken (length safe.clients) (length cs') xs (omega (arith, same)) known;
              capacity_pos = omega (arith, kept, safe.capacity_pos);
            },
          )

  pub SendStep-IsSafe :
      {s s' : Sender q.State} {c c' : Clients} → IsSafe s c → SendStep s c s' c' → IsSafe s' c'
  SendStep-IsSafe {s} {s'} {c} safe (to_everyone message e) =
      let (after, e', owned, _) = send_to_everyone-IsOwned q message s safe.waiting safe.owned in
      let same : after ≡ s' = some-injective _ _ (sym e' ∙ e) in
      subst (λ t. IsSafe t c) same
        (record {
          waiting = safe.waiting;
          clients = safe.clients;
          owned = owned;
          holds = safe.holds;
          known = safe.known;
          capacity_pos = safe.capacity_pos;
        })
  SendStep-IsSafe {s} {s'} {c} safe (to_one message client_id lt e) =
      let x : IndividualMessage = record { message = message; client_id = client_id } in
      let (after, e', owned) = send_to-IsOwned q message client_id s safe.waiting safe.owned in
      let same : after ≡ s' = some-injective _ _ (sym e' ∙ e) in
      subst (λ t. IsSafe t c) same
        (record {
          waiting = safe.waiting ++ (x ∷ []);
          clients = safe.clients;
          owned = owned;
          holds = safe.holds;
          known =
              AllKnown-append_last (length safe.clients) safe.waiting x safe.known
                (omega (arith, lt, safe.holds.size_eq));
          capacity_pos = safe.capacity_pos;
        })
  SendStep-IsSafe {s} {s'} {c} {c'} safe (rounded results events e) =
      let (after, table, _, e', safe') = send_round-IsSafe results s c safe in
      let same = some-injective _ _ (sym e' ∙ e) in
      subst (λ (t : Sender q.State × Clients × List SendEvent). IsSafe t.0 t.1) same safe'
  SendStep-IsSafe {s} {s'} {c} {c'} safe (added socket created events e) =
      let (table, e', holds) =
        add_client-Holds socket created c safe.clients safe.capacity_pos safe.holds in
      let new : Client = record { thread_id = created; socket = socket; status = running } in
      let longer : length (safe.clients ++ (new ∷ [])) ≡ length safe.clients + 1 =
        length-append safe.clients (new ∷ []) in
      let same = ap (λ (t : Clients × List ThreadEvent). t.0) (some-injective _ _ (sym e' ∙ e)) in
      subst (λ t. IsSafe s t) same
        (record {
          waiting = safe.waiting;
          clients = safe.clients ++ (new ∷ []);
          owned = safe.owned;
          holds = holds;
          known =
              AllKnown-weaken (length safe.clients) (length (safe.clients ++ (new ∷ [])))
                safe.waiting (omega (arith, longer)) safe.known;
          capacity_pos = omega (arith, longer, holds.size_eq, holds.size_le);
        })

  ReachSend-IsSafe : {s : Sender q.State} {c : Clients} → ReachSend s c → IsSafe s c
  unfolding array_create
  ReachSend-IsSafe (started queue size empty) = record {
    waiting = [];
    clients = [];
    owned = record { contains = empty; count_eq = λ p ne. ground arith };
    holds = array_create-Holds 16;
    known = tt;
    capacity_pos = omega arith;
  }
  ReachSend-IsSafe (step r move) = SendStep-IsSafe (ReachSend-IsSafe r) move

  -- Wherever the steps lead, with messages handed over to clients of the table only, the queue holds
  -- a list of messages and the table a list of clients, and no step can fault: a round goes through,
  -- whatever the calls of `send` return; a new block that is handed over to everyone becomes the
  -- message to everyone, and the list stays; one that is handed over for a client goes behind the
  -- messages that wait; a connection goes behind the clients, with its socket and the thread that is
  -- made for it, or closes its socket where none is made; and if the thread ends there, it frees
  -- every block that is left, once.
  pub ReachSend-safe :
      (s : Sender q.State) (c : Clients)
      → ReachSend s c
      → (waiting : List IndividualMessage) × (clients : List Client) × q.Contains s.outgoing_queue
          waiting
        × Holds c clients
        × ((results : Results)
            → (s' : Sender q.State) × (c' : Clients) × (events : List SendEvent) × (send_round q
                  results s c
                ≡ some (s', c', events)))
        × ((message : OutMessage)
            → (s' : Sender q.State) × (send_to_everyone q message (with_block q message.address s)
                ≡ some s')
              × (s'.message_to_everyone ≡ message)
              × q.Contains s'.outgoing_queue waiting)
        × ((message : OutMessage) (client_id : ℕ)
            → (s' : Sender q.State) × (send_to q message client_id (with_block q message.address s)
                ≡ some s')
              × q.Contains s'.outgoing_queue
                  (waiting ++ (record { message = message; client_id = client_id } ∷ [])))
        × ((socket : ℕ) (created : Option ℕ)
            → (c' : Clients) × (add_client socket created c
                ≡ some (c', created_events socket (length clients) created))
              × Holds c' (
                  clients
                  ++ (record { thread_id = created; socket = socket; status = running } ∷ [])))
        × ((fuel : ℕ) × (s' : Sender q.State) × (finish_sending q fuel s ≡ some s')
            × ((p : ℕ) → p ≢ 0 → count p s'.live ≡ 0))
  ReachSend-safe s c r =
      let safe = ReachSend-IsSafe r in
      (
        safe.waiting,
        safe.clients,
        safe.owned.contains,
        safe.holds,
        λ results.
            (let (s', c', events, e, _) = send_round-IsSafe results s c safe in
              (s', c', events, e)),
        λ message.
            (let (s', e, owned, same) =
                send_to_everyone-IsOwned q message s safe.waiting safe.owned in
              (s', e, same, owned.contains)),
        λ message client_id.
            (let (s', e, owned) = send_to-IsOwned q message client_id s safe.waiting safe.owned in
              (s', e, owned.contains)),
        λ socket created.
            add_client-Holds socket created c safe.clients safe.capacity_pos safe.holds,
        (let (s', e, nothing, _) = finish_sending-IsOwned q s safe.waiting safe.owned in
            (suc (length safe.waiting), s', e, nothing)),
      )
