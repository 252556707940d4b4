-- ===== src/Server/Send/Broadcast.antt =====
-- What is sent to whom, over the table as a list.
use mathlib.Core.List.{append_assoc}
use pr_shooter.Prelude.{
  ℕ, ◌+◌, ◌<◌, ◌≡◌, refl, sym, ◌∙◌, subst, Bool, true, false, some, List, [], ◌∷◌, ◌++◌, arith,
  if◌then◌else◌, length, length-append, length-set, inl, inr, Bool-cases,
}
use pr_shooter.Wire.{◌>>=◌, u32}
use package.pr_shooter.Server.Array.Holds.{Holds}
use package.pr_shooter.Server.Array.Items.{
  array_change_item-Holds, array_get_copy-Holds, get_elem?-some,
}
use package.pr_shooter.Server.Clients.{
  stop, Client, Clients, with_status, get_all_clients, signal_client_to_stop,
}
use package.pr_shooter.Server.Clients.Table.{get_client-Holds, get_elem?-append_here}
use package.pr_shooter.Server.Receive.{is_running}
use package.pr_shooter.Server.Send.{
  OutMessage, SendEvent, sent, Results, stop_unless, send_message_to, send_each,
}

-- the frame of a message: its size, then its bytes
abbrev pub sends : Bool × Bool → OutMessage → Client → List SendEvent
sends (size_ok, content_ok) msg client =
    if is_running client.status
    then sent client.socket (u32 msg.size) size_ok ∷ sent client.socket msg.content content_ok ∷ []
    else []

-- everything that is sent to the clients of a list, the first of which has the id `i`
abbrev pub broadcast : Results → OutMessage → ℕ → List Client → List SendEvent
broadcast results msg i [] = []
broadcast results msg i (c ∷ cs) = sends (results i) msg c ++ broadcast results msg (i + 1) cs

-- The table still has a client under every id that it had, and its capacity.
abbrev pub SameLength : Clients → (n k : ℕ) → Type 0
SameLength clients n k =
    (cs : List Client) × Holds clients cs × (length cs ≡ n) × (clients.capacity ≡ k)

stop_unless-SameLength :
    {k : ℕ} (ok : Bool) (client_id n : ℕ) (clients : Clients)
    → client_id < n
    → SameLength clients n k
    → (table : Clients) × (stop_unless ok client_id clients ≡ some table) × SameLength table n k
unfolding stop_unless signal_client_to_stop
stop_unless-SameLength true client_id n clients lt same = (clients, refl, same)
stop_unless-SameLength false client_id n clients lt (cs, h, e, room) =
    let (c, at) = get_elem?-some cs client_id (omega arith) in
    let (table, changed, holds, kept) =
      array_change_item-Holds clients cs client_id c (with_status stop) h at in
    (table, changed, (_, holds, length-set cs client_id (with_status stop c) ∙ e, kept ∙ room))

pub send_message_to-SameLength :
    {k : ℕ} (ok : Bool × Bool) (msg : OutMessage) (client : Client) (client_id n : ℕ)
    (clients : Clients)
    → client_id < n
    → SameLength clients n k
    → (table : Clients) × (send_message_to ok msg client client_id clients
        ≡ some (table, sends ok msg client))
      × SameLength table n k
unfolding send_message_to
send_message_to-SameLength (ok1, ok2) msg client client_id n clients lt same =
    elim (Bool-cases (is_running client.status)) [
      | inl runs ↦
          let (marked, e, same') = stop_unless-SameLength ok1 client_id n clients lt same in
          let (table, e', same'') = stop_unless-SameLength ok2 client_id n marked lt same' in
          (table, rw runs (rw (e, ◌>>=◌) (rw (e', ◌>>=◌) refl)), same'')
      | inr ended ↦ (clients, rw ended refl, same)
    ]

send_each-SameLength :
    {k : ℕ} (results : Results) (msg : OutMessage) (copy : Clients) (done rest : List Client)
    (clients : Clients)
    → Holds copy (done ++ rest)
    → SameLength clients (length (done ++ rest)) k
    → (table : Clients) × (send_each results msg copy (length rest) (length done) clients
        ≡ some (table, broadcast results msg (length done) rest))
      × SameLength table (length (done ++ rest)) k
unfolding send_each
send_each-SameLength results msg copy done [] clients h same = (clients, refl, same)
send_each-SameLength {k} results msg copy done (c ∷ rest) clients h same =
    let n = length (done ++ (c ∷ rest)) in
    let found =
      (get_client-Holds copy (done ++ (c ∷ rest)) (length done) c h
        (get_elem?-append_here done rest c)).0 in
    let (marked, e, same') =
      send_message_to-SameLength (results (length done)) msg c (length done) n clients
        (omega (arith, length-append done (c ∷ rest))) same in
    let shifted : (done ++ (c ∷ [])) ++ rest ≡ done ++ (c ∷ rest) =
      append_assoc done (c ∷ []) rest in
    let next : length (done ++ (c ∷ [])) ≡ length done + 1 = length-append done (c ∷ []) in
    let (table, e', same'') =
      send_each-SameLength results msg copy (done ++ (c ∷ [])) rest marked
        (subst (λ ys. Holds copy ys) (sym shifted) h)
        (subst (λ ys. SameLength marked (length ys) k) (sym shifted) same') in
    (
      table,
      rw (found, ◌>>=◌) (rw (e, ◌>>=◌) (rw (rw next at e', ◌>>=◌) refl)),
      subst (λ ys. SameLength table (length ys) k) shifted same'',
    )

-- Over a copy of the table, every client that runs gets the message, in the order of the ids.
pub send_each-broadcast :
    (results : Results) (msg : OutMessage) (clients : Clients) (cs : List Client)
    → Holds clients cs
    → (table : Clients) × (send_each results msg
          (get_all_clients clients)
          (get_all_clients clients).size
          0
          clients
        ≡ some (table, broadcast results msg 0 cs))
      × SameLength table (length cs) clients.capacity
unfolding get_all_clients
send_each-broadcast results msg clients cs h =
    let (copied, _) = array_get_copy-Holds clients cs h in
    let (table, e, same) =
      send_each-SameLength results msg (get_all_clients clients) [] cs clients copied
        (cs, h, refl, refl) in
    (
      table,
      subst
          (λ n.
            send_each results msg (get_all_clients clients) n 0 clients
            ≡ some (table, broadcast results msg 0 cs))
          (sym copied.size_eq) e,
      same,
    )
