-- ===== src/Host/Watching.antt =====
-- From the game to a client: a state that is sent to everyone, through the sending thread and the
-- socket.
use mathlib.Core.Option.{some-injective}
use mathlib.Core.List.{append_assoc, append-nil}
use pr_shooter.Prelude.{
  ℕ, zero, suc, ◌+◌, ◌*◌, ◌^◌, ◌≤◌, ◌<◌, ◌≡◌, ◌≢◌, refl, sym, ◌∙◌, ap, subst, Bool, true, ◌&&◌,
  some, List, [], ◌∷◌, ◌++◌, arith, ◌==◌, if◌then◌else◌, length, get_elem?, inl, inr, Bool-cases,
}
use pr_shooter.Machine.{Machine, HasBytes, HasSizes}
use pr_shooter.Wire.{Bytes, u32, Message, ◌>>=◌}
use pr_shooter.Game.{Game}
use pr_shooter.Game.Serialize.{serialize_game_state}
use pr_shooter.Game.Serialize.Bounds.{serialize_game_state_fits}
use pr_shooter.Client.{read_message, stated}
use pr_shooter.Client.RoundTrip.{seen_state, serialize_game_state_round_trip}
use pr_shooter.Client.Receiving.{receive_frame, receive_message}
use pr_shooter.Client.Receiving.Pieces.{receive_frame-content}
use pr_shooter.Server.Array.Holds.{Holds}
use pr_shooter.Server.Clients.{Client, Clients, running}
use pr_shooter.Server.Receive.{is_running}
use pr_shooter.Server.Queue.Interface.{QueueOf}
use pr_shooter.Server.Send.{
  OutMessage, IndividualMessage, Sender, SendEvent, sent, Results, send_round,
}
use pr_shooter.Server.Send.Broadcast.{sends, broadcast}
use pr_shooter.Server.Send.Ownership.{IsOwned}
use pr_shooter.Server.Send.Round.{send_round-broadcast}

-- what goes into a socket: the bytes of the calls of `send` that succeed
abbrev pub bytes_to : ℕ → List SendEvent → Bytes
bytes_to socket [] = []
bytes_to socket (sent s bytes ok ∷ events) =
    if (s == socket) && ok then bytes ++ bytes_to socket events else bytes_to socket events

bytes_to-append :
    (socket : ℕ) (es fs : List SendEvent)
    → bytes_to socket (es ++ fs) ≡ bytes_to socket es ++ bytes_to socket fs
bytes_to-append socket [] fs = refl
bytes_to-append socket (sent s bytes ok ∷ es) fs = elim (Bool-cases ((s == socket) && ok)) [
  | inl e ↦ rw e (
      ap (λ bs. bytes ++ bs) (bytes_to-append socket es fs)
      ∙ sym (append_assoc bytes (bytes_to socket es) (bytes_to socket fs)))
  | inr e ↦ rw e (bytes_to-append socket es fs)
]

bytes_to_other :
    (ok : Bool × Bool) (msg : OutMessage) (client : Client) (socket : ℕ)
    → client.socket ≢ socket
    → bytes_to socket (sends ok msg client) ≡ []
bytes_to_other (size_ok, content_ok) msg client socket ne = ground arith

bytes_to_self :
    (msg : OutMessage) (client : Client)
    → client.status ≡ running
    → bytes_to client.socket (sends (true, true) msg client) ≡ u32 msg.size ++ msg.content
bytes_to_self msg client runs =
    let same : (client.socket == client.socket) ≡ true = ground arith in
    subst
      (λ status.
        bytes_to client.socket (
          if is_running status
          then sent client.socket (u32 msg.size) true ∷ sent client.socket msg.content true ∷ []
          else [])
        ≡ u32 msg.size ++ msg.content)
      (sym runs) (rw same (ap (λ bs. u32 msg.size ++ bs) (append-nil msg.content)))

bytes_to_absent :
    (results : Results) (msg : OutMessage) (i socket : ℕ) (cs : List Client)
    → ((j : ℕ) (c : Client) → get_elem? cs j ≡ some c → c.socket ≢ socket)
    → bytes_to socket (broadcast results msg i cs) ≡ []
bytes_to_absent results msg i socket [] others = refl
bytes_to_absent results msg i socket (c ∷ cs) others =
    bytes_to-append socket (sends (results i) msg c) (broadcast results msg (i + 1) cs)
    ∙ ap (λ bs. bs ++ bytes_to socket (broadcast results msg (i + 1) cs))
        (bytes_to_other (results i) msg c socket (others 0 c refl))
    ∙ bytes_to_absent results msg (i + 1) socket cs (λ j d e. others (suc j) d e)

-- Only the client himself has his socket, and both calls of `send` for him succeed.
bytes_to-broadcast :
    (results : Results) (msg : OutMessage) (i k : ℕ) (cs : List Client) (client : Client)
    → get_elem? cs k ≡ some client
    → client.status ≡ running
    → results (i + k) ≡ (true, true)
    → ((j : ℕ) (c : Client) → get_elem? cs j ≡ some c → c.socket ≡ client.socket → j ≡ k)
    → bytes_to client.socket (broadcast results msg i cs) ≡ u32 msg.size ++ msg.content
bytes_to-broadcast results msg i k [] client found runs ok alone = absurd (cc)
bytes_to-broadcast results msg i zero (c ∷ cs) client found runs ok alone =
    let same : c ≡ client = some-injective _ _ found in
    let here : results i ≡ (true, true) = subst (λ n. results n ≡ (true, true)) (omega arith) ok in
    let rest = broadcast results msg (i + 1) cs in
    bytes_to-append client.socket (sends (results i) msg c) rest
    ∙ ap (λ bs. bytes_to client.socket (sends (results i) msg c) ++ bs)
        (bytes_to_absent results msg (i + 1) client.socket cs
          (λ j d e shared. absurd (suc-ne-zero (alone (suc j) d e shared))))
    ∙ append-nil _
    ∙ subst (λ d. bytes_to client.socket (sends (results i) msg d) ≡ u32 msg.size ++ msg.content)
        (sym same)
        (subst (λ r. bytes_to client.socket (sends r msg client) ≡ u32 msg.size ++ msg.content)
          (sym here) (bytes_to_self msg client runs))
  where
    suc-ne-zero : {n : ℕ} → suc n ≢ 0
    suc-ne-zero e = omega arith
bytes_to-broadcast results msg i (suc k) (c ∷ cs) client found runs ok alone =
    bytes_to-append client.socket (sends (results i) msg c) (broadcast results msg (i + 1) cs)
    ∙ ap (λ bs. bs ++ bytes_to client.socket (broadcast results msg (i + 1) cs))
        (bytes_to_other (results i) msg c client.socket
          (λ shared. let z : 0 ≡ suc k = alone 0 c refl shared in omega arith))
    ∙ bytes_to-broadcast results msg (i + 1) k cs client found runs
        (subst (λ n. results n ≡ (true, true)) (omega arith) ok)
        (λ j d e shared. let z : suc j ≡ suc k = alone (suc j) d e shared in omega arith)

module _ {m : Machine} (bytes : HasBytes m) (sizes : HasSizes m)
    (q : QueueOf IndividualMessage) where
  -- Where values are read back from their bytes and structures hold their members: a game with
  -- fewer than 2^16 players and projectiles was serialized, the message waits for everyone, none
  -- waits for a single client, each block that is allocated has the message as its only owner, and
  -- the table holds a list of clients. Then a round of the sending thread brings the message to each
  -- client that runs, for whom both calls of `send` succeed and whose socket no other client of the
  -- table has: from the bytes that come in there, in whatever pieces, the four bytes of the size at
  -- once and with calls of `recv` enough for a byte each, he reads the whole state of the game, and
  -- nothing of what follows it.
  pub send_round-seen_state :
      (g : Game m) (message : Message) (address : ℕ) (results : Results) (s : Sender q.State)
      (clients : Clients) (cs : List Client) (id : ℕ) (client : Client) (come : ℕ) (calls : List ℕ)
      (later : Bytes)
      → length g.players < 2 ^ 16
      → length g.projectiles < 2 ^ 16
      → serialize_game_state g ≡ some message
      → s.message_to_everyone
        ≡ record { size = message.size; address = address; content = message.content }
      → IsOwned q s []
      → Holds clients cs
      → get_elem? cs id ≡ some client
      → client.status ≡ running
      → results id ≡ (true, true)
      → ((j : ℕ) (c : Client) → get_elem? cs j ≡ some c → c.socket ≡ client.socket → j ≡ id)
      → 3 ≤ come
      → message.size ≤ length calls
      → (after : Sender q.State) × (table : Clients) × (events : List SendEvent) × (send_round q
            results s clients
          ≡ some (after, table, events))
        × (receive_message m come calls (bytes_to client.socket events ++ later)
            ≡ some (stated (seen_state g), later))
  unfolding receive_message
  send_round-seen_state g message address results s clients cs id client come calls later
        few_players few_projectiles made waits owned holds found runs ok alone four enough =
      let (after, table, sent_all, _, _, _) =
        send_round-broadcast q results s clients cs owned holds in
      let (message', made', size', seen) =
        serialize_game_state_round_trip bytes sizes g few_players few_projectiles in
      let same : message' ≡ message = some-injective _ _ (sym made' ∙ made) in
      let fits = serialize_game_state_fits bytes sizes g few_players few_projectiles in
      let size : message.size ≡ 5 + length g.players * 44 + length g.projectiles * 34 =
        ap (λ (o : Message). o.size) (some-injective _ _ (sym made ∙ fits)) in
      let counted : message.size ≡ length message.content =
        subst (λ (o : Message). o.size ≡ length o.content) same size' in
      let read : read_message m message.content ≡ some (stated (seen_state g), []) =
        subst (λ (o : Message). read_message m o.content ≡ some (stated (seen_state g), [])) same
          seen in
      let came : bytes_to client.socket (broadcast results s.message_to_everyone 0 cs)
          ≡ u32 (length message.content) ++ message.content =
        bytes_to-broadcast results s.message_to_everyone 0 id cs client found runs
          (subst (λ n. results n ≡ (true, true)) (omega arith) ok) alone
        ∙ ap (λ (o : OutMessage). u32 o.size ++ o.content) waits
        ∙ ap (λ n. u32 n ++ message.content) counted in
      let framed : receive_frame come calls
            (bytes_to client.socket (broadcast results s.message_to_everyone 0 cs) ++ later)
          ≡ some (message.content, later) =
        subst (λ bs. receive_frame come calls (bs ++ later) ≡ some (message.content, later))
          (sym came)
          (subst (λ bs. receive_frame come calls bs ≡ some (message.content, later))
            (sym (append_assoc (u32 (length message.content)) message.content later))
            (receive_frame-content come calls message.content later four (omega arith)
              (omega arith))) in
      (after, table, _, sent_all, rw (framed, ◌>>=◌) (rw (read, ◌>>=◌) refl))
