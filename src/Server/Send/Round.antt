-- ===== src/Server/Send/Round.antt =====
-- A round of the thread that sends.
use pr_shooter.Prelude.{◌≡◌, refl, some, List, [], ◌∷◌, arith, length, get_elem?}
use pr_shooter.Wire.{◌>>=◌}
use package.pr_shooter.Server.Memory.{free_any}
use package.pr_shooter.Server.Array.Holds.{Holds}
use package.pr_shooter.Server.Array.Items.{get_elem?-lt}
use package.pr_shooter.Server.Queue.Interface.{QueueOf}
use package.pr_shooter.Server.Clients.{Client, Clients}
use package.pr_shooter.Server.Clients.Table.{get_client-Holds}
use package.pr_shooter.Server.Send.{
  IndividualMessage, Sender, Results, pop_message_to_everyone, send_round,
}
use package.pr_shooter.Server.Send.Broadcast.{
  sends, broadcast, SameLength, send_message_to-SameLength, send_each-broadcast,
}
use package.pr_shooter.Server.Send.Ownership.{IsOwned, take_front-IsOwned}

module _ (q : QueueOf IndividualMessage) where
  -- Where no message waits for a single client, a round never faults: it sends the frame of the
  -- message to everyone to each client that runs, in the order of their ids, frees its block, and
  -- leaves no message and no block.
  pub send_round-broadcast :
      (results : Results) (s : Sender q.State) (clients : Clients) (cs : List Client)
      → IsOwned q s []
      → Holds clients cs
      → (after : Sender q.State) × (table : Clients) × (send_round q results s clients
          ≡ some (after, table, broadcast results s.message_to_everyone 0 cs))
        × IsOwned q after []
        × (after.message_to_everyone.address ≡ 0)
        × SameLength table (length cs) clients.capacity
  unfolding send_round pop_message_to_everyone
  send_round-broadcast results s clients cs h table_holds =
      let msg = s.message_to_everyone in
      let (table, sent_all, same) = send_each-broadcast results msg clients cs table_holds in
      let (kept, freed, counts) =
        free_any msg.address s.live (λ ne. let own = h.count_eq msg.address ne in ground arith) in
      (
        record s { message_to_everyone = record msg { address = 0 }; live = kept },
        table,
        rw (q.has_none_lem s.outgoing_queue [] h.contains)
            (rw (sent_all, ◌>>=◌) (rw (freed, ◌>>=◌) refl)),
        record {
          contains = h.contains;
          count_eq = λ p ne. (let own = h.count_eq p ne in let c = counts p ne in ground arith);
        },
        refl,
        same,
      )

  -- Where a message waits for a single client of the table, a round never faults: it sends the first
  -- such message to its client, if he runs, and to no other, frees its block, and leaves the messages
  -- behind it and the message to everyone.
  pub send_round-sends :
      (results : Results) (s : Sender q.State) (x : IndividualMessage) (xs : List IndividualMessage)
      (clients : Clients) (cs : List Client) (client : Client)
      → IsOwned q s (x ∷ xs)
      → Holds clients cs
      → get_elem? cs x.client_id ≡ some client
      → (after : Sender q.State) × (table : Clients) × (send_round q results s clients
          ≡ some (after, table, sends (results x.client_id) x.message client))
        × IsOwned q after xs
        × (after.message_to_everyone ≡ s.message_to_everyone)
        × SameLength table (length cs) clients.capacity
  unfolding send_round
  send_round-sends results s x xs clients cs client h table_holds found =
      let (queue, kept, taken, freed, owned) = take_front-IsOwned q s x xs h in
      let read = (get_client-Holds clients cs x.client_id client table_holds found).0 in
      let (table, is_sent, same) =
        send_message_to-SameLength (results x.client_id) x.message client x.client_id (length cs)
          clients (get_elem?-lt cs x.client_id client found) (cs, table_holds, refl, refl) in
      (
        record s { outgoing_queue = queue; live = kept },
        table,
        rw (q.has_none_lem s.outgoing_queue (x ∷ xs) h.contains)
            (rw (taken, ◌>>=◌) (rw (read, ◌>>=◌) (rw (is_sent, ◌>>=◌) (rw (freed, ◌>>=◌) refl)))),
        owned,
        refl,
        same,
      )
