-- ===== src/Server/Send/Ownership.antt =====
-- Who owns the blocks of bytes of the messages that wait to be sent.
use pr_shooter.Prelude.{
  ℕ, suc, ◌+◌, ◌≡◌, refl, sym, ◌∙◌, ap, none, some, List, [], ◌∷◌, ◌++◌, arith, ◌==◌, if◌then◌else◌,
  length, ◌≢◌,
}
use pr_shooter.Wire.{◌>>=◌}
use package.pr_shooter.Server.Memory.{free, count, free_any, free-dangling}
use package.pr_shooter.Server.Queue.Interface.{QueueOf}
use package.pr_shooter.Server.Send.{
  OutMessage, IndividualMessage, Sender, send_to_everyone, send_to, drop_messages, finish_sending,
}

abbrev pub addresses : List IndividualMessage → List ℕ
addresses [] = []
addresses (x ∷ xs) = x.message.address ∷ addresses xs

-- the owners of the block at an address: the message to everyone, and the messages that wait
abbrev pub owners : OutMessage → List IndividualMessage → ℕ → ℕ
owners everyone xs p = (if everyone.address == p then 1 else 0) + count p (addresses xs)

count-addresses_last :
    (p : ℕ) (xs : List IndividualMessage) (x : IndividualMessage)
    → count p (addresses (xs ++ (x ∷ [])))
      ≡ (if x.message.address == p then 1 else 0) + count p (addresses xs)
count-addresses_last p [] x = refl
count-addresses_last p (y ∷ xs) x = omega (arith, count-addresses_last p xs x)

module _ (q : QueueOf IndividualMessage) where
  -- The messages `xs` wait, and each block that is allocated has one owner: either the message to
  -- everyone or one that waits.
  pub record IsOwned (s : Sender q.State) (xs : List IndividualMessage) : Type 0 where
    pub contains : q.Contains s.outgoing_queue xs
    pub count_eq : (p : ℕ) → p ≢ 0 → count p s.live ≡ owners s.message_to_everyone xs p

  -- the sender, when a caller has allocated a block
  abbrev pub with_block : ℕ → Sender q.State → Sender q.State
  with_block address s = record s { live = address ∷ s.live }

  -- Handing over a new block to everyone never faults: the block of the message before is freed, the
  -- new one has the message as its only owner, and what waits for single clients stays.
  pub send_to_everyone-IsOwned :
      (message : OutMessage) (s : Sender q.State) (xs : List IndividualMessage)
      → IsOwned s xs
      → (after : Sender q.State) × (send_to_everyone q message (with_block message.address s)
          ≡ some after)
        × IsOwned after xs
        × (after.message_to_everyone ≡ message)
  unfolding send_to_everyone
  send_to_everyone-IsOwned message s xs h =
      let held : (p : ℕ)
          → p ≢ 0
          → count p (message.address ∷ s.live)
            ≡ (if message.address == p then 1 else 0) + owners s.message_to_everyone xs p =
        λ p ne. ap (λ n. (if message.address == p then 1 else 0) + n) (h.count_eq p ne) in
      let (kept, freed, counts) =
        free_any s.message_to_everyone.address (message.address ∷ s.live)
          (λ ne. let own = held s.message_to_everyone.address ne in ground arith) in
      (
        record s { message_to_everyone = message; live = kept },
        rw (freed, ◌>>=◌) refl,
        record { contains = h.contains; count_eq = λ p ne. omega (arith, held p ne, counts p ne) },
        refl,
      )

  -- Handing over a new block for one client puts the message behind those that wait, and the block
  -- has it as its only owner.
  pub send_to-IsOwned :
      (message : OutMessage) (client_id : ℕ) (s : Sender q.State) (xs : List IndividualMessage)
      → IsOwned s xs
      → (after : Sender q.State) × (send_to q message client_id (with_block message.address s)
          ≡ some after)
        × IsOwned after (xs ++ (record { message = message; client_id = client_id } ∷ []))
  unfolding send_to
  send_to-IsOwned message client_id s xs h =
      let x : IndividualMessage = record { message = message; client_id = client_id } in
      let (queue, added, contains) = q.add_back_lem x s.outgoing_queue xs h.contains in
      (
        record s { outgoing_queue = queue; live = message.address ∷ s.live },
        rw (added, ◌>>=◌) refl,
        record {
          contains = contains;
          count_eq = λ p ne. omega (arith, h.count_eq p ne, count-addresses_last p xs x);
        },
      )

  -- A message that waits at the front can be taken out and freed.
  pub take_front-IsOwned :
      (s : Sender q.State) (x : IndividualMessage) (xs : List IndividualMessage)
      → IsOwned s (x ∷ xs)
      → (queue : q.State) × (kept : List ℕ) × (q.take_front s.outgoing_queue ≡ some (x, queue))
        × (free x.message.address s.live ≡ some kept)
        × IsOwned (record s { outgoing_queue = queue; live = kept }) xs
  take_front-IsOwned s x xs h =
      let (queue, taken, contains) = q.take_front_lem s.outgoing_queue x xs h.contains in
      let (kept, freed, counts) =
        free_any x.message.address s.live
          (λ ne. let own = h.count_eq x.message.address ne in ground arith) in
      (
        queue,
        kept,
        taken,
        freed,
        record {
          contains = contains;
          count_eq = λ p ne. omega (arith, h.count_eq p ne, counts p ne);
        },
      )

  drop_messages-IsOwned :
      (s : Sender q.State) (xs : List IndividualMessage)
      → IsOwned s xs
      → (after : Sender q.State) × (drop_messages q (suc (length xs)) s ≡ some after)
        × IsOwned after []
        × (after.message_to_everyone ≡ s.message_to_everyone)
  unfolding drop_messages
  drop_messages-IsOwned s [] h =
      (s, rw (drop_messages, q.has_none_lem s.outgoing_queue [] h.contains) refl, h, refl)
  drop_messages-IsOwned s (x ∷ xs) h =
      let (queue, kept, taken, freed, owned) = take_front-IsOwned s x xs h in
      let (after, dropped, owned', same) =
        drop_messages-IsOwned (record s { outgoing_queue = queue; live = kept }) xs owned in
      (
        after,
        rw (drop_messages, q.has_none_lem s.outgoing_queue (x ∷ xs) h.contains)
            (rw (taken, ◌>>=◌) (rw (freed, ◌>>=◌) dropped)),
        owned',
        same,
      )

  -- When the thread that sends ends, it empties the queue in one test more than there are messages,
  -- it frees every block once, and no block is left allocated; the message to everyone keeps its
  -- address all the same.
  pub finish_sending-IsOwned :
      (s : Sender q.State) (xs : List IndividualMessage)
      → IsOwned s xs
      → (after : Sender q.State) × (finish_sending q (suc (length xs)) s ≡ some after)
        × ((p : ℕ) → p ≢ 0 → count p after.live ≡ 0)
        × (after.message_to_everyone ≡ s.message_to_everyone)
  unfolding finish_sending
  finish_sending-IsOwned s xs h =
      let (emptied, dropped, owned, same) = drop_messages-IsOwned s xs h in
      let (kept, freed, counts) =
        free_any emptied.message_to_everyone.address emptied.live
          (λ ne. let own = owned.count_eq emptied.message_to_everyone.address ne in ground arith) in
      (
        record emptied { live = kept },
        rw (dropped, ◌>>=◌) (rw (freed, ◌>>=◌) refl),
        λ p ne. omega (arith, owned.count_eq p ne, counts p ne),
        same,
      )

  -- If a message to everyone waits when the thread that sends ends, then the next call of
  -- `sendToEveryone`, with a new block at another address, frees the old block a second time.
  pub send_to_everyone-finished :
      (message : OutMessage) (s : Sender q.State) (xs : List IndividualMessage)
      → IsOwned s xs
      → s.message_to_everyone.address ≢ 0
      → message.address ≢ s.message_to_everyone.address
      → (after : Sender q.State) × (finish_sending q (suc (length xs)) s ≡ some after)
        × (send_to_everyone q message (with_block message.address after) ≡ none)
  unfolding send_to_everyone
  send_to_everyone-finished message s xs h waits other =
      let (after, finished, nothing, same) = finish_sending-IsOwned s xs h in
      let address = ap (λ (m : OutMessage). m.address) same in
      let old = after.message_to_everyone.address in
      let nonzero : old ≢ 0 = λ e. waits (sym address ∙ e) in
      let gone = nothing old nonzero in
      let dangling : free old (message.address ∷ after.live) ≡ none =
        free-dangling old (message.address ∷ after.live) nonzero (ground arith) in
      (after, finished, rw (dangling, ◌>>=◌) refl)
