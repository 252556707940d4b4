-- ===== src/Server/Receive/Emptying.antt =====
-- `destroyReceivedQueue` of Server/server_receive.c: the blocks of the messages that are still in the
-- queue. Only the address of a message's bytes matters here, so that the queue holds addresses.
use pr_shooter.Prelude.{
  ℕ, zero, suc, ◌≡◌, ◌≢◌, refl, true, false, Option, none, some, List, [], ◌∷◌, length, arith,
}
use pr_shooter.Wire.{◌>>=◌}
use package.pr_shooter.Server.Memory.{free, count, free_any}
use package.pr_shooter.Server.Queue.Interface.{QueueOf}

module _ (q : QueueOf ℕ) where
  -- `destroyReceivedQueue`, with at most `fuel` tests and the blocks that are allocated
  unfoldable pub destroy_received_queue : ℕ → q.State → List ℕ → Option (q.State × List ℕ)
  destroy_received_queue zero s live = none
  destroy_received_queue (suc fuel) s live = elim (q.has_none s) [
    | true ↦ some (s, live)
    | false ↦ q.take_front s >>= λ (address, rest).
        free address live >>= λ kept. destroy_received_queue fuel rest kept
  ]

  -- If the messages in the queue own the blocks that are allocated, each its own, then the queue is
  -- emptied in one test more than it has messages, and no block is left or freed twice.
  pub destroy_received_queue-count :
      (s : q.State) (addresses live : List ℕ)
      → q.Contains s addresses
      → ((p : ℕ) → p ≢ 0 → count p live ≡ count p addresses)
      → (after : q.State) × (kept : List ℕ) × (destroy_received_queue
            (suc (length addresses))
            s
            live
          ≡ some (after, kept))
        × q.Contains after []
        × ((p : ℕ) → p ≢ 0 → count p kept ≡ 0)
  unfolding destroy_received_queue
  destroy_received_queue-count s [] live h owned =
      (s, live, rw (destroy_received_queue, q.has_none_lem s [] h) refl, h, owned)
  destroy_received_queue-count s (a ∷ addresses) live h owned =
      let (rest, taken, h') = q.take_front_lem s a addresses h in
      let (kept, freed, counts) = free_any a live (λ ne. let own = owned a ne in ground arith) in
      let (after, last, e, empty, gone) =
        destroy_received_queue-count rest addresses kept h'
          (λ p ne. omega (arith, owned p ne, counts p ne)) in
      (
        after,
        last,
        rw (destroy_received_queue, q.has_none_lem s (a ∷ addresses) h)
            (rw (taken, ◌>>=◌) (rw (freed, ◌>>=◌) e)),
        empty,
        gone,
      )
