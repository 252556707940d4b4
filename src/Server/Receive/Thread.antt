-- ===== src/Server/Receive/Thread.antt =====
-- What the receiving thread of a client leaves behind in memory.
use pr_shooter.Prelude.{
  ℕ, suc, ◌+◌, ◌≡◌, refl, sym, ap, subst, Bool, true, false, List, [], ◌∷◌, ◌++◌, arith, ◌==◌,
  length, inl, inr, Bool-cases,
}
use pr_shooter.Wire.{Bytes, from_bytes}
use pr_shooter.Game.Messages.{message, IncomingMessage}
use package.pr_shooter.Server.Receive.{
  Poll, poll_error, timed_out, event, Received, recv_error, received, Round, Action, allocate,
  release, enqueue_back, enqueue_front, close_socket, set_stopped, Outcome, stay, leave, is_running,
  as_int, receive_content, receive_message, receive_round, receive_loop, farewell, start_receiving,
}

abbrev pub data_message : ℕ → Bytes → IncomingMessage
data_message client_id bytes = record {
  message_type = message;
  client_id = client_id;
  buffer = bytes;
}

-- The actions of the loop, and the messages that it passes on: a block that is allocated is either
-- released at once or goes into the queue with its message.
pub data Traffic (client_id : ℕ) : List Action → List Bytes → Type 0 where
  quiet : Traffic client_id [] []
  dropped :
      {actions : List Action} {ms : List Bytes}
      → Traffic client_id actions ms
      → Traffic client_id (allocate ∷ release ∷ actions) ms
  passed :
      {actions : List Action} {ms : List Bytes} (bytes : Bytes)
      → Traffic client_id actions ms
      → Traffic client_id
          (allocate ∷ enqueue_back (data_message client_id bytes) ∷ actions)
          (bytes ∷ ms)

-- the contents that are put into the queue
abbrev pub contents : List Action → List Bytes
contents [] = []
contents (enqueue_back m ∷ actions) = m.buffer ∷ contents actions
contents (enqueue_front m ∷ actions) = contents actions
contents (allocate ∷ actions) = contents actions
contents (release ∷ actions) = contents actions
contents (close_socket ∷ actions) = contents actions
contents (set_stopped ∷ actions) = contents actions

-- A round does one of three things.
abbrev RoundTraffic : ℕ → Outcome → Type 0
RoundTraffic client_id (stay actions) = Traffic client_id actions (contents actions)
RoundTraffic client_id (leave actions) = Traffic client_id actions (contents actions)

module _ (client_id : ℕ) where
  receive_content-Traffic :
      (size : ℕ) (filled : Received)
      → RoundTraffic client_id (receive_content client_id size filled)
  unfolding receive_content
  receive_content-Traffic size recv_error = dropped quiet
  receive_content-Traffic size (received bytes) =
      elim (Bool-cases (as_int (length bytes) == size)) [
        | inl whole ↦ rw whole (passed bytes quiet)
        | inr short ↦ rw short (dropped quiet)
      ]

  receive_round-Traffic :
      (p : Poll) (sized filled : Received)
      → RoundTraffic client_id (receive_round client_id p sized filled)
  unfolding receive_round receive_message
  receive_round-Traffic (poll_error true) sized filled = quiet
  receive_round-Traffic (poll_error false) sized filled = quiet
  receive_round-Traffic timed_out sized filled = quiet
  receive_round-Traffic (event false) sized filled = quiet
  receive_round-Traffic (event true) recv_error filled = quiet
  receive_round-Traffic (event true) (received bytes) filled =
      elim (Bool-cases (as_int (length bytes) == 4)) [
        | inl whole ↦ rw whole (receive_content-Traffic (from_bytes bytes) filled)
        | inr short ↦ rw short quiet
      ]

  Traffic-append :
      {before after : List Action} {ms ns : List Bytes}
      → Traffic client_id before ms
      → Traffic client_id after ns
      → Traffic client_id (before ++ after) (ms ++ ns)
  Traffic-append quiet u = u
  Traffic-append (dropped t) u = dropped (Traffic-append t u)
  Traffic-append (passed bytes t) u = passed bytes (Traffic-append t u)

  contents-Traffic :
      {actions : List Action} {ms : List Bytes}
      → Traffic client_id actions ms
      → contents actions ≡ ms
  contents-Traffic quiet = refl
  contents-Traffic (dropped t) = contents-Traffic t
  contents-Traffic (passed bytes t) = ap (λ ms. bytes ∷ ms) (contents-Traffic t)

  pub receive_loop-Traffic :
      (rounds : List Round)
      → Traffic client_id
          (receive_loop client_id rounds).0
          (contents (receive_loop client_id rounds).0)
  unfolding receive_loop
  receive_loop-Traffic [] = quiet
  receive_loop-Traffic (r ∷ rounds) = elim (Bool-cases (is_running r.status)) [
    | inr ended ↦ rw ended quiet
    | inl goes_on ↦ rw goes_on (
        after (receive_loop-Traffic rounds) (receive_round client_id r.polled r.sized r.filled)
          (receive_round-Traffic r.polled r.sized r.filled))
  ]
    where
      later : List Action × Bool
      later = receive_loop client_id rounds

      next : Outcome → List Action × Bool
      next outcome = elim outcome [
        | stay actions ↦ (actions ++ later.0, later.1)
        | leave actions ↦ (actions, true)
      ]

      after :
          Traffic client_id later.0 (contents later.0)
          → (outcome : Outcome) → RoundTraffic client_id outcome
          → Traffic client_id (next outcome).0 (contents (next outcome).0)
      after w (leave actions) t = t
      after w (stay actions) t =
          let u = Traffic-append t w in
          subst (λ ms. Traffic client_id (actions ++ later.0) ms) (sym (contents-Traffic u)) u

-- how many blocks a list of actions allocates, and how many it releases
abbrev pub allocated : List Action → ℕ
allocated [] = 0
allocated (allocate ∷ actions) = suc (allocated actions)
allocated (_ ∷ actions) = allocated actions

abbrev pub released : List Action → ℕ
released [] = 0
released (release ∷ actions) = suc (released actions)
released (_ ∷ actions) = released actions

Traffic-allocated :
    (client_id : ℕ) {actions : List Action} {ms : List Bytes} (rest : List Action)
    → Traffic client_id actions ms
    → (allocated (actions ++ rest) + released rest
        ≡ released (actions ++ rest) + length ms + allocated rest)
      × (contents (actions ++ rest) ≡ ms ++ contents rest)
Traffic-allocated client_id rest quiet = (omega arith, refl)
Traffic-allocated client_id rest (dropped t) =
    let (n, e) = Traffic-allocated client_id rest t in (omega arith, e)
Traffic-allocated client_id rest (passed bytes t) =
    let (n, e) = Traffic-allocated client_id rest t in (omega arith, ap (λ ms. bytes ∷ ms) e)

-- There are as many blocks as are released and as messages go into the queue behind the notice of
-- the new connection.
pub start_receiving_counts :
    (client_id : ℕ) (rounds : List Round)
    → allocated (start_receiving client_id rounds)
      ≡ released (start_receiving client_id rounds)
        + length (contents (receive_loop client_id rounds).0)
unfolding start_receiving
start_receiving_counts client_id rounds = elim (Bool-cases (receive_loop client_id rounds).1) [
  | inl left ↦ rw left (
      omega (
        arith,
        (Traffic-allocated client_id (farewell client_id)
            (receive_loop-Traffic client_id rounds)).0,
      ))
  | inr on ↦
      rw on
        (omega (arith, (Traffic-allocated client_id [] (receive_loop-Traffic client_id rounds)).0))
]
