-- ===== src/Server/Receive/Delivery.antt =====
-- What the receiving thread of a client leaves behind in the queue, and what `take` gives.
use mathlib.Core.List.{append_assoc, append-nil}
use pr_shooter.Prelude.{
  ℕ, ◌≡◌, refl, sym, ◌∙◌, subst, true, some, List, [], ◌∷◌, ◌++◌, map, inl, inr, Option-cases, ◌⊎◌,
}
use pr_shooter.Wire.{◌>>=◌, Bytes}
use pr_shooter.Game.Messages.{new_connection, lost_connection, empty, IncomingMessage}
use package.pr_shooter.Server.Queue.Interface.{QueueOf}
use package.pr_shooter.Server.Receive.{
  Round, Action, receive_loop, notice, farewell, start_receiving, perform, perform_all,
  take_message,
}
use package.pr_shooter.Server.Receive.Thread.{
  data_message, Traffic, quiet, dropped, passed, contents, receive_loop-Traffic,
}

module _ (q : QueueOf IncomingMessage) where
  perform_all-append :
      (before after : List Action) (s : q.State)
      → perform_all q (before ++ after) s ≡ (perform_all q before s >>= perform_all q after)
  unfolding perform_all
  perform_all-append [] after s = refl
  perform_all-append (a ∷ before) after s = elim (Option-cases (perform q a s)) [
    | inl e ↦ rw e refl
    | inr (s', e) ↦ rw e (perform_all-append before after s')
  ]

  -- A list of actions passes its messages on to the queue, behind those that wait.
  pub Traffic-Contains :
      (client_id : ℕ) {actions : List Action} {ms : List Bytes} (s : q.State)
      (xs : List IncomingMessage)
      → Traffic client_id actions ms
      → q.Contains s xs
      → (after : q.State) × (perform_all q actions s ≡ some after)
        × q.Contains after (xs ++ map (data_message client_id) ms)
  unfolding perform_all
  Traffic-Contains client_id s xs quiet h =
      (s, refl, subst (λ ys. q.Contains s ys) (sym (append-nil xs)) h)
  Traffic-Contains client_id s xs (dropped t) h = Traffic-Contains client_id s xs t h
  Traffic-Contains client_id s xs (passed {ms} bytes t) h =
      let (s', added, holds) = q.add_back_lem (data_message client_id bytes) s xs h in
      let (s'', done, holds') =
        Traffic-Contains client_id s' (xs ++ (data_message client_id bytes ∷ [])) t holds in
      (
        s'',
        rw (added, ◌>>=◌) done,
        subst (λ ys. q.Contains s'' ys)
            (append_assoc xs (data_message client_id bytes ∷ []) (map (data_message client_id) ms))
            holds',
      )

  -- If nothing is taken from the queue while a client's thread runs to its end, the queue holds the
  -- notice of the lost connection in front of all it held before, then the notice of the new
  -- connection, and then the messages of the client in the order in which they came.
  pub start_receiving-Contains :
      (client_id : ℕ) (rounds : List Round) (s : q.State) (xs : List IncomingMessage)
      → (receive_loop client_id rounds).1 ≡ true
      → q.Contains s xs
      → (after : q.State) × (perform_all q (start_receiving client_id rounds) s ≡ some after)
        × q.Contains after (
            notice lost_connection client_id
            ∷ (xs
                ++ (notice new_connection client_id
                    ∷ map (data_message client_id) (contents (receive_loop client_id rounds).0))))
  unfolding start_receiving perform_all
  start_receiving-Contains client_id rounds s xs left h =
      let loop = receive_loop client_id rounds in
      let hello = notice new_connection client_id in
      let (s1, added, holds) = q.add_back_lem hello s xs h in
      let (s2, done, holds') =
        Traffic-Contains client_id s1 (xs ++ (hello ∷ [])) (receive_loop-Traffic client_id rounds)
          holds in
      let (s3, lost, holds'') =
        q.add_front_lem (notice lost_connection client_id) s2
          ((xs ++ (hello ∷ [])) ++ map (data_message client_id) (contents loop.0)) holds' in
      (
        s3,
        rw (left, added, ◌>>=◌)
            (perform_all-append loop.0 (farewell client_id) s1
              ∙ rw (done, ◌>>=◌) (rw (lost, ◌>>=◌) refl)),
        subst (λ ys. q.Contains s3 (notice lost_connection client_id ∷ ys))
            (append_assoc xs (hello ∷ []) (map (data_message client_id) (contents loop.0))) holds'',
      )

  -- `take` gives the first message and leaves the others, or one of type `EMPTY` where the queue is
  -- still empty after the wait.
  pub take_message-Contains :
      (s : q.State) (xs : List IncomingMessage)
      → q.Contains s xs
      → (m : IncomingMessage) × (rest : q.State) × (take_message q s ≡ some (m, rest))
        × (((xs ≡ []) × (m.message_type ≡ empty) × q.Contains rest [])
            ⊎ ((ys : List IncomingMessage) × (xs ≡ m ∷ ys) × q.Contains rest ys))
  unfolding take_message
  take_message-Contains s [] h = (
    record { message_type = empty; client_id = 0; buffer = [] },
    s,
    rw (q.has_none_lem s [] h) refl,
    inl (refl, refl, h),
  )
  take_message-Contains s (x ∷ xs) h =
      let (rest, taken, holds) = q.take_front_lem s x xs h in
      (x, rest, rw (q.has_none_lem s (x ∷ xs) h) taken, inr (xs, refl, holds))
