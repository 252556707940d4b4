-- ===== src/Server/Receive/Delivered.antt =====
-- What the threads of the clients do to the queue of received messages, as a list.
use pr_shooter.Prelude.{◌≡◌, refl, some, List, [], ◌∷◌, ◌++◌}
use pr_shooter.Wire.{◌>>=◌}
use pr_shooter.Game.Messages.{IncomingMessage}
use package.pr_shooter.Server.Queue.Interface.{QueueOf}
use package.pr_shooter.Server.Receive.{
  Action, allocate, release, enqueue_back, enqueue_front, close_socket, set_stopped, perform,
  perform_all,
}

-- what actions do to the list of messages that wait
abbrev pub deliver : List Action → List IncomingMessage → List IncomingMessage
deliver [] xs = xs
deliver (enqueue_back m ∷ actions) xs = deliver actions (xs ++ (m ∷ []))
deliver (enqueue_front m ∷ actions) xs = deliver actions (m ∷ xs)
deliver (allocate ∷ actions) xs = deliver actions xs
deliver (release ∷ actions) xs = deliver actions xs
deliver (close_socket ∷ actions) xs = deliver actions xs
deliver (set_stopped ∷ actions) xs = deliver actions xs

module _ (q : QueueOf IncomingMessage) where
  pub perform_all-deliver :
      (actions : List Action) (s : q.State) (xs : List IncomingMessage)
      → q.Contains s xs
      → (after : q.State) × (perform_all q actions s ≡ some after)
        × q.Contains after (deliver actions xs)
  unfolding perform_all perform
  perform_all-deliver [] s xs h = (s, refl, h)
  perform_all-deliver (enqueue_back x ∷ actions) s xs h =
      let (s', added, h') = q.add_back_lem x s xs h in
      let (after, done, h'') = perform_all-deliver actions s' (xs ++ (x ∷ [])) h' in
      (after, rw (added, ◌>>=◌) done, h'')
  perform_all-deliver (enqueue_front x ∷ actions) s xs h =
      let (s', added, h') = q.add_front_lem x s xs h in
      let (after, done, h'') = perform_all-deliver actions s' (x ∷ xs) h' in
      (after, rw (added, ◌>>=◌) done, h'')
  perform_all-deliver (allocate ∷ actions) s xs h = perform_all-deliver actions s xs h
  perform_all-deliver (release ∷ actions) s xs h = perform_all-deliver actions s xs h
  perform_all-deliver (close_socket ∷ actions) s xs h = perform_all-deliver actions s xs h
  perform_all-deliver (set_stopped ∷ actions) s xs h = perform_all-deliver actions s xs h
