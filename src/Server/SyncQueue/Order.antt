-- ===== src/Server/SyncQueue/Order.antt =====
-- A synchronized queue does for its threads what a list would do, one request after the other.
use pr_shooter.Prelude.{ℕ, ◌≡◌, some, List, [], ◌∷◌, ◌++◌}
use package.pr_shooter.Server.Queue.Interface.{QueueOf, is_nil}
use package.pr_shooter.Server.SyncQueue.{
  QueueReply, was_empty, popped, nothing, SharedQueue, Shared, QueueRequest, back, front, passed,
  asks, takes,
}

-- the elements and the replies
abbrev pub View : Type 0 → Type 0
View A = List A × List (ℕ × QueueReply A)

module _ {A : Type 0} where
  -- what a request does to a list
  abbrev pub serve : ℕ → QueueRequest A → View A → View A
  serve i (back x) (xs, replies) = (xs ++ (x ∷ []), replies)
  serve i (front x) (xs, replies) = (x ∷ xs, replies)
  serve i (passed x) (xs, replies) = (xs ++ (x ∷ []), replies)
  serve i asks (xs, replies) = (xs, (i, was_empty (is_nil xs)) ∷ replies)
  serve i takes ([], replies) = ([], (i, nothing) ∷ replies)
  serve i takes (x ∷ xs, replies) = (xs, (i, popped x) ∷ replies)

  abbrev pub serve_all : List (ℕ × QueueRequest A) → View A → View A
  serve_all [] view = view
  serve_all ((i, r) ∷ served) view = serve_all served (serve i r view)

module _ {A : Type 0} (q : QueueOf A) where
  -- Nothing has faulted, the queue holds the elements, and the threads have got the replies.
  abbrev pub Shows : Shared q → View A → Type 0
  Shows shared view =
      (s : SharedQueue q.State A) × (shared ≡ some s)
      × q.Contains s.queue view.0
      × (s.replies ≡ view.1)
