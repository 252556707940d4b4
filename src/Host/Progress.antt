-- ===== src/Host/Progress.antt =====
-- Every message that waits is handled at last.
use mathlib.Core.List.{append_assoc}
use mathlib.Core.Option.{some-injective}
use pr_shooter.Prelude.{
  sym, ap, ℕ, zero, suc, ◌+◌, ◌<◌, ◌≡◌, refl, ◌∙◌, subst, some, List, [], ◌∷◌, ◌++◌, length, arith,
  inl, inr, Option-cases, get_elem?,
}
use pr_shooter.Machine.{Machine}
use pr_shooter.Wire.{◌>>=◌}
use pr_shooter.Game.{Game}
use pr_shooter.Game.Messages.{IncomingMessage, Event, handle_message}
use pr_shooter.Server.Receive.{
  Action, allocate, release, enqueue_back, enqueue_front, close_socket, set_stopped, perform_all,
  take_message,
}
use pr_shooter.Server.Queue.Interface.{QueueOf}
use pr_shooter.Server.Receive.Delivered.{deliver, perform_all-deliver}
use package.pr_shooter.Host.{Pass, receive_thread}

-- how many messages go to the front
abbrev pub fronts : List Action → ℕ
fronts [] = 0
fronts (enqueue_front m ∷ actions) = suc (fronts actions)
fronts (_ ∷ actions) = fronts actions

abbrev pub all_fronts : {m : Machine} → List (Pass m) → ℕ
all_fronts [] = 0
all_fronts (pass ∷ passes) = fronts pass.arrived + all_fronts passes

get_elem?-append_some :
    {B : Type 0} (xs ys : List B) (k : ℕ) (x : B)
    → get_elem? xs k ≡ some x
    → get_elem? (xs ++ ys) k ≡ some x
get_elem?-append_some [] ys k x e = absurd (cc)
get_elem?-append_some (z ∷ xs) ys zero x e = e
get_elem?-append_some (z ∷ xs) ys (suc k) x e = get_elem?-append_some xs ys k x e

-- What goes to the front moves a message that waits by one place, and nothing else moves it.
get_elem?-deliver :
    (actions : List Action) (xs : List IncomingMessage) (k : ℕ) (x : IncomingMessage)
    → get_elem? xs k ≡ some x
    → get_elem? (deliver actions xs) (fronts actions + k) ≡ some x
get_elem?-deliver [] xs k x e =
    let same : k ≡ fronts [] + k = omega arith in subst (λ n. get_elem? xs n ≡ some x) same e
get_elem?-deliver (enqueue_back m ∷ actions) xs k x e =
    get_elem?-deliver actions (xs ++ (m ∷ [])) k x (get_elem?-append_some xs (m ∷ []) k x e)
get_elem?-deliver (enqueue_front m ∷ actions) xs k x e =
    let moved : fronts actions + suc k ≡ suc (fronts actions) + k = omega arith in
    subst (λ n. get_elem? (deliver actions (m ∷ xs)) n ≡ some x) moved
      (get_elem?-deliver actions (m ∷ xs) (suc k) x e)
get_elem?-deliver (allocate ∷ actions) xs k x e = get_elem?-deliver actions xs k x e
get_elem?-deliver (release ∷ actions) xs k x e = get_elem?-deliver actions xs k x e
get_elem?-deliver (close_socket ∷ actions) xs k x e = get_elem?-deliver actions xs k x e
get_elem?-deliver (set_stopped ∷ actions) xs k x e = get_elem?-deliver actions xs k x e

take_message_first :
    (q : QueueOf IncomingMessage) (waited : q.State) (y : IncomingMessage)
    (ys : List IncomingMessage)
    → q.Contains waited (y ∷ ys)
    → (rest : q.State) × (take_message q waited ≡ some (y, rest)) × q.Contains rest ys
unfolding take_message
take_message_first q waited y ys h =
    let (rest, taken, holds) = q.take_front_lem waited y ys h in
    (rest, rw (q.has_none_lem waited (y ∷ ys) h) taken, holds)

module _ {m : Machine} (q : QueueOf IncomingMessage) where
  -- The run from `s` and `g` to `end` handles `x`, which waits behind `k` others, in one of its
  -- passes: the passes before it lead to the queue, the game and the events `reached`; there `x` is
  -- taken, and handling it leads to `handled`; from there the passes behind lead to the end.
  pub record IsHandled (x : IncomingMessage) (k : ℕ) (passes : List (Pass m)) (s : q.State)
      (g : Game m) (end : q.State × Game m × List Event) : Type 0 where
    pub before : List (Pass m)
    pub pass : Pass m
    pub after : List (Pass m)
    pub reached : q.State × Game m × List Event
    pub handled : q.State × Game m × List Event
    pub later : List Event
    pub passes_eq : passes ≡ before ++ (pass ∷ after)
    pub position : length before ≡ k + all_fronts before + fronts pass.arrived
    pub before_eq : receive_thread q before s g ≡ some reached
    pub taken_eq : (perform_all q pass.arrived reached.0 >>= take_message q) ≡ some (x, handled.0)
    pub handled_eq :
        handle_message pass.dice pass.duration x reached.1 ≡ some (handled.1, handled.2)
    pub after_eq : receive_thread q after handled.0 handled.1 ≡ some (end.0, end.1, later)
    pub events_eq : end.2 ≡ reached.2 ++ (handled.2 ++ later)

  module _ (pass : Pass m) (passes : List (Pass m)) (s waited rest : q.State) (y : IncomingMessage)
      (g : Game m) (arrives : perform_all q pass.arrived s ≡ some waited)
      (takes : take_message q waited ≡ some (y, rest)) where
    -- what a pass and those behind it do, in steps
    receive_thread-cons_inv :
        (end : q.State × Game m × List Event)
        → receive_thread q (pass ∷ passes) s g ≡ some end
        → (g1 : Game m) × (events : List Event) × (last : q.State × Game m × List Event)
          × (handle_message pass.dice pass.duration y g ≡ some (g1, events))
          × (receive_thread q passes rest g1 ≡ some last)
          × ((last.0, last.1, events ++ last.2) ≡ end)
    unfolding receive_thread
    receive_thread-cons_inv end e =
        let run = rw (takes, ◌>>=◌) at (rw (arrives, ◌>>=◌) at e) in
        elim (Option-cases (handle_message pass.dice pass.duration y g)) [
          | inl f ↦ (let fault = rw (f, ◌>>=◌) at run in absurd (cc))
          | inr ((g1, events), f) ↦
              let run' = rw (f, ◌>>=◌) at run in
              elim (Option-cases (receive_thread q passes rest g1)) [
                | inl f' ↦ (let fault = rw (f', ◌>>=◌) at run' in absurd (cc))
                | inr (last, f') ↦
                    (g1, events, last, f, f', some-injective _ _ (rw (f', ◌>>=◌) at run'))
              ]
        ]

    -- `x` is the first message.
    IsHandled-now :
        (x : IncomingMessage) (k : ℕ) (end : q.State × Game m × List Event)
        → y ≡ x
        → k + fronts pass.arrived ≡ 0
        → receive_thread q (pass ∷ passes) s g ≡ some end
        → IsHandled x k (pass ∷ passes) s g end
    unfolding receive_thread
    IsHandled-now x k end same position e =
        let (g1, events, last, f, f', ends) = receive_thread-cons_inv end e in
        subst (λ t. IsHandled x k (pass ∷ passes) s g t) ends
          (subst (λ z. IsHandled z k (pass ∷ passes) s g (last.0, last.1, events ++ last.2)) same
            (record {
              before = [];
              pass = pass;
              after = passes;
              reached = (s, g, []);
              handled = (rest, g1, events);
              later = last.2;
              passes_eq = refl;
              position = omega arith;
              before_eq = refl;
              taken_eq = rw (arrives, ◌>>=◌) takes;
              handled_eq = f;
              after_eq = f';
              events_eq = refl;
            }))

    -- `x` comes in a later pass.
    IsHandled-later :
        (x : IncomingMessage) (k j : ℕ) (end : q.State × Game m × List Event)
        → k + fronts pass.arrived ≡ suc j
        → ((g1 : Game m) (last : q.State × Game m × List Event)
            → receive_thread q passes rest g1 ≡ some last
            → IsHandled x j passes rest g1 last)
        → receive_thread q (pass ∷ passes) s g ≡ some end
        → IsHandled x k (pass ∷ passes) s g end
    unfolding receive_thread
    IsHandled-later x k j end position ih e =
        let (g1, events, last, f, f', ends) = receive_thread-cons_inv end e in
        let h = ih g1 last f' in
        subst (λ t. IsHandled x k (pass ∷ passes) s g t) ends
          (record {
            before = pass ∷ h.before;
            pass = h.pass;
            after = h.after;
            reached = (h.reached.0, h.reached.1, events ++ h.reached.2);
            handled = h.handled;
            later = h.later;
            passes_eq = ap (λ ps. pass ∷ ps) h.passes_eq;
            position = omega (arith, h.position);
            before_eq =
                rw (arrives, ◌>>=◌)
                  (rw (takes, ◌>>=◌) (rw (f, ◌>>=◌) (rw (h.before_eq, ◌>>=◌) refl)));
            taken_eq = h.taken_eq;
            handled_eq = h.handled_eq;
            after_eq = h.after_eq;
            events_eq =
                ap (λ es. events ++ es) h.events_eq
                ∙ sym (append_assoc events h.reached.2 (h.handled.2 ++ h.later));
          })

  first_or_later :
      (x : IncomingMessage) (pass : Pass m) (passes : List (Pass m)) (s waited : q.State)
      (ds : List IncomingMessage) (k n : ℕ) (g : Game m) (end : q.State × Game m × List Event)
      → perform_all q pass.arrived s ≡ some waited
      → q.Contains waited ds
      → get_elem? ds n ≡ some x
      → k + fronts pass.arrived ≡ n
      → ((rest : q.State) (ys : List IncomingMessage) (j : ℕ) (g1 : Game m)
            (last : q.State × Game m × List Event)
          → q.Contains rest ys
          → get_elem? ys j ≡ some x
          → suc j ≡ n
          → receive_thread q passes rest g1 ≡ some last
          → IsHandled x j passes rest g1 last)
      → receive_thread q (pass ∷ passes) s g ≡ some end
      → IsHandled x k (pass ∷ passes) s g end
  first_or_later x pass passes s waited [] k n g end arrives holds found position ih e = absurd (cc)
  first_or_later x pass passes s waited (y ∷ ys) k zero g end arrives holds found position ih e =
      let (rest, takes, _) = take_message_first q waited y ys holds in
      IsHandled-now pass passes s waited rest y g arrives takes x k end (some-injective _ _ found)
        position e
  first_or_later x pass passes s waited (y ∷ ys) k (suc j) g end arrives holds found position ih e =
      let (rest, takes, left) = take_message_first q waited y ys holds in
      IsHandled-later pass passes s waited rest y g arrives takes x k j end position
        (λ g1 last run. ih rest ys j g1 last left found refl run) e

  -- A run of `receiveThread` that does not fault handles every message that waits in its queue, if
  -- it makes more passes than there are messages in front of that message, counting those in front
  -- at the start and those that are put to the front on the way: after as many passes as there are
  -- messages in front, counting those that are put to the front until then, it takes the message
  -- from the queue that it has reached, the handler is run on it in the game that it has reached, and
  -- the run goes on with the game that the handler gives, with the handler's events among its own.
  pub receive_thread-IsHandled :
      (x : IncomingMessage) (passes : List (Pass m)) (s : q.State) (xs : List IncomingMessage)
      (k : ℕ) (g : Game m) (end : q.State × Game m × List Event)
      → q.Contains s xs
      → get_elem? xs k ≡ some x
      → k + all_fronts passes < length passes
      → receive_thread q passes s g ≡ some end
      → IsHandled x k passes s g end
  receive_thread-IsHandled x [] s xs k g end h at enough e = absurd (omega arith)
  receive_thread-IsHandled x (pass ∷ passes) s xs k g end h at enough e =
      let (waited, arrives, h') = perform_all-deliver q pass.arrived s xs h in
      first_or_later x pass passes s waited (deliver pass.arrived xs) k (fronts pass.arrived + k) g
        end arrives h' (get_elem?-deliver pass.arrived xs k x at) (omega arith)
        (λ rest ys j g1 last left found same run.
          receive_thread-IsHandled x passes rest ys j g1 last left found (omega arith) run)
        e
