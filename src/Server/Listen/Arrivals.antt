-- ===== src/Server/Listen/Arrivals.antt =====
-- Who is in the table of clients when the thread has accepted connections.
use mathlib.Core.List.{append_assoc, append-nil}
use pr_shooter.Prelude.{
  ℕ, suc, ◌+◌, ◌<◌, ◌≡◌, refl, sym, ◌∙◌, ap, subst, Bool, true, false, ◌||◌, Option, none, some,
  List, [], ◌∷◌, ◌++◌, if◌then◌else◌, map, length, length-append, arith, inl, inr, Bool-cases, not,
}
use pr_shooter.Wire.{◌>>=◌}
use package.pr_shooter.Server.Array.{Array}
use package.pr_shooter.Server.Array.Holds.{Holds}
use package.pr_shooter.Server.Clients.{Client, Clients, ThreadEvent, running, created_events}
use package.pr_shooter.Server.Clients.Table.{add_client-Holds}
use package.pr_shooter.Server.Receive.{Poll, poll_error, timed_out, event}
use package.pr_shooter.Server.Listen.{ListenRound, accept_client, listen_round, listen_loop}

-- whether a round ends the loop
abbrev pub breaks : Poll → Bool
breaks (poll_error interrupted) = not interrupted
breaks timed_out = false
breaks (event readable) = false

-- The socket and the thread of a connection that is accepted in a round.
abbrev pub arrival : Poll → Option ℕ → Option ℕ → List (ℕ × Option ℕ)
arrival (poll_error interrupted) accepted created = []
arrival timed_out accepted created = []
arrival (event false) accepted created = []
arrival (event true) none created = []
arrival (event true) (some socket) created = (socket, created) ∷ []

-- The connections that are accepted, in order, up to the round that ends the loop.
abbrev pub arrivals : List ListenRound → List (ℕ × Option ℕ)
arrivals [] = []
arrivals (r ∷ rounds) =
    if r.is_stopped || breaks r.polled
    then []
    else arrival r.polled r.accepted r.created ++ arrivals rounds

abbrev pub client_of : ℕ × Option ℕ → Client
client_of (socket, created) = record { thread_id = created; socket = socket; status = running }

-- what starts the threads of the clients that come in, the first of whom gets the id `n`
abbrev pub welcomes : ℕ → List (ℕ × Option ℕ) → List ThreadEvent
welcomes n [] = []
welcomes n ((socket, created) ∷ others) = created_events socket n created ++ welcomes (n + 1) others

Holds-nonempty :
    {A : Type 0} (table : Array A) (xs : List A)
    → Holds table xs
    → 0 < length xs
    → 0 < table.capacity
Holds-nonempty table xs h pos = omega (arith, h.size_eq, h.size_le)

-- A round that goes on adds whom it accepts, and one that ends the loop adds nobody.
listen_round-Holds :
    (polled : Poll) (accepted created : Option ℕ) (clients : Clients) (cs : List Client)
    → 0 < clients.capacity
    → Holds clients cs
    → let new = arrival polled accepted created in
      (table : Clients) × (listen_round polled accepted created clients
        ≡ some (not (breaks polled), table, welcomes (length cs) new))
      × (0 < table.capacity)
      × Holds table (cs ++ map client_of new)
unfolding listen_round accept_client
listen_round-Holds (poll_error true) accepted created clients cs pos h =
    (clients, refl, pos, rw (append-nil cs) h)
listen_round-Holds (poll_error false) accepted created clients cs pos h =
    (clients, refl, pos, rw (append-nil cs) h)
listen_round-Holds timed_out accepted created clients cs pos h =
    (clients, refl, pos, rw (append-nil cs) h)
listen_round-Holds (event false) accepted created clients cs pos h =
    (clients, refl, pos, rw (append-nil cs) h)
listen_round-Holds (event true) none created clients cs pos h =
    (clients, refl, pos, rw (append-nil cs) h)
listen_round-Holds (event true) (some socket) created clients cs pos h =
    let (table, added, holds) = add_client-Holds socket created clients cs pos h in
    (
      table,
      rw (added, ◌>>=◌)
          (ap (λ events. some (true, table, events))
            (sym (append-nil (created_events socket (length cs) created)))),
      Holds-nonempty table _ holds
          (omega (arith, length-append cs (client_of (socket, created) ∷ []))),
      holds,
    )

breaks-arrival :
    (polled : Poll) (accepted created : Option ℕ)
    → breaks polled ≡ true
    → arrival polled accepted created ≡ []
breaks-arrival (poll_error interrupted) accepted created e = refl
breaks-arrival timed_out accepted created e = absurd (cc)
breaks-arrival (event readable) accepted created e = absurd (cc)

welcomes-append :
    (n : ℕ) (new others : List (ℕ × Option ℕ))
    → welcomes n (new ++ others) ≡ welcomes n new ++ welcomes (n + length new) others
welcomes-append n [] others = let same : n ≡ n + 0 = omega arith in ap (λ k. welcomes k others) same
welcomes-append n ((socket, created) ∷ new) others =
    let same : n + 1 + length new ≡ n + suc (length new) = omega arith in
    ap (λ events. created_events socket n created ++ events)
      (welcomes-append (n + 1) new others
        ∙ ap (λ k. welcomes (n + 1) new ++ welcomes k others) same)
    ∙ sym (
        append_assoc (created_events socket n created) (welcomes (n + 1) new)
          (welcomes (n + suc (length new)) others))

length-clients :
    (cs : List Client) (new : List (ℕ × Option ℕ))
    → length (cs ++ map client_of new) ≡ length cs + length new
length-clients [] [] = refl
length-clients [] (x ∷ new) = omega (arith, length-clients [] new)
length-clients (c ∷ cs) new = omega (arith, length-clients cs new)

clients-append :
    (cs : List Client) (new others : List (ℕ × Option ℕ))
    → (cs ++ map client_of new) ++ map client_of others ≡ cs ++ map client_of (new ++ others)
clients-append [] [] others = refl
clients-append [] (x ∷ new) others = ap (λ ys. client_of x ∷ ys) (clients-append [] new others)
clients-append (c ∷ cs) new others = ap (λ ys. c ∷ ys) (clients-append cs new others)

-- Where the table holds a list of clients and its capacity is not zero, the loop never faults,
-- whatever its rounds bring. Behind the clients before, the table then holds, in order, those whose
-- connections were accepted up to the round that ended the loop. Each counts as running, also where
-- no thread could be made for him; for each, in that order, either a thread is started under the
-- next id or his socket is closed.
pub listen_loop-Holds :
    (rounds : List ListenRound) (clients : Clients) (cs : List Client)
    → 0 < clients.capacity
    → Holds clients cs
    → (table : Clients) × (left : Bool) × (listen_loop rounds clients
        ≡ some (table, welcomes (length cs) (arrivals rounds), left))
      × Holds table (cs ++ map client_of (arrivals rounds))
unfolding listen_loop
listen_loop-Holds [] clients cs pos h = (clients, false, refl, rw (append-nil cs) h)
listen_loop-Holds (r ∷ rounds) clients cs pos h = elim (Bool-cases r.is_stopped) [
  | inl ended ↦ (clients, true, rw ended refl, rw (ended, append-nil cs) h)
  | inr runs ↦
      let (table, e, pos', holds) =
        listen_round-Holds r.polled r.accepted r.created clients cs pos h in
      elim (Bool-cases (breaks r.polled)) [
        | inl broken ↦
            let nobody = breaks-arrival r.polled r.accepted r.created broken in
            (
              table,
              true,
              rw (runs, e, ◌>>=◌) (rw (broken, nobody) refl),
              rw (runs, broken) (rw nobody at holds),
            )
        | inr goes_on ↦
            let new = arrival r.polled r.accepted r.created in
            let (last, left, e', holds') =
              listen_loop-Holds rounds table (cs ++ map client_of new) pos' holds in
            let together =
              welcomes-append (length cs) new (arrivals rounds)
              ∙ ap (λ k. welcomes (length cs) new ++ welcomes k (arrivals rounds))
                  (sym (length-clients cs new)) in
            (
              last,
              left,
              rw (runs, e, ◌>>=◌)
                  (rw (goes_on)
                    (rw (e', ◌>>=◌) (ap (λ events. some (last, events, left)) (sym together)))),
              rw (runs, goes_on)
                  (subst (λ ys. Holds last ys) (clients-append cs new (arrivals rounds)) holds'),
            )
      ]
]
