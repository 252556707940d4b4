-- ===== src/Server/Send/Thread/Runs.antt =====
-- The sending thread from its first turn to its end.
use pr_shooter.Prelude.{
  ℕ, suc, ◌≡◌, ◌≢◌, refl, inl, inr, false, some, List, [], ◌∷◌, length, if◌then◌else◌, Bool-cases,
}
use pr_shooter.Wire.{◌>>=◌}
use package.pr_shooter.Server.Memory.{count}
use package.pr_shooter.Server.Clients.{Clients}
use package.pr_shooter.Server.Queue.Interface.{QueueOf}
use package.pr_shooter.Server.Receive.Waiting.{WaitResult, signalled, timed_out, failed}
use package.pr_shooter.Server.Send.{IndividualMessage, Sender, SendEvent}
use package.pr_shooter.Server.Send.Ownership.{finish_sending-IsOwned}
use package.pr_shooter.Server.Send.System.{IsSafe, send_round-IsSafe}
use package.pr_shooter.Server.Send.Thread.{
  Others, SendWakeup, SendWait, ready, ends, waiting, wait_exits, Turn, Run, sends, ended, exits,
  nothing_to_send, wait_to_send, after_events, finish, start_sending,
}

module _ (q : QueueOf IndividualMessage) where
  -- What the other threads do leads from a safe state to a safe state.
  abbrev pub KeepsSafe : Others (Sender q.State) → Type 0
  KeepsSafe f = (s : Sender q.State) (c : Clients) → IsSafe q s c → IsSafe q (f s c).0 (f s c).1

  abbrev pub WakeupsKeepSafe : List (SendWakeup (Sender q.State)) → Type 0
  WakeupsKeepSafe [] = Unit {0}
  WakeupsKeepSafe (wakeup ∷ wakeups) = KeepsSafe wakeup.meanwhile × WakeupsKeepSafe wakeups

  abbrev pub TurnsKeepSafe : List (Turn (Sender q.State)) → Type 0
  TurnsKeepSafe [] = Unit {0}
  TurnsKeepSafe (turn ∷ turns) =
      WakeupsKeepSafe turn.wakeups × KeepsSafe turn.between × TurnsKeepSafe turns

  -- A wait ends in a safe state, with something to send where the thread goes on to send.
  abbrev WaitIsSafe : SendWait (Sender q.State) → Type 0
  WaitIsSafe (ready s c) = IsSafe q s c × (nothing_to_send q s ≡ false)
  WaitIsSafe (ends s c) = IsSafe q s c
  WaitIsSafe (waiting s c) = IsSafe q s c
  WaitIsSafe wait_exits = Unit {0}

  -- The thread is in its loop in a safe state, or it has ended, and no block is left.
  abbrev pub RunIsSafe : Run (Sender q.State) → Type 0
  RunIsSafe (sends s c events) = IsSafe q s c
  RunIsSafe (ended s c events) = (p : ℕ) → p ≢ 0 → count p s.live ≡ 0
  RunIsSafe (exits events) = Unit {0}

  woken :
      (wakeup : SendWakeup (Sender q.State)) (later : SendWait (Sender q.State))
      (s : Sender q.State) (c : Clients)
      → IsSafe q s c
      → WaitIsSafe later
      → WaitIsSafe (
          if wakeup.told_to_stop
          then ends s c
          else elim wakeup.result [ signalled ↦ later | timed_out ↦ later | failed ↦ wait_exits ])
  woken wakeup later s c safe h = elim (Bool-cases wakeup.told_to_stop) [
    | inl e ↦ rw e safe
    | inr e ↦ rw e (go wakeup.result)
  ]
    where
      go :
          (result : WaitResult)
          → WaitIsSafe (elim result [ signalled ↦ later | timed_out ↦ later | failed ↦ wait_exits ])
      go signalled = h
      go timed_out = h
      go failed = tt

  wait_to_send-WaitIsSafe :
      (wakeups : List (SendWakeup (Sender q.State))) (s : Sender q.State) (c : Clients)
      → WakeupsKeepSafe wakeups
      → IsSafe q s c
      → WaitIsSafe (wait_to_send q wakeups s c)
  unfolding wait_to_send
  wait_to_send-WaitIsSafe [] s c keep safe = elim (Bool-cases (nothing_to_send q s)) [
    | inl e ↦ rw e safe
    | inr e ↦ rw e (safe, e)
  ]
  wait_to_send-WaitIsSafe (wakeup ∷ wakeups) s c (keeps, keep) safe =
      elim (Bool-cases (nothing_to_send q s)) [
        | inl e ↦
            let (s', c') = wakeup.meanwhile s c in
            rw e (
              woken wakeup (wait_to_send q wakeups s' c') s' c' (keeps s c safe)
                (wait_to_send-WaitIsSafe wakeups s' c' keep (keeps s c safe)))
        | inr e ↦ rw e (safe, e)
      ]

  finish-RunIsSafe :
      (s : Sender q.State) (c : Clients)
      → IsSafe q s c
      → (fuel : ℕ) × (r : Run (Sender q.State)) × (finish q fuel s c ≡ some r) × RunIsSafe r
  unfolding finish
  finish-RunIsSafe s c safe =
      let (after, done, none_left, _) = finish_sending-IsOwned q s safe.waiting safe.owned in
      (suc (length safe.waiting), ended after c [], rw (done, ◌>>=◌) refl, none_left)

  after_events-RunIsSafe :
      (events : List SendEvent) (r : Run (Sender q.State))
      → RunIsSafe r
      → RunIsSafe (after_events q events r)
  after_events-RunIsSafe events (sends s c later) h = h
  after_events-RunIsSafe events (ended s c later) h = h
  after_events-RunIsSafe events (exits later) h = h

  -- the turn behind its wait
  sent :
      (turn : Turn (Sender q.State)) (turns : List (Turn (Sender q.State))) (s : Sender q.State)
      (c : Clients) (w : SendWait (Sender q.State))
      → turn.told_to_stop ≡ false
      → wait_to_send q turn.wakeups s c ≡ w
      → WaitIsSafe w
      → KeepsSafe turn.between
      → ((s' : Sender q.State) (c' : Clients)
          → IsSafe q s' c'
          → (fuel : ℕ) × (r : Run (Sender q.State)) × (start_sending q fuel turns s' c' ≡ some r)
            × RunIsSafe r)
      → (fuel : ℕ) × (r : Run (Sender q.State)) × (start_sending q fuel (turn ∷ turns) s c ≡ some r)
        × RunIsSafe r
  unfolding start_sending
  sent turn turns s c (waiting s' c') goes e safe keeps later =
      (0, sends s' c' [], rw (goes, e) refl, safe)
  sent turn turns s c (ends s' c') goes e safe keeps later =
      let (fuel, r, done, h) = finish-RunIsSafe s' c' safe in (fuel, r, rw (goes, e) done, h)
  sent turn turns s c wait_exits goes e safe keeps later = (0, exits [], rw (goes, e) refl, tt)
  sent turn turns s c (ready s' c') goes e (safe, some_waits) keeps later =
      let (after, table, events, round, safe') = send_round-IsSafe q turn.results s' c' safe in
      let (fuel, r, done, h) =
        later (turn.between after table).0 (turn.between after table).1 (keeps after table safe') in
      (
        fuel,
        after_events q events r,
        rw (goes, e) (rw (round, ◌>>=◌) (rw (done, ◌>>=◌) refl)),
        after_events-RunIsSafe events r h,
      )

  -- Whatever turns the sending thread makes, whenever it is woken and told to stop, whatever the
  -- calls of `send` return, and whatever other threads do in between that leads from safe states to
  -- safe states: from a safe state it never faults, given fuel enough for the tests of the queue at
  -- its end. As long as it is in its loop, the state is safe; and when it has ended, every block
  -- has been freed, once. A state is safe if each block that is allocated has one owner, a message
  -- that waits, the table holds a list of clients, and messages wait only for these.
  pub start_sending-RunIsSafe :
      (turns : List (Turn (Sender q.State))) (s : Sender q.State) (c : Clients)
      → TurnsKeepSafe turns
      → IsSafe q s c
      → (fuel : ℕ) × (r : Run (Sender q.State)) × (start_sending q fuel turns s c ≡ some r)
        × RunIsSafe r
  unfolding start_sending
  start_sending-RunIsSafe [] s c keep safe = (0, sends s c [], refl, safe)
  start_sending-RunIsSafe (turn ∷ turns) s c (woken_safe, between_safe, keep) safe =
      elim (Bool-cases turn.told_to_stop) [
        | inl e ↦ let (fuel, r, done, h) = finish-RunIsSafe s c safe in (fuel, r, rw e done, h)
        | inr e ↦
            sent turn turns s c (wait_to_send q turn.wakeups s c) e refl
              (wait_to_send-WaitIsSafe turn.wakeups s c woken_safe safe) between_safe
              (λ s' c' safe'. start_sending-RunIsSafe turns s' c' keep safe')
      ]
