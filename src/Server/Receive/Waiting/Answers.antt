-- ===== src/Server/Receive/Waiting/Answers.antt =====
-- What `take` gives after its wait.
use pr_shooter.Prelude.{
  ℕ, zero, suc, ◌<◌, ◌≡◌, refl, ◌⊎◌, inl, inr, some, List, [], ◌∷◌, arith, length,
}
use pr_shooter.Wire.{◌>>=◌}
use pr_shooter.Game.Messages.{IncomingMessage}
use package.pr_shooter.Server.Queue.Interface.{QueueOf}
use package.pr_shooter.Server.Receive.{perform_all}
use package.pr_shooter.Server.Receive.Delivered.{deliver, perform_all-deliver}
use package.pr_shooter.Server.Receive.Waiting.{
  WaitResult, signalled, timed_out, failed, Wakeup, Taken, taken, still_waiting, take_exits,
  no_message, wait_for_message, after_wait, take,
}

-- the messages that wait after the first `n` wake-ups
abbrev pub after_wakeups : ℕ → List Wakeup → List IncomingMessage → List IncomingMessage
after_wakeups zero wakeups xs = xs
after_wakeups (suc n) [] xs = xs
after_wakeups (suc n) (wakeup ∷ wakeups) xs = after_wakeups n wakeups (deliver wakeup.arrived xs)

-- how the `n`-th wake-up came about
abbrev pub EndsWith : ℕ → List Wakeup → WaitResult → Type 0
EndsWith n [] result = ⊥
EndsWith zero (wakeup ∷ wakeups) result = ⊥
EndsWith (suc zero) (wakeup ∷ wakeups) result = wakeup.result ≡ result
EndsWith (suc (suc n)) (wakeup ∷ wakeups) result = EndsWith (suc n) wakeups result

module _ (q : QueueOf IncomingMessage) where
  -- After `n` wake-ups, before each of which nothing waited: the first message, if there is one; or
  -- none, because the wait has timed out, and then what has come by then stays in the queue.
  abbrev pub IsAnswer : List Wakeup → List IncomingMessage → Taken q.State → Type 0
  IsAnswer wakeups xs (taken m rest) =
      (n : ℕ) × (ys : List IncomingMessage) × ((k : ℕ) → k < n → after_wakeups k wakeups xs ≡ [])
      × q.Contains rest ys
      × ((after_wakeups n wakeups xs ≡ m ∷ ys)
          ⊎ ((m ≡ no_message) × (after_wakeups n wakeups xs ≡ ys) × EndsWith n wakeups timed_out))
  IsAnswer wakeups xs (still_waiting s) =
      (after_wakeups (length wakeups) wakeups xs ≡ []) × q.Contains s []
  IsAnswer wakeups xs take_exits = (n : ℕ) × EndsWith n wakeups failed

  EndsWith-suc :
      (n : ℕ) (wakeup : Wakeup) (wakeups : List Wakeup) (result : WaitResult)
      → EndsWith n wakeups result
      → EndsWith (suc n) (wakeup ∷ wakeups) result
  EndsWith-suc zero wakeup [] result h = absurd h
  EndsWith-suc zero wakeup (next ∷ wakeups) result h = absurd h
  EndsWith-suc (suc n) wakeup [] result h = absurd h
  EndsWith-suc (suc n) wakeup (next ∷ wakeups) result h = h

  first_empty :
      (wakeup : Wakeup) (wakeups : List Wakeup) (n : ℕ)
      → ((k : ℕ) → k < n → after_wakeups k wakeups (deliver wakeup.arrived []) ≡ [])
      → (k : ℕ) → k < suc n
      → after_wakeups k (wakeup ∷ wakeups) [] ≡ []
  first_empty wakeup wakeups n h zero lt = refl
  first_empty wakeup wakeups n h (suc k) lt = h k (omega arith)

  -- one more wake-up in front, after which the wait goes on
  IsAnswer-suc :
      (wakeup : Wakeup) (wakeups : List Wakeup) (r : Taken q.State)
      → IsAnswer wakeups (deliver wakeup.arrived []) r
      → IsAnswer (wakeup ∷ wakeups) [] r
  IsAnswer-suc wakeup wakeups (taken m rest) (n, ys, idle, holds, inl e) =
      (suc n, ys, first_empty wakeup wakeups n idle, holds, inl e)
  IsAnswer-suc wakeup wakeups (taken m rest) (n, ys, idle, holds, inr (none_taken, e, late)) = (
    suc n,
    ys,
    first_empty wakeup wakeups n idle,
    holds,
    inr (none_taken, e, EndsWith-suc n wakeup wakeups timed_out late),
  )
  IsAnswer-suc wakeup wakeups (still_waiting s) h = h
  IsAnswer-suc wakeup wakeups take_exits (n, h) = (suc n, EndsWith-suc n wakeup wakeups failed h)

  take-found :
      (wakeups : List Wakeup) (s : q.State) (m : IncomingMessage) (xs : List IncomingMessage)
      → q.Contains s (m ∷ xs)
      → (r : Taken q.State) × (take q wakeups s ≡ some r) × IsAnswer wakeups (m ∷ xs) r
  unfolding take wait_for_message after_wait
  take-found [] s m xs h =
      let (rest, front, h') = q.take_front_lem s m xs h in
      (
        taken m rest,
        rw (q.has_none_lem s (m ∷ xs) h) (rw (front, ◌>>=◌) refl),
        (0, xs, (λ k lt. absurd (omega arith)), h', inl refl),
      )
  take-found (wakeup ∷ wakeups) s m xs h =
      let (rest, front, h') = q.take_front_lem s m xs h in
      (
        taken m rest,
        rw (q.has_none_lem s (m ∷ xs) h) (rw (front, ◌>>=◌) refl),
        (0, xs, (λ k lt. absurd (omega arith)), h', inl refl),
      )

  woken :
      (wakeup : Wakeup) (wakeups : List Wakeup) (result : WaitResult) (s after : q.State)
      → q.Contains s []
      → wakeup.result ≡ result
      → perform_all q wakeup.arrived s ≡ some after
      → q.Contains after (deliver wakeup.arrived [])
      → ((r : Taken q.State) × (take q wakeups after ≡ some r)
          × IsAnswer wakeups (deliver wakeup.arrived []) r)
      → (r : Taken q.State) × (take q (wakeup ∷ wakeups) s ≡ some r)
        × IsAnswer (wakeup ∷ wakeups) [] r
  unfolding take wait_for_message after_wait
  woken wakeup wakeups signalled s after h e done h' (r, later, answer) =
      (r, rw (q.has_none_lem s [] h, done, e) later, IsAnswer-suc wakeup wakeups r answer)
  woken wakeup wakeups timed_out s after h e done h' later = (
    taken no_message after,
    rw (q.has_none_lem s [] h, done, e) refl,
    (
      1,
      deliver wakeup.arrived [],
      first_empty wakeup wakeups 0 (λ k lt. absurd (omega arith)),
      h',
      inr (refl, refl, e),
    ),
  )
  woken wakeup wakeups failed s after h e done h' later =
      (take_exits, rw (q.has_none_lem s [] h, done, e) refl, (1, e))

  -- `take`, whatever wakes it, from a queue that holds a list: it never faults. It gives the first
  -- message at the first test, before the wait or after a wake-up, that finds one; so a wake-up
  -- without a message is nothing but a delay, no message is lost and none is passed over. It gives
  -- none only if the wait times out, and then all that has come by then stays in the queue. It ends
  -- the program only if the wait fails, and goes on waiting only if nothing has come.
  pub take-IsAnswer :
      (wakeups : List Wakeup) (s : q.State) (xs : List IncomingMessage)
      → q.Contains s xs
      → (r : Taken q.State) × (take q wakeups s ≡ some r) × IsAnswer wakeups xs r
  unfolding take wait_for_message after_wait
  take-IsAnswer wakeups s (x ∷ xs) h = take-found wakeups s x xs h
  take-IsAnswer [] s [] h = (still_waiting s, rw (q.has_none_lem s [] h) refl, (refl, h))
  take-IsAnswer (wakeup ∷ wakeups) s [] h =
      let (after, done, h') = perform_all-deliver q wakeup.arrived s [] h in
      woken wakeup wakeups wakeup.result s after h refl done h'
        (take-IsAnswer wakeups after (deliver wakeup.arrived []) h')
