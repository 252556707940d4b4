-- ===== src/Game/Loop/Sending.antt =====
-- What one pass of `sendThread` counts and sends.
use pr_shooter.Prelude.{
  ◌∙◌, Bool-cases, inl, inr, ℕ, ◌+◌, ◌%◌, ◌^◌, ◌≡◌, refl, false, [], ◌∷◌, arith, ◌==◌,
  if◌then◌else◌,
}
use pr_shooter.Table.{Table, get, modify, keys, has_key, Distinct}
use pr_shooter.Table.Laws.{lookup-modify}
use package.pr_shooter.Game.{Packets}
use package.pr_shooter.Game.Loop.{count_sent}

-- What is held for client `j`; a missing entry reads as zeros.
abbrev pub counts_of : ℕ → Packets → ℕ × ℕ
counts_of j packets = get (0, 0) j packets

abbrev pub one_sent : ℕ × ℕ → ℕ × ℕ
one_sent (received, sent) = (received, (sent + 1) % 2 ^ 64)

-- With no id twice among the players, a pass counts one state sent to each of them, and leaves the
-- counts of every other client, and the number of messages received from anyone, as they were.
pub count_sent_lem :
    {V : Type 0} (players : Table V) (packets : Packets) (j : ℕ)
    → Distinct players
    → counts_of j (count_sent (keys players) packets)
      ≡ (if has_key j players then one_sent (counts_of j packets) else counts_of j packets)
unfolding count_sent keys
count_sent_lem [] packets j d = refl
count_sent_lem ((k, v) ∷ players) packets j d =
    let later = count_sent_lem players (modify (0, 0) k one_sent packets) j d.1 in
    let now = lookup-modify (0, 0) k j one_sent packets in
    elim (Bool-cases (k == j)) [
      | inl e ↦
          let same : k ≡ j = ground arith in
          let others : has_key j players ≡ false = rw (← same) d.0 in
          later ∙ rw (others, now, e, same)
      | inr e ↦ later ∙ rw (now, e)
    ]
