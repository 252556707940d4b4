-- ===== src/Tests/Rounds.antt =====
-- The theorems on collisions, rounds and what is sent, at the small game.
use pr_shooter.Prelude.{ℕ, suc, ◌+◌, ◌≡◌, refl, true, some, [], ◌∷◌, arith, length}
use pr_shooter.Table.{Table, lookup, insert, keys}
use pr_shooter.Machine.{Machine}
use pr_shooter.Machine.Whole.{whole, whole-HasBytes, whole-HasSizes}
use pr_shooter.Geometry.{square, plus, scale, minus, shrink, norm}
use pr_shooter.Geometry.Collisions.{circles_collide, rectangle_collides, segment_collides}
use pr_shooter.Wire.{Message, ◌>>=◌}
use pr_shooter.Game.{
  move_player, Game, Player, new_player, new_projectile, record_time, collision, update,
}
use pr_shooter.Game.Physics.{update_positions, meet_edge, meet_obstacle, meet_wall, part_players}
use pr_shooter.Game.Handlers.Invariant.{IsValidGame}
use pr_shooter.Game.Hits.{
  damage, check_projectile_collisions, check_projectiles, check_collisions, check_players,
}
use pr_shooter.Game.Hits.Scores.{total, kills_of, deaths_of, check_projectile_collisions_scores}
use pr_shooter.Game.Hits.Wounds.{OnlyHurt, check_projectiles-OnlyHurt}
use pr_shooter.Game.Hits.Pushes.{OnlyMoved, check_players-OnlyMoved}
use pr_shooter.Game.Loop.{round, update_loop, update_tick, done}
use pr_shooter.Game.Loop.Timestep.{Paced, update_tick-Paced}
use pr_shooter.Game.Loop.Validity.{update_tick-IsValidGame}
use pr_shooter.Game.Serialize.{serialize_game_state, serialize_map}
use pr_shooter.Client.{read_message, stated, mapped}
use pr_shooter.Client.RoundTrip.{
  seen_state, seen_map, serialize_game_state_round_trip, serialize_map_round_trip,
}
use package.pr_shooter.Tests.{
  at, field, shooter, target, shot, sample, sample-IsValidGame, whole-RestIsSlow,
}

-- the shot hits the target, and it is fatal
abbrev after_shot : Table (Player whole)
after_shot = damage 7 8 target sample.players

shot_hits : check_projectile_collisions field shot sample.players ≡ some (true, after_shot)
unfolding check_projectile_collisions whole new_player new_projectile rectangle_collides
    circles_collide segment_collides square
shot_hits = refl

check_projectile_collisions_scores_example :
    total kills_of after_shot + total deaths_of sample.players
    ≡ total kills_of sample.players + total deaths_of after_shot
unfolding new_player
check_projectile_collisions_scores_example =
    check_projectile_collisions_scores field shot sample.players after_shot true
      sample-IsValidGame.distinct (omega arith) shot_hits

check_projectiles-OnlyHurt_example : OnlyHurt sample.players after_shot
unfolding check_projectiles
check_projectiles-OnlyHurt_example =
    check_projectiles-OnlyHurt field (shot ∷ []) [] sample.players after_shot
      sample-IsValidGame.distinct (rw shot_hits refl)

abbrev clock : ℕ → ℕ × ℕ
clock i = (5 + i, 6)

update_tick-Paced_example : Paced clock (50 + 4000) 0 sample (update_tick clock 4000 50 sample)
update_tick-Paced_example = update_tick-Paced clock 4000 50 sample

abbrev after_round : Game whole
after_round = record (update_positions sample) { players = after_shot; projectiles = [] }

round_hits : check_collisions (update_positions sample) ≡ some after_round
unfolding check_collisions update_positions whole new_player new_projectile rectangle_collides
    circles_collide segment_collides square lookup insert plus scale meet_edge meet_obstacle
    meet_wall
round_hits = refl

-- the game after one round that took 5 and 6 microseconds
abbrev timed : Game whole
timed = record after_round {
  calc_time = record_time 3 0 update 6 (record_time 3 0 collision 5 after_round.calc_time);
}

round_makes_timed : round 5 6 sample ≡ some timed
unfolding round damage insert
round_makes_timed = rw (round_hits, ◌>>=◌) refl

loop_once :
    {m : Machine} (fuel : ℕ) (g g' : Game m)
    → round 5 6 g ≡ some g'
    → update_loop clock (suc (suc fuel)) 0 4050 g ≡ done 1050 1 g'
unfolding update_loop
loop_once fuel g g' e = rw (e, update_loop) refl

one_round :
    {m : Machine} (g g' : Game m)
    → round 5 6 g ≡ some g'
    → update_tick clock 4000 50 g ≡ done 1050 1 g'
unfolding update_tick
one_round g g' e = loop_once 4049 g g' e

update_tick-IsValidGame_example : IsValidGame timed
update_tick-IsValidGame_example =
    update_tick-IsValidGame whole-RestIsSlow clock 4000 50 1050 1 sample timed sample-IsValidGame
      (one_round sample timed round_makes_timed)

serialize_game_state_round_trip_example :
    (message : Message) × (serialize_game_state sample ≡ some message)
    × (message.size ≡ length message.content)
    × (read_message whole message.content ≡ some (stated (seen_state sample), []))
serialize_game_state_round_trip_example =
    serialize_game_state_round_trip whole-HasBytes whole-HasSizes sample (omega arith) (omega arith)

serialize_map_round_trip_example :
    (message : Message) × (serialize_map field ≡ some message)
    × (message.size ≡ length message.content)
    × (read_message whole message.content ≡ some (mapped (seen_map field), []))
serialize_map_round_trip_example =
    serialize_map_round_trip whole-HasBytes whole-HasSizes field (omega arith) (omega arith)
      (omega arith)

-- two players who overlap by ten
abbrev crowd : Table (Player whole)
crowd = (7, shooter) ∷ (8, move_player target (at 150 100)) ∷ []

abbrev parted : Table (Player whole)
parted = (7, move_player shooter (at 95 100)) ∷ (8, move_player target (at 155 100)) ∷ []

check_players-OnlyMoved_example : OnlyMoved crowd parted
unfolding check_players whole new_player move_player rectangle_collides circles_collide
    segment_collides square lookup insert plus scale meet_edge meet_obstacle meet_wall part_players
    minus shrink norm keys
check_players-OnlyMoved_example = check_players-OnlyMoved field crowd parted refl
