-- ===== src/Game/Serialize/Layout.antt =====
-- What the messages hold, as plain lists of bytes, and that the code writes just that.
use mathlib.Core.List.{append_assoc}
use pr_shooter.Prelude.{
  ℕ, ◌+◌, ◌*◌, ◌%◌, ◌^◌, ◌≡◌, refl, ap, ◌∙◌, sym, Option, none, some, List, [], ◌∷◌, ◌++◌, arith,
  length,
}
use pr_shooter.Machine.{Machine}
use pr_shooter.Geometry.{Point, Rectangle, Circle}
use pr_shooter.Wire.{Bytes, ◌>>=◌, u8, u16, Writer, new_buffer, copy_to_buf, message_of}
use pr_shooter.Wire.Laws.{IsWithin, copy_to_buf-append, copy_to_buf-IsWithin, copy_to_buf-nil}
use package.pr_shooter.Game.{Game, GameMap, Player, Projectile}
use package.pr_shooter.Game.Serialize.{
  game_map_message, game_state_message, copy_each, bool_number, copy_point, copy_player,
  copy_projectile, serialize_game_state, copy_wall, copy_obstacle, serialize_map,
}

unfoldable pub flat_bytes : {A : Type 0} → (A → Bytes) → List A → Bytes
flat_bytes f [] = []
flat_bytes f (x ∷ xs) = f x ++ flat_bytes f xs

module _ {m : Machine} where
  open m use {double_bytes, single_bytes}

  unfoldable pub point_bytes : Point m → Bytes
  point_bytes p = double_bytes p.x ++ double_bytes p.y

  unfoldable pub player_bytes : ℕ × Player m → Bytes
  player_bytes (_, player) =
      u16 player.player_id
      ++ (u8 (bool_number player.alive)
          ++ (u8 player.health
              ++ (point_bytes player.centre
                  ++ (point_bytes player.velocity
                      ++ (single_bytes player.orientation_angle
                          ++ (u16 player.kills ++ u16 player.deaths))))))

  unfoldable pub projectile_bytes : Projectile m → Bytes
  projectile_bytes projectile =
      u16 projectile.owner_id ++ (point_bytes projectile.centre ++ point_bytes projectile.velocity)

  unfoldable pub game_state_bytes : Game m → Bytes
  game_state_bytes g =
      u8 game_state_message
      ++ (u16 (length g.players % 2 ^ 16)
          ++ (u16 (length g.projectiles % 2 ^ 16)
              ++ (flat_bytes player_bytes g.players ++ flat_bytes projectile_bytes g.projectiles)))

  unfoldable pub wall_bytes : Rectangle m → Bytes
  wall_bytes wall =
      point_bytes wall.p0 ++ (point_bytes wall.p1 ++ (point_bytes wall.p2 ++ point_bytes wall.p3))

  unfoldable pub obstacle_bytes : Circle m → Bytes
  obstacle_bytes obstacle = point_bytes obstacle.centre ++ double_bytes obstacle.r

  unfoldable pub map_bytes : GameMap m → Bytes
  map_bytes game_map =
      u8 game_map_message
      ++ (u16 (length game_map.walls % 2 ^ 16)
          ++ (u16 (length game_map.obstacles % 2 ^ 16)
              ++ (u16 (length game_map.borders % 2 ^ 16)
                  ++ (flat_bytes wall_bytes game_map.walls
                      ++ (flat_bytes obstacle_bytes game_map.obstacles
                          ++ flat_bytes point_bytes game_map.borders)))))

-- A step that copies just the bytes `bs`, whatever buffer within its room it is given.
record Copies (f : Writer → Option Writer) (bs : Bytes) : Type 0 where
  copies : (w : Writer) → IsWithin w → f w ≡ copy_to_buf bs w

copy : (bs : Bytes) → Copies (copy_to_buf bs) bs
copy bs = record { copies = λ w i. refl }

bind_congr :
    (o : Option Writer) (f g : Writer → Option Writer)
    → ((w : Writer) → o ≡ some w → f w ≡ g w)
    → (o >>= f) ≡ (o >>= g)
bind_congr none f g h = refl
bind_congr (some w) f g h = h w refl

after :
    {f g : Writer → Option Writer} {bs cs : Bytes}
    → Copies f bs
    → Copies g cs
    → Copies (λ w. f w >>= g) (bs ++ cs)
after {g} {bs} {cs} hf hg = record {
  copies = λ w i. rw (hf.copies w i) (
      bind_congr (copy_to_buf bs w) g (copy_to_buf cs)
        (λ v e. hg.copies v (copy_to_buf-IsWithin bs w i v e))
      ∙ copy_to_buf-append bs cs w);
}

Copies-as : {f : Writer → Option Writer} {bs cs : Bytes} → Copies f bs → bs ≡ cs → Copies f cs
Copies-as h e = record { copies = λ w i. rw (← e) (h.copies w i) }

copy_each-Copies :
    {A : Type 0} (body : A → Writer → Option Writer) (f : A → Bytes)
    → ((x : A) → Copies (body x) (f x))
    → (xs : List A) → Copies (copy_each body xs) (flat_bytes f xs)
unfolding copy_each flat_bytes
copy_each-Copies body f h [] = record { copies = λ w i. sym (copy_to_buf-nil w i) }
copy_each-Copies body f h (x ∷ xs) = after (h x) (copy_each-Copies body f h xs)

new_buffer-IsWithin : (room : ℕ) → IsWithin (new_buffer room)
unfolding new_buffer
new_buffer-IsWithin room = omega arith

module _ {m : Machine} where
  open m use {double_bytes, single_bytes}

  copy_point-Copies : (p : Point m) → Copies (copy_point p) (point_bytes p)
  unfolding copy_point point_bytes
  copy_point-Copies p = after (copy (double_bytes p.x)) (copy (double_bytes p.y))

  copy_player-Copies : (p : ℕ × Player m) → Copies (copy_player p) (player_bytes p)
  unfolding copy_player player_bytes
  copy_player-Copies (k, p) =
      Copies-as
        (after
          (after
            (after
              (after
                (after
                  (after (after (copy (u16 p.player_id)) (copy (u8 (bool_number p.alive))))
                    (copy (u8 p.health)))
                  (copy_point-Copies p.centre))
                (copy_point-Copies p.velocity))
              (copy (single_bytes p.orientation_angle)))
            (copy (u16 p.kills)))
          (copy (u16 p.deaths)))
        (simp append_assoc)

  copy_projectile-Copies : (p : Projectile m) → Copies (copy_projectile p) (projectile_bytes p)
  unfolding copy_projectile projectile_bytes
  copy_projectile-Copies p =
      Copies-as
        (after (after (copy (u16 p.owner_id)) (copy_point-Copies p.centre))
          (copy_point-Copies p.velocity))
        (simp append_assoc)

  copy_wall-Copies : (r : Rectangle m) → Copies (copy_wall r) (wall_bytes r)
  unfolding copy_wall wall_bytes
  copy_wall-Copies r =
      Copies-as
        (after
          (after (after (copy_point-Copies r.p0) (copy_point-Copies r.p1)) (copy_point-Copies r.p2))
          (copy_point-Copies r.p3))
        (simp append_assoc)

  copy_obstacle-Copies : (c : Circle m) → Copies (copy_obstacle c) (obstacle_bytes c)
  unfolding copy_obstacle obstacle_bytes
  copy_obstacle-Copies c = after (copy_point-Copies c.centre) (copy (double_bytes c.r))

  unfoldable pub game_state_room : Game m → ℕ
  game_state_room g =
      5
      + length g.players % 2 ^ 16 * m.sizeof_player
      + length g.projectiles % 2 ^ 16 * m.sizeof_projectile

  unfoldable pub map_room : GameMap m → ℕ
  map_room game_map =
      7
      + length game_map.walls % 2 ^ 16 * m.sizeof_rectangle
      + length game_map.obstacles % 2 ^ 16 * m.sizeof_circle
      + length game_map.borders % 2 ^ 16 * m.sizeof_point

  pub serialize_game_state_lem :
      (g : Game m)
      → serialize_game_state g ≡ (
          copy_to_buf (game_state_bytes g) (new_buffer (game_state_room g)) >>= λ w.
          some (message_of w))
  unfolding serialize_game_state game_state_bytes game_state_room
  serialize_game_state_lem g =
      ap (λ o. o >>= λ w. some (message_of w))
        (steps.copies (new_buffer (game_state_room g)) (new_buffer-IsWithin (game_state_room g)))
    where
      steps :
          Copies
            (λ w.
              copy_to_buf (u8 game_state_message) w
              >>= copy_to_buf (u16 (length g.players % 2 ^ 16))
              >>= copy_to_buf (u16 (length g.projectiles % 2 ^ 16))
              >>= copy_each copy_player g.players
              >>= copy_each copy_projectile g.projectiles)
            (game_state_bytes g)
      steps =
          Copies-as
            (after
              (after
                (after
                  (after (copy (u8 game_state_message)) (copy (u16 (length g.players % 2 ^ 16))))
                  (copy (u16 (length g.projectiles % 2 ^ 16))))
                (copy_each-Copies copy_player player_bytes copy_player-Copies g.players))
              (copy_each-Copies copy_projectile projectile_bytes copy_projectile-Copies
                g.projectiles))
            (simp append_assoc)

  pub serialize_map_lem :
      (game_map : GameMap m)
      → serialize_map game_map ≡ (
          copy_to_buf (map_bytes game_map) (new_buffer (map_room game_map)) >>= λ w.
          some (message_of w))
  unfolding serialize_map map_bytes map_room
  serialize_map_lem game_map =
      ap (λ o. o >>= λ w. some (message_of w))
        (steps.copies (new_buffer (map_room game_map)) (new_buffer-IsWithin (map_room game_map)))
    where
      open game_map use {walls, obstacles, borders}

      steps :
          Copies
            (λ w.
              copy_to_buf (u8 game_map_message) w
              >>= copy_to_buf (u16 (length walls % 2 ^ 16))
              >>= copy_to_buf (u16 (length obstacles % 2 ^ 16))
              >>= copy_to_buf (u16 (length borders % 2 ^ 16))
              >>= copy_each copy_wall walls
              >>= copy_each copy_obstacle obstacles
              >>= copy_each copy_point borders)
            (map_bytes game_map)
      steps =
          Copies-as
            (after
              (after
                (after
                  (after
                    (after (after (copy (u8 game_map_message)) (copy (u16 (length walls % 2 ^ 16))))
                      (copy (u16 (length obstacles % 2 ^ 16))))
                    (copy (u16 (length borders % 2 ^ 16))))
                  (copy_each-Copies copy_wall wall_bytes copy_wall-Copies walls))
                (copy_each-Copies copy_obstacle obstacle_bytes copy_obstacle-Copies obstacles))
              (copy_each-Copies copy_point point_bytes copy_point-Copies borders))
            (simp append_assoc)
