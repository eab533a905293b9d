-- ===== src/GameQueue/Unique.antt =====
-- No character is in the game twice: the counts of the players by name, under each handler.
use core_cpp_archive.GameQueue.Handlers.{
  Moved, Placed, add_player, handle_player_enter, handle_player_enter_message,
  handle_player_leave_message, handle_player_move_message, is_playing, leave_all, leave_map,
  move_last, move_player, moved, new_player, no_map, no_player, place, placed, route,
  wrong_coordinates, wrong_move,
}
use core_cpp_archive.GameQueue.Messages.{
  Game, PlayerEnterMessage, PlayerMoveMessage, QueueMessage, player_enter, player_leave,
  player_move,
}
use core_cpp_archive.GameQueue.Results.{
  MovedHas, PlacedHas, enter_rule, move_game_rule, move_rule, place_rule,
}
use core_cpp_archive.Prelude.{
  Bool, List, Location, Option, Text, [], any_of, ap, arith, bytes_beq_iff, bytes_eq, false,
  if◌then◌else◌, int_eq, loc_eq, nat_eq, none, refl, reject, some, subst, ℕ, ◌++◌, ◌+◌, ◌==◌, ◌∷◌,
  ◌≡◌, ◌≤◌,
}
use core_cpp_archive.Tiles.{to_i32}
use core_cpp_archive.World.{MapComponent, PcComponent, Registry}
use mathlib.Core.Option.{some-injective}

unfoldable pub count_name : Text → List PcComponent → ℕ
count_name n [] = 0
count_name n (pc ∷ pcs) = (if pc.name == n then 1 else 0) + count_name n pcs

unfoldable pub count_all : Text → Registry → ℕ
unfolding count_name
count_all n [] = 0
count_all n (m ∷ ms) = count_name n m.players + count_all n ms

-- A name belongs to one player at most, over all maps.
abbrev pub HasUniqueNames : Game → Type 0
HasUniqueNames g = (n : Text) → count_all n g.registry ≤ 1

count_name-append :
    (n : Text) (pcs qcs : List PcComponent)
    → count_name n (pcs ++ qcs) ≡ count_name n pcs + count_name n qcs
unfolding count_name
count_name-append n [] qcs = omega arith
count_name-append n (pc ∷ pcs) qcs = omega (arith, count_name-append n pcs qcs)

count_name-none :
    (n : Text) (pcs : List PcComponent)
    → any_of (λ (pc : PcComponent). pc.name == n) pcs ≡ false
    → count_name n pcs ≡ 0
unfolding count_name
count_name-none n [] h = refl
count_name-none n (pc ∷ pcs) h = ground (arith, count_name-none n pcs)

count_all-none : (n : Text) (ms : Registry) → is_playing n ms ≡ false → count_all n ms ≡ 0
unfolding count_all is_playing
count_all-none n [] h = refl
count_all-none n (m ∷ ms) h = ground (arith, count_name-none n m.players, count_all-none n ms)

one_player :
    (n : Text) (msg : PlayerEnterMessage)
    → count_name n (new_player msg ∷ []) ≡ (if msg.character_name == n then 1 else 0)
unfolding count_name new_player
one_player n msg = ground arith

count_add_player :
    (n : Text) (msg : PlayerEnterMessage) (m : MapComponent)
    → count_name n (add_player (new_player msg) m).players
      ≡ count_name n m.players + (if msg.character_name == n then 1 else 0)
unfolding add_player
count_add_player n msg m =
    rw (count_name-append n m.players (new_player msg ∷ []))
      (ap (λ k. count_name n m.players + k) (one_player n msg))

count_place :
    (n : Text) (msg : PlayerEnterMessage) (ms : Registry)
    → PlacedHas
        (λ ms'. count_all n ms' ≡ count_all n ms + (if msg.character_name == n then 1 else 0))
        (place msg ms)
unfolding place count_all
count_place n msg [] = tt
count_place n msg (m ∷ ms) =
    place_rule _ _ msg m ms (λ ms' h. omega (arith, h))
      (λ _ _. omega (arith, count_add_player n msg m)) (count_place n msg ms)

count_reject :
    (n : Text) (p : PcComponent → Bool) (pcs : List PcComponent)
    → count_name n (reject p pcs) ≤ count_name n pcs
unfolding count_name
count_reject n p [] = omega arith
count_reject n p (pc ∷ pcs) = ground (arith, count_reject n p pcs)

count_leave :
    (n : Text) (conn : ℕ) (ms : Registry) → count_all n (leave_all conn ms) ≤ count_all n ms
unfolding count_all leave_all leave_map
count_leave n conn [] = omega arith
count_leave n conn (m ∷ ms) = omega (
  arith,
  count_leave n conn ms,
  count_reject n (λ (pc : PcComponent). pc.connection_id == conn) m.players,
)

count_move_last :
    (n : Text) (conn : ℕ) (loc : Location) (pcs : List PcComponent)
    → count_name n (move_last conn loc pcs) ≡ count_name n pcs
unfolding count_name move_last
count_move_last n conn loc [] = refl
count_move_last n conn loc (pc ∷ pcs) = ground (arith, count_move_last n conn loc pcs)

count_move :
    (n : Text) (msg : PlayerMoveMessage) (ms : Registry)
    → MovedHas (λ ms'. count_all n ms' ≡ count_all n ms) (move_player msg ms)
unfolding move_player count_all
count_move n msg [] = tt
count_move n msg (m ∷ ms) =
    move_rule _ _ msg m ms (λ ms' h. omega (arith, h))
      (λ _.
        omega (arith, count_move_last n msg.connection_id (to_i32 msg.x, to_i32 msg.y) m.players))
      (count_move n msg ms)

enter-HasUniqueNames :
    (msg : PlayerEnterMessage) (g : Game)
    → HasUniqueNames g
    → HasUniqueNames (handle_player_enter msg g)
enter-HasUniqueNames msg g u n =
    enter_rule (λ ms. count_all n ms ≤ 1) msg g (u n)
      λ absent.
        place_weaken (place msg g.registry) (new_count absent) (count_place n msg g.registry)
  where
    new_count :
        is_playing msg.character_name g.registry ≡ false
        → count_all n g.registry + (if msg.character_name == n then 1 else 0) ≤ 1
    new_count absent = ground (
      arith,
      u n,
      bytes_beq_iff msg.character_name n,
      count_all-none msg.character_name g.registry absent,
    )

    place_weaken :
        (r : Placed)
        → count_all n g.registry + (if msg.character_name == n then 1 else 0) ≤ 1
        → PlacedHas
            (λ ms'.
              count_all n ms' ≡ count_all n g.registry + (if msg.character_name == n then 1 else 0))
            r
        → PlacedHas (λ ms'. count_all n ms' ≤ 1) r
    place_weaken (placed ms) h e = omega (arith, h, e)
    place_weaken wrong_coordinates h e = tt
    place_weaken no_map h e = tt

-- Every message that the game loop takes from its queue keeps the names of the players unique over
-- all maps: a character is in the game once at most.
pub route-HasUniqueNames :
    (msg : QueueMessage) (g g' : Game)
    → HasUniqueNames g
    → route msg g ≡ some g'
    → HasUniqueNames g'
unfolding route handle_player_enter_message handle_player_leave_message handle_player_move_message
route-HasUniqueNames (player_enter msg) g g' u e n =
    subst HasUniqueNames (some-injective _ _ e) (enter-HasUniqueNames msg g u) n
route-HasUniqueNames (player_leave conn) g g' u e n =
    subst HasUniqueNames (some-injective _ _ e)
      (λ k. omega (arith, u k, count_leave k conn g.registry)) n
route-HasUniqueNames (player_move msg) g g' u e n =
    move_game_rule (λ ms. count_all n ms ≤ 1) msg g g' e (u n)
      (move_weaken (move_player msg g.registry) (count_move n msg g.registry))
  where
    move_weaken :
        (r : Option Moved)
        → MovedHas (λ ms'. count_all n ms' ≡ count_all n g.registry) r
        → MovedHas (λ ms'. count_all n ms' ≤ 1) r
    move_weaken none h = tt
    move_weaken (some (moved ms)) h = omega (arith, h, u n)
    move_weaken (some wrong_move) h = tt
    move_weaken (some no_player) h = tt
