-- ===== src/GameQueue/Tests.antt =====
-- Runs of the handlers on one small map, and the theorems at concrete messages.
use core_cpp_archive.GameQueue.Handlers.{
  add_player, after_move, after_place, can_move_to, drain, handle_player_enter,
  handle_player_enter_message, handle_player_leave_message, handle_player_move,
  handle_player_move_message, is_playing, move_last, move_player, new_player, place, route,
  set_stats,
}
use core_cpp_archive.GameQueue.Inside.{IsSafe, route-IsSafe}
use core_cpp_archive.GameQueue.Messages.{
  Game, PlayerEnterMessage, PlayerMoveMessage, QueueMessage, enqueue_error, player_enter,
  player_leave, player_move,
}
use core_cpp_archive.GameQueue.Moving.{move_lem}
use core_cpp_archive.GameQueue.Run.{drain-IsSafe, enter_again, leave_lem, of_connection}
use core_cpp_archive.GameQueue.Unique.{HasUniqueNames, count_all, count_name, route-HasUniqueNames}
use core_cpp_archive.Prelude.{
  List, Location, Option, [], arith, assign, bytes_beq, bytes_eq, int_eq, length, loc_eq, map,
  nat_eq, none, refl, some, text, true, ℕ, ℤ, ◌∷◌, ◌≡◌, ◌≢◌,
}
use core_cpp_archive.Samples.{small}
use core_cpp_archive.Tiles.{tile_in_layer, tile_is_walkable, to_i32}
use core_cpp_archive.Tiles.Laws.{HasLayers}
use core_cpp_archive.World.{MapComponent, PcComponent, Registry, empty_character, to_u64}

abbrev start : Game
start = record { registry = record small { name = text "Tutorial" } ∷ []; outward = [] }

abbrev enter_msg : PlayerEnterMessage
enter_msg = record {
  connection_id = 7;
  character_name = text "Ada";
  gender = text "female";
  allegiance = text "None";
  baseclass = text "Mage";
  map_name = text "Tutorial";
  player_stats = record { name = text "hp"; value = ℤ.pos 10 } ∷ [];
  level = 1;
  gold = 0;
  x = 2;
  y = 2;
}

abbrev move_msg : PlayerMoveMessage
move_msg = record { connection_id = 7; x = 0; y = 2 }

abbrev into_wall : PlayerMoveMessage
into_wall = record { connection_id = 7; x = 1; y = 0 }

abbrev messages : List QueueMessage
messages = player_enter enter_msg ∷ player_move move_msg ∷ player_move into_wall ∷ []

-- Where the players of the first map are, and how many messages go out.
places : Option Game → List Location × ℕ
places none = ([], 0)
places (some g) = (first g.registry, length g.outward)
  where
    first : Registry → List Location
    first [] = []
    first (m ∷ ms) = map (λ (pc : PcComponent). pc.loc) m.players

run_messages : places (drain messages start) ≡ ((ℤ.pos 0, ℤ.pos 2) ∷ [], 1)
unfolding places drain route handle_player_enter_message handle_player_move_message
    handle_player_enter handle_player_move is_playing place after_place add_player new_player
    empty_character set_stats move_player after_move can_move_to move_last tile_is_walkable
    tile_in_layer to_i32 enqueue_error text bytes_beq assign to_u64
run_messages = refl

start-IsSafe : IsSafe start.registry
start-IsSafe = (record { layers = small_layers-HasLayers; inside = tt }, tt)
  where
    small_layers-HasLayers : HasLayers (record small { name = text "Tutorial" })
    small_layers-HasLayers = record {
      width = refl;
      height = refl;
      tiles = refl;
      objects = refl;
      fits = omega arith;
      width_fits = omega arith;
      height_fits = omega arith;
    }

start-HasUniqueNames : HasUniqueNames start
unfolding count_all count_name
start-HasUniqueNames n = omega arith

drain-IsSafe_example :
    (g' : Game) × (drain messages start ≡ some g') × IsSafe g'.registry × HasUniqueNames g'
drain-IsSafe_example = drain-IsSafe messages start start-IsSafe start-HasUniqueNames

route-IsSafe_example :
    (g' : Game) × (route (player_move move_msg) start ≡ some g') × IsSafe g'.registry
route-IsSafe_example = route-IsSafe (player_move move_msg) start start-IsSafe

route-HasUniqueNames_example : HasUniqueNames (handle_player_enter enter_msg start)
unfolding route handle_player_enter_message
route-HasUniqueNames_example =
    route-HasUniqueNames (player_enter enter_msg) start (handle_player_enter enter_msg start)
      start-HasUniqueNames refl

enter_again_example :
    handle_player_enter enter_msg (handle_player_enter enter_msg start)
    ≡ enqueue_error 7 (text "already playing that character") (record start {
      registry = add_player (new_player enter_msg) (record small { name = text "Tutorial" }) ∷ [];
    })
unfolding is_playing place text bytes_beq
enter_again_example = enter_again enter_msg enter_msg start _ refl refl refl

leave_lem_example :
    let g' = handle_player_leave_message (player_leave 7) start in
    (of_connection 7 g'.registry ≡ [])
    × ((other : ℕ)
        → 7 ≢ other
        → of_connection other g'.registry ≡ of_connection other start.registry)
    × (g'.outward ≡ start.outward)
leave_lem_example = leave_lem 7 start

abbrev tutorial : MapComponent
tutorial = record small { name = text "Tutorial"; players = new_player enter_msg ∷ [] }

move_lem_example :
    route (player_move move_msg) (record { registry = tutorial ∷ []; outward = [] })
    ≡ some (record {
      registry =
          record tutorial {
            players =
                record (new_player enter_msg) {
                  base = record ((new_player enter_msg).base) { loc = (ℤ.pos 0, ℤ.pos 2) };
                }
                ∷ [];
          }
          ∷ [];
      outward = [];
    })
unfolding new_player to_i32 tile_is_walkable tile_in_layer
move_lem_example =
    move_lem move_msg [] [] (new_player enter_msg) tutorial true refl refl refl refl [] []
      (record { registry = tutorial ∷ []; outward = [] }) refl refl
