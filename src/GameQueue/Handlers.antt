-- ===== src/GameQueue/Handlers.antt =====
-- src/game_queue_message_handlers: the three handlers that `main` routes the messages to, and the
-- loop of `main` that empties the queue. `none` is a read behind the end of a map's layer.
use core_cpp_archive.GameQueue.Messages.{
  Game, PlayerEnterMessage, PlayerMoveMessage, QueueMessage, enqueue_error, player_enter,
  player_leave, player_move,
}
use core_cpp_archive.Prelude.{
  Bool, Dict, List, Location, Option, Text, [], any_of, assign, bytes_eq, false, if◌then◌else◌,
  int_eq, leb, loc_eq, nat_eq, not, reject, replicate, some, text, true, ℕ, ◌++◌, ◌==◌, ◌>>=◌, ◌||◌,
  ◌∷◌,
}
use core_cpp_archive.Tiles.{tile_is_walkable, to_i32}
use core_cpp_archive.World.{
  MapComponent, PcComponent, Registry, StatComponent, empty_character, to_u64,
}

-- The first `for` of the enter handler.
unfoldable pub is_playing : Text → Registry → Bool
is_playing name [] = false
is_playing name (m ∷ ms) =
    if any_of (λ (pc : PcComponent). pc.name == name) m.players then true else is_playing name ms

unfoldable pub set_stats : List StatComponent → Dict Text ℕ → Dict Text ℕ
set_stats [] stats = stats
set_stats (s ∷ ss) stats = set_stats ss (assign s.name (to_u64 s.value) stats)

unfoldable pub new_player : PlayerEnterMessage → PcComponent
new_player msg = record {
  base = record empty_character {
    name = msg.character_name;
    level = msg.level;
    gold = msg.gold;
    loc = (to_i32 msg.x, to_i32 msg.y);
    gender = msg.gender;
    allegiance = msg.allegiance;
    character_class = msg.baseclass;
    stats = set_stats msg.player_stats [];
  };
  silver_purchases = [];
  fov = replicate 81 false;
  connection_id = msg.connection_id;
}

unfoldable pub add_player : PcComponent → MapComponent → MapComponent
add_player pc m = record m { players = m.players ++ pc ∷ [] }

-- What the second `for` of the enter handler comes to: the new maps, wrong coordinates on the map
-- of that name, or no such map.
pub data Placed : Type 0 where
  placed : Registry → Placed
  wrong_coordinates no_map : Placed

abbrev pub place_after : MapComponent → Placed → Placed
place_after m (placed ms) = placed (m ∷ ms)
place_after m wrong_coordinates = wrong_coordinates
place_after m no_map = no_map

unfoldable pub place : PlayerEnterMessage → Registry → Placed
place msg [] = no_map
place msg (m ∷ ms) =
    if not (m.name == msg.map_name)
    then place_after m (place msg ms)
    else if leb m.width msg.x || leb m.height msg.y
    then wrong_coordinates
    else placed (add_player (new_player msg) m ∷ ms)

unfoldable pub after_place : PlayerEnterMessage → Game → Placed → Game
after_place msg g (placed ms) = record g { registry = ms }
after_place msg g wrong_coordinates = enqueue_error msg.connection_id (text "Wrong coordinates") g
after_place msg g no_map = g

unfoldable pub handle_player_enter : PlayerEnterMessage → Game → Game
handle_player_enter msg g =
    if is_playing msg.character_name g.registry
    then enqueue_error msg.connection_id (text "already playing that character") g
    else after_place msg g (place msg g.registry)

-- A handler whose `dynamic_cast` fails returns at once.
unfoldable pub handle_player_enter_message : QueueMessage → Game → Game
handle_player_enter_message (player_enter msg) g = handle_player_enter msg g
handle_player_enter_message _ g = g

unfoldable pub leave_map : ℕ → MapComponent → MapComponent
leave_map conn m = record m {
  players = reject (λ (pc : PcComponent). pc.connection_id == conn) m.players;
}

unfoldable pub leave_all : ℕ → Registry → Registry
leave_all conn [] = []
leave_all conn (m ∷ ms) = leave_map conn m ∷ leave_all conn ms

unfoldable pub handle_player_leave_message : QueueMessage → Game → Game
handle_player_leave_message (player_leave conn) g = record g {
  registry = leave_all conn g.registry;
}
handle_player_leave_message _ g = g

abbrev pub has_connection : ℕ → PcComponent → Bool
has_connection conn pc = pc.connection_id == conn

-- `player.back().loc = …`: the last player of the connection is moved.
unfoldable pub move_last : ℕ → Location → List PcComponent → List PcComponent
move_last conn loc [] = []
move_last conn loc (pc ∷ pcs) =
    let rest = pc ∷ move_last conn loc pcs in
    if any_of (has_connection conn) pcs
    then rest
    else if has_connection conn pc
    then record pc { base = record (pc.base) { loc = loc } } ∷ pcs
    else rest

pub data Moved : Type 0 where
  moved : Registry → Moved
  wrong_move no_player : Moved

abbrev pub move_after : MapComponent → Moved → Moved
move_after m (moved ms) = moved (m ∷ ms)
move_after m wrong_move = wrong_move
move_after m no_player = no_player

-- `move_msg->x >= m.width || move_msg->y >= m.height || !tile_is_walkable(…)`.
unfoldable pub can_move_to : PlayerMoveMessage → MapComponent → Option Bool
can_move_to msg m =
    if leb m.width msg.x || leb m.height msg.y
    then some false
    else tile_is_walkable m (to_i32 msg.x) (to_i32 msg.y)

unfoldable pub move_player : PlayerMoveMessage → Registry → Option Moved
move_player msg [] = some no_player
move_player msg (m ∷ ms) =
    let here = can_move_to msg m >>= λ ok. some (
      if ok
      then moved (
          record m { players = move_last msg.connection_id (to_i32 msg.x, to_i32 msg.y) m.players }
          ∷ ms)
      else wrong_move) in
    let further = move_player msg ms >>= λ r. some (move_after m r) in
    if any_of (has_connection msg.connection_id) m.players then here else further

unfoldable pub after_move : PlayerMoveMessage → Game → Moved → Game
after_move msg g (moved ms) = record g { registry = ms }
after_move msg g wrong_move = enqueue_error msg.connection_id (text "Wrong coordinates") g
after_move msg g no_player = g

unfoldable pub handle_player_move : PlayerMoveMessage → Game → Option Game
handle_player_move msg g = move_player msg g.registry >>= λ r. some (after_move msg g r)

unfoldable pub handle_player_move_message : QueueMessage → Game → Option Game
handle_player_move_message (player_move msg) g = handle_player_move msg g
handle_player_move_message _ g = some g

-- `game_queue_message_router[msg->type](…)`.
unfoldable pub route : QueueMessage → Game → Option Game
route (player_enter msg) g = some (handle_player_enter_message (player_enter msg) g)
route (player_leave conn) g = some (handle_player_leave_message (player_leave conn) g)
route (player_move msg) g = handle_player_move_message (player_move msg) g

-- `while (game_loop_queue.try_dequeue(msg))`, over the messages that are in the queue.
unfoldable pub drain : List QueueMessage → Game → Option Game
drain [] g = some g
drain (msg ∷ msgs) g = route msg g >>= drain msgs
