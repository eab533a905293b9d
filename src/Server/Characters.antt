-- ===== src/Server/Characters.antt =====
-- src/message_handlers/user_access/play_character_handler.cpp and delete_character_handler.cpp.
use core_cpp_archive.GameQueue.Messages.{player_enter}
use core_cpp_archive.Messages.Account.{
  deserialize_delete_character_request, deserialize_play_character_request,
}
use core_cpp_archive.Messages.Replies.{
  serialize_generic_ok_response, serialize_user_entered_game_response,
}
use core_cpp_archive.Prelude.{
  Bool, Option, Text, [], any_of, bytes_eq, false, int_eq, leb_ℤ, loc_eq, nat_eq, none, not, some,
  text, ℕ, ℤ, ◌&&◌, ◌++◌, ◌==◌, ◌||◌, ◌∷◌,
}
use core_cpp_archive.Repositories.CharacterReads.{get_character_by_slot}
use core_cpp_archive.Repositories.Characters.{delete_character_by_slot}
use core_cpp_archive.Repositories.Models.{DbCharacter, IncludedTables}
use core_cpp_archive.Repositories.Sql.{decimal}
use core_cpp_archive.Repositories.Stats.{get_by_character_id}
use core_cpp_archive.Server.Guards.{deserialize_with_not_playing_check}
use core_cpp_archive.Server.Login.{stats_of}
use core_cpp_archive.Server.State.{
  Action, PerSocketData, Services, UserConnections, begin_transaction, broadcast, commit, deref,
  enqueue, gets, json_frame, pure, query, refuse, refuse_if, send, set_user_data, user_data, ◌>>=◌,
}
use core_cpp_archive.Tiles.{to_i32}
use core_cpp_archive.World.{to_u32}

-- A comparison of an `int32_t` with a `uint32_t`, which is made on unsigned numbers.
abbrev pub same_slot : ℤ → ℕ → Bool
same_slot slot n = to_u32 slot == n

-- The test of the loop over all connections.
unfoldable pub plays_there : PerSocketData → ℕ → PerSocketData → Bool
plays_there u slot other =
    not (other.connection_id == u.connection_id)
    && other.user_id == u.user_id
    && same_slot other.playing_character_slot slot

unfoldable pub plays_elsewhere : PerSocketData → ℕ → UserConnections → Bool
plays_elsewhere u slot [] = false
plays_elsewhere u slot ((_, other) ∷ rest) = plays_there u slot other || plays_elsewhere u slot rest

-- The test of the loop of `handle_delete_character`.
unfoldable pub is_played : ℕ → ℕ → UserConnections → Bool
is_played user_id slot [] = false
is_played user_id slot ((_, other) ∷ rest) =
    other.user_id == user_id
      && leb_ℤ (ℤ.pos 0) other.playing_character_slot
      && same_slot other.playing_character_slot slot
    || is_played user_id slot rest

module _ (v : Services) where
  abbrev pub allegiance_exists : Text → Bool
  allegiance_exists name = any_of (λ a. a.name == name) v.select_response.allegiances

  abbrev pub class_exists : Text → Bool
  class_exists name = any_of (λ c. c.name == name) v.select_response.classes

  unfoldable pub character_or_refuse : ℕ → Option DbCharacter → Action v DbCharacter
  character_or_refuse hdl none = refuse hdl (text "Couldn't find character in that slot")
  character_or_refuse hdl (some character) = pure character

  -- The modifiers that the handler adds up from the allegiance and the class are not used after
  -- that, and are left out.
  unfoldable pub handle_play_character : v.json.Value → ℕ → Action v Unit
  handle_play_character d id = do
    msg ← deserialize_with_not_playing_check id (deserialize_play_character_request v.json d)
    u ← user_data id
    _ ← begin_transaction
    row ← query (get_character_by_slot v.sql msg.slot u.user_id IncludedTables.location_table)
    character ← character_or_refuse u.ws row
    others ← gets (λ s. s.user_connections)
    _ ←
        refuse_if (plays_elsewhere u msg.slot others) u.ws
          (text "Already playing that slot on another connection")
    _ ← set_user_data id (record u { playing_character_slot = to_i32 msg.slot })
    db_stats ← query (get_by_character_id v.sql character.id)
    _ ← broadcast (
        json_frame (serialize_user_entered_game_response v.json (record { username = u.username })))
    _ ←
        refuse_if (not (allegiance_exists character.allegiance)) u.ws
          (text "Chosen allegiance does not exist")
    _ ←
        refuse_if (not (class_exists character.class_name)) u.ws
          (text "Chosen class does not exist")
    location ← deref character.loc
    enqueue (
        player_enter (record {
          connection_id = u.connection_id;
          character_name = character.name;
          gender = character.gender;
          allegiance = character.allegiance;
          baseclass = character.class_name;
          map_name = location.map_name;
          player_stats = stats_of db_stats;
          level = character.level;
          gold = character.gold;
          x = location.x;
          y = location.y;
        }))

  unfoldable pub handle_delete_character : v.json.Value → ℕ → Action v Unit
  handle_delete_character d id = do
    msg ← deserialize_with_not_playing_check id (deserialize_delete_character_request v.json d)
    u ← user_data id
    others ← gets (λ s. s.user_connections)
    _ ←
        refuse_if (is_played u.user_id msg.slot others) u.ws
          (text "Already playing that slot on another connection")
    _ ← begin_transaction
    _ ← query (delete_character_by_slot v.sql msg.slot u.user_id)
    _ ← commit
    send u.ws (
        json_frame (
          serialize_generic_ok_response v.json (record {
            message = text "Character in slot " ++ decimal msg.slot ++ text " deleted";
          })))
