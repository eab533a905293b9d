-- ===== src/Server/NewCharacters.antt =====
-- src/message_handlers/user_access/create_character_handler.cpp.
use core_cpp_archive.Censor.Sensor.{is_profane_ish}
use core_cpp_archive.Messages.Account.{CreateCharacterRequest, deserialize_create_character_request}
use core_cpp_archive.Messages.Presence.{serialize_create_character_response}
use core_cpp_archive.Prelude.{
  Bool, List, Text, [], any_of, bytes_eq, if◌then◌else◌, int_eq, leb, length, loc_eq, ltb, nat_eq,
  not, some, take, text, ℕ, ◌&&◌, ◌==◌, ◌||◌, ◌∷◌,
}
use core_cpp_archive.Rapidjson.{is_some}
use core_cpp_archive.Repositories.CharacterReads.{get_character_by_slot}
use core_cpp_archive.Repositories.Characters.{insert_character}
use core_cpp_archive.Repositories.Locations.{insert_location}
use core_cpp_archive.Repositories.Models.{IncludedTables, empty_character_row}
use core_cpp_archive.Repositories.Stats.{insert_stat}
use core_cpp_archive.Server.Characters.{allegiance_exists, class_exists}
use core_cpp_archive.Server.Guards.{deserialize_with_not_playing_check}
use core_cpp_archive.Server.State.{
  Action, Services, begin_transaction, commit, deref, json_frame, or_throw, pure, query, refuse_if,
  return, send, send_error_as, user_data, ◌>>=◌,
}
use core_cpp_archive.World.{StatComponent}

-- `::isdigit` and `::isspace` of a byte.
abbrev pub is_digit : ℕ → Bool
is_digit c = leb 48 c && leb c 57

abbrev pub is_space : ℕ → Bool
is_space c = c == 32 || leb 9 c && leb c 13

module _ (v : Services) where
  unfoldable pub starts_with_capital : Text → Action v Bool
  starts_with_capital name = do
    upper ← or_throw (v.utf_to_upper name)
    upper_chars ← or_throw (v.to_utf32 upper)
    chars ← or_throw (v.to_utf32 name)
    pure (find_first upper_chars == find_first chars)
    where
      find_first : Text → Text
      find_first cs = take 1 cs

  -- The tests on the name of a new character, and on its class.
  unfoldable pub check_new_character : ℕ → CreateCharacterRequest → Action v Unit
  check_new_character hdl msg = do
    _ ←
        if is_profane_ish v.sensor msg.name
        then (do
          _ ←
              send_error_as hdl (text "invalid_char_name") (text "Invalid Character Name")
                (text "That character name is not valid")
          return)
        else pure tt
    utf_name ← or_throw (v.to_utf32 msg.name)
    _ ←
        refuse_if (ltb (length utf_name) 2 || ltb 20 (length utf_name)) hdl
          (text "Character names needs to be at least 2 characters and at most 20 characters")
    _ ← refuse_if (any_of is_digit msg.name) hdl (text "Character names cannot contain digits")
    _ ← refuse_if (any_of is_space msg.name) hdl (text "Character names cannot contain spaces")
    capital ← starts_with_capital msg.name
    _ ← refuse_if (not capital) hdl (text "Character names must start with a capital")
    refuse_if (not (class_exists v msg.baseclass)) hdl (text "Selected class does not exist")

  -- The loop that writes the stats of a new character.
  unfoldable pub insert_stats : ℕ → List StatComponent → Action v (List StatComponent)
  insert_stats character_id [] = pure []
  insert_stats character_id (stat ∷ stats) = do
    _ ← query (
        insert_stat v.sql
          (record { id = 0; character_id = character_id; name = stat.name; value = stat.value }))
    rest ← insert_stats character_id stats
    pure (stat ∷ rest)

  unfoldable pub handle_create_character : v.json.Value → ℕ → Action v Unit
  handle_create_character d id = do
    msg ← deserialize_with_not_playing_check id (deserialize_create_character_request v.json d)
    u ← user_data id
    _ ← begin_transaction
    existing_character ←
        query (get_character_by_slot v.sql msg.slot u.user_id IncludedTables.location_table)
    _ ← refuse_if (is_some existing_character) u.ws (text "Character already exists in slot")
    _ ← check_new_character u.ws msg
    location ←
        query
          (insert_location v.sql (record { id = 0; map_name = text "Tutorial"; x = 14; y = 14 }))
    row ← query (
        insert_character v.sql (record empty_character_row {
          user_id = u.user_id;
          location_id = location.id;
          slot = msg.slot;
          level = 1;
          name = msg.name;
          allegiance =
              if allegiance_exists v msg.allegiance then msg.allegiance else text "Undecided";
          gender = msg.gender;
          class_name = msg.baseclass;
          loc = some location;
        }))
    _ ← refuse_if (not row.0) u.ws (text "Player with name already exists")
    player_stats ← insert_stats row.1.id v.select_response.base_stats
    _ ← commit
    loc ← deref row.1.loc
    send u.ws (
        json_frame (
          serialize_create_character_response v.json (record {
            character = record {
              name = row.1.name;
              gender = row.1.gender;
              allegiance = row.1.allegiance;
              baseclass = row.1.class_name;
              map_name = loc.map_name;
              level = row.1.level;
              slot = row.1.slot;
              gold = row.1.gold;
              x = loc.x;
              y = loc.y;
              stats = player_stats;
              items = [];
              skills = [];
            };
          })))
