-- ===== src/Messages/MapUpdate.antt =====
-- src/messages/map_update_response.h and .cpp: the npcs that a player sees.
use core_cpp_archive.Messages.Objects.{write_objects}
use core_cpp_archive.Prelude.{List, Text, [], text, ◌++◌, ◌∷◌}
use core_cpp_archive.Rapidjson.{
  Event, RapidJson, Read, array_at, check_members, check_object, check_type, end_array, end_object,
  got, int_at, read_each, start_array, start_object, string_at, write_string, write_uint, ◌>>=◌,
}
use core_cpp_archive.World.{CharacterComponent, empty_character, to_u32}

pub record MapUpdateResponse : Type 0 where
  pub npcs : List CharacterComponent

abbrev pub map_update_response_type : Text
map_update_response_type = text "Game:map_update"

-- The coordinates are signed, and written as unsigned numbers.
unfoldable pub write_npc : CharacterComponent → List Event → List Event
write_npc npc rest =
    write_string (text "name")
    ∷ write_string npc.name
    ∷ write_string (text "sprite")
    ∷ write_uint npc.sprite
    ∷ write_string (text "x")
    ∷ write_uint (to_u32 npc.loc.0)
    ∷ write_string (text "y")
    ∷ write_uint (to_u32 npc.loc.1)
    ∷ rest

module _ (r : RapidJson) where
  unfoldable pub serialize_map_update_response : MapUpdateResponse → r.Wire
  serialize_map_update_response m = r.output (
      start_object
      ∷ write_string (text "type")
      ∷ write_string map_update_response_type
      ∷ write_string (text "npcs")
      ∷ start_array
      ∷ write_objects write_npc m.npcs (end_array ∷ end_object ∷ []))

  -- A new npc of which only three fields are set.
  unfoldable pub read_npc : r.Value → List CharacterComponent → Read (List CharacterComponent)
  read_npc v players = do
    _ ← check_object r v (text "name" ∷ text "sprite" ∷ text "x" ∷ text "y" ∷ [])
    name ← string_at r v (text "name")
    sprite ← int_at r v (text "sprite")
    x ← int_at r v (text "x")
    y ← int_at r v (text "y")
    got (
        players
        ++ record empty_character { name = name; sprite = to_u32 sprite; loc = (x, y) } ∷ [])

  unfoldable pub deserialize_map_update_response : r.Value → Read MapUpdateResponse
  deserialize_map_update_response d = do
    _ ← check_members r d (text "type" ∷ text "npcs" ∷ [])
    _ ← check_type r d map_update_response_type
    npcs_array ← array_at r d (text "npcs")
    npcs ← read_each r read_npc npcs_array []
    got (record { npcs = npcs })
