-- ===== src/Messages/Selection.antt =====
-- src/messages/user_access/character_select_response.h and .cpp: what a new character can be made of.
use core_cpp_archive.Messages.Objects.{
  ItemObject, SkillObject, write_item_object, write_objects, write_skill_object, write_stat,
}
use core_cpp_archive.Prelude.{List, Text, [], text, ◌++◌, ◌∷◌}
use core_cpp_archive.Rapidjson.{
  Event, RapidJson, Read, array_at, check_members, check_object, check_type, end_array, end_object,
  got, int64_at, read_each, start_array, start_object, string_at, write_string, ◌>>=◌,
}
use core_cpp_archive.World.{StatComponent, to_u32}

pub record CharacterAllegiance : Type 0 where
  pub name : Text
  pub description : Text
  pub stat_mods : List StatComponent
  pub items : List ItemObject
  pub skills : List SkillObject

pub record CharacterClass : Type 0 where
  pub name : Text
  pub description : Text
  pub stat_mods : List StatComponent

pub record CharacterSelectResponse : Type 0 where
  pub base_stats : List StatComponent
  pub allegiances : List CharacterAllegiance
  pub classes : List CharacterClass

abbrev pub character_select_response_type : Text
character_select_response_type = text "Game:character_select_response"

unfoldable pub write_allegiance : CharacterAllegiance → List Event → List Event
write_allegiance a rest =
    write_string (text "name")
    ∷ write_string a.name
    ∷ write_string (text "description")
    ∷ write_string a.description
    ∷ write_string (text "stat_mods")
    ∷ start_array
    ∷ write_objects write_stat a.stat_mods (
        end_array
        ∷ write_string (text "items")
        ∷ start_array
        ∷ write_objects write_item_object a.items (
            end_array
            ∷ write_string (text "skills")
            ∷ start_array
            ∷ write_objects write_skill_object a.skills (end_array ∷ rest)))

unfoldable pub write_class : CharacterClass → List Event → List Event
write_class c rest =
    write_string (text "name")
    ∷ write_string c.name
    ∷ write_string (text "description")
    ∷ write_string c.description
    ∷ write_string (text "stat_mods")
    ∷ start_array
    ∷ write_objects write_stat c.stat_mods (end_array ∷ rest)

module _ (r : RapidJson) where
  unfoldable pub serialize_character_select_response : CharacterSelectResponse → r.Wire
  serialize_character_select_response m = r.output (
      start_object
      ∷ write_string (text "type")
      ∷ write_string character_select_response_type
      ∷ write_string (text "base_stats")
      ∷ start_array
      ∷ write_objects write_stat m.base_stats (
          end_array
          ∷ write_string (text "allegiances")
          ∷ start_array
          ∷ write_objects write_allegiance m.allegiances (
              end_array
              ∷ write_string (text "classes")
              ∷ start_array
              ∷ write_objects write_class m.classes (end_array ∷ end_object ∷ []))))

  unfoldable pub read_stat_mod : r.Value → List StatComponent → Read (List StatComponent)
  read_stat_mod v stats = do
    _ ← check_object r v (text "name" ∷ text "value" ∷ [])
    name ← string_at r v (text "name")
    value ← int64_at r v (text "value")
    got (stats ++ record { name = name; value = value } ∷ [])

  -- Only the name of an item is read.
  unfoldable pub read_item_name : r.Value → List ItemObject → Read (List ItemObject)
  read_item_name v items = do
    _ ← check_object r v (text "name" ∷ [])
    name ← string_at r v (text "name")
    got (
        items
        ++ record {
          tier = 0;
          value = 0;
          sprite = 0;
          name = name;
          description = [];
          item_type = [];
          stats = [];
        }
          ∷ [])

  unfoldable pub read_skill_mod : r.Value → List SkillObject → Read (List SkillObject)
  read_skill_mod v skills = do
    _ ← check_object r v (text "name" ∷ text "value" ∷ [])
    name ← string_at r v (text "name")
    value ← int64_at r v (text "value")
    got (skills ++ record { value = to_u32 value; name = name } ∷ [])

  unfoldable pub read_allegiance :
      r.Value → List CharacterAllegiance → Read (List CharacterAllegiance)
  read_allegiance v allegiances = do
    _ ←
        check_object r v
          (text "name" ∷ text "description" ∷ text "stat_mods" ∷ text "items" ∷ text "skills" ∷ [])
    stat_mods_array ← array_at r v (text "stat_mods")
    stat_mods ← read_each r read_stat_mod stat_mods_array []
    items_array ← array_at r v (text "items")
    items ← read_each r read_item_name items_array []
    skills_array ← array_at r v (text "skills")
    skills ← read_each r read_skill_mod skills_array []
    name ← string_at r v (text "name")
    description ← string_at r v (text "description")
    got (
        allegiances
        ++ record {
          name = name;
          description = description;
          stat_mods = stat_mods;
          items = items;
          skills = skills;
        }
          ∷ [])

  unfoldable pub read_class : r.Value → List CharacterClass → Read (List CharacterClass)
  read_class v classes = do
    _ ← check_object r v (text "name" ∷ text "description" ∷ text "stat_mods" ∷ [])
    stat_mods_array ← array_at r v (text "stat_mods")
    stat_mods ← read_each r read_stat_mod stat_mods_array []
    name ← string_at r v (text "name")
    description ← string_at r v (text "description")
    got (classes ++ record { name = name; description = description; stat_mods = stat_mods } ∷ [])

  unfoldable pub deserialize_character_select_response : r.Value → Read CharacterSelectResponse
  deserialize_character_select_response d = do
    _ ←
        check_members r d
          (text "type" ∷ text "base_stats" ∷ text "allegiances" ∷ text "classes" ∷ [])
    _ ← check_type r d character_select_response_type
    stats_array ← array_at r d (text "base_stats")
    base_stats ← read_each r read_stat_mod stats_array []
    allegiance_array ← array_at r d (text "allegiances")
    allegiances ← read_each r read_allegiance allegiance_array []
    classes_array ← array_at r d (text "classes")
    classes ← read_each r read_class classes_array []
    got (record { base_stats = base_stats; allegiances = allegiances; classes = classes })
