-- ===== src/Messages/Reading.antt =====
-- src/messages/objects: how the objects of a message are read. A function that returns false gives
-- `nullopt`, one that returns true gives the vector with the object at its end.
use core_cpp_archive.Messages.Objects.{AccountObject, CharacterObject, ItemObject, SkillObject}
use core_cpp_archive.Prelude.{List, [], text, ℤ, ◌++◌, ◌∷◌}
use core_cpp_archive.Rapidjson.{
  RapidJson, Read, array_at, bool_at, check_object, got, read_each, string_at, uint64_at, uint_at,
  ◌>>=◌,
}
use core_cpp_archive.World.{StatComponent}

module _ (r : RapidJson) where
  unfoldable pub read_account_object_into_vector :
      r.Value → List AccountObject → Read (List AccountObject)
  read_account_object_into_vector v objs = do
    _ ← check_object r v (
        text "is_game_master"
        ∷ text "is_tester"
        ∷ text "has_done_trial"
        ∷ text "trial_ends_unix_timestamp"
        ∷ text "subscription_tier"
        ∷ text "username"
        ∷ [])
    is_game_master ← bool_at r v (text "is_game_master")
    is_tester ← bool_at r v (text "is_tester")
    has_done_trial ← bool_at r v (text "has_done_trial")
    trial_ends_unix_timestamp ← uint64_at r v (text "trial_ends_unix_timestamp")
    subscription_tier ← uint_at r v (text "subscription_tier")
    username ← string_at r v (text "username")
    got (
        objs
        ++ record {
          is_game_master = is_game_master;
          is_tester = is_tester;
          has_done_trial = has_done_trial;
          trial_ends_unix_timestamp = trial_ends_unix_timestamp;
          subscription_tier = subscription_tier;
          username = username;
        }
          ∷ [])

  unfoldable pub read_skill_object_into_vector :
      r.Value → List SkillObject → Read (List SkillObject)
  read_skill_object_into_vector v objs = do
    _ ← check_object r v (text "value" ∷ text "name" ∷ [])
    name ← string_at r v (text "name")
    value ← uint_at r v (text "value")
    got (objs ++ record { value = value; name = name } ∷ [])

  -- The body of the loop over the stats of an item or a character: the value is read by `GetUint`.
  unfoldable pub read_stat : r.Value → List StatComponent → Read (List StatComponent)
  read_stat v stats = do
    _ ← check_object r v (text "name" ∷ text "value" ∷ [])
    name ← string_at r v (text "name")
    value ← uint_at r v (text "value")
    got (stats ++ record { name = name; value = ℤ.pos value } ∷ [])

  unfoldable pub read_item_object_into_vector : r.Value → List ItemObject → Read (List ItemObject)
  read_item_object_into_vector v objs = do
    _ ← check_object r v (
        text "tier"
        ∷ text "value"
        ∷ text "sprite"
        ∷ text "name"
        ∷ text "description"
        ∷ text "item_type"
        ∷ text "stats"
        ∷ [])
    stats_array ← array_at r v (text "stats")
    stats ← read_each r read_stat stats_array []
    tier ← uint_at r v (text "tier")
    value ← uint_at r v (text "value")
    sprite ← uint_at r v (text "sprite")
    name ← string_at r v (text "name")
    description ← string_at r v (text "description")
    item_type ← string_at r v (text "item_type")
    got (
        objs
        ++ record {
          tier = tier;
          value = value;
          sprite = sprite;
          name = name;
          description = description;
          item_type = item_type;
          stats = stats;
        }
          ∷ [])

  unfoldable pub read_character_object_into_vector :
      r.Value → List CharacterObject → Read (List CharacterObject)
  read_character_object_into_vector v objs = do
    _ ← check_object r v (
        text "name"
        ∷ text "gender"
        ∷ text "allegiance"
        ∷ text "baseclass"
        ∷ text "map_name"
        ∷ text "x"
        ∷ text "level"
        ∷ text "gold"
        ∷ text "slot"
        ∷ text "y"
        ∷ text "stats"
        ∷ text "items"
        ∷ text "skills"
        ∷ [])
    stats_array ← array_at r v (text "stats")
    items_array ← array_at r v (text "items")
    skills_array ← array_at r v (text "skills")
    stats ← read_each r read_stat stats_array []
    items ← read_each r read_item_object_into_vector items_array []
    skills ← read_each r read_skill_object_into_vector skills_array []
    name ← string_at r v (text "name")
    gender ← string_at r v (text "gender")
    allegiance ← string_at r v (text "allegiance")
    baseclass ← string_at r v (text "baseclass")
    map_name ← string_at r v (text "map_name")
    level ← uint_at r v (text "level")
    slot ← uint_at r v (text "slot")
    gold ← uint_at r v (text "gold")
    x ← uint_at r v (text "x")
    y ← uint_at r v (text "y")
    got (
        objs
        ++ record {
          name = name;
          gender = gender;
          allegiance = allegiance;
          baseclass = baseclass;
          map_name = map_name;
          level = level;
          slot = slot;
          gold = gold;
          x = x;
          y = y;
          stats = stats;
          items = items;
          skills = skills;
        }
          ∷ [])
