-- ===== src/Messages/Objects.antt =====
-- src/messages/objects: the accounts, skills, items and characters inside messages. What a function
-- writes stands in front of the writer's calls that follow.
use core_cpp_archive.Prelude.{Bool, List, Text, [], text, ℕ, ◌∷◌}
use core_cpp_archive.Rapidjson.{
  Event, end_array, end_object, start_array, start_object, write_bool, write_number, write_string,
  write_uint,
}
use core_cpp_archive.World.{StatComponent}

pub record AccountObject : Type 0 where
  pub is_game_master : Bool
  pub is_tester : Bool
  pub has_done_trial : Bool
  pub trial_ends_unix_timestamp : ℕ
  pub subscription_tier : ℕ
  pub username : Text

pub record SkillObject : Type 0 where
  pub value : ℕ
  pub name : Text

pub record ItemObject : Type 0 where
  pub tier : ℕ
  pub value : ℕ
  pub sprite : ℕ
  pub name : Text
  pub description : Text
  pub item_type : Text
  pub stats : List StatComponent

pub record CharacterObject : Type 0 where
  pub name : Text
  pub gender : Text
  pub allegiance : Text
  pub baseclass : Text
  pub map_name : Text
  pub level : ℕ
  pub slot : ℕ
  pub gold : ℕ
  pub x : ℕ
  pub y : ℕ
  pub stats : List StatComponent
  pub items : List ItemObject
  pub skills : List SkillObject

unfoldable pub write_account_object : AccountObject → List Event → List Event
write_account_object obj rest =
    write_string (text "is_game_master")
    ∷ write_bool obj.is_game_master
    ∷ write_string (text "is_tester")
    ∷ write_bool obj.is_tester
    ∷ write_string (text "has_done_trial")
    ∷ write_bool obj.has_done_trial
    ∷ write_string (text "trial_ends_unix_timestamp")
    ∷ write_uint obj.trial_ends_unix_timestamp
    ∷ write_string (text "subscription_tier")
    ∷ write_uint obj.subscription_tier
    ∷ write_string (text "username")
    ∷ write_string obj.username
    ∷ rest

unfoldable pub write_skill_object : SkillObject → List Event → List Event
write_skill_object obj rest =
    write_string (text "value")
    ∷ write_uint obj.value
    ∷ write_string (text "name")
    ∷ write_string obj.name
    ∷ rest

-- A loop that writes an array of objects.
unfoldable pub write_objects :
    {A : Type 0} → (A → List Event → List Event) → List A → List Event → List Event
write_objects write [] rest = rest
write_objects write (a ∷ objs) rest =
    start_object ∷ write a (end_object ∷ write_objects write objs rest)

unfoldable pub write_stat : StatComponent → List Event → List Event
write_stat stat rest =
    write_string (text "name")
    ∷ write_string stat.name
    ∷ write_string (text "value")
    ∷ write_number stat.value
    ∷ rest

unfoldable pub write_item_object : ItemObject → List Event → List Event
write_item_object obj rest =
    write_string (text "tier")
    ∷ write_uint obj.tier
    ∷ write_string (text "value")
    ∷ write_uint obj.value
    ∷ write_string (text "sprite")
    ∷ write_uint obj.sprite
    ∷ write_string (text "name")
    ∷ write_string obj.name
    ∷ write_string (text "description")
    ∷ write_string obj.description
    ∷ write_string (text "item_type")
    ∷ write_string obj.item_type
    ∷ write_string (text "stats")
    ∷ start_array
    ∷ write_objects write_stat obj.stats (end_array ∷ rest)

unfoldable pub write_character_object : CharacterObject → List Event → List Event
write_character_object obj rest =
    write_string (text "name")
    ∷ write_string obj.name
    ∷ write_string (text "gender")
    ∷ write_string obj.gender
    ∷ write_string (text "allegiance")
    ∷ write_string obj.allegiance
    ∷ write_string (text "baseclass")
    ∷ write_string obj.baseclass
    ∷ write_string (text "map_name")
    ∷ write_string obj.map_name
    ∷ write_string (text "level")
    ∷ write_uint obj.level
    ∷ write_string (text "slot")
    ∷ write_uint obj.slot
    ∷ write_string (text "gold")
    ∷ write_uint obj.gold
    ∷ write_string (text "x")
    ∷ write_uint obj.x
    ∷ write_string (text "y")
    ∷ write_uint obj.y
    ∷ write_string (text "stats")
    ∷ start_array
    ∷ write_objects write_stat obj.stats (
        end_array
        ∷ write_string (text "items")
        ∷ start_array
        ∷ write_objects write_item_object obj.items (
            end_array
            ∷ write_string (text "skills")
            ∷ start_array
            ∷ write_objects write_skill_object obj.skills (end_array ∷ rest)))
