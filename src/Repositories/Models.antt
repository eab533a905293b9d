-- ===== src/Repositories/Models.antt =====
-- src/repositories/models.h.
use core_cpp_archive.Prelude.{List, Option, Text, [], none, ℕ, ℤ}

pub record DbLocation : Type 0 where
  pub id : ℕ
  pub map_name : Text
  pub x : ℕ
  pub y : ℕ

pub record User : Type 0 where
  pub id : ℕ
  pub username : Text
  pub password : Text
  pub email : Text
  pub login_attempts : ℕ
  pub verification_code : Text
  pub max_characters : ℕ
  pub is_game_master : ℕ

unfoldable pub empty_user : User
empty_user = record {
  id = 0;
  username = [];
  password = [];
  email = [];
  login_attempts = 0;
  verification_code = [];
  max_characters = 0;
  is_game_master = 0;
}

-- The time in nanoseconds since the epoch.
pub record BannedUser : Type 0 where
  pub id : ℕ
  pub ip : Text
  pub user : Option User
  pub until : Option ℤ

pub record CharacterStat : Type 0 where
  pub id : ℕ
  pub character_id : ℕ
  pub name : Text
  pub value : ℤ

pub record CharacterItem : Type 0 where
  pub id : ℕ
  pub name : Text

pub record DbCharacter : Type 0 where
  pub id : ℕ
  pub user_id : ℕ
  pub location_id : ℕ
  pub slot : ℕ
  pub level : ℕ
  pub gold : ℕ
  pub name : Text
  pub allegiance : Text
  pub gender : Text
  pub alignment : Text
  pub class_name : Text
  pub loc : Option DbLocation
  pub stats : List CharacterStat
  pub items : List CharacterItem

unfoldable pub empty_character_row : DbCharacter
empty_character_row = record {
  id = 0;
  user_id = 0;
  location_id = 0;
  slot = 0;
  level = 0;
  gold = 0;
  name = [];
  allegiance = [];
  gender = [];
  alignment = [];
  class_name = [];
  loc = none;
  stats = [];
  items = [];
}

-- The enumeration `included_tables` of src/repositories/characters_repository.h.
pub data IncludedTables : Type 0 where
  no_table stats_table location_table items_table all_tables : IncludedTables
