-- ===== src/Messages/Account.antt =====
-- src/messages: what a client asks for with its account and its characters.
use core_cpp_archive.Prelude.{Text, [], text, ℕ, ◌∷◌}
use core_cpp_archive.Rapidjson.{
  RapidJson, Read, check_members, check_type, end_object, got, start_object, string_at, uint_at,
  write_string, write_uint, ◌>>=◌,
}

pub record LoginRequest : Type 0 where
  pub username : Text
  pub password : Text

abbrev pub login_request_type : Text
login_request_type = text "Auth:login"

module _ (r : RapidJson) where
  unfoldable pub serialize_login_request : LoginRequest → r.Wire
  serialize_login_request m = r.output (
      start_object
      ∷ write_string (text "type")
      ∷ write_string login_request_type
      ∷ write_string (text "username")
      ∷ write_string m.username
      ∷ write_string (text "password")
      ∷ write_string m.password
      ∷ end_object
      ∷ [])

  unfoldable pub deserialize_login_request : r.Value → Read LoginRequest
  deserialize_login_request d = do
    _ ← check_members r d (text "type" ∷ text "username" ∷ text "password" ∷ [])
    _ ← check_type r d login_request_type
    username ← string_at r d (text "username")
    password ← string_at r d (text "password")
    got (record { username = username; password = password })

pub record RegisterRequest : Type 0 where
  pub username : Text
  pub password : Text
  pub email : Text

abbrev pub register_request_type : Text
register_request_type = text "Auth:register"

module _ (r : RapidJson) where
  unfoldable pub serialize_register_request : RegisterRequest → r.Wire
  serialize_register_request m = r.output (
      start_object
      ∷ write_string (text "type")
      ∷ write_string register_request_type
      ∷ write_string (text "username")
      ∷ write_string m.username
      ∷ write_string (text "password")
      ∷ write_string m.password
      ∷ write_string (text "email")
      ∷ write_string m.email
      ∷ end_object
      ∷ [])

  unfoldable pub deserialize_register_request : r.Value → Read RegisterRequest
  deserialize_register_request d = do
    _ ← check_members r d (text "type" ∷ text "username" ∷ text "password" ∷ text "email" ∷ [])
    _ ← check_type r d register_request_type
    username ← string_at r d (text "username")
    password ← string_at r d (text "password")
    email ← string_at r d (text "email")
    got (record { username = username; password = password; email = email })

pub record CharacterSelectRequest : Type 0 where

abbrev pub character_select_request_type : Text
character_select_request_type = text "Game:character_select"

module _ (r : RapidJson) where
  unfoldable pub serialize_character_select_request : CharacterSelectRequest → r.Wire
  serialize_character_select_request m = r.output (
      start_object
      ∷ write_string (text "type")
      ∷ write_string character_select_request_type
      ∷ end_object
      ∷ [])

  unfoldable pub deserialize_character_select_request : r.Value → Read CharacterSelectRequest
  deserialize_character_select_request d = do
    _ ← check_members r d (text "type" ∷ [])
    _ ← check_type r d character_select_request_type
    got (record {})

pub record CreateCharacterRequest : Type 0 where
  pub slot : ℕ
  pub name : Text
  pub gender : Text
  pub allegiance : Text
  pub baseclass : Text

abbrev pub create_character_request_type : Text
create_character_request_type = text "Game:create_character"

module _ (r : RapidJson) where
  unfoldable pub serialize_create_character_request : CreateCharacterRequest → r.Wire
  serialize_create_character_request m = r.output (
      start_object
      ∷ write_string (text "type")
      ∷ write_string create_character_request_type
      ∷ write_string (text "slot")
      ∷ write_uint m.slot
      ∷ write_string (text "name")
      ∷ write_string m.name
      ∷ write_string (text "gender")
      ∷ write_string m.gender
      ∷ write_string (text "allegiance")
      ∷ write_string m.allegiance
      ∷ write_string (text "baseclass")
      ∷ write_string m.baseclass
      ∷ end_object
      ∷ [])

  unfoldable pub deserialize_create_character_request : r.Value → Read CreateCharacterRequest
  deserialize_create_character_request d = do
    _ ← check_members r d (
        text "type"
        ∷ text "slot"
        ∷ text "name"
        ∷ text "gender"
        ∷ text "allegiance"
        ∷ text "baseclass"
        ∷ [])
    _ ← check_type r d create_character_request_type
    slot ← uint_at r d (text "slot")
    name ← string_at r d (text "name")
    gender ← string_at r d (text "gender")
    allegiance ← string_at r d (text "allegiance")
    baseclass ← string_at r d (text "baseclass")
    got (record {
      slot = slot;
      name = name;
      gender = gender;
      allegiance = allegiance;
      baseclass = baseclass;
    })

pub record PlayCharacterRequest : Type 0 where
  pub slot : ℕ

abbrev pub play_character_request_type : Text
play_character_request_type = text "Game:play_character"

module _ (r : RapidJson) where
  unfoldable pub serialize_play_character_request : PlayCharacterRequest → r.Wire
  serialize_play_character_request m = r.output (
      start_object
      ∷ write_string (text "type")
      ∷ write_string play_character_request_type
      ∷ write_string (text "slot")
      ∷ write_uint m.slot
      ∷ end_object
      ∷ [])

  unfoldable pub deserialize_play_character_request : r.Value → Read PlayCharacterRequest
  deserialize_play_character_request d = do
    _ ← check_members r d (text "type" ∷ text "slot" ∷ [])
    _ ← check_type r d play_character_request_type
    slot ← uint_at r d (text "slot")
    got (record { slot = slot })

pub record DeleteCharacterRequest : Type 0 where
  pub slot : ℕ

abbrev pub delete_character_request_type : Text
delete_character_request_type = text "Game:delete_character"

module _ (r : RapidJson) where
  unfoldable pub serialize_delete_character_request : DeleteCharacterRequest → r.Wire
  serialize_delete_character_request m = r.output (
      start_object
      ∷ write_string (text "type")
      ∷ write_string delete_character_request_type
      ∷ write_string (text "slot")
      ∷ write_uint m.slot
      ∷ end_object
      ∷ [])

  unfoldable pub deserialize_delete_character_request : r.Value → Read DeleteCharacterRequest
  deserialize_delete_character_request d = do
    _ ← check_members r d (text "type" ∷ text "slot" ∷ [])
    _ ← check_type r d delete_character_request_type
    slot ← uint_at r d (text "slot")
    got (record { slot = slot })
