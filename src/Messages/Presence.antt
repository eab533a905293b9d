-- ===== src/Messages/Presence.antt =====
-- src/messages/user_access: the messages that show one account, one character, or all of both.
use core_cpp_archive.Messages.Objects.{
  AccountObject, CharacterObject, write_account_object, write_character_object, write_objects,
}
use core_cpp_archive.Messages.Reading.{
  read_account_object_into_vector, read_character_object_into_vector,
}
use core_cpp_archive.Prelude.{List, Text, [], get_elem?, text, ◌∷◌}
use core_cpp_archive.Rapidjson.{
  RapidJson, Read, array_at, bool_at, check_members, check_type, demand, end_array, end_object, got,
  read_each, start_array, start_object, string_at, uint64_at, uint_at, write_string, ◌>>=◌,
}

pub record UserJoinedResponse : Type 0 where
  pub user : AccountObject

abbrev pub user_joined_response_type : Text
user_joined_response_type = text "Auth:join"

pub record CreateCharacterResponse : Type 0 where
  pub character : CharacterObject

abbrev pub create_character_response_type : Text
create_character_response_type = text "Game:create_character_response"

pub record LoginResponse : Type 0 where
  pub players : List CharacterObject
  pub online_users : List AccountObject
  pub username : Text
  pub email : Text
  pub motd : Text

abbrev pub login_response_type : Text
login_response_type = text "Auth:login_response"

module _ (r : RapidJson) where
  unfoldable pub serialize_user_joined_response : UserJoinedResponse → r.Wire
  serialize_user_joined_response m = r.output (
      start_object
      ∷ write_string (text "type")
      ∷ write_string user_joined_response_type
      ∷ write_account_object m.user (end_object ∷ []))

  unfoldable pub deserialize_user_joined_response : r.Value → Read UserJoinedResponse
  deserialize_user_joined_response d = do
    _ ← check_members r d (
        text "type"
        ∷ text "is_game_master"
        ∷ text "is_tester"
        ∷ text "has_done_trial"
        ∷ text "trial_ends_unix_timestamp"
        ∷ text "subscription_tier"
        ∷ text "username"
        ∷ [])
    _ ← check_type r d user_joined_response_type
    is_game_master ← bool_at r d (text "is_game_master")
    is_tester ← bool_at r d (text "is_tester")
    has_done_trial ← bool_at r d (text "has_done_trial")
    trial_ends_unix_timestamp ← uint64_at r d (text "trial_ends_unix_timestamp")
    subscription_tier ← uint_at r d (text "subscription_tier")
    username ← string_at r d (text "username")
    got (record {
      user = record {
        is_game_master = is_game_master;
        is_tester = is_tester;
        has_done_trial = has_done_trial;
        trial_ends_unix_timestamp = trial_ends_unix_timestamp;
        subscription_tier = subscription_tier;
        username = username;
      };
    })

  unfoldable pub serialize_create_character_response : CreateCharacterResponse → r.Wire
  serialize_create_character_response m = r.output (
      start_object
      ∷ write_string (text "type")
      ∷ write_string create_character_response_type
      ∷ write_character_object m.character (end_object ∷ []))

  unfoldable pub deserialize_create_character_response : r.Value → Read CreateCharacterResponse
  deserialize_create_character_response d = do
    _ ← check_members r d (text "type" ∷ [])
    _ ← check_type r d create_character_response_type
    objs ← read_character_object_into_vector r d []
    character ← demand (get_elem? objs 0)
    got (record { character = character })

  unfoldable pub serialize_login_response : LoginResponse → r.Wire
  serialize_login_response m = r.output (
      start_object
      ∷ write_string (text "type")
      ∷ write_string login_response_type
      ∷ write_string (text "username")
      ∷ write_string m.username
      ∷ write_string (text "email")
      ∷ write_string m.email
      ∷ write_string (text "motd")
      ∷ write_string m.motd
      ∷ write_string (text "players")
      ∷ start_array
      ∷ write_objects write_character_object m.players (
          end_array
          ∷ write_string (text "online_users")
          ∷ start_array
          ∷ write_objects write_account_object m.online_users (end_array ∷ end_object ∷ [])))

  -- A missing `online_users` is not checked.
  unfoldable pub deserialize_login_response : r.Value → Read LoginResponse
  deserialize_login_response d = do
    _ ←
        check_members r d
          (text "type" ∷ text "players" ∷ text "username" ∷ text "email" ∷ text "motd" ∷ [])
    _ ← check_type r d login_response_type
    players_array ← array_at r d (text "players")
    online_users_array ← array_at r d (text "online_users")
    online_users ← read_each r (read_account_object_into_vector r) online_users_array []
    players ← read_each r (read_character_object_into_vector r) players_array []
    username ← string_at r d (text "username")
    email ← string_at r d (text "email")
    motd ← string_at r d (text "motd")
    got (record {
      players = players;
      online_users = online_users;
      username = username;
      email = email;
      motd = motd;
    })
