-- ===== src/Messages/Replies.antt =====
-- src/messages: the answers with a text.
use core_cpp_archive.Prelude.{Bool, Text, [], text, ◌∷◌}
use core_cpp_archive.Rapidjson.{
  RapidJson, Read, bool_at, check_members, check_type, end_object, got, start_object, string_at,
  write_bool, write_string, ◌>>=◌,
}

pub record GenericErrorResponse : Type 0 where
  pub error : Text
  pub pretty_error_name : Text
  pub pretty_error_description : Text
  pub clear_login_data : Bool

abbrev pub generic_error_response_type : Text
generic_error_response_type = text "error_response"

module _ (r : RapidJson) where
  unfoldable pub serialize_generic_error_response : GenericErrorResponse → r.Wire
  serialize_generic_error_response m = r.output (
      start_object
      ∷ write_string (text "type")
      ∷ write_string generic_error_response_type
      ∷ write_string (text "error")
      ∷ write_string m.error
      ∷ write_string (text "prettyErrorName")
      ∷ write_string m.pretty_error_name
      ∷ write_string (text "prettyErrorDesc")
      ∷ write_string m.pretty_error_description
      ∷ write_string (text "clearLoginData")
      ∷ write_bool m.clear_login_data
      ∷ end_object
      ∷ [])

  unfoldable pub deserialize_generic_error_response : r.Value → Read GenericErrorResponse
  deserialize_generic_error_response d = do
    _ ← check_members r d (
        text "type"
        ∷ text "error"
        ∷ text "prettyErrorName"
        ∷ text "prettyErrorDesc"
        ∷ text "clearLoginData"
        ∷ [])
    _ ← check_type r d generic_error_response_type
    error ← string_at r d (text "error")
    pretty_error_name ← string_at r d (text "prettyErrorName")
    pretty_error_description ← string_at r d (text "prettyErrorDesc")
    clear_login_data ← bool_at r d (text "clearLoginData")
    got (record {
      error = error;
      pretty_error_name = pretty_error_name;
      pretty_error_description = pretty_error_description;
      clear_login_data = clear_login_data;
    })

pub record GenericOkResponse : Type 0 where
  pub message : Text

abbrev pub generic_ok_response_type : Text
generic_ok_response_type = text "error_response"

module _ (r : RapidJson) where
  unfoldable pub serialize_generic_ok_response : GenericOkResponse → r.Wire
  serialize_generic_ok_response m = r.output (
      start_object
      ∷ write_string (text "type")
      ∷ write_string generic_ok_response_type
      ∷ write_string (text "message")
      ∷ write_string m.message
      ∷ end_object
      ∷ [])

  unfoldable pub deserialize_generic_ok_response : r.Value → Read GenericOkResponse
  deserialize_generic_ok_response d = do
    _ ← check_members r d (text "type" ∷ text "message" ∷ [])
    _ ← check_type r d generic_ok_response_type
    message ← string_at r d (text "message")
    got (record { message = message })

pub record UserEnteredGameResponse : Type 0 where
  pub username : Text

abbrev pub user_entered_game_response_type : Text
user_entered_game_response_type = text "Auth:enter_game"

module _ (r : RapidJson) where
  unfoldable pub serialize_user_entered_game_response : UserEnteredGameResponse → r.Wire
  serialize_user_entered_game_response m = r.output (
      start_object
      ∷ write_string (text "type")
      ∷ write_string user_entered_game_response_type
      ∷ write_string (text "username")
      ∷ write_string m.username
      ∷ end_object
      ∷ [])

  unfoldable pub deserialize_user_entered_game_response : r.Value → Read UserEnteredGameResponse
  deserialize_user_entered_game_response d = do
    _ ← check_members r d (text "type" ∷ text "username" ∷ [])
    _ ← check_type r d user_entered_game_response_type
    username ← string_at r d (text "username")
    got (record { username = username })

pub record UserLeftGameResponse : Type 0 where
  pub username : Text

abbrev pub user_left_game_response_type : Text
user_left_game_response_type = text "Auth:left_game"

module _ (r : RapidJson) where
  unfoldable pub serialize_user_left_game_response : UserLeftGameResponse → r.Wire
  serialize_user_left_game_response m = r.output (
      start_object
      ∷ write_string (text "type")
      ∷ write_string user_left_game_response_type
      ∷ write_string (text "username")
      ∷ write_string m.username
      ∷ end_object
      ∷ [])

  unfoldable pub deserialize_user_left_game_response : r.Value → Read UserLeftGameResponse
  deserialize_user_left_game_response d = do
    _ ← check_members r d (text "type" ∷ text "username" ∷ [])
    _ ← check_type r d user_left_game_response_type
    username ← string_at r d (text "username")
    got (record { username = username })

pub record UserLeftResponse : Type 0 where
  pub username : Text

abbrev pub user_left_response_type : Text
user_left_response_type = text "Auth:leave"

module _ (r : RapidJson) where
  unfoldable pub serialize_user_left_response : UserLeftResponse → r.Wire
  serialize_user_left_response m = r.output (
      start_object
      ∷ write_string (text "type")
      ∷ write_string user_left_response_type
      ∷ write_string (text "username")
      ∷ write_string m.username
      ∷ end_object
      ∷ [])

  unfoldable pub deserialize_user_left_response : r.Value → Read UserLeftResponse
  deserialize_user_left_response d = do
    _ ← check_members r d (text "type" ∷ text "username" ∷ [])
    _ ← check_type r d user_left_response_type
    username ← string_at r d (text "username")
    got (record { username = username })
