-- ===== src/Messages/Play.antt =====
-- src/messages: moves, chat and the message of the day.
use core_cpp_archive.Prelude.{Text, [], text, ℕ, ◌∷◌}
use core_cpp_archive.Rapidjson.{
  RapidJson, Read, check_members, check_type, end_object, got, start_object, string_at, uint64_at,
  uint_at, write_string, write_uint, ◌>>=◌,
}

pub record MoveRequest : Type 0 where
  pub x : ℕ
  pub y : ℕ

abbrev pub move_request_type : Text
move_request_type = text "Game:move"

module _ (r : RapidJson) where
  unfoldable pub serialize_move_request : MoveRequest → r.Wire
  serialize_move_request m = r.output (
      start_object
      ∷ write_string (text "type")
      ∷ write_string move_request_type
      ∷ write_string (text "x")
      ∷ write_uint m.x
      ∷ write_string (text "y")
      ∷ write_uint m.y
      ∷ end_object
      ∷ [])

  unfoldable pub deserialize_move_request : r.Value → Read MoveRequest
  deserialize_move_request d = do
    _ ← check_members r d (text "x" ∷ text "y" ∷ [])
    _ ← check_type r d move_request_type
    x ← uint_at r d (text "x")
    y ← uint_at r d (text "y")
    got (record { x = x; y = y })

pub record MessageRequest : Type 0 where
  pub content : Text

abbrev pub message_request_type : Text
message_request_type = text "Chat:send"

module _ (r : RapidJson) where
  unfoldable pub serialize_message_request : MessageRequest → r.Wire
  serialize_message_request m = r.output (
      start_object
      ∷ write_string (text "type")
      ∷ write_string message_request_type
      ∷ write_string (text "content")
      ∷ write_string m.content
      ∷ end_object
      ∷ [])

  unfoldable pub deserialize_message_request : r.Value → Read MessageRequest
  deserialize_message_request d = do
    _ ← check_members r d (text "type" ∷ text "content" ∷ [])
    _ ← check_type r d message_request_type
    content ← string_at r d (text "content")
    got (record { content = content })

pub record MessageResponse : Type 0 where
  pub user : Text
  pub content : Text
  pub source : Text
  pub unix_timestamp : ℕ

abbrev pub message_response_type : Text
message_response_type = text "Chat:receive"

module _ (r : RapidJson) where
  unfoldable pub serialize_message_response : MessageResponse → r.Wire
  serialize_message_response m = r.output (
      start_object
      ∷ write_string (text "type")
      ∷ write_string message_response_type
      ∷ write_string (text "user")
      ∷ write_string m.user
      ∷ write_string (text "content")
      ∷ write_string m.content
      ∷ write_string (text "source")
      ∷ write_string m.source
      ∷ write_string (text "unix_timestamp")
      ∷ write_uint m.unix_timestamp
      ∷ end_object
      ∷ [])

  unfoldable pub deserialize_message_response : r.Value → Read MessageResponse
  deserialize_message_response d = do
    _ ←
        check_members r d
          (text "type" ∷ text "user" ∷ text "content" ∷ text "source" ∷ text "unix_timestamp" ∷ [])
    _ ← check_type r d message_response_type
    user ← string_at r d (text "user")
    content ← string_at r d (text "content")
    source ← string_at r d (text "source")
    unix_timestamp ← uint64_at r d (text "unix_timestamp")
    got (record {
      user = user;
      content = content;
      source = source;
      unix_timestamp = unix_timestamp;
    })

pub record SetMotdRequest : Type 0 where
  pub motd : Text

abbrev pub set_motd_request_type : Text
set_motd_request_type = text "Moderator:motd"

module _ (r : RapidJson) where
  unfoldable pub serialize_set_motd_request : SetMotdRequest → r.Wire
  serialize_set_motd_request m = r.output (
      start_object
      ∷ write_string (text "type")
      ∷ write_string set_motd_request_type
      ∷ write_string (text "motd")
      ∷ write_string m.motd
      ∷ end_object
      ∷ [])

  unfoldable pub deserialize_set_motd_request : r.Value → Read SetMotdRequest
  deserialize_set_motd_request d = do
    _ ← check_members r d (text "type" ∷ text "motd" ∷ [])
    _ ← check_type r d set_motd_request_type
    motd ← string_at r d (text "motd")
    got (record { motd = motd })

pub record UpdateMotdResponse : Type 0 where
  pub motd : Text

abbrev pub update_motd_response_type : Text
update_motd_response_type = text "Moderator:update_motd"

module _ (r : RapidJson) where
  unfoldable pub serialize_update_motd_response : UpdateMotdResponse → r.Wire
  serialize_update_motd_response m = r.output (
      start_object
      ∷ write_string (text "type")
      ∷ write_string update_motd_response_type
      ∷ write_string (text "motd")
      ∷ write_string m.motd
      ∷ end_object
      ∷ [])

  unfoldable pub deserialize_update_motd_response : r.Value → Read UpdateMotdResponse
  deserialize_update_motd_response d = do
    _ ← check_members r d (text "type" ∷ text "motd" ∷ [])
    _ ← check_type r d update_motd_response_type
    motd ← string_at r d (text "motd")
    got (record { motd = motd })
