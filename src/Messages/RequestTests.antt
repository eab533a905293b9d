-- ===== src/Messages/RequestTests.antt =====
-- Examples of requests that are written and read with the small library of `Rapidjson.Decoder`.
use core_cpp_archive.Messages.Account.{
  CreateCharacterRequest, RegisterRequest, deserialize_create_character_request,
  deserialize_delete_character_request, deserialize_login_request,
  deserialize_play_character_request, deserialize_register_request, login_request_type,
  serialize_create_character_request, serialize_delete_character_request,
  serialize_play_character_request, serialize_register_request,
}
use core_cpp_archive.Messages.Play.{
  MessageResponse, deserialize_message_request, deserialize_message_response,
  deserialize_move_request, deserialize_set_motd_request, deserialize_update_motd_response,
  serialize_message_request, serialize_message_response, serialize_set_motd_request,
  serialize_update_motd_response,
}
use core_cpp_archive.Messages.Replies.{
  GenericErrorResponse, deserialize_generic_error_response, deserialize_generic_ok_response,
  deserialize_user_entered_game_response, deserialize_user_left_game_response,
  deserialize_user_left_response, serialize_generic_error_response, serialize_generic_ok_response,
  serialize_user_entered_game_response, serialize_user_left_game_response,
  serialize_user_left_response,
}
use core_cpp_archive.Messages.RoundTrip.Account.{
  create_character_request_roundtrip, register_request_roundtrip,
}
use core_cpp_archive.Messages.RoundTrip.Play.{message_response_roundtrip}
use core_cpp_archive.Messages.RoundTrip.Replies.{generic_error_response_roundtrip}
use core_cpp_archive.Messages.RoundTrip.Texts.{
  login_request-undefined, move_request-undefined, slot_requests_roundtrip, text_messages_roundtrip,
}
use core_cpp_archive.Prelude.{arith, bytes_beq, refl, text, true, ℤ, ◌≡◌}
use core_cpp_archive.Rapidjson.{
  Members, c_str, got, member, no_members, nullopt, numeric, object, string, undefined,
}
use core_cpp_archive.Rapidjson.Decoder.{call_list, call_list-IsDocumented}

abbrev request : CreateCharacterRequest
request = record {
  slot = 2;
  name = text "Ann";
  gender = text "female";
  allegiance = text "Underground";
  baseclass = text "Thief";
}

abbrev registration : RegisterRequest
registration = record {
  username = text "ann";
  password = text "secret";
  email = text "ann@example.org";
}

abbrev chat : MessageResponse
chat = record {
  user = text "ann";
  content = text "hello";
  source = text "Lobby";
  unix_timestamp = 1575000000;
}

abbrev refusal : GenericErrorResponse
refusal = record {
  error = text "Unknown";
  pretty_error_name = text "Unknown";
  pretty_error_description = text "Unknown";
  clear_login_data = true;
}

create_character_request_roundtrip_example :
    deserialize_create_character_request call_list
      (call_list.parse (serialize_create_character_request call_list request))
    ≡ got request
unfolding text c_str
create_character_request_roundtrip_example =
    create_character_request_roundtrip call_list call_list-IsDocumented request (omega arith) refl
      refl refl refl

register_request_roundtrip_example :
    deserialize_register_request call_list
      (call_list.parse (serialize_register_request call_list registration))
    ≡ got registration
unfolding text c_str
register_request_roundtrip_example =
    register_request_roundtrip call_list call_list-IsDocumented registration refl refl refl

message_response_roundtrip_example :
    deserialize_message_response call_list
      (call_list.parse (serialize_message_response call_list chat))
    ≡ got chat
unfolding text c_str
message_response_roundtrip_example =
    message_response_roundtrip call_list call_list-IsDocumented chat refl refl refl (omega arith)

generic_error_response_roundtrip_example :
    deserialize_generic_error_response call_list
      (call_list.parse (serialize_generic_error_response call_list refusal))
    ≡ got refusal
unfolding text c_str
generic_error_response_roundtrip_example =
    generic_error_response_roundtrip call_list call_list-IsDocumented refusal refl refl refl

text_messages_roundtrip_example :
    (deserialize_message_request call_list
        (call_list.parse (serialize_message_request call_list (record { content = text "hi" })))
      ≡ got (record { content = text "hi" }))
    × (deserialize_set_motd_request call_list
          (call_list.parse (serialize_set_motd_request call_list (record { motd = text "hi" })))
        ≡ got (record { motd = text "hi" }))
    × (deserialize_update_motd_response call_list
          (call_list.parse (serialize_update_motd_response call_list (record { motd = text "hi" })))
        ≡ got (record { motd = text "hi" }))
    × (deserialize_generic_ok_response call_list (
          call_list.parse
            (serialize_generic_ok_response call_list (record { message = text "hi" })))
        ≡ got (record { message = text "hi" }))
    × (deserialize_user_entered_game_response call_list (
          call_list.parse
            (serialize_user_entered_game_response call_list (record { username = text "hi" })))
        ≡ got (record { username = text "hi" }))
    × (deserialize_user_left_game_response call_list (
          call_list.parse
            (serialize_user_left_game_response call_list (record { username = text "hi" })))
        ≡ got (record { username = text "hi" }))
    × (deserialize_user_left_response call_list (
          call_list.parse
            (serialize_user_left_response call_list (record { username = text "hi" })))
        ≡ got (record { username = text "hi" }))
unfolding text c_str
text_messages_roundtrip_example =
    text_messages_roundtrip call_list call_list-IsDocumented (text "hi") refl

slot_requests_roundtrip_example :
    (deserialize_play_character_request call_list
        (call_list.parse (serialize_play_character_request call_list (record { slot = 3 })))
      ≡ got (record { slot = 3 }))
    × (deserialize_delete_character_request call_list
          (call_list.parse (serialize_delete_character_request call_list (record { slot = 3 })))
        ≡ got (record { slot = 3 }))
    × (deserialize_delete_character_request call_list
          (call_list.parse (serialize_play_character_request call_list (record { slot = 3 })))
        ≡ nullopt)
    × (deserialize_play_character_request call_list
          (call_list.parse (serialize_delete_character_request call_list (record { slot = 3 })))
        ≡ nullopt)
slot_requests_roundtrip_example =
    slot_requests_roundtrip call_list call_list-IsDocumented 3 (omega arith)

-- { "type": "Auth:login", "username": 5, "password": 5 }
abbrev number_name : Members
number_name = member (text "type") (string login_request_type) (
    member (text "username") (numeric (ℤ.pos 5))
      (member (text "password") (numeric (ℤ.pos 5)) no_members))

login_request-undefined_example :
    deserialize_login_request call_list (call_list-IsDocumented.value (object number_name))
    ≡ undefined
unfolding text bytes_beq
login_request-undefined_example =
    login_request-undefined call_list call_list-IsDocumented number_name (ℤ.pos 5) refl refl refl

-- { "x": 1, "y": 2 }
abbrev untyped_move : Members
untyped_move =
    member (text "x") (numeric (ℤ.pos 1)) (member (text "y") (numeric (ℤ.pos 2)) no_members)

move_request-undefined_example :
    deserialize_move_request call_list (call_list-IsDocumented.value (object untyped_move))
    ≡ undefined
unfolding text bytes_beq
move_request-undefined_example =
    move_request-undefined call_list call_list-IsDocumented untyped_move refl refl
