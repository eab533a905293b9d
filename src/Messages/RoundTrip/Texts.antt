-- ===== src/Messages/RoundTrip/Texts.antt =====
-- The messages with one text or one slot, together, and what the readers of requests refuse.
use core_cpp_archive.Messages.Account.{
  delete_character_request_type, deserialize_delete_character_request, deserialize_login_request,
  deserialize_play_character_request, login_request_type, play_character_request_type,
  serialize_delete_character_request, serialize_play_character_request,
}
use core_cpp_archive.Messages.Play.{
  deserialize_message_request, deserialize_move_request, deserialize_set_motd_request,
  deserialize_update_motd_response, serialize_message_request, serialize_set_motd_request,
  serialize_update_motd_response,
}
use core_cpp_archive.Messages.Replies.{
  deserialize_generic_ok_response, deserialize_user_entered_game_response,
  deserialize_user_left_game_response, deserialize_user_left_response,
  serialize_generic_ok_response, serialize_user_entered_game_response,
  serialize_user_left_game_response, serialize_user_left_response,
}
use core_cpp_archive.Messages.RoundTrip.Account.{
  delete_character_request_members, delete_character_request_roundtrip,
  play_character_request_members, play_character_request_roundtrip,
}
use core_cpp_archive.Messages.RoundTrip.Play.{
  message_request_roundtrip, set_motd_request_roundtrip, update_motd_response_roundtrip,
}
use core_cpp_archive.Messages.RoundTrip.Replies.{
  generic_ok_response_roundtrip, user_entered_game_response_roundtrip,
  user_left_game_response_roundtrip, user_left_response_roundtrip,
}
use core_cpp_archive.Prelude.{
  Text, [], bytes_beq, bytes_eq, false, int_eq, loc_eq, nat_eq, none, refl, some, text, true, ℕ, ℤ,
  ◌<◌, ◌==◌, ◌^◌, ◌∷◌, ◌≡◌,
}
use core_cpp_archive.Rapidjson.{
  IsCString, IsDocumented, Members, RapidJson, at-value, c_str, check_members-value, check_type,
  check_type-other, check_type-value, demand, find_member, got, has_all, nullopt, numeric, object,
  string, string_at, undefined,
}
use core_cpp_archive.Samples.{small}

module _ (r : RapidJson) (doc : IsDocumented r) where
  delete_request-play :
      (n : ℕ)
      → deserialize_delete_character_request r
          (r.parse (serialize_play_character_request r (record { slot = n })))
        ≡ nullopt
  unfolding serialize_play_character_request deserialize_delete_character_request
      play_character_request_members text bytes_beq c_str
  delete_request-play n =
      let ms = play_character_request_members (record { slot = n }) in
      rw (
        doc.parse_output (object ms),
        check_members-value r doc ms _,
        check_type-other r doc ms delete_character_request_type play_character_request_type refl
            refl,
      )

  play_request-delete :
      (n : ℕ)
      → deserialize_play_character_request r
          (r.parse (serialize_delete_character_request r (record { slot = n })))
        ≡ nullopt
  unfolding serialize_delete_character_request deserialize_play_character_request
      delete_character_request_members text bytes_beq c_str
  play_request-delete n =
      let ms = delete_character_request_members (record { slot = n }) in
      rw (
        doc.parse_output (object ms),
        check_members-value r doc ms _,
        check_type-other r doc ms play_character_request_type delete_character_request_type refl
            refl,
      )

module _ (r : RapidJson) (doc : IsDocumented r) where
  -- Each of the seven messages that carry one text without bytes 0 is read back as it was written.
  pub text_messages_roundtrip :
      (s : Text)
      → IsCString s
      → (deserialize_message_request r
            (r.parse (serialize_message_request r (record { content = s })))
          ≡ got (record { content = s }))
        × (deserialize_set_motd_request r
              (r.parse (serialize_set_motd_request r (record { motd = s })))
            ≡ got (record { motd = s }))
        × (deserialize_update_motd_response r
              (r.parse (serialize_update_motd_response r (record { motd = s })))
            ≡ got (record { motd = s }))
        × (deserialize_generic_ok_response r
              (r.parse (serialize_generic_ok_response r (record { message = s })))
            ≡ got (record { message = s }))
        × (deserialize_user_entered_game_response r
              (r.parse (serialize_user_entered_game_response r (record { username = s })))
            ≡ got (record { username = s }))
        × (deserialize_user_left_game_response r
              (r.parse (serialize_user_left_game_response r (record { username = s })))
            ≡ got (record { username = s }))
        × (deserialize_user_left_response r
              (r.parse (serialize_user_left_response r (record { username = s })))
            ≡ got (record { username = s }))
  text_messages_roundtrip s clean = (
    message_request_roundtrip r doc _ clean,
    set_motd_request_roundtrip r doc _ clean,
    update_motd_response_roundtrip r doc _ clean,
    generic_ok_response_roundtrip r doc _ clean,
    user_entered_game_response_roundtrip r doc _ clean,
    user_left_game_response_roundtrip r doc _ clean,
    user_left_response_roundtrip r doc _ clean,
  )

  -- The requests to play and to delete the character of a slot that fits 32 bits are read back, and
  -- neither of the two is read as the other.
  pub slot_requests_roundtrip :
      (n : ℕ)
      → n < 2 ^ 32
      → (deserialize_play_character_request r
            (r.parse (serialize_play_character_request r (record { slot = n })))
          ≡ got (record { slot = n }))
        × (deserialize_delete_character_request r
              (r.parse (serialize_delete_character_request r (record { slot = n })))
            ≡ got (record { slot = n }))
        × (deserialize_delete_character_request r
              (r.parse (serialize_play_character_request r (record { slot = n })))
            ≡ nullopt)
        × (deserialize_play_character_request r
              (r.parse (serialize_delete_character_request r (record { slot = n })))
            ≡ nullopt)
  slot_requests_roundtrip n small = (
    play_character_request_roundtrip r doc _ small,
    delete_character_request_roundtrip r doc _ small,
    delete_request-play r doc n,
    play_request-delete r doc n,
  )

  -- A document that has the members of a login request, but says the type of another message, is
  -- refused.
  pub login_request-other :
      (ms : Members) (t : Text)
      → has_all (text "type" ∷ text "username" ∷ text "password" ∷ []) ms ≡ true
      → find_member (text "type") ms ≡ some (string t)
      → (c_str t == login_request_type) ≡ false
      → deserialize_login_request r (doc.value (object ms)) ≡ nullopt
  unfolding deserialize_login_request
  login_request-other ms t all e other =
      rw (
        check_members-value r doc ms _,
        all,
        check_type-other r doc ms login_request_type t e other,
      )

  -- A login request whose user name is a number passes the checks, and then an assertion of the
  -- library fails: the getter wants a string.
  pub login_request-undefined :
      (ms : Members) (z : ℤ)
      → has_all (text "type" ∷ text "username" ∷ text "password" ∷ []) ms ≡ true
      → find_member (text "type") ms ≡ some (string login_request_type)
      → find_member (text "username") ms ≡ some (numeric z)
      → deserialize_login_request r (doc.value (object ms)) ≡ undefined
  unfolding deserialize_login_request string_at demand text c_str
  login_request-undefined ms z all e name = rw (
    check_members-value r doc ms _,
    all,
    check_type-value r doc ms login_request_type e refl,
    at-value r doc ms (text "username"),
    name,
    doc.get_string_value (numeric z),
  )

  -- A document with both coordinates of a move and no type makes an assertion of the library fail:
  -- the reader looks for the coordinates only, and then takes the type.
  pub move_request-undefined :
      (ms : Members)
      → has_all (text "x" ∷ text "y" ∷ []) ms ≡ true
      → find_member (text "type") ms ≡ none
      → deserialize_move_request r (doc.value (object ms)) ≡ undefined
  unfolding deserialize_move_request check_type string_at demand
  move_request-undefined ms all e =
      rw (check_members-value r doc ms _, all, at-value r doc ms (text "type"), e)
