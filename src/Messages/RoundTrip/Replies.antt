-- ===== src/Messages/RoundTrip/Replies.antt =====
-- A client or server that reads what `serialize` wrote gets the same message.
use core_cpp_archive.Messages.Replies.{
  GenericErrorResponse, GenericOkResponse, UserEnteredGameResponse, UserLeftGameResponse,
  UserLeftResponse, deserialize_generic_error_response, deserialize_generic_ok_response,
  deserialize_user_entered_game_response, deserialize_user_left_game_response,
  deserialize_user_left_response, generic_error_response_type, generic_ok_response_type,
  serialize_generic_error_response, serialize_generic_ok_response,
  serialize_user_entered_game_response, serialize_user_left_game_response,
  serialize_user_left_response, user_entered_game_response_type, user_left_game_response_type,
  user_left_response_type,
}
use core_cpp_archive.Prelude.{bytes_beq, refl, text, ◌≡◌}
use core_cpp_archive.Rapidjson.{
  IsCString, IsDocumented, Members, RapidJson, bool_at-value, boolean, c_str, check_members-value,
  check_type-value, got, member, no_members, object, string, string_at-value,
}

unfoldable pub generic_error_response_members : GenericErrorResponse → Members
generic_error_response_members m = member (text "type") (string generic_error_response_type) (
    member (text "error") (string m.error) (
      member (text "prettyErrorName") (string m.pretty_error_name) (
        member (text "prettyErrorDesc") (string m.pretty_error_description)
          (member (text "clearLoginData") (boolean m.clear_login_data) no_members))))

unfoldable pub generic_ok_response_members : GenericOkResponse → Members
generic_ok_response_members m =
    member (text "type") (string generic_ok_response_type)
      (member (text "message") (string m.message) no_members)

unfoldable pub user_entered_game_response_members : UserEnteredGameResponse → Members
user_entered_game_response_members m =
    member (text "type") (string user_entered_game_response_type)
      (member (text "username") (string m.username) no_members)

unfoldable pub user_left_game_response_members : UserLeftGameResponse → Members
user_left_game_response_members m =
    member (text "type") (string user_left_game_response_type)
      (member (text "username") (string m.username) no_members)

unfoldable pub user_left_response_members : UserLeftResponse → Members
user_left_response_members m =
    member (text "type") (string user_left_response_type)
      (member (text "username") (string m.username) no_members)

module _ (r : RapidJson) (doc : IsDocumented r) where
  -- An error answer without bytes 0 in its texts is read back whole.
  pub generic_error_response_roundtrip :
      (m : GenericErrorResponse)
      → IsCString m.error
      → IsCString m.pretty_error_name
      → IsCString m.pretty_error_description
      → deserialize_generic_error_response r (r.parse (serialize_generic_error_response r m))
        ≡ got m
  unfolding serialize_generic_error_response deserialize_generic_error_response
      generic_error_response_members text bytes_beq c_str
  generic_error_response_roundtrip m h0 h1 h2 =
      let ms = generic_error_response_members m in
      rw (
        doc.parse_output (object ms),
        check_members-value r doc ms _,
        check_type-value r doc ms generic_error_response_type refl refl,
        string_at-value r doc ms (text "error") m.error refl h0,
        string_at-value r doc ms (text "prettyErrorName") m.pretty_error_name refl h1,
        string_at-value r doc ms (text "prettyErrorDesc") m.pretty_error_description refl h2,
        bool_at-value r doc ms (text "clearLoginData") m.clear_login_data refl,
      )

  pub generic_ok_response_roundtrip :
      (m : GenericOkResponse)
      → IsCString m.message
      → deserialize_generic_ok_response r (r.parse (serialize_generic_ok_response r m)) ≡ got m
  unfolding serialize_generic_ok_response deserialize_generic_ok_response
      generic_ok_response_members text bytes_beq c_str
  generic_ok_response_roundtrip m h0 =
      let ms = generic_ok_response_members m in
      rw (
        doc.parse_output (object ms),
        check_members-value r doc ms _,
        check_type-value r doc ms generic_ok_response_type refl refl,
        string_at-value r doc ms (text "message") m.message refl h0,
      )

  pub user_entered_game_response_roundtrip :
      (m : UserEnteredGameResponse)
      → IsCString m.username
      → deserialize_user_entered_game_response r
          (r.parse (serialize_user_entered_game_response r m))
        ≡ got m
  unfolding serialize_user_entered_game_response deserialize_user_entered_game_response
      user_entered_game_response_members text bytes_beq c_str
  user_entered_game_response_roundtrip m h0 =
      let ms = user_entered_game_response_members m in
      rw (
        doc.parse_output (object ms),
        check_members-value r doc ms _,
        check_type-value r doc ms user_entered_game_response_type refl refl,
        string_at-value r doc ms (text "username") m.username refl h0,
      )

  pub user_left_game_response_roundtrip :
      (m : UserLeftGameResponse)
      → IsCString m.username
      → deserialize_user_left_game_response r (r.parse (serialize_user_left_game_response r m))
        ≡ got m
  unfolding serialize_user_left_game_response deserialize_user_left_game_response
      user_left_game_response_members text bytes_beq c_str
  user_left_game_response_roundtrip m h0 =
      let ms = user_left_game_response_members m in
      rw (
        doc.parse_output (object ms),
        check_members-value r doc ms _,
        check_type-value r doc ms user_left_game_response_type refl refl,
        string_at-value r doc ms (text "username") m.username refl h0,
      )

  pub user_left_response_roundtrip :
      (m : UserLeftResponse)
      → IsCString m.username
      → deserialize_user_left_response r (r.parse (serialize_user_left_response r m)) ≡ got m
  unfolding serialize_user_left_response deserialize_user_left_response user_left_response_members
      text bytes_beq c_str
  user_left_response_roundtrip m h0 =
      let ms = user_left_response_members m in
      rw (
        doc.parse_output (object ms),
        check_members-value r doc ms _,
        check_type-value r doc ms user_left_response_type refl refl,
        string_at-value r doc ms (text "username") m.username refl h0,
      )
