-- ===== src/Messages/RoundTrip/Play.antt =====
-- A client or server that reads what `serialize` wrote gets the same message.
use core_cpp_archive.Messages.Play.{
  MessageRequest, MessageResponse, MoveRequest, SetMotdRequest, UpdateMotdResponse,
  deserialize_message_request, deserialize_message_response, deserialize_move_request,
  deserialize_set_motd_request, deserialize_update_motd_response, message_request_type,
  message_response_type, move_request_type, serialize_message_request, serialize_message_response,
  serialize_move_request, serialize_set_motd_request, serialize_update_motd_response,
  set_motd_request_type, update_motd_response_type,
}
use core_cpp_archive.Prelude.{bytes_beq, refl, text, ℤ, ◌<◌, ◌^◌, ◌≡◌}
use core_cpp_archive.Rapidjson.{
  IsCString, IsDocumented, Members, RapidJson, c_str, check_members-value, check_type-value, got,
  member, no_members, numeric, object, string, string_at-value, uint64_at-value, uint_at-value,
}

unfoldable pub move_request_members : MoveRequest → Members
move_request_members m =
    member (text "type") (string move_request_type)
      (member (text "x") (numeric (ℤ.pos m.x)) (member (text "y") (numeric (ℤ.pos m.y)) no_members))

unfoldable pub message_request_members : MessageRequest → Members
message_request_members m =
    member (text "type") (string message_request_type)
      (member (text "content") (string m.content) no_members)

unfoldable pub message_response_members : MessageResponse → Members
message_response_members m = member (text "type") (string message_response_type) (
    member (text "user") (string m.user) (
      member (text "content") (string m.content) (
        member (text "source") (string m.source)
          (member (text "unix_timestamp") (numeric (ℤ.pos m.unix_timestamp)) no_members))))

unfoldable pub set_motd_request_members : SetMotdRequest → Members
set_motd_request_members m =
    member (text "type") (string set_motd_request_type)
      (member (text "motd") (string m.motd) no_members)

unfoldable pub update_motd_response_members : UpdateMotdResponse → Members
update_motd_response_members m =
    member (text "type") (string update_motd_response_type)
      (member (text "motd") (string m.motd) no_members)

module _ (r : RapidJson) (doc : IsDocumented r) where
  pub move_request_roundtrip :
      (m : MoveRequest)
      → m.x < 2 ^ 32
      → m.y < 2 ^ 32
      → deserialize_move_request r (r.parse (serialize_move_request r m)) ≡ got m
  unfolding serialize_move_request deserialize_move_request move_request_members text bytes_beq
      c_str
  move_request_roundtrip m h0 h1 =
      let ms = move_request_members m in
      rw (
        doc.parse_output (object ms),
        check_members-value r doc ms _,
        check_type-value r doc ms move_request_type refl refl,
        uint_at-value r doc ms (text "x") m.x refl h0,
        uint_at-value r doc ms (text "y") m.y refl h1,
      )

  pub message_request_roundtrip :
      (m : MessageRequest)
      → IsCString m.content
      → deserialize_message_request r (r.parse (serialize_message_request r m)) ≡ got m
  unfolding serialize_message_request deserialize_message_request message_request_members text
      bytes_beq c_str
  message_request_roundtrip m h0 =
      let ms = message_request_members m in
      rw (
        doc.parse_output (object ms),
        check_members-value r doc ms _,
        check_type-value r doc ms message_request_type refl refl,
        string_at-value r doc ms (text "content") m.content refl h0,
      )

  -- A chat message is read back whole if its texts have no bytes 0 and its time fits 64 bits.
  pub message_response_roundtrip :
      (m : MessageResponse)
      → IsCString m.user
      → IsCString m.content
      → IsCString m.source
      → m.unix_timestamp < 2 ^ 64
      → deserialize_message_response r (r.parse (serialize_message_response r m)) ≡ got m
  unfolding serialize_message_response deserialize_message_response message_response_members text
      bytes_beq c_str
  message_response_roundtrip m h0 h1 h2 h3 =
      let ms = message_response_members m in
      rw (
        doc.parse_output (object ms),
        check_members-value r doc ms _,
        check_type-value r doc ms message_response_type refl refl,
        string_at-value r doc ms (text "user") m.user refl h0,
        string_at-value r doc ms (text "content") m.content refl h1,
        string_at-value r doc ms (text "source") m.source refl h2,
        uint64_at-value r doc ms (text "unix_timestamp") m.unix_timestamp refl h3,
      )

  pub set_motd_request_roundtrip :
      (m : SetMotdRequest)
      → IsCString m.motd
      → deserialize_set_motd_request r (r.parse (serialize_set_motd_request r m)) ≡ got m
  unfolding serialize_set_motd_request deserialize_set_motd_request set_motd_request_members text
      bytes_beq c_str
  set_motd_request_roundtrip m h0 =
      let ms = set_motd_request_members m in
      rw (
        doc.parse_output (object ms),
        check_members-value r doc ms _,
        check_type-value r doc ms set_motd_request_type refl refl,
        string_at-value r doc ms (text "motd") m.motd refl h0,
      )

  pub update_motd_response_roundtrip :
      (m : UpdateMotdResponse)
      → IsCString m.motd
      → deserialize_update_motd_response r (r.parse (serialize_update_motd_response r m)) ≡ got m
  unfolding serialize_update_motd_response deserialize_update_motd_response
      update_motd_response_members text bytes_beq c_str
  update_motd_response_roundtrip m h0 =
      let ms = update_motd_response_members m in
      rw (
        doc.parse_output (object ms),
        check_members-value r doc ms _,
        check_type-value r doc ms update_motd_response_type refl refl,
        string_at-value r doc ms (text "motd") m.motd refl h0,
      )
