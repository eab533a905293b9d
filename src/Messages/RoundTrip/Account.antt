-- ===== src/Messages/RoundTrip/Account.antt =====
-- A client or server that reads what `serialize` wrote gets the same message.
use core_cpp_archive.Messages.Account.{
  CharacterSelectRequest, CreateCharacterRequest, DeleteCharacterRequest, LoginRequest,
  PlayCharacterRequest, RegisterRequest, character_select_request_type,
  create_character_request_type, delete_character_request_type,
  deserialize_character_select_request, deserialize_create_character_request,
  deserialize_delete_character_request, deserialize_login_request,
  deserialize_play_character_request, deserialize_register_request, login_request_type,
  play_character_request_type, register_request_type, serialize_character_select_request,
  serialize_create_character_request, serialize_delete_character_request, serialize_login_request,
  serialize_play_character_request, serialize_register_request,
}
use core_cpp_archive.Prelude.{bytes_beq, refl, text, ℤ, ◌<◌, ◌^◌, ◌≡◌}
use core_cpp_archive.Rapidjson.{
  IsCString, IsDocumented, Members, RapidJson, c_str, check_members-value, check_type-value, got,
  member, no_members, numeric, object, string, string_at-value, uint_at-value,
}

unfoldable pub login_request_members : LoginRequest → Members
login_request_members m = member (text "type") (string login_request_type) (
    member (text "username") (string m.username)
      (member (text "password") (string m.password) no_members))

unfoldable pub register_request_members : RegisterRequest → Members
register_request_members m = member (text "type") (string register_request_type) (
    member (text "username") (string m.username) (
      member (text "password") (string m.password)
        (member (text "email") (string m.email) no_members)))

unfoldable pub character_select_request_members : CharacterSelectRequest → Members
character_select_request_members m =
    member (text "type") (string character_select_request_type) no_members

unfoldable pub create_character_request_members : CreateCharacterRequest → Members
create_character_request_members m = member (text "type") (string create_character_request_type) (
    member (text "slot") (numeric (ℤ.pos m.slot)) (
      member (text "name") (string m.name) (
        member (text "gender") (string m.gender) (
          member (text "allegiance") (string m.allegiance)
            (member (text "baseclass") (string m.baseclass) no_members)))))

unfoldable pub play_character_request_members : PlayCharacterRequest → Members
play_character_request_members m =
    member (text "type") (string play_character_request_type)
      (member (text "slot") (numeric (ℤ.pos m.slot)) no_members)

unfoldable pub delete_character_request_members : DeleteCharacterRequest → Members
delete_character_request_members m =
    member (text "type") (string delete_character_request_type)
      (member (text "slot") (numeric (ℤ.pos m.slot)) no_members)

module _ (r : RapidJson) (doc : IsDocumented r) where
  pub login_request_roundtrip :
      (m : LoginRequest)
      → IsCString m.username
      → IsCString m.password
      → deserialize_login_request r (r.parse (serialize_login_request r m)) ≡ got m
  unfolding serialize_login_request deserialize_login_request login_request_members text bytes_beq
      c_str
  login_request_roundtrip m h0 h1 =
      let ms = login_request_members m in
      rw (
        doc.parse_output (object ms),
        check_members-value r doc ms _,
        check_type-value r doc ms login_request_type refl refl,
        string_at-value r doc ms (text "username") m.username refl h0,
        string_at-value r doc ms (text "password") m.password refl h1,
      )

  -- A registration without bytes 0 in its texts is read back whole.
  pub register_request_roundtrip :
      (m : RegisterRequest)
      → IsCString m.username
      → IsCString m.password
      → IsCString m.email
      → deserialize_register_request r (r.parse (serialize_register_request r m)) ≡ got m
  unfolding serialize_register_request deserialize_register_request register_request_members text
      bytes_beq c_str
  register_request_roundtrip m h0 h1 h2 =
      let ms = register_request_members m in
      rw (
        doc.parse_output (object ms),
        check_members-value r doc ms _,
        check_type-value r doc ms register_request_type refl refl,
        string_at-value r doc ms (text "username") m.username refl h0,
        string_at-value r doc ms (text "password") m.password refl h1,
        string_at-value r doc ms (text "email") m.email refl h2,
      )

  pub character_select_request_roundtrip :
      (m : CharacterSelectRequest)
      → deserialize_character_select_request r (r.parse (serialize_character_select_request r m))
        ≡ got m
  unfolding serialize_character_select_request deserialize_character_select_request
      character_select_request_members text bytes_beq c_str
  character_select_request_roundtrip m =
      let ms = character_select_request_members m in
      rw (
        doc.parse_output (object ms),
        check_members-value r doc ms _,
        check_type-value r doc ms character_select_request_type refl refl,
      )

  -- A request for a new character is read back whole if its texts have no bytes 0 and its slot fits
  -- 32 bits.
  pub create_character_request_roundtrip :
      (m : CreateCharacterRequest)
      → m.slot < 2 ^ 32
      → IsCString m.name
      → IsCString m.gender
      → IsCString m.allegiance
      → IsCString m.baseclass
      → deserialize_create_character_request r (r.parse (serialize_create_character_request r m))
        ≡ got m
  unfolding serialize_create_character_request deserialize_create_character_request
      create_character_request_members text bytes_beq c_str
  create_character_request_roundtrip m h0 h1 h2 h3 h4 =
      let ms = create_character_request_members m in
      rw (
        doc.parse_output (object ms),
        check_members-value r doc ms _,
        check_type-value r doc ms create_character_request_type refl refl,
        uint_at-value r doc ms (text "slot") m.slot refl h0,
        string_at-value r doc ms (text "name") m.name refl h1,
        string_at-value r doc ms (text "gender") m.gender refl h2,
        string_at-value r doc ms (text "allegiance") m.allegiance refl h3,
        string_at-value r doc ms (text "baseclass") m.baseclass refl h4,
      )

  pub play_character_request_roundtrip :
      (m : PlayCharacterRequest)
      → m.slot < 2 ^ 32
      → deserialize_play_character_request r (r.parse (serialize_play_character_request r m))
        ≡ got m
  unfolding serialize_play_character_request deserialize_play_character_request
      play_character_request_members text bytes_beq c_str
  play_character_request_roundtrip m h0 =
      let ms = play_character_request_members m in
      rw (
        doc.parse_output (object ms),
        check_members-value r doc ms _,
        check_type-value r doc ms play_character_request_type refl refl,
        uint_at-value r doc ms (text "slot") m.slot refl h0,
      )

  pub delete_character_request_roundtrip :
      (m : DeleteCharacterRequest)
      → m.slot < 2 ^ 32
      → deserialize_delete_character_request r (r.parse (serialize_delete_character_request r m))
        ≡ got m
  unfolding serialize_delete_character_request deserialize_delete_character_request
      delete_character_request_members text bytes_beq c_str
  delete_character_request_roundtrip m h0 =
      let ms = delete_character_request_members m in
      rw (
        doc.parse_output (object ms),
        check_members-value r doc ms _,
        check_type-value r doc ms delete_character_request_type refl refl,
        uint_at-value r doc ms (text "slot") m.slot refl h0,
      )
