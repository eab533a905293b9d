-- ===== src/Messages/RoundTrip/Presence.antt =====
-- The messages that show accounts and characters are read back whole.
use core_cpp_archive.Messages.Objects.{write_account_object, write_character_object}
use core_cpp_archive.Messages.Presence.{
  CreateCharacterResponse, LoginResponse, UserJoinedResponse, create_character_response_type,
  deserialize_create_character_response, deserialize_login_response,
  deserialize_user_joined_response, login_response_type, serialize_create_character_response,
  serialize_login_response, serialize_user_joined_response, user_joined_response_type,
}
use core_cpp_archive.Messages.RoundTrip.Documents.{
  account_members, character_members, objects_of, write_account_lem, write_character_lem,
  write_objects_lem,
}
use core_cpp_archive.Messages.RoundTrip.Fits.{AccountFits, CharacterFits, typed-HasCharacter}
use core_cpp_archive.Messages.RoundTrip.Objects.{
  read_accounts-value, read_character-value, read_characters-value,
}
use core_cpp_archive.Prelude.{All, [], bytes_beq, refl, text, ◌∷◌, ◌≡◌}
use core_cpp_archive.Rapidjson.{
  IsCString, IsDocumented, Members, RapidJson, array_at-value, bool_at-value, c_str,
  check_members-value, check_type-value, demand, end_array, end_object, events, got, member,
  no_members, object, string, string_at-value, uint64_at-value, uint_at-value,
}

unfoldable pub user_joined_response_members : UserJoinedResponse → Members
user_joined_response_members m =
    member (text "type") (string user_joined_response_type) (account_members m.user no_members)

unfoldable pub create_character_response_members : CreateCharacterResponse → Members
create_character_response_members m =
    member (text "type") (string create_character_response_type) (character_members m.character)

unfoldable pub login_response_members : LoginResponse → Members
login_response_members m = member (text "type") (string login_response_type) (
    member (text "username") (string m.username) (
      member (text "email") (string m.email) (
        member (text "motd") (string m.motd) (
          member (text "players") (objects_of character_members m.players) (
            member (text "online_users")
              (objects_of (λ o. account_members o no_members) m.online_users) no_members)))))

module _ (r : RapidJson) (doc : IsDocumented r) where
  pub user_joined_response_roundtrip :
      (m : UserJoinedResponse)
      → AccountFits m.user
      → deserialize_user_joined_response r (r.parse (serialize_user_joined_response r m)) ≡ got m
  unfolding serialize_user_joined_response deserialize_user_joined_response
      user_joined_response_members write_account_object account_members text bytes_beq c_str
  user_joined_response_roundtrip m fits =
      let ms = user_joined_response_members m in
      let o = m.user in
      rw (
        doc.parse_output (object ms),
        check_members-value r doc ms _,
        check_type-value r doc ms user_joined_response_type refl refl,
        bool_at-value r doc ms (text "is_game_master") o.is_game_master refl,
        bool_at-value r doc ms (text "is_tester") o.is_tester refl,
        bool_at-value r doc ms (text "has_done_trial") o.has_done_trial refl,
        uint64_at-value r doc ms (text "trial_ends_unix_timestamp") o.trial_ends_unix_timestamp refl
            fits.small_trial,
        uint_at-value r doc ms (text "subscription_tier") o.subscription_tier refl fits.small_tier,
        string_at-value r doc ms (text "username") o.username refl fits.clean_name,
      )

  pub serialize_create_character_response_lem :
      (m : CreateCharacterResponse)
      → serialize_create_character_response r m
        ≡ r.output (events (object (create_character_response_members m)) [])
  unfolding serialize_create_character_response create_character_response_members
  serialize_create_character_response_lem m =
      rw (serialize_create_character_response, write_character_lem m.character (end_object ∷ []))

  -- A character whose texts have no bytes 0, whose numbers fit 32 bits and whose stats are not
  -- negative is read back whole.
  pub create_character_response_roundtrip :
      (m : CreateCharacterResponse)
      → CharacterFits m.character
      → deserialize_create_character_response r (r.parse (serialize_create_character_response r m))
        ≡ got m
  unfolding deserialize_create_character_response create_character_response_members text bytes_beq
      c_str demand
  create_character_response_roundtrip m fits =
      let ms = create_character_response_members m in
      rw (
        serialize_create_character_response_lem m,
        doc.parse_output (object ms),
        check_members-value r doc ms _,
        check_type-value r doc ms create_character_response_type refl refl,
        read_character-value r doc ms m.character []
            (typed-HasCharacter create_character_response_type m.character) fits,
      )

  pub serialize_login_response_lem :
      (m : LoginResponse)
      → serialize_login_response r m ≡ r.output (events (object (login_response_members m)) [])
  unfolding serialize_login_response login_response_members
  serialize_login_response_lem m = rw (
    serialize_login_response,
    write_objects_lem write_account_object (λ o. account_members o no_members) write_account_lem
        m.online_users (end_array ∷ end_object ∷ []),
    write_objects_lem write_character_object character_members write_character_lem m.players _,
  )

  -- The answer to a login, with all characters of the account and all accounts that are online, is
  -- read back whole if its texts have no bytes 0, its numbers fit and its stats are not negative.
  pub login_response_roundtrip :
      (m : LoginResponse)
      → All CharacterFits m.players
      → All AccountFits m.online_users
      → IsCString m.username
      → IsCString m.email
      → IsCString m.motd
      → deserialize_login_response r (r.parse (serialize_login_response r m)) ≡ got m
  unfolding deserialize_login_response login_response_members text bytes_beq c_str
  login_response_roundtrip m players users clean_username clean_email clean_motd =
      let ms = login_response_members m in
      rw (
        serialize_login_response_lem m,
        doc.parse_output (object ms),
        check_members-value r doc ms _,
        check_type-value r doc ms login_response_type refl refl,
        array_at-value r doc ms (text "players") _ refl,
        array_at-value r doc ms (text "online_users") _ refl,
        read_accounts-value r doc m.online_users users,
        read_characters-value r doc m.players players,
        string_at-value r doc ms (text "username") m.username refl clean_username,
        string_at-value r doc ms (text "email") m.email refl clean_email,
        string_at-value r doc ms (text "motd") m.motd refl clean_motd,
      )
