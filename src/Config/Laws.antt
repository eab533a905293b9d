-- ===== src/Config/Laws.antt =====
-- A file of settings that a writer has written reads as those settings.
use core_cpp_archive.Config.{Config, parse_env_file, read_config}
use core_cpp_archive.Prelude.{Bool, [], bytes_beq, false, refl, some, text, ℤ, ◌%◌, ◌<◌, ◌^◌, ◌≡◌}
use core_cpp_archive.Rapidjson.{
  IsCString, IsDocumented, Members, RapidJson, bool_at-value, boolean, c_str, check_members-value,
  events, got, member, no_members, numeric, object, string, string_at-value, uint_at-value,
}

unfoldable pub config_members : Config → Members
config_members c = member (text "ADDRESS") (string c.address) (
    member (text "PORT") (numeric (ℤ.pos c.port)) (
      member (text "DEBUG_LEVEL") (string c.debug_level) (
        member (text "CONNECTION_STRING") (string c.connection_string) (
          member (text "TICK_LENGTH") (numeric (ℤ.pos c.tick_length)) (
            member (text "LOG_TICK_TIMES") (boolean c.log_tick_times)
              (member (text "USE_SSL") (boolean c.use_ssl) no_members))))))

abbrev pub config_file : (r : RapidJson) → Config → r.Wire
config_file r c = r.output (events (object (config_members c)) [])

module _ (r : RapidJson) (doc : IsDocumented r) where
  read_config-members :
      (c : Config)
      → c.port < 2 ^ 32
      → c.tick_length < 2 ^ 32
      → IsCString c.address
      → IsCString c.debug_level
      → IsCString c.connection_string
      → read_config r (doc.value (object (config_members c)))
        ≡ got (record c { port = c.port % 2 ^ 16 })
  unfolding read_config config_members text bytes_beq c_str
  read_config-members c h0 h1 h2 h3 h4 =
      let ms = config_members c in
      rw (
        check_members-value r doc ms _,
        string_at-value r doc ms (text "DEBUG_LEVEL") c.debug_level refl h3,
        string_at-value r doc ms (text "ADDRESS") c.address refl h2,
        uint_at-value r doc ms (text "PORT") c.port refl h0,
        string_at-value r doc ms (text "CONNECTION_STRING") c.connection_string refl h4,
        uint_at-value r doc ms (text "TICK_LENGTH") c.tick_length refl h1,
        bool_at-value r doc ms (text "LOG_TICK_TIMES") c.log_tick_times refl,
        bool_at-value r doc ms (text "USE_SSL") c.use_ssl refl,
      )

  -- Settings that were written into the file as JSON, with texts without a byte 0 and numbers of
  -- 32 bits, are read back, except that the port is cut to 16 bits.
  pub parse_env_file_roundtrip :
      (has_parse_error : r.Wire → Bool) (c : Config)
      → c.port < 2 ^ 32
      → c.tick_length < 2 ^ 32
      → IsCString c.address
      → IsCString c.debug_level
      → IsCString c.connection_string
      → has_parse_error (config_file r c) ≡ false
      → parse_env_file r has_parse_error (some (config_file r c))
        ≡ got (record c { port = c.port % 2 ^ 16 })
  unfolding parse_env_file
  parse_env_file_roundtrip has_parse_error c h0 h1 h2 h3 h4 fine =
      rw
        (
          fine,
          doc.parse_output (object (config_members c)),
          doc.is_object_value (object (config_members c)),
        )
        (read_config-members c h0 h1 h2 h3 h4)
