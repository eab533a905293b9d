-- ===== src/Config.antt =====
-- src/config.h and src/config_parsers.cpp: the settings that the server starts with.
pub mod Laws
mod Tests
use core_cpp_archive.Prelude.{
  Bool, List, Option, Text, [], if◌then◌else◌, none, not, some, text, ℕ, ◌%◌, ◌^◌, ◌||◌, ◌∷◌,
}
use core_cpp_archive.Rapidjson.{
  RapidJson, Read, bool_at, check_members, got, nullopt, string_at, uint_at, ◌>>=◌,
}

pub record Config : Type 0 where
  pub address : Text
  pub port : ℕ
  pub debug_level : Text
  pub connection_string : Text
  pub tick_length : ℕ
  pub log_tick_times : Bool
  pub use_ssl : Bool

abbrev pub config_keys : List Text
config_keys =
    text "DEBUG_LEVEL"
    ∷ text "ADDRESS"
    ∷ text "PORT"
    ∷ text "CONNECTION_STRING"
    ∷ text "TICK_LENGTH"
    ∷ text "LOG_TICK_TIMES"
    ∷ text "USE_SSL"
    ∷ []

module _ (r : RapidJson) where
  -- The port is cut to the 16 bits of `config::port`.
  unfoldable pub read_config : r.Value → Read Config
  read_config d = do
    _ ← check_members r d config_keys
    debug_level ← string_at r d (text "DEBUG_LEVEL")
    address ← string_at r d (text "ADDRESS")
    port ← uint_at r d (text "PORT")
    connection_string ← string_at r d (text "CONNECTION_STRING")
    tick_length ← uint_at r d (text "TICK_LENGTH")
    log_tick_times ← bool_at r d (text "LOG_TICK_TIMES")
    use_ssl ← bool_at r d (text "USE_SSL")
    got (record {
      address = address;
      port = port % 2 ^ 16;
      debug_level = debug_level;
      connection_string = connection_string;
      tick_length = tick_length;
      log_tick_times = log_tick_times;
      use_ssl = use_ssl;
    })

  -- What `read_whole_file` has read, or nothing. `has_parse_error` is that of RapidJSON.
  unfoldable pub parse_env_file : (r.Wire → Bool) → Option r.Wire → Read Config
  parse_env_file has_parse_error none = nullopt
  parse_env_file has_parse_error (some env_contents) =
      let d = r.parse env_contents in
      if has_parse_error env_contents || not (r.is_object d) then nullopt else read_config d
