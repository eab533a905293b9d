-- ===== src/Config/Tests.antt =====
-- A concrete file of settings.
use core_cpp_archive.Config.{Config, parse_env_file}
use core_cpp_archive.Config.Laws.{config_file, parse_env_file_roundtrip}
use core_cpp_archive.Prelude.{arith, false, refl, some, text, true, ◌+◌, ◌≡◌}
use core_cpp_archive.Rapidjson.{c_str, got}
use core_cpp_archive.Rapidjson.Decoder.{call_list, call_list-IsDocumented}

abbrev settings : Config
settings = record {
  address = text "a";
  port = 65536 + 80;
  debug_level = text "info";
  connection_string = text "c";
  tick_length = 50;
  log_tick_times = true;
  use_ssl = false;
}

parse_env_file_roundtrip_example :
    parse_env_file call_list (λ _. false) (some (config_file call_list settings))
    ≡ got (record settings { port = 80 })
unfolding text c_str
parse_env_file_roundtrip_example =
    parse_env_file_roundtrip call_list call_list-IsDocumented (λ _. false) settings (omega arith)
      (omega arith) refl refl refl refl
