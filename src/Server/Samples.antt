-- ===== src/Server/Samples.antt =====
-- Services for the examples: JSON as the calls of a writer, and a database in which every field
-- reads "1" and nobody is banned.
use core_cpp_archive.Messages.Account.{serialize_login_request, serialize_play_character_request}
use core_cpp_archive.Messages.Selection.{CharacterSelectResponse}
use core_cpp_archive.Prelude.{
  Bool, List, Text, [], bytes_eq, false, if◌then◌else◌, int_eq, length, loc_eq, nat_eq, some, suc,
  text, true, ℕ, ℤ, ◌==◌, ◌∷◌,
}
use core_cpp_archive.Rapidjson.{Event}
use core_cpp_archive.Rapidjson.Decoder.{call_list}
use core_cpp_archive.Repositories.Sql.{Sql}
use core_cpp_archive.Server.State.{Outside, PerSocketData, Server, Services}

abbrev pub one : Text
one = text "1"

abbrev has_prefix : Text → Text → Bool
has_prefix [] s = true
has_prefix (c ∷ prefix) [] = false
has_prefix (c ∷ prefix) (a ∷ s) = if c == a then has_prefix prefix s else false

abbrev pub list_sql : Sql
list_sql = record {
  Db = ℕ;
  Row = Unit;
  execute = λ sql db.
      if has_prefix (text "SELECT bu.id") sql then some ([], db) else some (tt ∷ [], suc db);
  escape = λ s. s;
  column = λ row i. some (some one);
  named = λ row name. some (some one);
  unsigned_of = λ largest s. some 1;
  int64_of = λ s. some (ℤ.pos 1);
}

abbrev pub choices : CharacterSelectResponse
choices = record {
  base_stats = record { name = text "str"; value = ℤ.pos 5 } ∷ [];
  allegiances =
      record { name = one; description = []; stat_mods = []; items = []; skills = [] } ∷ [];
  classes = record { name = one; description = []; stat_mods = [] } ∷ [];
}

abbrev pub list_services : Services
list_services = record {
  json = call_list;
  sql = list_sql;
  has_parse_error = λ payload. false;
  payload_length = λ payload. length payload;
  sensor = record { word_tiers = []; enabled_tiers = [] };
  select_response = choices;
  pwhash_verify = λ hashed password. hashed == password;
  pwhash = λ password. some password;
  to_utf32 = λ s. some s;
  utf_to_upper = λ s. some s;
}

abbrev pub quiet_evening : Outside
quiet_evening = record {
  now_nanoseconds = ℤ.pos 1000000;
  now_milliseconds = 1;
  expired = λ hdl. false;
  writable = λ hdl. true;
}

abbrev pub start : Server list_services
start = record {
  user_connections = [];
  handle_to_connection_id_map = [];
  connection_id_counter = 0;
  game_loop_queue = [];
  motd = [];
  db = 0;
  view = 0;
  sent = [];
  outside = quiet_evening;
}

abbrev pub player_at : ℕ → ℤ → PerSocketData
player_at id slot = record {
  connection_id = id;
  user_id = 1;
  subscription_tier = 0;
  is_tester = false;
  is_game_master = true;
  playing_character_slot = slot;
  username = one;
  ws = 7;
}

-- One connection that is logged in, with the handle 7.
abbrev pub evening : ℤ → Server list_services
evening slot = record start {
  user_connections = (0, player_at 0 slot) ∷ [];
  handle_to_connection_id_map = (7, 0) ∷ [];
  connection_id_counter = 1;
}

abbrev pub login_payload : List Event
login_payload = serialize_login_request call_list (record { username = one; password = one })

abbrev pub play_payload : List Event
play_payload = serialize_play_character_request call_list (record { slot = 3 })
