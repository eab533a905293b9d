-- ===== src/Server/Tests.antt =====
-- Runs of the handlers on concrete connections.
use core_cpp_archive.GameQueue.Messages.{OutwardMessage, map_update, player_leave}
use core_cpp_archive.Messages.Account.{
  deserialize_login_request, deserialize_play_character_request, serialize_login_request,
  serialize_play_character_request, serialize_register_request,
}
use core_cpp_archive.Messages.Bounds.{GetsUint32}
use core_cpp_archive.Prelude.{
  List, Option, [], arith, assign, bytes_beq, bytes_eq, erase, false, find, int_eq, loc_eq, nat_eq,
  negsuc, none, refl, some, text, true, ℤ, ◌↔◌, ◌∷◌, ◌≡◌,
}
use core_cpp_archive.Rapidjson.{
  Event, Json, array, at, boolean, c_str, check_members, check_type, demand, numeric, object,
  require, string, string_at, uint_at, write_bool,
}
use core_cpp_archive.Rapidjson.Decoder.{call_list}
use core_cpp_archive.Repositories.BannedUsers.{active_ban, is_username_or_ip_banned}
use core_cpp_archive.Repositories.CharacterReads.{
  character_of_row, characters_of_rows, emplace_location, first_character, get_by_user_id,
  get_character_by_slot, select_from,
}
use core_cpp_archive.Repositories.Locations.{location_of_row}
use core_cpp_archive.Repositories.Sql.{
  column_int64, column_number, column_text, int64_or_0, named_number, named_text, number_or_0,
}
use core_cpp_archive.Repositories.Stats.{get_by_character_id, stat_of_row, stats_of_rows}
use core_cpp_archive.Repositories.Users.{first_user, get_user, user_of_row}
use core_cpp_archive.Server.Characters.{
  character_or_refuse, handle_play_character, plays_elsewhere, plays_there,
}
use core_cpp_archive.Server.Close.{on_close_lem}
use core_cpp_archive.Server.Connections.{
  add_routes, caught, dispatch, on_close, on_message, on_open, opened, run_handler, type_of,
  with_id, with_user_data,
}
use core_cpp_archive.Server.Delivered.{send_outward_lem}
use core_cpp_archive.Server.Delivery.{send_outward, serialize_body}
use core_cpp_archive.Server.Guards.{
  check_msg, deserialize_with_not_login_check, deserialize_with_not_playing_check,
}
use core_cpp_archive.Server.Login.{
  announce, close_if_banned, handle_login, handle_register, leave_if_banned, message_players_of,
  user_or_refuse, welcome,
}
use core_cpp_archive.Server.Network.{
  NetworkEvent, after_run, handle_event, opening, receiving, run_events, run_uws,
}
use core_cpp_archive.Server.Registrable.{Undefined}
use core_cpp_archive.Server.Registration.{handle_register_lem}
use core_cpp_archive.Server.Runs.{run_uws-IsSound}
use core_cpp_archive.Server.Samples.{
  evening, list_services, login_payload, play_payload, player_at, quiet_evening, start,
}
use core_cpp_archive.Server.Sound.{IsSound}
use core_cpp_archive.Server.State.{
  Server, begin_transaction, broadcast, delivered, deref, done, enqueue, json_frame, query,
  refuse_if, send, set_user_data, ub, user_data, ◌>>=◌,
}
use core_cpp_archive.Server.Triples.{Ends, core}

uint_fits : GetsUint32 call_list
uint_fits (numeric (ℤ.pos n)) m e = ground (arith, e)
uint_fits (numeric (negsuc n)) m e = ground (arith, e)
uint_fits (string s) m e = ground (arith, e)
uint_fits (boolean b) m e = ground (arith, e)
uint_fits (array js) m e = ground (arith, e)
uint_fits (object ms) m e = ground (arith, e)

abbrev evening_events : List (NetworkEvent list_services)
evening_events = opening false 7 ∷ receiving login_payload 7 ∷ receiving play_payload 7 ∷ []

abbrev or_start : Option (Server list_services) → Server list_services
or_start none = start
or_start (some s) = s

run_uws-IsSound_example :
    IsSound
      (or_start (
        run_events list_services evening_events
          (run_uws list_services 0 quiet_evening))).user_connections
unfolding check_msg deserialize_with_not_login_check deserialize_with_not_playing_check after_run
    handle_event run_events run_uws plays_there plays_elsewhere character_or_refuse
    handle_play_character ◌>>=◌ deref begin_transaction query enqueue delivered send user_data
    set_user_data refuse_if broadcast opened on_open add_routes caught type_of run_handler dispatch
    with_user_data with_id on_message message_players_of announce welcome leave_if_banned
    close_if_banned user_or_refuse handle_login user_of_row first_user get_user stat_of_row
    stats_of_rows get_by_character_id character_of_row emplace_location select_from first_character
    get_character_by_slot characters_of_rows get_by_user_id active_ban is_username_or_ip_banned
    location_of_row number_or_0 int64_or_0 column_number column_int64 column_text named_number
    named_text demand c_str check_members require at string_at uint_at check_type find assign
    serialize_login_request deserialize_login_request serialize_play_character_request
    deserialize_play_character_request bytes_beq text
run_uws-IsSound_example =
    run_uws-IsSound list_services uint_fits 0 quiet_evening evening_events
      (or_start (run_events list_services evening_events (run_uws list_services 0 quiet_evening)))
      refl

on_close_lem_example :
    on_close list_services 7 (evening (ℤ.pos 3))
    ≡ done tt (record (evening (ℤ.pos 3)) {
      user_connections = [];
      handle_to_connection_id_map = [];
      game_loop_queue = player_leave 0 ∷ [];
    })
unfolding find erase
on_close_lem_example =
    on_close_lem {v = list_services} 7 0 (player_at 0 (ℤ.pos 3)) (evening (ℤ.pos 3)) refl refl

abbrev newcomer : Server list_services
newcomer = record start {
  user_connections = (0, opened list_services 0 7) ∷ [];
  handle_to_connection_id_map = (7, 0) ∷ [];
  connection_id_counter = 1;
}

abbrev register_value : Json
register_value = call_list.parse (
    serialize_register_request call_list
      (record { username = text "ann"; password = text "password"; email = text "a" }))

handle_register_lem_example :
    Ends
      (λ _ _. ⊥)
      (λ c. c ≡ core newcomer)
      (handle_register list_services register_value 0 newcomer)
    × (handle_register list_services register_value 0 newcomer ≡ ub
        ↔ Undefined list_services register_value (opened list_services 0 7) (core newcomer))
unfolding find opened
handle_register_lem_example =
    handle_register_lem {v = list_services} register_value 0 (opened list_services 0 7) newcomer
      refl

abbrev four_trues : List Event
four_trues = write_bool true ∷ write_bool true ∷ write_bool true ∷ write_bool true ∷ []

abbrev two_updates : List OutwardMessage
two_updates =
    record { conn_id = 0; msg = map_update [] } ∷ record { conn_id = 5; msg = map_update [] } ∷ []

send_outward_lem_example : send_outward list_services two_updates newcomer ≡ record newcomer {
  game_loop_queue = player_leave 5 ∷ [];
  sent = (7, json_frame (serialize_body list_services (map_update []))) ∷ [];
}
unfolding find opened
send_outward_lem_example = send_outward_lem {v = list_services} two_updates newcomer
