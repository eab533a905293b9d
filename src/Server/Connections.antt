-- ===== src/Server/Connections.antt =====
-- src/uws_thread.cpp: opening, messages, closing.
use core_cpp_archive.GameQueue.Messages.{player_leave}
use core_cpp_archive.Messages.Account.{
  character_select_request_type, create_character_request_type, delete_character_request_type,
  login_request_type, play_character_request_type, register_request_type,
}
use core_cpp_archive.Messages.Play.{message_request_type, move_request_type, set_motd_request_type}
use core_cpp_archive.Messages.Replies.{serialize_user_left_response}
use core_cpp_archive.Prelude.{
  Bool, Dict, Option, Text, [], assign, bytes_eq, erase, false, find, if◌then◌else◌, int_eq,
  is_empty, leb_ℤ, loc_eq, ltb, nat_eq, negsuc, none, not, some, text, true, ℕ, ℤ, ◌%◌, ◌+◌, ◌==◌,
  ◌^◌, ◌||◌, ◌∷◌,
}
use core_cpp_archive.Rapidjson.{c_str, map_option}
use core_cpp_archive.Server.Characters.{handle_delete_character, handle_play_character}
use core_cpp_archive.Server.Commands.{
  handle_character_select, handle_move, handle_public_chat, set_motd_handler,
}
use core_cpp_archive.Server.Login.{handle_login, handle_register}
use core_cpp_archive.Server.NewCharacters.{handle_create_character}
use core_cpp_archive.Server.State.{
  Action, Frame, PerSocketData, Run, Server, Services, UserConnections, done, enqueue, gets,
  json_frame, pure, refuse, returned, send, thrown, ub, ◌>>=◌,
}

-- The search of `on_close` for a connection of the same user.
unfoldable pub has_user_id : ℕ → UserConnections → Bool
has_user_id user_id [] = false
has_user_id user_id ((_, other) ∷ rest) = other.user_id == user_id || has_user_id user_id rest

module _ (v : Services) where
  unfoldable pub opened : ℕ → ℕ → PerSocketData
  opened id hdl = record {
    connection_id = id;
    user_id = 0;
    subscription_tier = 0;
    is_tester = false;
    is_game_master = false;
    playing_character_slot = negsuc 0;
    username = [];
    ws = hdl;
  }

  unfoldable pub on_open : Bool → ℕ → Server v → Server v
  on_open true hdl s = s
  on_open false hdl s = record s {
    connection_id_counter = (s.connection_id_counter + 1) % 2 ^ 64;
    handle_to_connection_id_map = assign hdl s.connection_id_counter s.handle_to_connection_id_map;
    user_connections =
        assign s.connection_id_counter (opened s.connection_id_counter hdl) s.user_connections;
  }

  unfoldable pub add_routes : Dict Text (v.json.Value → ℕ → Action v Unit)
  add_routes =
      (login_request_type, handle_login v)
      ∷ (register_request_type, handle_register v)
      ∷ (play_character_request_type, handle_play_character v)
      ∷ (create_character_request_type, handle_create_character v)
      ∷ (delete_character_request_type, handle_delete_character v)
      ∷ (character_select_request_type, handle_character_select v)
      ∷ (move_request_type, handle_move v)
      ∷ (message_request_type, handle_public_chat v)
      ∷ (set_motd_request_type, set_motd_handler v)
      ∷ []

  -- `try { ... } catch (exception const &e) { ... }`
  unfoldable pub caught : Run v Unit → Run v Unit
  caught (done a s) = done a s
  caught (returned s) = returned s
  caught (thrown s) = done tt s
  caught ub = ub

  -- The type of a message; `none` if the document is not an object with one.
  unfoldable pub type_of : v.json.Wire → Option Text
  type_of payload =
      let d = v.json.parse payload in
      if v.has_parse_error payload || not (v.json.is_object d)
      then none
      else elim (v.json.has_member d (text "type")) [
        | none ↦ none
        | some false ↦ none
        | some true ↦ elim (v.json.get_member d (text "type")) [
          | none ↦ none
          | some t ↦ map_option c_str (v.json.get_string t)
        ]
      ]

  -- What the router finds for the type of a message.
  unfoldable pub run_handler :
      Option (v.json.Value → ℕ → Action v Unit) → v.json.Wire → ℕ → Action v Unit
  run_handler none payload id s = done tt s
  run_handler (some handler) payload id s = caught (handler (v.json.parse payload) id s)

  unfoldable pub dispatch : Option Text → v.json.Wire → PerSocketData → ℕ → Action v Unit
  dispatch none payload u id = refuse u.ws (text "Unrecognized message")
  dispatch (some type_name) payload u id = run_handler (find type_name add_routes) payload id

  unfoldable pub with_user_data : Option PerSocketData → v.json.Wire → ℕ → ℕ → Action v Unit
  with_user_data none payload hdl id = refuse hdl (text "Unrecognized message")
  with_user_data (some u) payload hdl id = dispatch (type_of payload) payload u id

  unfoldable pub with_id : Option ℕ → v.json.Wire → ℕ → Action v Unit
  with_id none payload hdl s = refuse hdl (text "Unrecognized message") s
  with_id (some id) payload hdl s = with_user_data (find id s.user_connections) payload hdl id s

  unfoldable pub on_message : v.json.Wire → ℕ → Action v Unit
  on_message payload hdl s =
      if ltb (v.payload_length payload) 4
      then returned s
      else with_id (find hdl s.handle_to_connection_id_map) payload hdl s

  -- The loop of `on_close`, in which a send that throws ends the handler.
  unfoldable pub tell_others : ℕ → Frame v → UserConnections → Action v Unit
  tell_others user_id frame [] = pure tt
  tell_others user_id frame ((_, other) ∷ rest) =
      if other.user_id == user_id
      then tell_others user_id frame rest
      else (do _ ← send other.ws frame; tell_others user_id frame rest)

  unfoldable pub say_user_left : PerSocketData → Action v Unit
  say_user_left u = do
    others ← gets (λ s. s.user_connections)
    if is_empty u.username || has_user_id u.user_id others
        then pure tt
        else tell_others u.user_id
            (json_frame (serialize_user_left_response v.json (record { username = u.username })))
            others

  unfoldable pub forget_handle : ℕ → Action v Unit
  forget_handle hdl s =
      done tt (record s { handle_to_connection_id_map = erase hdl s.handle_to_connection_id_map })

  unfoldable pub forget_connection : ℕ → Action v Unit
  forget_connection id s = done tt (record s { user_connections = erase id s.user_connections })

  unfoldable pub close_connection : ℕ → ℕ → PerSocketData → Action v Unit
  close_connection hdl id u = do
    _ ←
        if leb_ℤ (ℤ.pos 0) u.playing_character_slot
        then enqueue (player_leave u.connection_id)
        else pure tt
    _ ← say_user_left u
    _ ← forget_connection id
    forget_handle hdl

  unfoldable pub close_entry : Option PerSocketData → ℕ → ℕ → Action v Unit
  close_entry none hdl id = forget_handle hdl
  close_entry (some u) hdl id = close_connection hdl id u

  unfoldable pub close_id : Option ℕ → ℕ → Action v Unit
  close_id none hdl s = returned s
  close_id (some id) hdl s = close_entry (find id s.user_connections) hdl id s

  unfoldable pub on_close : ℕ → Action v Unit
  on_close hdl s = close_id (find hdl s.handle_to_connection_id_map) hdl s
