-- ===== src/Server/Commands.antt =====
-- src/message_handlers: moves, public chat, the message of the day and the character selection.
use core_cpp_archive.Censor.Sensor.{clean_profanity_ish}
use core_cpp_archive.GameQueue.Messages.{player_move}
use core_cpp_archive.Messages.Account.{deserialize_character_select_request}
use core_cpp_archive.Messages.Play.{
  deserialize_message_request, deserialize_move_request, deserialize_set_motd_request,
  serialize_message_response, serialize_update_motd_response,
}
use core_cpp_archive.Messages.Selection.{serialize_character_select_response}
use core_cpp_archive.Prelude.{Text, if◌then◌else◌, text, ℕ}
use core_cpp_archive.Server.Guards.{
  deserialize_with_login_check, deserialize_with_not_playing_check, deserialize_with_playing_check,
}
use core_cpp_archive.Server.State.{
  Action, Services, broadcast, deref, done, enqueue, gets, json_frame, pure, return, send,
  user_data, ◌>>=◌,
}

module _ (v : Services) where
  -- commands/move_handler.cpp.
  unfoldable pub handle_move : v.json.Value → ℕ → Action v Unit
  handle_move d id = do
    msg ← deserialize_with_playing_check id (deserialize_move_request v.json d)
    u ← user_data id
    enqueue (player_move (record { connection_id = u.connection_id; x = msg.x; y = msg.y }))

  -- chat/public_chat_handler.cpp.
  unfoldable pub handle_public_chat : v.json.Value → ℕ → Action v Unit
  handle_public_chat d id = do
    msg ← deserialize_with_login_check id (deserialize_message_request v.json d)
    u ← user_data id
    now ← gets (λ s. s.outside.now_milliseconds)
    clean ← deref (clean_profanity_ish v.sensor msg.content)
    broadcast (
        json_frame (
          serialize_message_response v.json (record {
            user = u.username;
            content = clean;
            source = text "game";
            unix_timestamp = now;
          })))

  unfoldable pub set_motd : Text → Action v Unit
  set_motd new_motd s = done tt (record s { motd = new_motd })

  -- moderator/set_motd_handler.cpp.
  unfoldable pub set_motd_handler : v.json.Value → ℕ → Action v Unit
  set_motd_handler d id = do
    u ← user_data id
    _ ← if u.is_game_master then pure tt else return
    msg ← deserialize_with_playing_check id (deserialize_set_motd_request v.json d)
    _ ← set_motd msg.motd
    broadcast (json_frame (serialize_update_motd_response v.json (record { motd = msg.motd })))

  -- user_access/character_select_handler.cpp.
  unfoldable pub handle_character_select : v.json.Value → ℕ → Action v Unit
  handle_character_select d id = do
    _ ← deserialize_with_not_playing_check id (deserialize_character_select_request v.json d)
    u ← user_data id
    send u.ws (json_frame (serialize_character_select_response v.json v.select_response))
