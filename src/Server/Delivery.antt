-- ===== src/Server/Delivery.antt =====
-- src/main.cpp: the loop at the end of a tick that hands what the game loop has to say to the
-- sockets of the network thread.
use core_cpp_archive.GameQueue.Messages.{
  OutwardBody, OutwardMessage, error_response, map_update, player_leave,
}
use core_cpp_archive.Messages.MapUpdate.{serialize_map_update_response}
use core_cpp_archive.Messages.Replies.{serialize_generic_error_response}
use core_cpp_archive.Prelude.{
  List, Option, [], bytes_eq, find, if◌then◌else◌, int_eq, loc_eq, nat_eq, none, some, ℕ, ◌++◌, ◌∷◌,
}
use core_cpp_archive.Server.State.{PerSocketData, Server, Services, delivered, json_frame}

module _ (v : Services) where
  unfoldable pub serialize_body : OutwardBody → v.json.Wire
  serialize_body (error_response m) = serialize_generic_error_response v.json m
  serialize_body (map_update npcs) = serialize_map_update_response v.json (record { npcs = npcs })

  -- A connection that is not there any more leaves the game.
  unfoldable pub leave_later : ℕ → Server v → Server v
  leave_later conn_id s = record s {
    game_loop_queue = s.game_loop_queue ++ player_leave conn_id ∷ [];
  }

  unfoldable pub hand_over : OutwardMessage → Option PerSocketData → Server v → Server v
  hand_over out none s = leave_later out.conn_id s
  hand_over out (some u) s =
      if s.outside.expired u.ws
      then leave_later out.conn_id s
      else (if s.outside.writable u.ws
          then delivered u.ws (json_frame (serialize_body out.msg)) s
          else s)

  unfoldable pub send_outward : List OutwardMessage → Server v → Server v
  send_outward [] s = s
  send_outward (out ∷ outs) s =
      send_outward outs (hand_over out (find out.conn_id s.user_connections) s)
