-- ===== src/Server/Delivered.antt =====
-- What the end of a tick of src/main.cpp has sent and queued.
use core_cpp_archive.GameQueue.Messages.{OutwardMessage, QueueMessage, player_leave}
use core_cpp_archive.Prelude.{
  Bool, List, Option, [], bytes_eq, false, find, if◌then◌else◌, int_eq, loc_eq, nat_eq, none, not,
  some, true, ℕ, ◌&&◌, ◌++◌, ◌∷◌, ◌≡◌,
}
use core_cpp_archive.Server.Delivery.{hand_over, leave_later, send_outward, serialize_body}
use core_cpp_archive.Server.State.{
  Frame, Outside, PerSocketData, Server, Services, UserConnections, delivered, json_frame,
}
use mathlib.Core.List.{append-nil, append_assoc}

-- Whose connection is gone.
abbrev pub is_gone : Outside → Option PerSocketData → Bool
is_gone outside none = true
is_gone outside (some u) = outside.expired u.ws

-- The leave messages for those who are gone, in order.
abbrev pub leaves : Outside → UserConnections → List OutwardMessage → List QueueMessage
leaves outside uc [] = []
leaves outside uc (out ∷ outs) =
    (if is_gone outside (find out.conn_id uc) then player_leave out.conn_id ∷ [] else [])
    ++ leaves outside uc outs

module _ {v : Services} where
  -- The frame of one message, if its connection is there and its socket can be written to.
  abbrev pub frame_to : Outside → OutwardMessage → Option PerSocketData → List (ℕ × Frame v)
  frame_to outside out none = []
  frame_to outside out (some u) =
      if not (outside.expired u.ws) && outside.writable u.ws
      then (u.ws, json_frame (serialize_body v out.msg)) ∷ []
      else []

  abbrev pub frames : Outside → UserConnections → List OutwardMessage → List (ℕ × Frame v)
  frames outside uc [] = []
  frames outside uc (out ∷ outs) =
      frame_to outside out (find out.conn_id uc) ++ frames outside uc outs

  abbrev extended : List QueueMessage → List (ℕ × Frame v) → Server v → Server v
  extended msgs fs s = record s { game_loop_queue = s.game_loop_queue ++ msgs; sent = s.sent ++ fs }

  unextended : (s : Server v) → s ≡ extended [] [] s
  unextended s = rw (append-nil s.game_loop_queue, append-nil s.sent)

  hand_over_lem :
      (out : OutwardMessage) (o : Option PerSocketData) (s : Server v)
      → hand_over v out o s
        ≡ extended
            (if is_gone s.outside o then player_leave out.conn_id ∷ [] else [])
            (frame_to s.outside out o)
            s
  unfolding hand_over leave_later delivered
  hand_over_lem out none s = rw (append-nil s.sent)
  hand_over_lem out (some u) s = decided (s.outside.expired u.ws) (s.outside.writable u.ws)
    where
      decided :
          (gone can : Bool)
          → (if gone
              then leave_later v out.conn_id s
              else (if can then delivered u.ws (json_frame (serialize_body v out.msg)) s else s))
            ≡ extended
                (if gone then player_leave out.conn_id ∷ [] else [])
                (if not gone && can then (u.ws, json_frame (serialize_body v out.msg)) ∷ [] else [])
                s
      decided true can = rw (append-nil s.sent)
      decided false true = rw (append-nil s.game_loop_queue)
      decided false false = unextended s

  -- The messages to the connections that are there and can be written to are sent in their order,
  -- each connection that is gone leaves the game through the queue, and nothing else changes.
  pub send_outward_lem :
      (outs : List OutwardMessage) (s : Server v)
      → send_outward v outs s ≡ record s {
        game_loop_queue = s.game_loop_queue ++ leaves s.outside s.user_connections outs;
        sent = s.sent ++ frames s.outside s.user_connections outs;
      }
  unfolding send_outward
  send_outward_lem [] s = unextended s
  send_outward_lem (out ∷ outs) s = rw (
    hand_over_lem out (find out.conn_id s.user_connections) s,
    send_outward_lem outs (
        extended
          (if is_gone s.outside (find out.conn_id s.user_connections)
            then player_leave out.conn_id ∷ []
            else [])
          (frame_to s.outside out (find out.conn_id s.user_connections)) s),
    append_assoc s.game_loop_queue,
    append_assoc s.sent,
  )
