-- ===== src/Server/Network.antt =====
-- The events of the network thread of src/uws_thread.cpp in a sequence, with what happens to the
-- queue, the clock and the sockets between them.
use core_cpp_archive.Prelude.{Bool, List, Option, [], drop, none, some, ℕ, ◌∷◌}
use core_cpp_archive.Server.Connections.{on_close, on_message, on_open}
use core_cpp_archive.Server.State.{Outside, Run, Server, Services, done, returned, thrown, ub}

module _ (v : Services) where
  -- `taking n` is the game loop taking messages off the front of the queue, `turning` a change of
  -- the clock and of the sockets.
  pub data NetworkEvent : Type 0 where
    opening : Bool → ℕ → NetworkEvent
    receiving : v.json.Wire → ℕ → NetworkEvent
    closing : ℕ → NetworkEvent
    taking : ℕ → NetworkEvent
    turning : Outside → NetworkEvent

  -- An exception that leaves a handler ends the thread, and so does undefined behaviour here.
  unfoldable pub after_run : Run v Unit → Option (Server v)
  after_run (done a s) = some s
  after_run (returned s) = some s
  after_run (thrown s) = none
  after_run ub = none

  unfoldable pub handle_event : NetworkEvent → Server v → Option (Server v)
  handle_event (opening quit hdl) s = some (on_open v quit hdl s)
  handle_event (receiving payload hdl) s = after_run (on_message v payload hdl s)
  handle_event (closing hdl) s = after_run (on_close v hdl s)
  handle_event (taking n) s = some (record s { game_loop_queue = drop n s.game_loop_queue })
  handle_event (turning outside) s = some (record s { outside = outside })

  unfoldable pub run_events : List NetworkEvent → Server v → Option (Server v)
  run_events [] s = some s
  run_events (event ∷ events_after) s = elim (handle_event event s) [
    | none ↦ none
    | some s' ↦ run_events events_after s'
  ]

  -- `run_uws` before the first connection.
  unfoldable pub run_uws : v.sql.Db → Outside → Server v
  run_uws db outside = record {
    user_connections = [];
    handle_to_connection_id_map = [];
    connection_id_counter = 0;
    game_loop_queue = [];
    motd = [];
    db = db;
    view = db;
    sent = [];
    outside = outside;
  }
