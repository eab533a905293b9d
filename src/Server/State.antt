-- ===== src/Server/State.antt =====
-- The state of src/uws_thread.cpp, src/per_socket_data.h, and the runs of its handlers.
use core_cpp_archive.Censor.Sensor.{CensorSensor}
use core_cpp_archive.GameQueue.Messages.{QueueMessage}
use core_cpp_archive.Messages.Replies.{serialize_generic_error_response}
use core_cpp_archive.Messages.Selection.{CharacterSelectResponse}
use core_cpp_archive.Prelude.{
  Bool, Dict, List, Option, Text, [], assign, bytes_eq, false, find, if◌then◌else◌, int_eq, loc_eq,
  nat_eq, none, not, some, true, ℕ, ℤ, ◌&&◌, ◌++◌, ◌∷◌,
}
use core_cpp_archive.Rapidjson.{RapidJson}
use core_cpp_archive.Repositories.Sql.{Query, Sql}

-- What the handlers call outside of src/: RapidJSON, pqxx, libsodium and the conversions of
-- <codecvt>, which throw for a text that is not UTF-8 (`none`). The word list and the texts of the
-- character selection are read once when the program starts.
pub record Services : Type 1 where
  pub json : RapidJson
  pub sql : Sql
  pub has_parse_error : json.Wire → Bool
  pub payload_length : json.Wire → ℕ
  pub sensor : CensorSensor
  pub select_response : CharacterSelectResponse
  pub pwhash_verify : Text → Text → Bool
  pub pwhash : Text → Option Text
  pub to_utf32 : Text → Option Text
  pub utf_to_upper : Text → Option Text

-- `per_socket_data`. `ws` stands for the connection handle.
pub record PerSocketData : Type 0 where
  pub connection_id : ℕ
  pub user_id : ℕ
  pub subscription_tier : ℕ
  pub is_tester : Bool
  pub is_game_master : Bool
  pub playing_character_slot : ℤ
  pub username : Text
  pub ws : ℕ

abbrev pub UserConnections : Type 0
UserConnections = Dict ℕ PerSocketData

-- What the clock and the sockets are like: `send` throws for a handle that is not writable.
pub record Outside : Type 0 where
  pub now_nanoseconds : ℤ
  pub now_milliseconds : ℕ
  pub expired : ℕ → Bool
  pub writable : ℕ → Bool

module _ (v : Services) where
  -- What is given to a connection: a message, a plain text, or the reason of a close.
  pub data Frame : Type 0 where
    json_frame : v.json.Wire → Frame
    text_frame : Text → Frame
    close_frame : Text → Frame

  -- `db` is what is committed and `view` what the open transaction sees.
  pub record Server : Type 0 where
    pub user_connections : UserConnections
    pub handle_to_connection_id_map : Dict ℕ ℕ
    pub connection_id_counter : ℕ
    pub game_loop_queue : List QueueMessage
    pub motd : Text
    pub db : v.sql.Db
    pub view : v.sql.Db
    pub sent : List (ℕ × Frame)
    pub outside : Outside

  -- How a run of a statement ends: it goes on, the handler has returned, an exception is on its
  -- way, or the behaviour is undefined.
  pub data Run (A : Type 0) : Type 0 where
    done : A → Server → Run A
    returned : Server → Run A
    thrown : Server → Run A
    ub : Run A

  abbrev pub Action : Type 0 → Type 0
  Action A = Server → Run A

infixl 5 ◌>>=◌
unfoldable pub ◌>>=◌ : {v : Services} {A B : Type 0} → Action v A → (A → Action v B) → Action v B
◌>>=◌ m f s = elim (m s) [
  | done a s' ↦ f a s'
  | returned s' ↦ returned s'
  | thrown s' ↦ thrown s'
  | ub ↦ ub
]

module _ {v : Services} where
  abbrev pub pure : {A : Type 0} → A → Action v A
  pure a s = done a s

  abbrev pub return : {A : Type 0} → Action v A
  return s = returned s

  abbrev pub throw : {A : Type 0} → Action v A
  throw s = thrown s

  -- `*optional` and `optional->`.
  unfoldable pub deref : {A : Type 0} → Option A → Action v A
  deref none s = ub
  deref (some a) s = done a s

  unfoldable pub or_throw : {A : Type 0} → Option A → Action v A
  or_throw none s = thrown s
  or_throw (some a) s = done a s

  abbrev pub gets : {A : Type 0} → (Server v → A) → Action v A
  gets f s = done (f s) s

  unfoldable pub begin_transaction : Action v Unit
  begin_transaction s = done tt (record s { view = s.db })

  unfoldable pub commit : Action v Unit
  commit s = done tt (record s { db = s.view })

  unfoldable pub query : {A : Type 0} → Query v.sql.Db A → Action v A
  query q s = elim (q s.view) [ none ↦ thrown s | some (a, d) ↦ done a (record s { view = d }) ]

  unfoldable pub enqueue : QueueMessage → Action v Unit
  enqueue msg s = done tt (record s { game_loop_queue = s.game_loop_queue ++ msg ∷ [] })

  unfoldable pub delivered : ℕ → Frame v → Server v → Server v
  delivered hdl frame s = record s { sent = s.sent ++ (hdl, frame) ∷ [] }

  -- `s->send` and `s->close`.
  unfoldable pub send : ℕ → Frame v → Action v Unit
  send hdl frame s = if s.outside.writable hdl then done tt (delivered hdl frame s) else thrown s

  -- The object that `user_data` points to, in the entry of `id`.
  unfoldable pub user_data : ℕ → Action v PerSocketData
  user_data id s = deref (find id s.user_connections) s

  unfoldable pub set_user_data : ℕ → PerSocketData → Action v Unit
  set_user_data id u s = done tt (record s { user_connections = assign id u s.user_connections })

  -- The macro SEND_ERROR, with its last argument true.
  unfoldable pub send_error_as : ℕ → Text → Text → Text → Action v Unit
  send_error_as hdl err pretty_name pretty_desc = send hdl (
      json_frame (
        serialize_generic_error_response v.json (record {
          error = err;
          pretty_error_name = pretty_name;
          pretty_error_description = pretty_desc;
          clear_login_data = true;
        })))

  unfoldable pub send_error : ℕ → Text → Action v Unit
  send_error hdl err = send_error_as hdl err [] []

  -- SEND_ERROR and `return;`.
  unfoldable pub refuse : {A : Type 0} → ℕ → Text → Action v A
  refuse hdl err = do _ ← send_error hdl err; return

  -- if(test) { SEND_ERROR(err, "", "", true); return; }
  unfoldable pub refuse_if : Bool → ℕ → Text → Action v Unit
  refuse_if true hdl err = refuse hdl err
  refuse_if false hdl err = pure tt

  -- The loops that send one message to every connection that is not expired, and go on when a
  -- send throws.
  unfoldable pub broadcast_to : UserConnections → Frame v → Server v → Server v
  broadcast_to [] frame s = s
  broadcast_to ((_, other) ∷ rest) frame s = broadcast_to rest frame (
      if not (s.outside.expired other.ws) && s.outside.writable other.ws
      then delivered other.ws frame s
      else s)

  unfoldable pub broadcast : Frame v → Action v Unit
  broadcast frame s = done tt (broadcast_to s.user_connections frame s)
