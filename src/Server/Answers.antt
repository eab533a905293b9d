-- ===== src/Server/Answers.antt =====
-- What `on_message` of src/uws_thread.cpp does with a message that no handler gets.
use core_cpp_archive.Messages.Replies.{serialize_generic_error_response}
use core_cpp_archive.Prelude.{
  [], bytes_eq, false, find, if◌then◌else◌, int_eq, loc_eq, nat_eq, none, some, text, true, ℕ, ◌≡◌,
}
use core_cpp_archive.Server.State.{
  Frame, PerSocketData, Run, Server, Services, delivered, done, json_frame, returned, thrown, ub,
}

-- The document of a payload has no type that could be looked up.
pub data IsUntyped (v : Services) (payload : v.json.Wire) : Type 0 where
  no_json : v.has_parse_error payload ≡ true → IsUntyped v payload
  no_object : v.json.is_object (v.json.parse payload) ≡ false → IsUntyped v payload
  no_type :
      v.json.has_member (v.json.parse payload) (text "type") ≡ some false → IsUntyped v payload
  no_string :
      (t : v.json.Value)
      → v.json.get_member (v.json.parse payload) (text "type") ≡ some t
      → v.json.get_string t ≡ none
      → IsUntyped v payload

module _ {v : Services} where
  abbrev pub unrecognized : Frame v
  unrecognized = json_frame (
      serialize_generic_error_response v.json (record {
        error = text "Unrecognized message";
        pretty_error_name = [];
        pretty_error_description = [];
        clear_login_data = true;
      }))

  -- A payload that no handler gets, and the handle that is told so.
  pub data IsLost (payload : v.json.Wire) (hdl : ℕ) (s : Server v) (to : ℕ) : Type 0 where
    no_connection :
        find hdl s.handle_to_connection_id_map ≡ none → to ≡ hdl → IsLost payload hdl s to
    no_entry :
        (id : ℕ)
        → find hdl s.handle_to_connection_id_map ≡ some id
        → find id s.user_connections ≡ none
        → to ≡ hdl
        → IsLost payload hdl s to
    no_message :
        (id : ℕ) (u : PerSocketData)
        → find hdl s.handle_to_connection_id_map ≡ some id
        → find id s.user_connections ≡ some u
        → IsUntyped v payload
        → to ≡ u.ws
        → IsLost payload hdl s to

  -- An error to a handle, or the exception of a socket that cannot be written to.
  abbrev pub answered : ℕ → Server v → Run v Unit
  answered to s = if s.outside.writable to then returned (delivered to unrecognized s) else thrown s

  abbrev after_send : Run v Unit → Run v Unit
  after_send r = elim r [
    | done a s' ↦ returned s'
    | returned s' ↦ returned s'
    | thrown s' ↦ thrown s'
    | ub ↦ ub
  ]
