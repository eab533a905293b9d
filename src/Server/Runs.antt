-- ===== src/Server/Runs.antt =====
-- Over any sequence of events of src/uws_thread.cpp the connections stay sound.
use core_cpp_archive.Messages.Bounds.{GetsUint32}
use core_cpp_archive.Prelude.{
  Bool, List, Option, [], ap, arith, bytes_eq, drop, erase, false, find, int_eq, loc_eq, nat_eq,
  none, refl, some, subst, sym, true, ℕ, ◌∙◌, ◌∷◌, ◌≡◌,
}
use core_cpp_archive.Rapidjson.{at}
use core_cpp_archive.Server.Close.{close_connection_lem}
use core_cpp_archive.Server.Connections.{
  close_entry, close_id, forget_handle, on_close, on_open, opened,
}
use core_cpp_archive.Server.Invariant.{Effect-IsSound}
use core_cpp_archive.Server.MessageEffects.{EndsIn, Spoken, on_message-Spoken, silent, spoken}
use core_cpp_archive.Server.Network.{
  NetworkEvent, after_run, closing, handle_event, opening, receiving, run_events, run_uws, taking,
  turning,
}
use core_cpp_archive.Server.Sound.{IsSound, []-IsSound, assign-IsSound, erase-IsSound}
use core_cpp_archive.Server.State.{
  Outside, PerSocketData, Run, Server, Services, done, returned, thrown, ub,
}
use core_cpp_archive.Server.Triples.{Core, core}
use mathlib.Core.Option.{some-injective}

module _ (v : Services) (fits : GetsUint32 v.json) where
  after_run-Ends :
      {X : Core v → Type 0} (r : Run v Unit) (s' : Server v)
      → EndsIn X r
      → after_run v r ≡ some s'
      → X (core s')
  unfolding after_run
  after_run-Ends {X} (done a s) s' h e =
      let same : s ≡ s' = cc in subst (λ s. X (core s)) same h.how
  after_run-Ends {X} (returned s) s' h e =
      let same : s ≡ s' = cc in subst (λ s. X (core s)) same h.how
  after_run-Ends (thrown s) s' h e = ground (arith, e)
  after_run-Ends ub s' h e = ground (arith, e)

  opened-IsSound :
      (quit : Bool) (hdl : ℕ) (s : Server v)
      → IsSound s.user_connections
      → IsSound (on_open v quit hdl s).user_connections
  unfolding on_open opened
  opened-IsSound true hdl s sound = sound
  opened-IsSound false hdl s sound =
      assign-IsSound s.connection_id_counter _ s.user_connections sound refl
        (λ plays. ground (arith, plays)) (λ j w at other plays. ground (arith, plays))

  Spoken-IsSound :
      (payload : v.json.Wire) (hdl : ℕ) (c e : Core v)
      → IsSound c.connections
      → Spoken payload hdl c e
      → IsSound e.connections
  Spoken-IsSound payload hdl c e sound (silent eq) =
      subst (λ e. IsSound e.connections) (sym eq) sound
  Spoken-IsSound payload hdl c e sound (spoken id u at_hdl at_id effect) =
      Effect-IsSound v fits _ id u c e at_id sound effect

  closed_entry-IsSound :
      (hdl id : ℕ) (s s' : Server v) (o : Option PerSocketData)
      → find id s.user_connections ≡ o
      → IsSound s.user_connections
      → after_run v (close_entry v o hdl id s) ≡ some s'
      → IsSound s'.user_connections
  unfolding close_entry forget_handle after_run
  closed_entry-IsSound hdl id s s' none at_id sound e =
      let same : forgotten ≡ s' = cc in subst (λ s. IsSound s.user_connections) same sound
    where
      forgotten : Server v
      forgotten = record s { handle_to_connection_id_map = erase hdl s.handle_to_connection_id_map }
  closed_entry-IsSound hdl id s s' (some u) at_id sound e =
      subst (λ s. IsSound s.user_connections)
        (some-injective _ _ (sym (ap (after_run v) (close_connection_lem hdl id u s at_id)) ∙ e))
        (erase-IsSound id s.user_connections sound)

  closed-IsSound :
      (hdl : ℕ) (s s' : Server v) (o : Option ℕ)
      → IsSound s.user_connections
      → after_run v (close_id v o hdl s) ≡ some s'
      → IsSound s'.user_connections
  unfolding close_id after_run
  closed-IsSound hdl s s' none sound e =
      let same : s ≡ s' = cc in subst (λ s. IsSound s.user_connections) same sound
  closed-IsSound hdl s s' (some id) sound e = closed_entry-IsSound hdl id s s' _ refl sound e

  event-IsSound :
      (event : NetworkEvent v) (s s' : Server v)
      → IsSound s.user_connections
      → handle_event v event s ≡ some s'
      → IsSound s'.user_connections
  unfolding handle_event on_close
  event-IsSound (opening quit hdl) s s' sound e =
      let same : on_open v quit hdl s ≡ s' = cc in
      subst (λ s. IsSound s.user_connections) same (opened-IsSound quit hdl s sound)
  event-IsSound (receiving payload hdl) s s' sound e =
      Spoken-IsSound payload hdl (core s) (core s') sound
        (after_run-Ends _ s' (on_message-Spoken payload hdl s) e)
  event-IsSound (closing hdl) s s' sound e = closed-IsSound hdl s s' _ sound e
  event-IsSound (taking n) s s' sound e =
      let same : record s { game_loop_queue = drop n s.game_loop_queue } ≡ s' = cc in
      subst (λ s. IsSound s.user_connections) same sound
  event-IsSound (turning outside) s s' sound e =
      let same : record s { outside = outside } ≡ s' = cc in
      subst (λ s. IsSound s.user_connections) same sound

  -- From sound connections, every sequence of events leads to sound connections.
  pub run_events-IsSound :
      (events_left : List (NetworkEvent v)) (s s' : Server v)
      → IsSound s.user_connections
      → run_events v events_left s ≡ some s'
      → IsSound s'.user_connections
  unfolding run_events
  run_events-IsSound [] s s' sound e =
      let same : s ≡ s' = cc in subst (λ s. IsSound s.user_connections) same sound
  run_events-IsSound (event ∷ rest) s s' sound e =
      after_event (handle_event v event s) refl e
        (λ t at. run_events-IsSound rest t s' (event-IsSound event s t sound at))
    where
      after_event :
          (o : Option (Server v))
          → handle_event v event s ≡ o
          → (elim o [ none ↦ none | some t ↦ run_events v rest t ]) ≡ some s'
          → ((t : Server v)
              → handle_event v event s ≡ some t
              → run_events v rest t ≡ some s'
              → IsSound s'.user_connections)
          → IsSound s'.user_connections
      after_event none at e later = ground (arith, e)
      after_event (some t) at e later = later t at e

  -- If GetUint gives numbers of 32 bits: however a server is used from its start, as long as
  -- it runs, no user plays one slot on two connections, only users who are logged in play, and
  -- each entry stands under its connection id.
  pub run_uws-IsSound :
      (db : v.sql.Db) (outside : Outside) (happens : List (NetworkEvent v)) (s : Server v)
      → run_events v happens (run_uws v db outside) ≡ some s
      → IsSound s.user_connections
  unfolding run_uws
  run_uws-IsSound db outside happens s e = run_events-IsSound happens _ s []-IsSound e
