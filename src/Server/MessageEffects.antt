-- ===== src/Server/MessageEffects.antt =====
-- What `on_message` of src/uws_thread.cpp does with the state, whatever a client sends.
use core_cpp_archive.Prelude.{
  All, Bool, Dict, Option, Text, [], arith, bytes_eq, false, find, if◌then◌else◌, int_eq, loc_eq,
  ltb, nat_eq, none, refl, some, subst, true, ℕ, ◌==◌, ◌∷◌, ◌≡◌,
}
use core_cpp_archive.Rapidjson.{at}
use core_cpp_archive.Server.AccountEffects.{handle_login-Effect}
use core_cpp_archive.Server.Registration.{handle_register-Ends}
use core_cpp_archive.Server.CharacterEffects.{
  handle_create_character-Effect, handle_delete_character-Effect, handle_play_character-Effect,
}
use core_cpp_archive.Server.Connections.{
  add_routes, caught, dispatch, on_message, run_handler, with_id, with_user_data,
}
use core_cpp_archive.Server.Effects.{Effect, nothing}
use core_cpp_archive.Server.HandlerEffects.{
  handle_character_select-Effect, handle_move-Effect, handle_public_chat-Effect,
  set_motd_handler-Effect,
}
use core_cpp_archive.Server.Quiet.{Ends-if, refuse-IsQuiet}
use core_cpp_archive.Server.State.{
  Action, PerSocketData, Run, Server, Services, done, refuse, returned, thrown, ub,
}
use core_cpp_archive.Server.Triples.{Core, Ends, Ends-last, core}

All-find :
    {V : Type 0} (P : V → Type 0) (k : Text) (m : Dict Text V) (x : V)
    → All (λ e. P e.1) m
    → find k m ≡ some x
    → P x
unfolding find
All-find P k [] x _ at = ground (arith, at)
All-find {V} P k ((j, w) ∷ m) x (p, ps) at = by_test (j == k) at (All-find P k m x ps)
  where
    by_test :
        (b : Bool) → (if b then some w else find k m) ≡ some x → (find k m ≡ some x → P x) → P x
    by_test true at later = let same : w ≡ x = cc in subst P same p
    by_test false at later = later at

module _ {v : Services} where
  -- By any handler, whatever the way it ends.
  abbrev pub EndsIn : (Core v → Type 0) → Run v Unit → Type 0
  EndsIn X r = Ends (λ _. X) X r

  Ends-caught : {X : Core v → Type 0} (r : Run v Unit) → EndsIn X r → EndsIn X (caught v r)
  unfolding caught
  Ends-caught (done a s) h = h
  Ends-caught (returned s) h = h
  Ends-caught (thrown s) h = record { how = h.how }
  Ends-caught ub h = h

  unchanged_or_ub :
      (d : v.json.Value) (id : ℕ) (u : PerSocketData) (s : Server v) (r : Run v Unit)
      → Ends (λ _ _. ⊥) (λ c. c ≡ core s) r
      → EndsIn (Effect d id u (core s)) r
  unchanged_or_ub d id u s (done a s') h = elim h.how [ ]
  unchanged_or_ub d id u s (returned s') h = record { how = nothing h.how }
  unchanged_or_ub d id u s (thrown s') h = record { how = nothing h.how }
  unchanged_or_ub d id u s ub h = record { how = tt }

  module _ (d : v.json.Value) (id : ℕ) (u : PerSocketData) (s : Server v)
      (at_id : find id s.user_connections ≡ some u) where
    handlers-Effect : All (λ route. EndsIn (Effect d id u (core s)) (route.1 d id s)) (add_routes v)
    unfolding add_routes
    handlers-Effect = (
      handle_login-Effect d id u s at_id,
      (
        unchanged_or_ub d id u s _ (handle_register-Ends d id u s at_id),
        (
          handle_play_character-Effect d id u s at_id,
          (
            handle_create_character-Effect d id u s at_id,
            (
              handle_delete_character-Effect d id u s at_id,
              (
                handle_character_select-Effect d id u s at_id,
                (
                  handle_move-Effect d id u s at_id,
                  (
                    handle_public_chat-Effect d id u s at_id,
                    (set_motd_handler-Effect d id u s at_id, tt),
                  ),
                ),
              ),
            ),
          ),
        ),
      ),
    )

  -- What the connection of a handle may do, or nothing.
  pub data Spoken (payload : v.json.Wire) (hdl : ℕ) (c e : Core v) : Type 0 where
    silent : e ≡ c → Spoken payload hdl c e
    spoken :
        (id : ℕ) (u : PerSocketData)
        → find hdl c.handles ≡ some id
        → find id c.connections ≡ some u
        → Effect (v.json.parse payload) id u c e
        → Spoken payload hdl c e

  Ends-map :
      {X Y : Core v → Type 0} (r : Run v Unit)
      → ((c : Core v) → X c → Y c)
      → EndsIn X r
      → EndsIn Y r
  Ends-map (done a s) f h = record { how = f (core s) h.how }
  Ends-map (returned s) f h = record { how = f (core s) h.how }
  Ends-map (thrown s) f h = record { how = f (core s) h.how }
  Ends-map ub f h = record { how = tt }

  refuse-silent :
      (payload : v.json.Wire) (hdl to : ℕ) (err : Text) (s : Server v)
      → EndsIn (Spoken payload hdl (core s)) (refuse to err s)
  refuse-silent payload hdl to err s =
      Ends-last (refuse-IsQuiet {P = λ _ _. Unit} to err) s (core s) refl (silent refl)
        (λ _ _. silent refl)

  module _ (payload : v.json.Wire) (hdl : ℕ) (s : Server v) where
    run_handler-Spoken :
        (id : ℕ) (u : PerSocketData)
        → find hdl s.handle_to_connection_id_map ≡ some id
        → find id s.user_connections ≡ some u
        → (o : Option (v.json.Value → ℕ → Action v Unit))
        → ((handler : v.json.Value → ℕ → Action v Unit)
            → o ≡ some handler
            → EndsIn
                (Effect (v.json.parse payload) id u (core s))
                (handler (v.json.parse payload) id s))
        → EndsIn (Spoken payload hdl (core s)) (run_handler v o payload id s)
    unfolding run_handler
    run_handler-Spoken id u at_hdl at_id none known = record { how = silent refl }
    run_handler-Spoken id u at_hdl at_id (some handler) known =
        Ends-map _ (λ e effect. spoken id u at_hdl at_id effect)
          (Ends-caught _ (known handler refl))

    dispatch-Spoken :
        (id : ℕ) (u : PerSocketData)
        → find hdl s.handle_to_connection_id_map ≡ some id
        → find id s.user_connections ≡ some u
        → (o : Option Text) → EndsIn (Spoken payload hdl (core s)) (dispatch v o payload u id s)
    unfolding dispatch
    dispatch-Spoken id u at_hdl at_id none = refuse-silent payload hdl u.ws _ s
    dispatch-Spoken id u at_hdl at_id (some type_name) =
        run_handler-Spoken id u at_hdl at_id _ (λ handler routed.
          All-find _ type_name _ handler (handlers-Effect (v.json.parse payload) id u s at_id)
            routed)

    with_user_data-Spoken :
        (id : ℕ)
        → find hdl s.handle_to_connection_id_map ≡ some id
        → (o : Option PerSocketData) → find id s.user_connections ≡ o
        → EndsIn (Spoken payload hdl (core s)) (with_user_data v o payload hdl id s)
    unfolding with_user_data
    with_user_data-Spoken id at_hdl none at_id = refuse-silent payload hdl hdl _ s
    with_user_data-Spoken id at_hdl (some u) at_id = dispatch-Spoken id u at_hdl at_id _

    with_id-Spoken :
        (o : Option ℕ)
        → find hdl s.handle_to_connection_id_map ≡ o
        → EndsIn (Spoken payload hdl (core s)) (with_id v o payload hdl s)
    unfolding with_id
    with_id-Spoken none at_hdl = refuse-silent payload hdl hdl _ s
    with_id-Spoken (some id) at_hdl = with_user_data-Spoken id at_hdl _ refl

    pub on_message-Spoken : EndsIn (Spoken payload hdl (core s)) (on_message v payload hdl s)
    unfolding on_message
    on_message-Spoken =
        Ends-if (ltb (v.payload_length payload) 4) (λ _. record { how = silent refl })
          (λ _. with_id-Spoken _ refl)
