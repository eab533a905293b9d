-- ===== src/Server/Guarded.antt =====
-- What src/message_handlers/handler_macros.h has made sure of when a handler goes on: the message,
-- and the state of the connection that sent it.
use core_cpp_archive.Prelude.{
  bytes_eq, false, find, int_eq, is_empty, leb_ℤ, loc_eq, ltb_ℤ, nat_eq, refl, some, subst, true, ℕ,
  ℤ, ◌≡◌,
}
use core_cpp_archive.Rapidjson.{Read, at, got}
use core_cpp_archive.Server.Guards.{
  deserialize_with_login_check, deserialize_with_not_login_check,
  deserialize_with_not_playing_check, deserialize_with_playing_check,
}
use core_cpp_archive.Server.Quiet.{
  Learns-if, check_msg-Learns, refuse_if-Learns, return-IsQuiet, user_data-Learns,
}
use core_cpp_archive.Server.State.{PerSocketData, Services}
use core_cpp_archive.Server.Triples.{Core, Ends-bind, Ends-last, Learns, Learns-and, core}

module _ {v : Services} where
  -- The entry of the connection `id`, if there is one, is as `P` says.
  abbrev pub KnowsUser : ℕ → (PerSocketData → Type 0) → Core v → Type 0
  KnowsUser id P c = (u : PerSocketData) → find id c.connections ≡ some u → P u

  pub same_entry :
      (id : ℕ) (c : Core v) (u : PerSocketData) (P : PerSocketData → Type 0)
      → find id c.connections ≡ some u
      → P u
      → KnowsUser id P c
  same_entry id c u P at p w at' = let same : u ≡ w = cc in subst P same p

  module _ {A : Type 0} (id : ℕ) (r : Read A) where
    pub deserialize_with_login_check-Learns :
        Learns {v = v}
          (λ c msg. (r ≡ got msg) × KnowsUser id (λ u. is_empty u.username ≡ false) c)
          (deserialize_with_login_check id r)
    unfolding deserialize_with_login_check
    deserialize_with_login_check-Learns = record {
      run = λ s. Ends-bind _ _ (user_data-Learns id) s (core s) refl refl (λ u s' same at.
          Ends-last
            (Learns-if (is_empty u.username) (λ _. return-IsQuiet)
              (λ named. Learns-and named (check_msg-Learns u r)))
            s' (core s) same refl
            (λ msg (is, named). (refl, (is, same_entry id (core s) u _ at named))));
    }

    pub deserialize_with_not_login_check-Learns :
        Learns {v = v}
          (λ c msg. (r ≡ got msg) × KnowsUser id (λ u. is_empty u.username ≡ true) c)
          (deserialize_with_not_login_check id r)
    unfolding deserialize_with_not_login_check
    deserialize_with_not_login_check-Learns = record {
      run = λ s. Ends-bind _ _ (user_data-Learns id) s (core s) refl refl (λ u s' same at.
          Ends-last
            (Learns-if (is_empty u.username) (λ unnamed. Learns-and unnamed (check_msg-Learns u r))
              (λ _. return-IsQuiet))
            s' (core s) same refl
            (λ msg (is, unnamed). (refl, (is, same_entry id (core s) u _ at unnamed))));
    }

    pub deserialize_with_playing_check-Learns :
        Learns {v = v}
          (λ c msg.
            (r ≡ got msg) × KnowsUser id (λ u. ltb_ℤ u.playing_character_slot (ℤ.pos 0) ≡ false) c)
          (deserialize_with_playing_check id r)
    unfolding deserialize_with_playing_check
    deserialize_with_playing_check-Learns = record {
      run = λ s. Ends-bind _ _ (user_data-Learns id) s (core s) refl refl (λ u s' same at.
          Ends-bind _ _ (refuse_if-Learns _ _ _) s' (core s) same refl (λ _ s'' same' plays.
            Ends-last (check_msg-Learns u r) s'' (core s) same' refl
              (λ msg is. (refl, (is, same_entry id (core s) u _ at plays)))));
    }

    pub deserialize_with_not_playing_check-Learns :
        Learns {v = v}
          (λ c msg.
            (r ≡ got msg)
            × KnowsUser id
                (λ u.
                  (is_empty u.username ≡ false)
                  × (leb_ℤ (ℤ.pos 0) u.playing_character_slot ≡ false))
                c)
          (deserialize_with_not_playing_check id r)
    unfolding deserialize_with_not_playing_check
    deserialize_with_not_playing_check-Learns = record {
      run = λ s. Ends-bind _ _ (user_data-Learns id) s (core s) refl refl (λ u s_1 same at.
          Ends-bind _ _ (refuse_if-Learns _ _ _) s_1 (core s) same refl (λ _ s_2 same' named.
            Ends-bind _ _ (refuse_if-Learns _ _ _) s_2 (core s) same' refl (λ _ s_3 same'' idle.
              Ends-last (check_msg-Learns u r) s_3 (core s) same'' refl
                (λ msg is. (refl, (is, same_entry id (core s) u _ at (named, idle)))))));
    }
