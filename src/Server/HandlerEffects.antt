-- ===== src/Server/HandlerEffects.antt =====
-- Each handler of src/message_handlers has one of the effects of `Effects`.
use core_cpp_archive.GameQueue.Messages.{player_move}
use core_cpp_archive.Prelude.{
  ap, bytes_eq, find, int_eq, loc_eq, nat_eq, refl, some, subst, true, ℕ, ◌≡◌,
}
use core_cpp_archive.Rapidjson.{at}
use core_cpp_archive.Server.Commands.{
  handle_character_select, handle_move, handle_public_chat, set_motd_handler,
}
use core_cpp_archive.Server.EffectRules.{Ends-enqueue, Ends-set_motd}
use core_cpp_archive.Server.Effects.{Effect, moves, nothing, set_motto, set_queue, sets_motd}
use core_cpp_archive.Server.Guarded.{
  deserialize_with_login_check-Learns, deserialize_with_not_playing_check-Learns,
  deserialize_with_playing_check-Learns,
}
use core_cpp_archive.Server.Quiet.{
  Learns-if, broadcast-IsQuiet, deref-Learns, gets-IsQuiet, pure-Learns, return-IsQuiet,
  send-IsQuiet, user_data-Learns,
}
use core_cpp_archive.Server.State.{PerSocketData, Server, Services}
use core_cpp_archive.Server.Triples.{
  Core, Ends, Ends-bind, Ends-last, Learns-and, Learns-bind, core,
}

module _ {v : Services} (d : v.json.Value) (id : ℕ) (u : PerSocketData) (s : Server v)
    (at_id : find id s.user_connections ≡ some u) where
  abbrev Allowed : Core v → Type 0
  Allowed = Effect d id u (core s)

  -- The entry that a handler reads is `u`.
  read_again :
      (c : Core v) (w : PerSocketData) → c ≡ core s → find id c.connections ≡ some w → w ≡ u
  read_again c w same at = cc

  pub handle_move-Effect : Ends (λ _. Allowed) Allowed (handle_move v d id s)
  unfolding handle_move
  handle_move-Effect =
      Ends-bind _ _ (deserialize_with_playing_check-Learns id _) s (core s) refl (nothing refl)
        (λ msg s_1 same (is, plays).
          Ends-bind _ _ (user_data-Learns id) s_1 (core s) same (nothing refl) (λ w s_2 same' at.
            Ends-enqueue _ s_2 (core s) same' (
              moves msg is (plays u at_id) (
                ap
                  (λ (w : PerSocketData).
                    set_queue
                      (player_move
                        (record { connection_id = w.connection_id; x = msg.x; y = msg.y }))
                      (core s))
                  (read_again (core s) w refl at)))))

  pub handle_public_chat-Effect : Ends (λ _. Allowed) Allowed (handle_public_chat v d id s)
  unfolding handle_public_chat
  handle_public_chat-Effect =
      Ends-last
        (Learns-bind _ _ (deserialize_with_login_check-Learns id _) (λ msg.
          Learns-bind _ _ (user_data-Learns id) (λ w.
            Learns-bind _ _ (gets-IsQuiet _)
              (λ now. Learns-bind _ _ (deref-Learns _) (λ clean. broadcast-IsQuiet _)))))
        s (core s) refl (nothing refl) (λ _ _. nothing refl)

  pub handle_character_select-Effect :
      Ends (λ _. Allowed) Allowed (handle_character_select v d id s)
  unfolding handle_character_select
  handle_character_select-Effect =
      Ends-last
        (Learns-bind _ _ (deserialize_with_not_playing_check-Learns id _)
          (λ msg. Learns-bind _ _ (user_data-Learns id) (λ w. send-IsQuiet _ _)))
        s (core s) refl (nothing refl) (λ _ _. nothing refl)

  pub set_motd_handler-Effect : Ends (λ _. Allowed) Allowed (set_motd_handler v d id s)
  unfolding set_motd_handler
  set_motd_handler-Effect =
      Ends-bind _ _ (user_data-Learns id) s (core s) refl (nothing refl) (λ w s_1 same at.
        Ends-bind _ _
          (Learns-if w.is_game_master (λ m. Learns-and m (pure-Learns tt)) (λ _. return-IsQuiet))
          s_1 (core s) same (nothing refl)
          (λ _ s_2 same' (_, master).
            Ends-bind _ _ (deserialize_with_playing_check-Learns id _) s_2 (core s) same'
              (nothing refl)
              (λ msg s_3 same'' (is, plays). Ends-set_motd _ _ s_3 (core s) same'' (λ s_4 changed.
                let e : w ≡ u = read_again (core s) w refl at in
                let allowed : Allowed (set_motto msg.motd (core s)) =
                  sets_motd msg is (subst (λ w. w.is_game_master ≡ true) e master) (plays u at_id)
                    refl in
                Ends-last (broadcast-IsQuiet _) s_4 _ changed allowed (λ _ _. allowed)))))
