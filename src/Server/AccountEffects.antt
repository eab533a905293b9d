-- ===== src/Server/AccountEffects.antt =====
-- What logging in does.
use core_cpp_archive.Prelude.{
  ap, arith, bytes_eq, find, int_eq, loc_eq, nat_eq, none, refl, some, sym, ℕ, ◌∙◌, ◌≡◌,
}
use core_cpp_archive.Rapidjson.{at}
use core_cpp_archive.Repositories.BannedUsers.{is_username_or_ip_banned}
use core_cpp_archive.Server.EffectRules.{Ends-set_user_data}
use core_cpp_archive.Server.Effects.{Effect, logged_in, logs_in, nothing, set_entry}
use core_cpp_archive.Server.Guarded.{deserialize_with_not_login_check-Learns}
use core_cpp_archive.Server.Login.{handle_login}
use core_cpp_archive.Server.Quiet.{query-IsQuiet, refuse_if-Learns, user_data-Learns}
use core_cpp_archive.Server.QuietAccounts.{message_players_of-IsQuiet, welcome-IsQuiet}
use core_cpp_archive.Server.Steady.{Ends-begin, Ends-query}
use core_cpp_archive.Server.Transactions.{Ends-close_if_banned, user_or_refuse-Learns}
use core_cpp_archive.Server.State.{PerSocketData, Server, Services}
use core_cpp_archive.Server.Triples.{Core, Ends, Ends-bind, Ends-last, Learns-bind, core}

module _ {v : Services} (d : v.json.Value) (id : ℕ) (u : PerSocketData) (s : Server v)
    (at_id : find id s.user_connections ≡ some u) where
  abbrev Allowed : Core v → Type 0
  Allowed = Effect d id u (core s)

  read_again : (w : PerSocketData) → find id s.user_connections ≡ some w → w ≡ u
  read_again w at = cc

  pub handle_login-Effect : Ends (λ _. Allowed) Allowed (handle_login v d id s)
  unfolding handle_login
  handle_login-Effect =
      Ends-bind _ _ (deserialize_with_not_login_check-Learns id _) s (core s) refl (nothing refl)
        (λ msg s_1 same (is, unnamed).
          Ends-bind _ _ (user_data-Learns id) s_1 (core s) same (nothing refl) (λ w s_2 same at.
            Ends-begin _ s_2 (core s) same (λ s_3 same seen.
              Ends-close_if_banned _ _ _ s_3 (core s) same (nothing refl) (λ s_4 same not_banned.
                Ends-query _ _ s_4 (core s) same (nothing refl) (λ row s_5 same asked.
                  Ends-bind _ _ (user_or_refuse-Learns _ row) s_5 (core s) same (nothing refl)
                    (λ usr s_6 same found.
                      Ends-bind _ _ (refuse_if-Learns _ _ _) s_6 (core s) same (nothing refl)
                        (λ _ s_7 same verified.
                          Ends-set_user_data _ id _ s_7 (core s) same (λ s_8 changed _.
                            let allowed : Allowed (set_entry id (logged_in usr w) (core s)) =
                              logs_in msg usr is (unnamed u at_id)
                                (record {
                                  after_ban = s_4.view;
                                  after_user = s_5.view;
                                  not_banned =
                                      ap
                                        (is_username_or_ip_banned v.sql s.outside.now_nanoseconds
                                          (some msg.username) none)
                                        (sym seen)
                                      ∙ not_banned;
                                  found = asked ∙ ap (λ o. some (o, s_5.view)) found;
                                  verified = ground (arith, verified);
                                })
                                (ap (λ w. set_entry id (logged_in usr w) (core s))
                                  (read_again w at)) in
                            Ends-last
                              (Learns-bind _ _ (query-IsQuiet _) (λ players.
                                Learns-bind _ _ (message_players_of-IsQuiet players)
                                  (λ message_players. welcome-IsQuiet _ _ _)))
                              s_8 _ changed allowed (λ _ _. allowed)))))))))
