-- ===== src/Server/CharacterEffects.antt =====
-- What playing, creating and deleting a character do.
use core_cpp_archive.Censor.Sensor.{is_profane_ish}
use core_cpp_archive.GameQueue.Messages.{player_enter}
use core_cpp_archive.Messages.Account.{CreateCharacterRequest, PlayCharacterRequest}
use core_cpp_archive.Prelude.{
  Option, Text, ap, arith, bytes_eq, false, find, int_eq, loc_eq, nat_eq, refl, some, subst, sym, ℕ,
  ◌∙◌, ◌≡◌,
}
use core_cpp_archive.Rapidjson.{at}
use core_cpp_archive.Repositories.CharacterReads.{get_character_by_slot}
use core_cpp_archive.Repositories.Characters.{delete_character_by_slot}
use core_cpp_archive.Repositories.Locations.{insert_location}
use core_cpp_archive.Repositories.Models.{DbCharacter, IncludedTables}
use core_cpp_archive.Repositories.Stats.{get_by_character_id}
use core_cpp_archive.Server.Characters.{
  handle_delete_character, handle_play_character, is_played, plays_elsewhere,
}
use core_cpp_archive.Server.EffectRules.{Ends-commit, Ends-enqueue, Ends-set_user_data}
use core_cpp_archive.Server.Effects.{
  Effect, IsAcceptable, IsFree, IsIdle, IsLoggedIn, IsStored, creates, deletes, entering_message,
  enters, nothing, playing, selects_slot, set_committed, set_entry, set_queue, store_stats,
}
use core_cpp_archive.Server.Guarded.{deserialize_with_not_playing_check-Learns}
use core_cpp_archive.Server.NewCharacters.{
  check_new_character, handle_create_character, starts_with_capital,
}
use core_cpp_archive.Server.Quiet.{
  Learns-if, broadcast-IsQuiet, connections-Learns, deref-Learns, or_throw-Learns, pure-Learns,
  refuse_if-Learns, return-IsQuiet, send-IsQuiet, send_error_as-IsQuiet, user_data-Learns,
}
use core_cpp_archive.Server.State.{PerSocketData, Server, Services, UserConnections}
use core_cpp_archive.Server.Steady.{
  Ends-begin, Ends-query, Ends-steady, gets-IsSteady, refuse_if-IsSteady,
}
use core_cpp_archive.Server.Transactions.{
  Ends-insert_stats, character_or_refuse-IsSteady, character_or_refuse-Learns,
  check_new_character-IsSteady,
}
use core_cpp_archive.Server.Triples.{
  Core, Ends, Ends-bind, Ends-last, IsQuiet, Learns, Learns-and, Learns-bind, Learns-forget, core,
}

module _ {v : Services} (d : v.json.Value) (id : ℕ) (u : PerSocketData) (s : Server v)
    (at_id : find id s.user_connections ≡ some u) where
  abbrev Allowed : Core v → Type 0
  Allowed = Effect d id u (core s)

  read_again : (w : PerSocketData) → find id s.user_connections ≡ some w → w ≡ u
  read_again w at = cc

  -- What is known of the connection before a slot is taken.
  slot_taken :
      (msg : PlayCharacterRequest) (character : DbCharacter) (row : Option DbCharacter)
      (w : PerSocketData) (others : UserConnections) (before after : v.sql.Db)
      → w ≡ u
      → IsLoggedIn u
      → IsIdle u
      → before ≡ s.db
      → get_character_by_slot v.sql msg.slot w.user_id IncludedTables.location_table before
        ≡ some (row, after)
      → row ≡ some character
      → others ≡ s.user_connections
      → plays_elsewhere w msg.slot others ≡ false
      → IsFree (core s) u msg.slot character after
  slot_taken msg character row w others before after here logged idle seen asked found all free =
      record {
        logged = logged;
        idle = idle;
        found =
            ap
              (λ (w : PerSocketData).
                get_character_by_slot v.sql msg.slot w.user_id IncludedTables.location_table s.db)
              (sym here)
            ∙ ap (get_character_by_slot v.sql msg.slot w.user_id IncludedTables.location_table)
                (sym seen)
            ∙ asked
            ∙ ap (λ o. some (o, after)) found;
        free =
            ap (plays_elsewhere u msg.slot) (sym all)
            ∙ ap (λ w. plays_elsewhere w msg.slot others) (sym here)
            ∙ free;
      }

  pub handle_play_character-Effect : Ends (λ _. Allowed) Allowed (handle_play_character v d id s)
  unfolding handle_play_character
  handle_play_character-Effect =
      Ends-bind _ _ (deserialize_with_not_playing_check-Learns id _) s (core s) refl (nothing refl)
        (λ msg s_1 same (is, may).
          Ends-bind _ _ (user_data-Learns id) s_1 (core s) same (nothing refl) (λ w s_2 same at.
            Ends-begin _ s_2 (core s) same (λ s_3 same seen.
              Ends-query _ _ s_3 (core s) same (nothing refl) (λ row s_4 same asked.
                Ends-steady _ _ (character_or_refuse-Learns _ row)
                  (character_or_refuse-IsSteady _ row) s_4 (core s) same (nothing refl)
                  (λ character s_5 same stay_5 found.
                    Ends-steady _ _ connections-Learns (gets-IsSteady _) s_5 (core s) same
                      (nothing refl)
                      (λ others s_6 same stay_6 all.
                        Ends-steady _ _ (refuse_if-Learns _ _ _) (refuse_if-IsSteady _ _ _) s_6
                          (core s) same (nothing refl)
                          (λ _ s_7 same stay_7 free.
                            Ends-set_user_data _ id _ s_7 (core s) same (λ s_8 changed stay_8.
                              let here : w ≡ u = read_again w at in
                              let taken : IsFree (core s) u msg.slot character s_4.view =
                                slot_taken msg character row w others s_3.view s_4.view here
                                  (may u at_id).0 (may u at_id).1 seen asked found all free in
                              let view : s_8.view ≡ s_4.view = stay_8 ∙ stay_7 ∙ stay_6 ∙ stay_5 in
                              let c : Core v = set_entry id (playing msg.slot w) (core s) in
                              let set : c ≡ set_entry id (playing msg.slot u) (core s) =
                                ap (λ w. set_entry id (playing msg.slot w) (core s)) here in
                              let chosen : Allowed c =
                                selects_slot msg character s_4.view is taken set in
                              Ends-query _ _ s_8 c changed chosen (λ db_stats s_9 changed stored.
                                Ends-bind _ _ (broadcast-IsQuiet _) s_9 c changed chosen
                                  (λ _ s_10 changed _.
                                    Ends-bind _ _ (refuse_if-Learns _ _ _) s_10 c changed chosen
                                      (λ _ s_11 changed allegiance.
                                        Ends-bind _ _ (refuse_if-Learns _ _ _) s_11 c changed chosen
                                          (λ _ s_12 changed class.
                                            Ends-bind _ _ (deref-Learns character.loc) s_12 c
                                              changed chosen
                                              (λ location s_13 changed place.
                                                Ends-enqueue _ s_13 c changed (
                                                  enters msg character s_4.view
                                                    (entering_message u character location db_stats)
                                                    is taken
                                                    (record {
                                                      db_stats = db_stats;
                                                      after = s_9.view;
                                                      location = location;
                                                      stored =
                                                          ap
                                                            (get_by_character_id v.sql character.id)
                                                            (sym view)
                                                          ∙ stored;
                                                      allegiance = ground (arith, allegiance);
                                                      class = ground (arith, class);
                                                      place = place;
                                                      is = refl;
                                                    })
                                                    (ap
                                                      (λ w.
                                                        set_queue
                                                          (player_enter (
                                                            entering_message w character location
                                                            db_stats))
                                                          (set_entry id (playing msg.slot w)
                                                            (core s)))
                                                      here)))))))))))))))

  pub handle_delete_character-Effect :
      Ends (λ _. Allowed) Allowed (handle_delete_character v d id s)
  unfolding handle_delete_character
  handle_delete_character-Effect =
      Ends-bind _ _ (deserialize_with_not_playing_check-Learns id _) s (core s) refl (nothing refl)
        (λ msg s_1 same (is, may).
          Ends-bind _ _ (user_data-Learns id) s_1 (core s) same (nothing refl) (λ w s_2 same at.
            Ends-bind _ _ connections-Learns s_2 (core s) same (nothing refl)
              (λ others s_3 same all.
                Ends-bind _ _ (refuse_if-Learns _ _ _) s_3 (core s) same (nothing refl)
                  (λ _ s_4 same free. Ends-begin _ s_4 (core s) same (λ s_5 same seen.
                    Ends-query _ _ s_5 (core s) same (nothing refl) (λ _ s_6 same asked.
                      let free_u : is_played u.user_id msg.slot s.user_connections ≡ false =
                        ap (is_played u.user_id msg.slot) (sym all)
                        ∙ ap (λ w. is_played w.user_id msg.slot others) (sym (read_again w at))
                        ∙ free in
                      let asked_u : delete_character_by_slot v.sql msg.slot u.user_id s.db
                          ≡ some (tt, s_6.view) =
                        ap
                          (λ (w : PerSocketData).
                            delete_character_by_slot v.sql msg.slot w.user_id s.db)
                          (sym (read_again w at))
                        ∙ ap (delete_character_by_slot v.sql msg.slot w.user_id) (sym seen)
                        ∙ asked in
                      Ends-commit _ s_6 (core s) same (λ s_7 changed.
                        let allowed : Allowed (set_committed s_6.view (core s)) =
                          deletes msg s_6.view is (may u at_id).0 (may u at_id).1 free_u asked_u
                            refl in
                        Ends-last (send-IsQuiet _ _) s_7 _ changed allowed (λ _ _. allowed))))))))

  starts_with_capital-IsQuiet : (name : Text) → IsQuiet (starts_with_capital v name)
  unfolding starts_with_capital
  starts_with_capital-IsQuiet name = Learns-bind _ _ (or_throw-Learns _) (λ upper.
      Learns-bind _ _ (or_throw-Learns _) (λ upper_chars.
        Learns-bind _ _ (or_throw-Learns _) (λ chars. Learns-forget (pure-Learns _))))

  pub check_new_character-Learns :
      (hdl : ℕ) (msg : CreateCharacterRequest)
      → Learns (λ c _. IsAcceptable v msg) (check_new_character v hdl msg)
  unfolding check_new_character
  check_new_character-Learns hdl msg = record {
    run = λ s.
        Ends-bind _ _
          (Learns-if (is_profane_ish v.sensor msg.name)
            (λ _. Learns-bind _ _ (send_error_as-IsQuiet _ _ _ _) (λ _. return-IsQuiet))
            (λ clean. Learns-and clean (pure-Learns tt)))
          s (core s) refl refl
          (λ _ s_1 same (_, clean).
            Ends-bind _ _ (or_throw-Learns _) s_1 (core s) same refl (λ utf_name s_2 same decoded.
              Ends-bind _ _ (refuse_if-Learns _ _ _) s_2 (core s) same refl (λ _ s_3 same size.
                Ends-bind _ _ (refuse_if-Learns _ _ _) s_3 (core s) same refl
                  (λ _ s_4 same no_digit.
                    Ends-bind _ _ (refuse_if-Learns _ _ _) s_4 (core s) same refl
                      (λ _ s_5 same no_space.
                        Ends-bind _ _ (starts_with_capital-IsQuiet msg.name) s_5 (core s) same refl
                          (λ capital s_6 same _.
                            Ends-bind _ _ (refuse_if-Learns _ _ _) s_6 (core s) same refl
                              (λ _ s_7 same _.
                                Ends-last (refuse_if-Learns _ _ _) s_7 (core s) same refl
                                  (λ _ known. (
                                    refl,
                                    record {
                                      clean = clean;
                                      chars = utf_name;
                                      decoded = decoded;
                                      at_least_2 = ground (arith, size);
                                      at_most_20 = ground (arith, size);
                                      no_digit = no_digit;
                                      no_space = no_space;
                                      known_class = ground (arith, known);
                                    },
                                  )))))))));
  }

  pub handle_create_character-Effect :
      Ends (λ _. Allowed) Allowed (handle_create_character v d id s)
  unfolding handle_create_character
  handle_create_character-Effect =
      Ends-bind _ _ (deserialize_with_not_playing_check-Learns id _) s (core s) refl (nothing refl)
        (λ msg s_1 same (is, may).
          Ends-bind _ _ (user_data-Learns id) s_1 (core s) same (nothing refl) (λ w s_2 same at.
            Ends-begin _ s_2 (core s) same (λ s_3 same seen.
              Ends-query _ _ s_3 (core s) same (nothing refl) (λ existing s_4 same looked.
                Ends-steady _ _ (refuse_if-Learns _ _ _) (refuse_if-IsSteady _ _ _) s_4 (core s)
                  same (nothing refl)
                  (λ _ s_5 same stay_5 empty.
                    Ends-steady _ _ (check_new_character-Learns _ msg)
                      (check_new_character-IsSteady _ msg) s_5 (core s) same (nothing refl)
                      (λ _ s_6 same stay_6 good.
                        Ends-query _ _ s_6 (core s) same (nothing refl)
                          (λ location s_7 same located.
                            Ends-query _ _ s_7 (core s) same (nothing refl)
                              (λ row s_8 same inserted.
                                Ends-steady _ _ (refuse_if-Learns _ _ _) (refuse_if-IsSteady _ _ _)
                                  s_8 (core s) same (nothing refl)
                                  (λ _ s_9 same stay_9 new.
                                    Ends-insert_stats _ _ _ s_9 (core s) same (nothing refl)
                                      (λ player_stats s_10 same stored.
                                        Ends-commit _ s_10 (core s) same (λ s_11 changed.
                                          let by_w : IsStored v w msg s_3.view s_10.view = record {
                                            existing = existing;
                                            location = location;
                                            row = row;
                                            db_1 = s_4.view;
                                            db_2 = s_7.view;
                                            db_3 = s_8.view;
                                            looked = looked;
                                            empty = empty;
                                            located =
                                                ap (insert_location v.sql _) (sym (stay_6 ∙ stay_5))
                                                ∙ located;
                                            inserted = inserted;
                                            new = ground (arith, new);
                                            stats =
                                                ap
                                                  (store_stats v row.1.id
                                                    v.select_response.base_stats)
                                                  (sym stay_9)
                                                ∙ stored;
                                          } in
                                          let by_u : IsStored v u msg s.db s_10.view =
                                            subst (λ w. IsStored v w msg s.db s_10.view)
                                              (read_again w at)
                                              (subst (λ db. IsStored v w msg db s_10.view) seen
                                                by_w) in
                                          let allowed : Allowed (set_committed s_10.view (core s)) =
                                            creates msg s_10.view is (may u at_id).0 (may u at_id).1
                                              good by_u refl in
                                          Ends-last
                                            (Learns-bind _ _ (deref-Learns _)
                                              (λ loc. send-IsQuiet _ _))
                                            s_11 _ changed allowed (λ _ _. allowed))))))))))))
