-- ===== src/Server/Registration.antt =====
-- What src/message_handlers/user_access/register_handler.cpp does with a registration that can be read.
use core_cpp_archive.Messages.Account.{RegisterRequest, deserialize_register_request}
use core_cpp_archive.Prelude.{
  Bool, ap, arith, bytes_eq, false, find, if◌then◌else◌, int_eq, is_empty, loc_eq, nat_eq, none,
  not, refl, some, subst, sym, true, ℕ, ◌↔◌, ◌∙◌, ◌≡◌,
}
use core_cpp_archive.Rapidjson.{Read, got, nullopt, undefined}
use core_cpp_archive.Repositories.BannedUsers.{is_username_or_ip_banned}
use core_cpp_archive.Repositories.Models.{empty_user}
use core_cpp_archive.Repositories.Users.{get_user, insert_user_if_not_exists}
use core_cpp_archive.Server.EffectRules.{Ends-commit, Ends-deref_none, Ends-set_user_data}
use core_cpp_archive.Server.Guards.{check_msg, deserialize_with_not_login_check}
use core_cpp_archive.Server.Login.{handle_register}
use core_cpp_archive.Server.Quiet.{refuse-IsQuiet, refuse_if-Learns}
use core_cpp_archive.Server.Registrable.{
  IsRegistrable, Undefined, misread, registered, is_none, check_new_account-Learns, forget,
  Run-known, first-ub, query_lem, begin_lem, refuse_if_lem, hash_or_leave_lem, stored-ub,
  check_new_account_lem, close_if_banned_lem,
}
use core_cpp_archive.Server.State.{
  Action, PerSocketData, Server, Services, deref, done, return, ub, user_data, ◌>>=◌,
}
use core_cpp_archive.Server.Steady.{
  Ends-begin, Ends-known, Ends-query, Ends-steady, refuse-IsSteady, refuse_if-IsSteady,
}
use core_cpp_archive.Server.Transactions.{
  Ends-assoc, Ends-close_if_banned, check_new_account-IsSteady, hash_or_leave-IsSteady,
  hash_or_leave-Learns,
}
use core_cpp_archive.Server.Triples.{Core, Ends, EndsOr, core}

module _ {v : Services} (d : v.json.Value) (id : ℕ) (u : PerSocketData) (s : Server v)
    (at_id : find id s.user_connections ≡ some u) where
  read_user : user_data {v = v} id s ≡ done u s
  unfolding user_data deref
  read_user = rw at_id refl

  module _ {A B : Type 0} {Q : B → Core v → Type 0} {U : Type 0} (f : A → Action v B) where
    checked :
        (b : Bool) (r : Read A)
        → (b ≡ true → r ≡ undefined → U)
        → ((a : A) → b ≡ true → r ≡ got a → EndsOr Q (λ c. c ≡ core s) U (f a s))
        → EndsOr Q (λ c. c ≡ core s) U (((if b then check_msg u r else return) >>= f) s)
    unfolding check_msg ◌>>=◌
    checked false r unread rest = record { how = refl }
    checked true undefined unread rest = record { how = unread refl refl }
    checked true nullopt unread rest =
        Ends-steady _ _ (refuse-IsQuiet {P = λ _ _. ⊥} u.ws _) (refuse-IsSteady u.ws _) s (core s)
          refl refl (λ a s' same stay no. elim no [ ])
    checked true (got a) unread rest = rest a refl refl

    Ends-checked :
        (r : Read A)
        → (is_empty u.username ≡ true → r ≡ undefined → U)
        → ((a : A) → is_empty u.username ≡ true → r ≡ got a → EndsOr Q (λ c. c ≡ core s) U (f a s))
        → EndsOr Q (λ c. c ≡ core s) U ((deserialize_with_not_login_check id r >>= f) s)
    unfolding deserialize_with_not_login_check
    Ends-checked r unread rest =
        Ends-assoc _ _ f s
          (Ends-known _ _ s s u read_user (checked (is_empty u.username) r unread rest))

  register-Ends :
      EndsOr (λ _ _. ⊥) (λ c. c ≡ core s) (Undefined v d u (core s)) (handle_register v d id s)
  unfolding handle_register
  register-Ends =
      Ends-checked _ _ (λ unnamed unread. misread unnamed unread)
        (λ msg unnamed is. Ends-known _ _ s s u read_user (
          Ends-steady _ _ (check_new_account-Learns _ msg) (check_new_account-IsSteady _ msg) s
            (core s) refl refl
            (λ _ s_3 same _ account. Ends-begin _ s_3 (core s) same (λ s_4 same seen.
              Ends-close_if_banned _ _ _ s_4 (core s) same refl (λ s_5 same not_banned.
                Ends-query _ _ s_5 (core s) same refl (λ usr s_6 same asked.
                  Ends-steady _ _ (refuse_if-Learns _ _ _) (refuse_if-IsSteady _ _ _) s_6 (core s)
                    same refl
                    (λ _ s_7 same stay_7 unknown.
                      Ends-steady _ _ (hash_or_leave-Learns _ _) (hash_or_leave-IsSteady _ _) s_7
                        (core s) same refl
                        (λ hashed s_8 same stay_8 is_hashed.
                          Ends-query _ _ s_8 (core s) same refl (λ row s_9 same inserted.
                            Ends-steady _ _ (refuse_if-Learns _ _ _) (refuse_if-IsSteady _ _ _) s_9
                              (core s) same refl
                              (λ _ s_10 same _ new.
                                Ends-commit _ s_10 (core s) same (λ s_11 changed.
                                  Ends-set_user_data _ id _ s_11 _ changed (λ s_12 changed' _.
                                    Ends-deref_none usr _ s_12 unknown (
                                      registered msg unnamed is (record {
                                        account = account;
                                        db_1 = s_5.view;
                                        db_2 = s_6.view;
                                        db_3 = s_9.view;
                                        hashed = hashed;
                                        row = row;
                                        not_banned =
                                            ap
                                              (is_username_or_ip_banned v.sql
                                                s.outside.now_nanoseconds (some msg.username) none)
                                              (sym seen)
                                            ∙ not_banned;
                                        not_taken =
                                            asked
                                            ∙ ap (λ o. some (o, s_6.view)) (is_none usr unknown);
                                        is_hashed = is_hashed;
                                        inserted =
                                            ap
                                              (insert_user_if_not_exists v.sql (record empty_user {
                                                username = msg.username;
                                                password = hashed;
                                                email = msg.email;
                                              }))
                                              (sym (stay_8 ∙ stay_7))
                                            ∙ inserted;
                                        new = ground (arith, new);
                                      }))))))))))))))

  -- A registration that ends, short of undefined behaviour, leaves the core as it was.
  pub handle_register-Ends : Ends (λ _ _. ⊥) (λ c. c ≡ core s) (handle_register v d id s)
  handle_register-Ends = forget _ register-Ends

  read_msg :
      (msg : RegisterRequest)
      → is_empty u.username ≡ true
      → deserialize_register_request v.json d ≡ got msg
      → deserialize_with_not_login_check {v = v} id (deserialize_register_request v.json d) s
        ≡ done msg s
  unfolding deserialize_with_not_login_check check_msg
  read_msg msg unnamed is = Run-known _ _ s s u read_user (rw (unnamed, is) refl)

  register-ub :
      (msg : RegisterRequest)
      → is_empty u.username ≡ true
      → deserialize_register_request v.json d ≡ got msg
      → IsRegistrable v (core s) msg
      → handle_register v d id s ≡ ub
  unfolding handle_register
  register-ub msg unnamed is h = Run-known _ _ s s msg (read_msg msg unnamed is) (
      Run-known _ _ s s u read_user (
        Run-known _ _ s s tt (check_new_account_lem u.ws msg s h.account) (
          Run-known _ _ s (record s { view = s.db }) tt (begin_lem s)
            (Run-known _ _ (record s { view = s.db }) (record s { view = h.db_1 }) tt
              (close_if_banned_lem u.ws msg.username (record s { view = s.db }) h.db_1 h.not_banned)
              (Run-known _ _ (record s { view = h.db_1 }) (record s { view = h.db_2 }) none
                (query_lem (get_user v.sql msg.username) (record s { view = h.db_1 }) none h.db_2
                  h.not_taken)
                (Run-known _ _ (record s { view = h.db_2 }) (record s { view = h.db_2 }) tt
                  (refuse_if_lem false u.ws _ (record s { view = h.db_2 }) refl)
                  (Run-known _ _ (record s { view = h.db_2 }) (record s { view = h.db_2 }) h.hashed
                    (hash_or_leave_lem u.ws (v.pwhash msg.password) (record s { view = h.db_2 })
                      h.hashed h.is_hashed)
                    (Run-known _ _ (record s { view = h.db_2 }) (record s { view = h.db_3 }) h.row
                      (query_lem _ (record s { view = h.db_2 }) h.row h.db_3 h.inserted)
                      (Run-known _ _ (record s { view = h.db_3 }) (record s { view = h.db_3 }) tt
                        (refuse_if_lem (not h.row.0) u.ws _ (record s { view = h.db_3 })
                          (ground (arith, h.new)))
                        (stored-ub (record s { view = h.db_3 }) _ _ _))))))))))

  misread-ub :
      is_empty u.username ≡ true
      → deserialize_register_request v.json d ≡ undefined
      → handle_register v d id s ≡ ub
  unfolding handle_register deserialize_with_not_login_check check_msg
  misread-ub unnamed unread =
      first-ub _ _ s (Run-known _ _ s s u read_user (rw (unnamed, unread) refl))

  Undefined-ub : Undefined v d u (core s) → handle_register v d id s ≡ ub
  Undefined-ub (misread unnamed unread) = misread-ub unnamed unread
  Undefined-ub (registered msg unnamed is h) = register-ub msg unnamed is h

  -- A registration over a connection that has an entry never gets to its end: it is refused, or an
  -- exception ends it, with the state as it was but for what is sent and what the open transaction
  -- sees, or its behaviour is undefined. Undefined it is exactly if the connection is not logged in
  -- and the message is read in an undefined way or the account can be made: the name and the
  -- password are as asked, the name is not banned and not taken, the password is hashed and the
  -- new row is inserted.
  pub handle_register_lem :
      Ends (λ _ _. ⊥) (λ c. c ≡ core s) (handle_register v d id s)
      × (handle_register v d id s ≡ ub ↔ Undefined v d u (core s))
  handle_register_lem = (
    handle_register-Ends,
    (
      λ e.
          (subst (EndsOr (λ _ _. ⊥) (λ c. c ≡ core s) (Undefined v d u (core s))) e
            register-Ends).how,
      Undefined-ub,
    ),
  )
