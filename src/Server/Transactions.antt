-- ===== src/Server/Transactions.antt =====
-- The statements of src/message_handlers/user_access that ask the database, and those that do not.
use core_cpp_archive.Messages.Account.{CreateCharacterRequest, RegisterRequest}
use core_cpp_archive.Prelude.{
  List, Option, Text, [], ap, bytes_eq, int_eq, loc_eq, nat_eq, none, refl, some, subst, sym, ℕ,
  ◌∷◌, ◌∙◌, ◌≡◌,
}
use core_cpp_archive.Repositories.BannedUsers.{is_username_or_ip_banned}
use core_cpp_archive.Repositories.Models.{BannedUser, DbCharacter, User}
use core_cpp_archive.Server.Characters.{character_or_refuse}
use core_cpp_archive.Server.Effects.{store_stats}
use core_cpp_archive.Server.Login.{
  check_new_account, close_if_banned, hash_or_leave, leave_if_banned, user_or_refuse,
}
use core_cpp_archive.Server.NewCharacters.{check_new_character, insert_stats, starts_with_capital}
use core_cpp_archive.Server.Quiet.{refuse-IsQuiet, return-IsQuiet, send-IsQuiet}
use core_cpp_archive.Server.State.{Action, Run, Server, Services, done, returned, thrown, ub, ◌>>=◌}
use core_cpp_archive.Server.Steady.{
  Ends-known, Ends-query, Ends-steady, IsSteady, IsSteady-bind, IsSteady-if, or_throw-IsSteady,
  pure-IsSteady, refuse-IsSteady, refuse_if-IsSteady, return-IsSteady, send-IsSteady,
  send_error_as-IsSteady,
}
use core_cpp_archive.Server.Triples.{Core, EndsOr, Learns, Learns-bind, core}
use core_cpp_archive.World.{StatComponent}

answer :
    (A D : Type 0) (o : Option A) (w w' : D)
    → o ≡ none
    → w' ≡ w
    → ◌≡◌ {A = Option (Option A × D)} (some (o, w)) (some (none, w'))
answer A D o w w' e e' = cc

module _ {v : Services} where
  pub character_or_refuse-Learns :
      (hdl : ℕ) (o : Option DbCharacter)
      → Learns {v = v} (λ _ a. o ≡ some a) (character_or_refuse v hdl o)
  unfolding character_or_refuse
  character_or_refuse-Learns hdl none = refuse-IsQuiet hdl _
  character_or_refuse-Learns hdl (some a) = record { run = λ s. record { how = (refl, refl) } }

  pub character_or_refuse-IsSteady :
      (hdl : ℕ) (o : Option DbCharacter) → IsSteady (character_or_refuse v hdl o)
  unfolding character_or_refuse
  character_or_refuse-IsSteady hdl none = refuse-IsSteady hdl _
  character_or_refuse-IsSteady hdl (some a) = pure-IsSteady a

  pub user_or_refuse-Learns :
      (hdl : ℕ) (o : Option User) → Learns {v = v} (λ _ a. o ≡ some a) (user_or_refuse hdl o)
  unfolding user_or_refuse
  user_or_refuse-Learns hdl none = refuse-IsQuiet hdl _
  user_or_refuse-Learns hdl (some a) = record { run = λ s. record { how = (refl, refl) } }

  pub hash_or_leave-Learns :
      (hdl : ℕ) (o : Option Text) → Learns {v = v} (λ _ a. o ≡ some a) (hash_or_leave hdl o)
  unfolding hash_or_leave
  hash_or_leave-Learns hdl none = Learns-bind _ _ (send-IsQuiet _ _) (λ _. return-IsQuiet)
  hash_or_leave-Learns hdl (some a) = record { run = λ s. record { how = (refl, refl) } }

  pub hash_or_leave-IsSteady : (hdl : ℕ) (o : Option Text) → IsSteady {v = v} (hash_or_leave hdl o)
  unfolding hash_or_leave
  hash_or_leave-IsSteady hdl none = IsSteady-bind _ _ (send-IsSteady _ _) (λ _. return-IsSteady)
  hash_or_leave-IsSteady hdl (some a) = pure-IsSteady a

  leave_if_banned-Learns :
      (hdl : ℕ) (o : Option BannedUser) → Learns {v = v} (λ _ _. o ≡ none) (leave_if_banned hdl o)
  unfolding leave_if_banned
  leave_if_banned-Learns hdl none = record { run = λ s. record { how = (refl, refl) } }
  leave_if_banned-Learns hdl (some usr) = Learns-bind _ _ (send-IsQuiet _ _) (λ _. return-IsQuiet)

  leave_if_banned-IsSteady :
      (hdl : ℕ) (o : Option BannedUser) → IsSteady {v = v} (leave_if_banned hdl o)
  unfolding leave_if_banned
  leave_if_banned-IsSteady hdl none = pure-IsSteady tt
  leave_if_banned-IsSteady hdl (some usr) =
      IsSteady-bind _ _ (send-IsSteady _ _) (λ _. return-IsSteady)

  starts_with_capital-IsSteady : (name : Text) → IsSteady (starts_with_capital v name)
  unfolding starts_with_capital
  starts_with_capital-IsSteady name = IsSteady-bind _ _ (or_throw-IsSteady _) (λ upper.
      IsSteady-bind _ _ (or_throw-IsSteady _)
        (λ upper_chars. IsSteady-bind _ _ (or_throw-IsSteady _) (λ chars. pure-IsSteady _)))

  pub check_new_character-IsSteady :
      (hdl : ℕ) (msg : CreateCharacterRequest) → IsSteady (check_new_character v hdl msg)
  unfolding check_new_character
  check_new_character-IsSteady hdl msg =
      IsSteady-bind _ _
        (IsSteady-if _ (IsSteady-bind _ _ (send_error_as-IsSteady _ _ _ _) (λ _. return-IsSteady))
          (pure-IsSteady tt))
        (λ _. IsSteady-bind _ _ (or_throw-IsSteady _) (λ utf_name.
          IsSteady-bind _ _ (refuse_if-IsSteady _ _ _) (λ _.
            IsSteady-bind _ _ (refuse_if-IsSteady _ _ _) (λ _.
              IsSteady-bind _ _ (refuse_if-IsSteady _ _ _) (λ _.
                IsSteady-bind _ _ (starts_with_capital-IsSteady _) (λ capital.
                  IsSteady-bind _ _ (refuse_if-IsSteady _ _ _) (λ _. refuse_if-IsSteady _ _ _)))))))

  pub check_new_account-IsSteady :
      (hdl : ℕ) (msg : RegisterRequest) → IsSteady (check_new_account v hdl msg)
  unfolding check_new_account
  check_new_account-IsSteady hdl msg = IsSteady-bind _ _ (refuse_if-IsSteady _ _ _) (λ _.
      IsSteady-bind _ _ (or_throw-IsSteady _) (λ name.
        IsSteady-bind _ _ (refuse_if-IsSteady _ _ _) (λ _.
          IsSteady-bind _ _ (or_throw-IsSteady _) (λ password.
            IsSteady-bind _ _ (refuse_if-IsSteady _ _ _) (λ _.
              IsSteady-bind _ _ (refuse_if-IsSteady _ _ _) (λ _. refuse_if-IsSteady _ _ _))))))

  module _ {A B C : Type 0} (g : A → Action v B) (f : B → Action v C) where
    abbrev then_run : {X Y : Type 0} → Run v X → (X → Action v Y) → Run v Y
    then_run r k = elim r [
      | done a s' ↦ k a s'
      | returned s' ↦ returned s'
      | thrown s' ↦ thrown s'
      | ub ↦ ub
    ]

    run_assoc : (r : Run v A) → then_run (then_run r g) f ≡ then_run r (λ a s. then_run (g a s) f)
    run_assoc (done a s) = refl
    run_assoc (returned s) = refl
    run_assoc (thrown s) = refl
    run_assoc ub = refl

    bind_assoc : (m : Action v A) (s : Server v) → ((m >>= g) >>= f) s ≡ (m >>= (λ a. g a >>= f)) s
    unfolding ◌>>=◌
    bind_assoc m s = run_assoc (m s)

  module _ {B : Type 0} {Q : B → Core v → Type 0} {E : Core v → Type 0} {U : Type 0} where
    pub Ends-assoc :
        {A C : Type 0} (m : Action v A) (g : A → Action v C) (f : C → Action v B) (s : Server v)
        → EndsOr Q E U ((m >>= (λ a. g a >>= f)) s)
        → EndsOr Q E U (((m >>= g) >>= f) s)
    Ends-assoc m g f s h = subst (EndsOr Q E U) (sym (bind_assoc g f m s)) h

    pub Ends-close_if_banned :
        (hdl : ℕ) (username : Text) (f : Unit → Action v B) (s : Server v) (c : Core v)
        → core s ≡ c
        → E c
        → ((s' : Server v)
            → core s' ≡ c
            → is_username_or_ip_banned v.sql c.around.now_nanoseconds (some username) none s.view
              ≡ some (none, s'.view)
            → EndsOr Q E U (f tt s'))
        → EndsOr Q E U ((close_if_banned hdl username >>= f) s)
    unfolding close_if_banned
    Ends-close_if_banned hdl username f s c same e rest = Ends-assoc _ _ f s (
        Ends-known _ _ s s s.outside.now_nanoseconds refl (
          Ends-assoc _ _ f s (
            Ends-query _ _ s c same e (λ banned s_1 same_1 asked.
              Ends-steady _ _ (leave_if_banned-Learns hdl banned)
                (leave_if_banned-IsSteady hdl banned) s_1 c same_1 e
                (λ _ s_2 same_2 view nobody. rest s_2 same_2 (
                  ap
                    (λ (d : Core v).
                      is_username_or_ip_banned v.sql d.around.now_nanoseconds (some username) none
                        s.view)
                    (sym same)
                  ∙ asked
                  ∙ answer _ _ banned s_1.view s_2.view nobody view))))))

    pub Ends-insert_stats :
        (character_id : ℕ) (stats : List StatComponent) (f : List StatComponent → Action v B)
        (s : Server v) (c : Core v)
        → core s ≡ c
        → E c
        → ((a : List StatComponent) (s' : Server v)
            → core s' ≡ c
            → store_stats v character_id stats s.view ≡ some s'.view
            → EndsOr Q E U (f a s'))
        → EndsOr Q E U ((insert_stats v character_id stats >>= f) s)
    unfolding insert_stats
    Ends-insert_stats character_id [] f s c same e rest =
        Ends-known _ _ s s [] refl (rest [] s same refl)
    Ends-insert_stats character_id (stat ∷ stats) f s c same e rest = Ends-assoc _ _ f s (
        Ends-query _ _ s c same e (λ stored s_1 same_1 asked. Ends-assoc _ _ f s_1 (
          Ends-insert_stats character_id stats _ s_1 c same_1 e (λ others s_2 same_2 asked_2.
            Ends-known _ _ s_2 s_2 (stat ∷ others) refl
              (rest _ s_2 same_2 (rw (store_stats, asked) asked_2))))))
