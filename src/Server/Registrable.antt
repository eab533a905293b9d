-- ===== src/Server/Registrable.antt =====
-- When src/message_handlers/user_access/register_handler.cpp makes an account, and how its
-- statements run then.
use core_cpp_archive.Censor.Sensor.{is_profane_ish}
use core_cpp_archive.Messages.Account.{RegisterRequest, deserialize_register_request}
use core_cpp_archive.Prelude.{
  Bool, Option, Text, ap, arith, bytes_eq, false, int_eq, is_empty, length, loc_eq, nat_eq, none,
  refl, some, true, ℕ, ◌==◌, ◌||◌, ltb, ◌∙◌, ◌≡◌, ◌≤◌,
}
use core_cpp_archive.Rapidjson.{got, is_some, undefined}
use core_cpp_archive.Repositories.BannedUsers.{is_username_or_ip_banned}
use core_cpp_archive.Repositories.Models.{User, empty_user}
use core_cpp_archive.Repositories.Sql.{Query}
use core_cpp_archive.Repositories.Users.{get_user, insert_user_if_not_exists}
use core_cpp_archive.Server.Login.{
  check_new_account, close_if_banned, hash_or_leave, leave_if_banned,
}
use core_cpp_archive.Server.Quiet.{or_throw-Learns, refuse_if-Learns}
use core_cpp_archive.Server.State.{
  Action, PerSocketData, Run, Server, Services, begin_transaction, commit, deref, done, or_throw,
  query, refuse_if, returned, set_user_data, thrown, ub, ◌>>=◌,
}
use core_cpp_archive.Server.Triples.{Core, Ends, Ends-bind, Ends-last, EndsOr, Learns, core}

-- What is asked of the name and the password of a new account.
pub record IsAccount (v : Services) (msg : RegisterRequest) : Type 0 where
  pub clean : is_profane_ish v.sensor msg.username ≡ false
  pub name : Text
  pub decoded : v.to_utf32 msg.username ≡ some name
  pub at_least_2 : 2 ≤ length name
  pub at_most_20 : length name ≤ 20
  pub password : Text
  pub password_decoded : v.to_utf32 msg.password ≡ some password
  pub at_least_8 : 8 ≤ length password
  pub not_the_name : (msg.password == msg.username) ≡ false
  pub not_the_email : (msg.password == msg.email) ≡ false

-- An account that can be made: it is as asked, its name is not banned and not taken, the password
-- is hashed, and the row is inserted.
pub record IsRegistrable (v : Services) (c : Core v) (msg : RegisterRequest) : Type 0 where
  pub account : IsAccount v msg
  pub db_1 : v.sql.Db
  pub db_2 : v.sql.Db
  pub db_3 : v.sql.Db
  pub hashed : Text
  pub row : Bool × User
  pub not_banned :
      is_username_or_ip_banned v.sql c.around.now_nanoseconds (some msg.username) none c.committed
      ≡ some (none, db_1)
  pub not_taken : get_user v.sql msg.username db_1 ≡ some (none, db_2)
  pub is_hashed : v.pwhash msg.password ≡ some hashed
  pub inserted :
      insert_user_if_not_exists v.sql
        (record empty_user { username = msg.username; password = hashed; email = msg.email })
        db_2
      ≡ some (row, db_3)
  pub new : row.0 ≡ true

-- Why the behaviour of a registration over the connection with the entry `u` is undefined: the
-- message is read in a way that is, or the account can be made.
pub data Undefined (v : Services) (d : v.json.Value) (u : PerSocketData) (c : Core v) : Type 0 where
  misread :
      is_empty u.username ≡ true
      → deserialize_register_request v.json d ≡ undefined
      → Undefined v d u c
  registered :
      (msg : RegisterRequest)
      → is_empty u.username ≡ true
      → deserialize_register_request v.json d ≡ got msg
      → IsRegistrable v c msg
      → Undefined v d u c

pub is_none : {A : Type 0} (o : Option A) → is_some o ≡ false → o ≡ none
is_none none e = refl
is_none (some a) e = ground (arith, e)

size :
    (name : Text)
    → 2 ≤ length name
    → length name ≤ 20
    → (ltb (length name) 2 || ltb 20 (length name)) ≡ false
size name h k = ground arith

long : (password : Text) → 8 ≤ length password → ltb (length password) 8 ≡ false
long password h = ground arith

module _ {v : Services} where
  pub check_new_account-Learns :
      (hdl : ℕ) (msg : RegisterRequest)
      → Learns (λ _ _. IsAccount v msg) (check_new_account v hdl msg)
  unfolding check_new_account
  check_new_account-Learns hdl msg = record {
    run = λ s. Ends-bind _ _ (refuse_if-Learns _ _ _) s (core s) refl refl (λ _ s_1 same clean.
        Ends-bind _ _ (or_throw-Learns _) s_1 (core s) same refl (λ name s_2 same decoded.
          Ends-bind _ _ (refuse_if-Learns _ _ _) s_2 (core s) same refl (λ _ s_3 same size.
            Ends-bind _ _ (or_throw-Learns _) s_3 (core s) same refl (λ password s_4 same decoded'.
              Ends-bind _ _ (refuse_if-Learns _ _ _) s_4 (core s) same refl (λ _ s_5 same long.
                Ends-bind _ _ (refuse_if-Learns _ _ _) s_5 (core s) same refl
                  (λ _ s_6 same not_the_name.
                    Ends-last (refuse_if-Learns _ _ _) s_6 (core s) same refl (λ _ not_the_email. (
                      refl,
                      record {
                        clean = clean;
                        name = name;
                        decoded = decoded;
                        at_least_2 = ground (arith, size);
                        at_most_20 = ground (arith, size);
                        password = password;
                        password_decoded = decoded';
                        at_least_8 = ground (arith, long);
                        not_the_name = not_the_name;
                        not_the_email = not_the_email;
                      },
                    ))))))));
  }

  pub forget :
      {A : Type 0} {Q : A → Core v → Type 0} {E : Core v → Type 0} {U : Type 0} (r : Run v A)
      → EndsOr Q E U r
      → Ends Q E r
  forget (done a s) h = record { how = h.how }
  forget (returned s) h = record { how = h.how }
  forget (thrown s) h = record { how = h.how }
  forget ub h = record { how = tt }

  pub Run-known :
      {A B : Type 0} {r : Run v B} (m : Action v A) (f : A → Action v B) (s s' : Server v) (a : A)
      → m s ≡ done a s'
      → f a s' ≡ r
      → (m >>= f) s ≡ r
  unfolding ◌>>=◌
  Run-known {A} {B} m f s s' a ran rest =
      ap
        (λ (r : Run v A).
          let x : Run v B = elim r [
            | done a s' ↦ f a s'
            | returned s' ↦ returned s'
            | thrown s' ↦ thrown s'
            | ub ↦ ub
          ] in
          x)
        ran
      ∙ rest

  pub first-ub :
      {A B : Type 0} (m : Action v A) (f : A → Action v B) (s : Server v)
      → m s ≡ ub
      → (m >>= f) s ≡ ub
  unfolding ◌>>=◌
  first-ub {A} {B} m f s e =
      ap
        (λ (r : Run v A).
          let x : Run v B = elim r [
            | done a s' ↦ f a s'
            | returned s' ↦ returned s'
            | thrown s' ↦ thrown s'
            | ub ↦ ub
          ] in
          x)
        e

  pub query_lem :
      {A : Type 0} (q : Query v.sql.Db A) (s : Server v) (a : A) (db : v.sql.Db)
      → q s.view ≡ some (a, db)
      → query {v = v} q s ≡ done a (record s { view = db })
  unfolding query
  query_lem q s a db e = rw (query, e) refl

  pub begin_lem : (s : Server v) → begin_transaction {v = v} s ≡ done tt (record s { view = s.db })
  unfolding begin_transaction
  begin_lem s = refl

  pub refuse_if_lem :
      (test : Bool) (hdl : ℕ) (err : Text) (s : Server v)
      → test ≡ false
      → refuse_if {v = v} test hdl err s ≡ done tt s
  unfolding refuse_if
  refuse_if_lem true hdl err s e = cc
  refuse_if_lem false hdl err s e = refl

  pub hash_or_leave_lem :
      (hdl : ℕ) (o : Option Text) (s : Server v) (hashed : Text)
      → o ≡ some hashed
      → hash_or_leave {v = v} hdl o s ≡ done hashed s
  unfolding hash_or_leave
  hash_or_leave_lem hdl o s hashed e = rw e refl

  -- The end of the handler, with nobody found.
  pub stored-ub :
      {B : Type 0} (s : Server v) (id : ℕ) (u : PerSocketData) (f : User → Action v B)
      → (commit >>= (λ _. set_user_data id u >>= (λ _. deref none >>= f))) s ≡ ub
  unfolding commit set_user_data deref ◌>>=◌
  stored-ub s id u f = refl

  pub check_new_account_lem :
      (hdl : ℕ) (msg : RegisterRequest) (s : Server v)
      → IsAccount v msg
      → check_new_account v hdl msg s ≡ done tt s
  unfolding check_new_account refuse_if or_throw ◌>>=◌
  check_new_account_lem hdl msg s a =
      rw
        (
          a.clean,
          a.decoded,
          size a.name a.at_least_2 a.at_most_20,
          a.password_decoded,
          long a.password a.at_least_8,
          a.not_the_name,
          a.not_the_email,
        )
        refl

  pub close_if_banned_lem :
      (hdl : ℕ) (username : Text) (s : Server v) (db : v.sql.Db)
      → is_username_or_ip_banned v.sql s.outside.now_nanoseconds (some username) none s.view
        ≡ some (none, db)
      → close_if_banned {v = v} hdl username s ≡ done tt (record s { view = db })
  unfolding close_if_banned leave_if_banned
  close_if_banned_lem hdl username s db e =
      Run-known _ _ s s s.outside.now_nanoseconds refl
        (Run-known _ _ s (record s { view = db }) none (query_lem _ s none db e) refl)
