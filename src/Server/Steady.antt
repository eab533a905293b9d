-- ===== src/Server/Steady.antt =====
-- The statements of src/message_handlers that keep what the open transaction sees and are never
-- undefined, and the rules that follow the transaction through the statements that are not.
use core_cpp_archive.Prelude.{
  Bool, Option, Text, [], bytes_eq, if◌then◌else◌, int_eq, loc_eq, nat_eq, none, refl, ap, some,
  subst, sym, true, false, ℕ, ◌≡◌,
}
use core_cpp_archive.Repositories.Sql.{Query}
use core_cpp_archive.Server.State.{
  Action, Frame, Run, Server, Services, begin_transaction, delivered, done, gets, or_throw, pure,
  query, refuse, refuse_if, return, returned, send, send_error, send_error_as, thrown, ub, ◌>>=◌,
}
use core_cpp_archive.Server.Triples.{Core, EndsAs, EndsOr, Learns, core}

module _ {v : Services} where
  abbrev StaysAs : {A : Type 0} → v.sql.Db → Run v A → Type 0
  StaysAs view (done a s) = s.view ≡ view
  StaysAs view (returned s) = Unit
  StaysAs view (thrown s) = Unit
  StaysAs view ub = ⊥

  pub record Stays {A : Type 0} (view : v.sql.Db) (r : Run v A) : Type 0 where
    pub how : StaysAs view r

  pub record IsSteady {A : Type 0} (m : Action v A) : Type 0 where
    pub run : (s : Server v) → Stays s.view (m s)

  module _ {A B : Type 0} where
    kept_on :
        (f : A → Action v B) (view : v.sql.Db)
        → ((a : A) (s : Server v) → s.view ≡ view → Stays view (f a s))
        → (r : Run v A) → StaysAs view r
        → Stays view (elim r [
          | done a s' ↦ f a s'
          | returned s' ↦ returned s'
          | thrown s' ↦ thrown s'
          | ub ↦ ub
        ])
    kept_on f view rest (done a s) same = rest a s same
    kept_on f view rest (returned s) t = record { how = tt }
    kept_on f view rest (thrown s) t = record { how = tt }
    kept_on f view rest ub t = elim t [ ]

    pub IsSteady-bind :
        (m : Action v A) (f : A → Action v B)
        → IsSteady m
        → ((a : A) → IsSteady (f a))
        → IsSteady (m >>= f)
    unfolding ◌>>=◌
    IsSteady-bind m f first rest = record {
      run = λ s.
          kept_on f s.view (λ a s' same. subst (λ view. Stays view (f a s')) same ((rest a).run s'))
            (m s) (first.run s).how;
    }

  pub pure-IsSteady : {A : Type 0} (a : A) → IsSteady {A = A} (pure a)
  pure-IsSteady a = record { run = λ s. record { how = refl } }

  pub return-IsSteady : {A : Type 0} → IsSteady {A = A} return
  return-IsSteady = record { run = λ s. record { how = tt } }

  pub gets-IsSteady : {A : Type 0} (f : Server v → A) → IsSteady (gets f)
  gets-IsSteady f = record { run = λ s. record { how = refl } }

  pub or_throw-IsSteady : {A : Type 0} (o : Option A) → IsSteady {A = A} (or_throw o)
  unfolding or_throw
  or_throw-IsSteady none = record { run = λ s. record { how = tt } }
  or_throw-IsSteady (some a) = record { run = λ s. record { how = refl } }

  pub Stays-if :
      {A : Type 0} {view : v.sql.Db} {x y : Run v A} (b : Bool)
      → Stays view x
      → Stays view y
      → Stays view (if b then x else y)
  Stays-if true h k = h
  Stays-if false h k = k

  pub IsSteady-if :
      {A : Type 0} {m n : Action v A} (b : Bool)
      → IsSteady m
      → IsSteady n
      → IsSteady (if b then m else n)
  IsSteady-if true h k = h
  IsSteady-if false h k = k

  pub send-IsSteady : (hdl : ℕ) (frame : Frame v) → IsSteady (send hdl frame)
  unfolding send delivered
  send-IsSteady hdl frame = record {
    run = λ s. Stays-if (s.outside.writable hdl) (record { how = refl }) (record { how = tt });
  }

  pub send_error_as-IsSteady :
      (hdl : ℕ) (err name desc : Text) → IsSteady (send_error_as hdl err name desc)
  unfolding send_error_as
  send_error_as-IsSteady hdl err name desc = send-IsSteady hdl _

  pub refuse-IsSteady : {A : Type 0} (hdl : ℕ) (err : Text) → IsSteady {A = A} (refuse hdl err)
  unfolding refuse send_error
  refuse-IsSteady hdl err =
      IsSteady-bind _ _ (send_error_as-IsSteady hdl err [] []) (λ _. return-IsSteady)

  pub refuse_if-IsSteady : (test : Bool) (hdl : ℕ) (err : Text) → IsSteady (refuse_if test hdl err)
  unfolding refuse_if
  refuse_if-IsSteady true hdl err = refuse-IsSteady hdl err
  refuse_if-IsSteady false hdl err = pure-IsSteady tt

  abbrev answered : {A : Type 0} → Server v → Option (A × v.sql.Db) → Run v A
  answered s o = elim o [ none ↦ thrown s | some (a, d) ↦ done a (record s { view = d }) ]

  module _ {B : Type 0} {Q : B → Core v → Type 0} {E : Core v → Type 0} {U : Type 0} where
    module _ {A : Type 0} where
      steady_run :
          (P : Core v → A → Type 0) (f : A → Action v B) (c : Core v) (view : v.sql.Db)
          → E c
          → ((a : A) (s : Server v) → core s ≡ c → s.view ≡ view → P c a → EndsOr Q E U (f a s))
          → (r : Run v A) → EndsAs (λ a d. (d ≡ c) × P c a) (λ d. d ≡ c) Unit r
          → StaysAs view r
          → EndsOr Q E U (elim r [
            | done a s' ↦ f a s'
            | returned s' ↦ returned s'
            | thrown s' ↦ thrown s'
            | ub ↦ ub
          ])
      steady_run P f c view e rest (done a s) (same, p) stays = rest a s same stays p
      steady_run P f c view e rest (returned s) same stays = record { how = subst E (sym same) e }
      steady_run P f c view e rest (thrown s) same stays = record { how = subst E (sym same) e }
      steady_run P f c view e rest ub t stays = elim stays [ ]

      -- A statement that keeps the core and what the transaction sees.
      pub Ends-steady :
          {P : Core v → A → Type 0} (m : Action v A) (f : A → Action v B)
          → Learns P m
          → IsSteady m
          → (s : Server v) (c : Core v) → core s ≡ c
          → E c
          → ((a : A) (s' : Server v)
              → core s' ≡ c
              → s'.view ≡ s.view
              → P c a
              → EndsOr Q E U (f a s'))
          → EndsOr Q E U ((m >>= f) s)
      unfolding ◌>>=◌
      Ends-steady {P} m f l stays s c at_c =
          subst
            (λ c.
              E c
              → ((a : A) (s' : Server v)
                  → core s' ≡ c
                  → s'.view ≡ s.view
                  → P c a
                  → EndsOr Q E U (f a s'))
              → EndsOr Q E U ((m >>= f) s))
            at_c
            (λ e rest. steady_run P f (core s) s.view e rest (m s) (l.run s).how (stays.run s).how)

      -- A statement whose run is known.
      pub Ends-known :
          (m : Action v A) (f : A → Action v B) (s s' : Server v) (a : A)
          → m s ≡ done a s'
          → EndsOr Q E U (f a s')
          → EndsOr Q E U ((m >>= f) s)
      unfolding ◌>>=◌
      Ends-known m f s s' a ran rest =
          subst
            (λ r. EndsOr Q E U (elim r [
              | done a s' ↦ f a s'
              | returned s' ↦ returned s'
              | thrown s' ↦ thrown s'
              | ub ↦ ub
            ]))
            (sym ran) rest

      pub Ends-query :
          (q : Query v.sql.Db A) (f : A → Action v B) (s : Server v) (c : Core v)
          → core s ≡ c
          → E c
          → ((a : A) (s' : Server v)
              → core s' ≡ c
              → q s.view ≡ some (a, s'.view)
              → EndsOr Q E U (f a s'))
          → EndsOr Q E U ((query {v = v} q >>= f) s)
      unfolding query ◌>>=◌
      Ends-query q f s c same e rest = by_answer (q s.view) refl
        where
          by_answer :
              (o : Option (A × v.sql.Db))
              → q s.view ≡ o
              → EndsOr Q E U (elim (answered s o) [
                | done a s' ↦ f a s'
                | returned s' ↦ returned s'
                | thrown s' ↦ thrown s'
                | ub ↦ ub
              ])
          by_answer none is = record { how = subst E (sym same) e }
          by_answer (some (a, d)) is = rest a (record s { view = d }) same is

    module _ (f : Unit → Action v B) where
      pub Ends-begin :
          (s : Server v) (c : Core v)
          → core s ≡ c
          → ((s' : Server v) → core s' ≡ c → s'.view ≡ c.committed → EndsOr Q E U (f tt s'))
          → EndsOr Q E U ((begin_transaction >>= f) s)
      unfolding begin_transaction ◌>>=◌
      Ends-begin s c same rest =
          rest (record s { view = s.db }) same (ap (λ (d : Core v). d.committed) same)
