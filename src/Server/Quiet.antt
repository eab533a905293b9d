-- ===== src/Server/Quiet.antt =====
-- The statements of src/message_handlers that keep the core, and what their results say.
use core_cpp_archive.Prelude.{
  Bool, Option, Text, [], bytes_eq, false, find, if◌then◌else◌, int_eq, loc_eq, nat_eq, none, refl,
  some, true, ℕ, ◌∙◌, ◌∷◌, ◌≡◌,
}
use core_cpp_archive.Rapidjson.{Read, got, nullopt, undefined}
use core_cpp_archive.Repositories.Sql.{Query}
use core_cpp_archive.Server.Guards.{check_msg}
use core_cpp_archive.Server.State.{
  Action, Frame, PerSocketData, Run, Server, Services, UserConnections, broadcast, broadcast_to,
  delivered, deref, done, gets, or_throw, pure, query, refuse, refuse_if, return, send, send_error,
  send_error_as, thrown, user_data,
}
use core_cpp_archive.Server.Triples.{Core, Ends, IsQuiet, Learns, Learns-bind, core}

module _ {v : Services} where
  pub Ends-if :
      {A : Type 0} {Q : A → Core v → Type 0} {E : Core v → Type 0} {x y : Run v A} (b : Bool)
      → (b ≡ true → Ends Q E x)
      → (b ≡ false → Ends Q E y)
      → Ends Q E (if b then x else y)
  Ends-if true l k = l refl
  Ends-if false l k = k refl

  pub Learns-if :
      {A : Type 0} {P : Core v → A → Type 0} {m n : Action v A} (b : Bool)
      → (b ≡ true → Learns P m)
      → (b ≡ false → Learns P n)
      → Learns P (if b then m else n)
  Learns-if true l k = l refl
  Learns-if false l k = k refl

  pub pure-Learns : {A : Type 0} (a : A) → Learns {v = v} (λ c b. b ≡ a) (pure a)
  pure-Learns a = record { run = λ s. record { how = (refl, refl) } }

  pub return-IsQuiet : {A : Type 0} {P : Core v → A → Type 0} → Learns P return
  return-IsQuiet = record { run = λ s. record { how = refl } }

  pub deref-Learns : {A : Type 0} (o : Option A) → Learns {v = v} (λ c a. o ≡ some a) (deref o)
  unfolding deref
  deref-Learns none = record { run = λ s. record { how = tt } }
  deref-Learns (some a) = record { run = λ s. record { how = (refl, refl) } }

  pub or_throw-Learns :
      {A : Type 0} (o : Option A) → Learns {v = v} (λ c a. o ≡ some a) (or_throw o)
  unfolding or_throw
  or_throw-Learns none = record { run = λ s. record { how = refl } }
  or_throw-Learns (some a) = record { run = λ s. record { how = (refl, refl) } }

  pub send-IsQuiet : (hdl : ℕ) (frame : Frame v) → IsQuiet (send hdl frame)
  unfolding send delivered
  send-IsQuiet hdl frame = record {
    run = λ s.
        Ends-if (s.outside.writable hdl) (λ _. record { how = (refl, tt) })
          (λ _. record { how = refl });
  }

  pub query-IsQuiet : {A : Type 0} (q : Query v.sql.Db A) → IsQuiet {v = v} (query {v = v} q)
  unfolding query
  query-IsQuiet {A} q = record { run = λ s. ended s (q s.view) }
    where
      ended :
          (s : Server v) (o : Option (A × v.sql.Db))
          → Ends
              (λ a c. (c ≡ core s) × Unit)
              (λ c. c ≡ core s)
              (elim o [ none ↦ thrown s | some (a, d) ↦ done a (record s { view = d }) ])
      ended s none = record { how = refl }
      ended s (some (a, d)) = record { how = (refl, tt) }

  pub user_data-Learns :
      (id : ℕ) → Learns {v = v} (λ c u. find id c.connections ≡ some u) (user_data id)
  unfolding user_data
  user_data-Learns id = record { run = λ s. (deref-Learns (find id s.user_connections)).run s }

  pub connections-Learns :
      Learns {v = v} (λ c uc. uc ≡ c.connections) (gets (λ s. s.user_connections))
  connections-Learns = record { run = λ s. record { how = (refl, refl) } }

  pub gets-IsQuiet : {A : Type 0} (f : Server v → A) → IsQuiet (gets f)
  gets-IsQuiet f = record { run = λ s. record { how = (refl, tt) } }

  pub send_error_as-IsQuiet :
      (hdl : ℕ) (err name desc : Text) → IsQuiet {v = v} (send_error_as hdl err name desc)
  unfolding send_error_as
  send_error_as-IsQuiet hdl err name desc = send-IsQuiet hdl _

  pub refuse-IsQuiet :
      {A : Type 0} {P : Core v → A → Type 0} (hdl : ℕ) (err : Text) → Learns P (refuse hdl err)
  unfolding refuse send_error
  refuse-IsQuiet hdl err =
      Learns-bind _ _ (send_error_as-IsQuiet hdl err [] []) (λ _. return-IsQuiet)

  pub refuse_if-Learns :
      (test : Bool) (hdl : ℕ) (err : Text)
      → Learns {v = v} (λ c _. test ≡ false) (refuse_if test hdl err)
  unfolding refuse_if
  refuse_if-Learns true hdl err = refuse-IsQuiet hdl err
  refuse_if-Learns false hdl err = record { run = λ s. record { how = (refl, refl) } }

  pub delivered_if-core :
      (b : Bool) (hdl : ℕ) (frame : Frame v) (s : Server v)
      → core (if b then delivered hdl frame s else s) ≡ core s
  unfolding delivered
  delivered_if-core true hdl frame s = refl
  delivered_if-core false hdl frame s = refl

  broadcast_to-core :
      (uc : UserConnections) (frame : Frame v) (s : Server v)
      → core (broadcast_to uc frame s) ≡ core s
  unfolding broadcast_to
  broadcast_to-core [] frame s = refl
  broadcast_to-core ((i, other) ∷ rest) frame s =
      broadcast_to-core rest frame _ ∙ delivered_if-core _ other.ws frame s

  pub broadcast-IsQuiet : (frame : Frame v) → IsQuiet (broadcast frame)
  unfolding broadcast
  broadcast-IsQuiet frame = record {
    run = λ s. record { how = (broadcast_to-core s.user_connections frame s, tt) };
  }

  -- The guards.
  pub check_msg-Learns :
      {A : Type 0} (u : PerSocketData) (r : Read A)
      → Learns {v = v} (λ c msg. r ≡ got msg) (check_msg u r)
  unfolding check_msg
  check_msg-Learns u undefined = record { run = λ s. record { how = tt } }
  check_msg-Learns u nullopt = refuse-IsQuiet u.ws _
  check_msg-Learns u (got msg) = record { run = λ s. record { how = (refl, refl) } }
