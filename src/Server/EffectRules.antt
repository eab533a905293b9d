-- ===== src/Server/EffectRules.antt =====
-- The rules for the statements of src/message_handlers that change the core.
use core_cpp_archive.GameQueue.Messages.{QueueMessage}
use core_cpp_archive.Prelude.{
  Option, Text, ap, arith, bytes_eq, false, int_eq, loc_eq, nat_eq, none, refl, some, subst, sym, ℕ,
  ◌≡◌,
}
use core_cpp_archive.Rapidjson.{is_some}
use core_cpp_archive.Server.Commands.{set_motd}
use core_cpp_archive.Server.Effects.{set_committed, set_entry, set_motto, set_queue}
use core_cpp_archive.Server.State.{
  Action, PerSocketData, Server, Services, commit, deref, enqueue, set_user_data, ◌>>=◌,
}
use core_cpp_archive.Server.Triples.{Core, Ends, EndsOr, core}

module _ {v : Services} where
  module _ {B : Type 0} {Q : B → Core v → Type 0} {E : Core v → Type 0} {U : Type 0}
      (f : Unit → Action v B) where
    pub Ends-set_user_data :
        (id : ℕ) (u : PerSocketData) (s : Server v) (c : Core v)
        → core s ≡ c
        → ((s' : Server v) → core s' ≡ set_entry id u c → s'.view ≡ s.view → EndsOr Q E U (f tt s'))
        → EndsOr Q E U ((set_user_data id u >>= f) s)
    unfolding set_user_data ◌>>=◌
    Ends-set_user_data id u s c same rest = rest _ (ap (set_entry id u) same) refl

    pub Ends-set_motd :
        (new_motd : Text) (s : Server v) (c : Core v)
        → core s ≡ c
        → ((s' : Server v) → core s' ≡ set_motto new_motd c → EndsOr Q E U (f tt s'))
        → EndsOr Q E U ((set_motd v new_motd >>= f) s)
    unfolding set_motd ◌>>=◌
    Ends-set_motd new_motd s c same rest = rest _ (ap (set_motto new_motd) same)

    pub Ends-commit :
        (s : Server v) (c : Core v)
        → core s ≡ c
        → ((s' : Server v) → core s' ≡ set_committed s.view c → EndsOr Q E U (f tt s'))
        → EndsOr Q E U ((commit >>= f) s)
    unfolding commit ◌>>=◌
    Ends-commit s c same rest = rest _ (ap (set_committed s.view) same)

  pub Ends-deref_none :
      {A B : Type 0} {Q : B → Core v → Type 0} {E : Core v → Type 0} {U : Type 0} (o : Option A)
      (f : A → Action v B) (s : Server v)
      → is_some o ≡ false
      → U
      → EndsOr Q E U ((deref o >>= f) s)
  unfolding deref ◌>>=◌
  Ends-deref_none none f s empty t = record { how = t }
  Ends-deref_none (some a) f s empty t = ground (arith, empty)

  pub Ends-enqueue :
      {Q : Unit → Core v → Type 0} {E : Core v → Type 0} (msg : QueueMessage) (s : Server v)
      (c : Core v)
      → core s ≡ c
      → Q tt (set_queue msg c)
      → Ends Q E (enqueue msg s)
  unfolding enqueue
  Ends-enqueue {Q} msg s c same q = record {
    how = subst (λ c. Q tt (set_queue msg c)) (sym same) q;
  }
