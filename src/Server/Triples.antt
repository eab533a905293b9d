-- ===== src/Server/Triples.antt =====
-- What a run of src/message_handlers leaves alone: everything but what has been sent and what its
-- transaction sees.
use core_cpp_archive.GameQueue.Messages.{QueueMessage}
use core_cpp_archive.Prelude.{Dict, List, Text, refl, subst, sym, ℕ, ◌≡◌}
use core_cpp_archive.Server.State.{
  Action, Outside, Run, Server, Services, UserConnections, done, returned, thrown, ub, ◌>>=◌,
}

pub record Core (v : Services) : Type 0 where
  pub connections : UserConnections
  pub handles : Dict ℕ ℕ
  pub counter : ℕ
  pub queue : List QueueMessage
  pub motto : Text
  pub committed : v.sql.Db
  pub around : Outside

module _ {v : Services} where
  abbrev pub core : Server v → Core v
  core s = record {
    connections = s.user_connections;
    handles = s.handle_to_connection_id_map;
    counter = s.connection_id_counter;
    queue = s.game_loop_queue;
    motto = s.motd;
    committed = s.db;
    around = s.outside;
  }

  module _ {A : Type 0} where
    abbrev pub EndsAs : (A → Core v → Type 0) → (Core v → Type 0) → Type 0 → Run v A → Type 0
    EndsAs Q E U (done a s) = Q a (core s)
    EndsAs Q E U (returned s) = E (core s)
    EndsAs Q E U (thrown s) = E (core s)
    EndsAs Q E U ub = U

    -- The run goes on with `Q` of its result and the core, or ends the handler with `E`, or its
    -- behaviour is undefined, with `U`.
    pub record EndsOr (Q : A → Core v → Type 0) (E : Core v → Type 0) (U : Type 0) (r : Run v A)
        : Type 0 where
      pub how : EndsAs Q E U r

    -- With nothing said of undefined behaviour.
    abbrev pub Ends : (A → Core v → Type 0) → (Core v → Type 0) → Run v A → Type 0
    Ends Q E r = EndsOr Q E Unit r

    -- From a core `c`, the core stays, and the result is as `P c` says.
    pub record Learns (P : Core v → A → Type 0) (m : Action v A) : Type 0 where
      pub run : (s : Server v) → Ends (λ a c. (c ≡ core s) × P (core s) a) (λ c. c ≡ core s) (m s)

  abbrev pub IsQuiet : {A : Type 0} → Action v A → Type 0
  IsQuiet = Learns (λ _ _. Unit)

  module _ {A B : Type 0} (P : Core v → A → Type 0) where
    bind_run :
        {Q : B → Core v → Type 0} {E : Core v → Type 0}
        → (f : A → Action v B) (c : Core v) → E c
        → ((a : A) (s : Server v) → core s ≡ c → P c a → Ends Q E (f a s))
        → (r : Run v A) → EndsAs (λ a d. (d ≡ c) × P c a) (λ d. d ≡ c) Unit r
        → Ends Q E (elim r [
          | done a s' ↦ f a s'
          | returned s' ↦ returned s'
          | thrown s' ↦ thrown s'
          | ub ↦ ub
        ])
    bind_run f c e rest (done a s) (same, p) = rest a s same p
    bind_run {E} f c e rest (returned s) same = record { how = subst E (sym same) e }
    bind_run {E} f c e rest (thrown s) same = record { how = subst E (sym same) e }
    bind_run f c e rest ub t = record { how = tt }

  module _ {A B : Type 0} {P : Core v → A → Type 0} where
    -- A statement that keeps the core, in front of the rest of a handler.
    pub Ends-bind :
        {Q : B → Core v → Type 0} {E : Core v → Type 0} (m : Action v A) (f : A → Action v B)
        → Learns P m
        → (s : Server v) (c : Core v) → core s ≡ c
        → E c
        → ((a : A) (s' : Server v) → core s' ≡ c → P c a → Ends Q E (f a s'))
        → Ends Q E ((m >>= f) s)
    unfolding ◌>>=◌
    Ends-bind {Q} {E} m f l s c at_c =
        subst
          (λ c.
            E c
            → ((a : A) (s' : Server v) → core s' ≡ c → P c a → Ends Q E (f a s'))
            → Ends Q E ((m >>= f) s))
          at_c (λ e rest. bind_run P f (core s) e rest (m s) (l.run s).how)

    -- Two statements that keep the core.
    pub Learns-bind :
        {R : Core v → B → Type 0} (m : Action v A) (f : A → Action v B)
        → Learns P m
        → ((a : A) → Learns R (f a))
        → Learns R (m >>= f)
    Learns-bind {R} m f l rest = record {
      run = λ s. Ends-bind m f l s (core s) refl refl (λ a s' same p.
          subst (λ c. Ends (λ b d. (d ≡ c) × R c b) (λ d. d ≡ c) (f a s')) same ((rest a).run s'));
    }

  module _ {A : Type 0} (P : Core v → A → Type 0) where
    last_run :
        (Q : A → Core v → Type 0) (E : Core v → Type 0) (c : Core v)
        → E c
        → ((a : A) → P c a → Q a c)
        → (r : Run v A) → EndsAs (λ a d. (d ≡ c) × P c a) (λ d. d ≡ c) Unit r
        → Ends Q E r
    last_run Q E c e q (done a s) (same, p) = record { how = subst (Q a) (sym same) (q a p) }
    last_run Q E c e q (returned s) same = record { how = subst E (sym same) e }
    last_run Q E c e q (thrown s) same = record { how = subst E (sym same) e }
    last_run Q E c e q ub t = record { how = tt }

  module _ {A : Type 0} {P : Core v → A → Type 0} where
    -- A statement that keeps the core, at the end of a handler.
    pub Ends-last :
        {Q : A → Core v → Type 0} {E : Core v → Type 0} {m : Action v A}
        → Learns P m
        → (s : Server v) (c : Core v) → core s ≡ c
        → E c
        → ((a : A) → P c a → Q a c)
        → Ends Q E (m s)
    Ends-last {Q} {E} {m} l s c at_c =
        subst (λ c. E c → ((a : A) → P c a → Q a c) → Ends Q E (m s)) at_c
          (λ e q. last_run P Q E (core s) e q (m s) (l.run s).how)

    -- What is known anyway.
    pub Learns-and : {m : Action v A} {X : Type 0} → X → Learns P m → Learns (λ c a. P c a × X) m
    Learns-and x l = record { run = λ s. Ends-last l s (core s) refl refl (λ a p. (refl, (p, x))) }

    pub Learns-forget : {m : Action v A} → Learns P m → IsQuiet m
    Learns-forget l = record { run = λ s. Ends-last l s (core s) refl refl (λ a p. (refl, tt)) }
