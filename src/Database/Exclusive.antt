-- ===== src/Database/Exclusive.antt =====
-- The transactions of all threads as steps on the pool: no two of them hold the same connection.
use core_cpp_archive.Database.Held.{
  All-without, Distinct, Distinct-without, Held, Held-set, Held-start, Held-take,
  create_transaction-created, create_transaction-waiting, release_connection-released,
  set_available-ids, take_available-ids, taken-free,
}
use core_cpp_archive.Database.Leases.{
  count_available, release_connection-in_use, set_available-count, take_available-none,
  take_available-of,
}
use core_cpp_archive.Database.Pool.{
  DatabasePool, create_connections, create_transaction, created, empty_pool, open_connections,
  release_connection, released, take_available, waiting,
}
use core_cpp_archive.Prelude.{
  All, List, Text, [], arith, bytes_eq, false, int_eq, loc_eq, map, nat_eq, none, subst, suc, sym,
  zero, ℕ, ◌%◌, ◌++◌, ◌+◌, ◌<◌, ◌==◌, ◌^◌, ◌∷◌, ◌≡◌,
}

-- The pool, and the ids of the transactions that have not ended.
pub record Leases (H : Type 0) : Type 0 where
  pub pool : DatabasePool H
  pub live : List ℕ

-- A thread gets a transaction, waits for one, or its transaction ends.
pub data Step {H : Type 0} : Leases H → Leases H → Type 0 where
  start :
      {pool next : DatabasePool H} {live : List ℕ} (id : ℕ) (h : H)
      → create_transaction pool ≡ created next id h
      → Step (record { pool = pool; live = live }) (record { pool = next; live = id ∷ live })
  wait :
      {pool next : DatabasePool H} {live : List ℕ}
      → create_transaction pool ≡ waiting next
      → Step (record { pool = pool; live = live }) (record { pool = next; live = live })
  finish :
      {pool next : DatabasePool H} (id : ℕ) (front back : List ℕ)
      → release_connection id pool ≡ released next
      → Step
          (record { pool = pool; live = front ++ id ∷ back })
          (record { pool = next; live = front ++ back })

pub data Steps {H : Type 0} : Leases H → Leases H → Type 0 where
  done : {a : Leases H} → Steps a a
  next_step : {a b c : Leases H} → Steps a b → Step b c → Steps a c

pub record IsLeased {H : Type 0} (s : Leases H) : Type 0 where
  pub ids : Distinct (map (λ c. c.id) s.pool.connections)
  pub held : All (Held s.pool.connections) s.live
  pub distinct : Distinct s.live

module _ {H : Type 0} where
  start-IsLeased :
      (pool next : DatabasePool H) (live : List ℕ) (id : ℕ) (h : H)
      → create_transaction pool ≡ created next id h
      → IsLeased (record { pool = pool; live = live })
      → IsLeased (record { pool = next; live = id ∷ live })
  start-IsLeased pool next live id h e leased =
      let cs = pool.connections in
      let bound = (pool.min_connections + 1) % 2 ^ 32 in
      let taken = create_transaction-created pool next id h e in
      let result = Held-start cs bound id h live leased.ids taken.1 leased.held leased.distinct in
      record {
        ids = rw (taken.0, take_available-ids cs (bound, none)) leased.ids;
        held = subst (λ x. All (Held x) (id ∷ live)) (sym taken.0) result.0;
        distinct = result.1;
      }

  wait-IsLeased :
      (pool next : DatabasePool H) (live : List ℕ)
      → create_transaction pool ≡ waiting next
      → IsLeased (record { pool = pool; live = live })
      → IsLeased (record { pool = next; live = live })
  wait-IsLeased pool next live e leased =
      let cs = pool.connections in
      let bound = (pool.min_connections + 1) % 2 ^ 32 in
      let rest = create_transaction-waiting pool next e in
      record {
        ids = rw (rest, take_available-ids cs (bound, none)) leased.ids;
        held =
            subst (λ x. All (Held x) live) (sym rest) (Held-take cs (bound, none) live leased.held);
        distinct = leased.distinct;
      }

  finish-IsLeased :
      (pool next : DatabasePool H) (id : ℕ) (front back : List ℕ)
      → release_connection id pool ≡ released next
      → IsLeased (record { pool = pool; live = front ++ id ∷ back })
      → IsLeased (record { pool = next; live = front ++ back })
  finish-IsLeased pool next id front back e leased =
      let cs = pool.connections in
      let rest = release_connection-released pool next id e in
      let others = Distinct-without front back id leased.distinct in
      record {
        ids = rw (rest, set_available-ids id cs) leased.ids;
        held =
            subst (λ x. All (Held x) (front ++ back)) (sym rest)
              (Held-set cs id (front ++ back) others.1
                (All-without (Held cs) front back id leased.held).1);
        distinct = others.0;
      }

  Step-IsLeased : (a b : Leases H) → Step a b → IsLeased a → IsLeased b
  Step-IsLeased _ _ (start {pool} {next} {live} id h e) leased =
      start-IsLeased pool next live id h e leased
  Step-IsLeased _ _ (wait {pool} {next} {live} e) leased = wait-IsLeased pool next live e leased
  Step-IsLeased _ _ (finish {pool} {next} id front back e) leased =
      finish-IsLeased pool next id front back e leased

  Steps-IsLeased : (a b : Leases H) → Steps a b → IsLeased a → IsLeased b
  Steps-IsLeased a _ done leased = leased
  Steps-IsLeased a c (next_step {b = b} h s) leased =
      Step-IsLeased b c s (Steps-IsLeased a b h leased)

  -- A held entry can be released.
  Held-release :
      (pool : DatabasePool H) (live : List ℕ)
      → All (Held pool.connections) live
      → All (λ i. (next : DatabasePool H) × (release_connection i pool ≡ released next)) live
  unfolding Held
  Held-release pool [] h = tt
  Held-release pool (i ∷ live) (hi, h) =
      (release_connection-in_use i pool hi, Held-release pool live h)

  -- After one transaction has begun and ended, one connection is available, however many the pool
  -- has: the others stay taken.
  pub create-release_leaks :
      (pool next last : DatabasePool H) (i : ℕ) (h : H)
      → Distinct (map (λ c. c.id) pool.connections)
      → create_transaction pool ≡ created next i h
      → release_connection i next ≡ released last
      → count_available last.connections ≡ 1
  create-release_leaks pool next last i h ids e e' =
      let cs = pool.connections in
      let bound = (pool.min_connections + 1) % 2 ^ 32 in
      let taken = create_transaction-created pool next i h e in
      let free = taken-free cs bound i h ids taken.1 in
      let held = take_available-of cs (bound, none) i in
      rw (
        release_connection-released next last i e',
        taken.0,
        set_available-count i (take_available cs (bound, none)).0 (rw (held, free)),
        take_available-none cs (bound, none),
      )

module _ {H : Type 0} (connect : Text → H) where
  open_connections-above :
      (s : Text) (i k n : ℕ)
      → i < k
      → All (λ j. (j == i) ≡ false) (map (λ c. c.id) (open_connections connect s k n))
  unfolding open_connections
  open_connections-above s i k zero h = tt
  open_connections-above s i k (suc n) h =
      (ground arith, open_connections-above s i (suc k) n (omega arith))

  open_connections-Distinct :
      (s : Text) (i n : ℕ) → Distinct (map (λ c. c.id) (open_connections connect s i n))
  unfolding open_connections Distinct
  open_connections-Distinct s i zero = tt
  open_connections-Distinct s i (suc n) =
      (open_connections-above s i (suc i) n (omega arith), open_connections-Distinct s (suc i) n)

  create_connections-IsLeased :
      (s : Text) (n : ℕ)
      → IsLeased (record { pool = create_connections connect s n empty_pool; live = [] })
  unfolding create_connections empty_pool Distinct
  create_connections-IsLeased s n = record {
    ids = open_connections-Distinct s 0 n;
    held = tt;
    distinct = tt;
  }

  -- However the threads start, wait for and end their transactions on a new pool: no two
  -- transactions that have not ended hold the same connection, and the destructor of each of them
  -- releases its connection without an exception.
  pub exclusive_leases :
      (s : Text) (n : ℕ) (b : Leases H)
      → Steps (record { pool = create_connections connect s n empty_pool; live = [] }) b
      → Distinct b.live
        × All (λ i. (next : DatabasePool H) × (release_connection i b.pool ≡ released next)) b.live
  exclusive_leases s n b h =
      let leased = Steps-IsLeased _ b h (create_connections-IsLeased s n) in
      (leased.distinct, Held-release b.pool b.live leased.held)
