-- ===== src/Database/Tests.antt =====
-- A pool with two connections, and what happens to it.
use core_cpp_archive.Database.Exclusive.{
  Steps, create-release_leaks, done, exclusive_leases, next_step, start,
}
use core_cpp_archive.Database.Held.{Distinct}
use core_cpp_archive.Database.Leases.{count_available}
use core_cpp_archive.Database.Pool.{
  DatabasePool, PoolConnection, already_released, create_connections, create_transaction, created,
  empty_pool, open_connections, release_connection, released, set_available, take_available,
  unknown_connection,
}
use core_cpp_archive.Prelude.{
  All, Bool, Text, [], false, length, refl, subst, sym, text, true, ℕ, ◌∷◌, ◌≡◌,
}

abbrev connect : Text → ℕ
connect s = length s

abbrev entry : Bool → ℕ → PoolConnection ℕ
entry free i = record { available = free; id = i; conn = 2 }

abbrev pool_of : Bool → Bool → DatabasePool ℕ
pool_of a b = record {
  connection_string = text "db";
  min_connections = 2;
  connections = entry a 0 ∷ entry b 1 ∷ [];
}

two_connections : create_connections connect (text "db") 2 empty_pool ≡ pool_of true true
unfolding text create_connections open_connections empty_pool
two_connections = refl

first_transaction : create_transaction (pool_of true true) ≡ created (pool_of false false) 1 2
unfolding text create_transaction take_available
first_transaction = refl

first_release : release_connection 1 (pool_of false false) ≡ released (pool_of false true)
unfolding text release_connection set_available
first_release = refl

unknown_release : release_connection 5 (pool_of false false) ≡ unknown_connection
unfolding release_connection
unknown_release = refl

second_release : release_connection 1 (pool_of false true) ≡ already_released
unfolding release_connection
second_release = refl

after_start :
    Steps
      (record { pool = create_connections connect (text "db") 2 empty_pool; live = [] })
      (record { pool = pool_of false false; live = 1 ∷ [] })
after_start =
    subst
      (λ p.
        Steps (record { pool = p; live = [] })
          (record { pool = pool_of false false; live = 1 ∷ [] }))
      (sym two_connections) (next_step done (start 1 2 first_transaction))

exclusive_leases_example :
    Distinct (1 ∷ [])
    × All
        (λ i.
          (next : DatabasePool ℕ) × (release_connection i (pool_of false false) ≡ released next))
        (1 ∷ [])
exclusive_leases_example =
    exclusive_leases connect (text "db") 2 (record { pool = pool_of false false; live = 1 ∷ [] })
      after_start

create-release_leaks_example : count_available (entry false 0 ∷ entry true 1 ∷ []) ≡ 1
unfolding Distinct
create-release_leaks_example =
    create-release_leaks (pool_of true true) (pool_of false false) (pool_of false true) 1 2
      ((refl, tt), (tt, tt)) first_transaction first_release
