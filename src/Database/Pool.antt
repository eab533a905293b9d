-- ===== src/Database/Pool.antt =====
-- src/database/database_pool.h and .cpp and the destructor of src/database/database_transaction.cpp.
-- A connection of pqxx is a parameter `H`, and `connect` opens one.
use core_cpp_archive.Prelude.{
  Bool, List, Option, Text, [], bytes_eq, false, find_if, if◌then◌else◌, int_eq, is_empty, loc_eq,
  ltb, nat_eq, none, some, suc, true, zero, ℕ, ◌%◌, ◌++◌, ◌+◌, ◌==◌, ◌^◌, ◌∷◌,
}

-- The tuple of an entry: true if available for use, the id, the connection.
pub record PoolConnection (H : Type 0) : Type 0 where
  pub available : Bool
  pub id : ℕ
  pub conn : H

pub record DatabasePool (H : Type 0) : Type 0 where
  pub connection_string : Text
  pub min_connections : ℕ
  pub connections : List (PoolConnection H)

-- One pass of the loop of `create_transaction`: an exception, another pass after a millisecond, or
-- a transaction with the id and the connection that it holds.
pub data Created (H : Type 0) : Type 0 where
  not_initialized : Created H
  waiting : DatabasePool H → Created H
  null_connection : Created H
  created : DatabasePool H → ℕ → H → Created H

pub data Released (H : Type 0) : Type 0 where
  unknown_connection : Released H
  already_released : Released H
  released : DatabasePool H → Released H

module _ {H : Type 0} where
  unfoldable pub empty_pool : DatabasePool H
  empty_pool = record { connection_string = []; min_connections = 0; connections = [] }

  -- The loop over `_connections`: it does not stop at the first one that is available.
  unfoldable pub take_available :
      List (PoolConnection H) → ℕ × Option H → List (PoolConnection H) × (ℕ × Option H)
  take_available [] found = ([], found)
  take_available (c ∷ cs) found =
      let taken = take_available cs (c.id, some c.conn) in
      let rest = take_available cs found in
      if c.available
      then (record c { available = false } ∷ taken.0, taken.1)
      else (c ∷ rest.0, rest.1)

  unfoldable pub create_transaction : DatabasePool H → Created H
  create_transaction pool =
      let taken = take_available pool.connections ((pool.min_connections + 1) % 2 ^ 32, none) in
      let next = record pool { connections = taken.0 } in
      if is_empty pool.connection_string
      then not_initialized
      else if ltb pool.min_connections taken.1.0
      then waiting next
      else elim taken.1.1 [ none ↦ null_connection | some h ↦ created next taken.1.0 h ]

  -- `get<0>(*result) = true` at the first entry with the id.
  unfoldable pub set_available : ℕ → List (PoolConnection H) → List (PoolConnection H)
  set_available i [] = []
  set_available i (c ∷ cs) =
      if c.id == i then record c { available = true } ∷ cs else c ∷ set_available i cs

  unfoldable pub release_connection : ℕ → DatabasePool H → Released H
  release_connection i pool = elim (find_if (λ c. c.id == i) pool.connections) [
    | none ↦ unknown_connection
    | some c ↦
        if c.available
        then already_released
        else released (record pool { connections = set_available i pool.connections })
  ]

module _ {H : Type 0} (connect : Text → H) where
  unfoldable pub open_connections : Text → ℕ → ℕ → List (PoolConnection H)
  open_connections s i zero = []
  open_connections s i (suc n) =
      record { available = true; id = i; conn = connect s } ∷ open_connections s (suc i) n

  unfoldable pub create_connections : Text → ℕ → DatabasePool H → DatabasePool H
  create_connections s n pool = record {
    connection_string = s;
    min_connections = n;
    connections = pool.connections ++ open_connections s 0 n;
  }
