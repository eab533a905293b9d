-- ===== src/Database/Leases.antt =====
-- What a transaction takes from the pool, and what it gives back.
use core_cpp_archive.Database.Pool.{
  DatabasePool, PoolConnection, release_connection, released, set_available, take_available,
}
use core_cpp_archive.Prelude.{
  Bool, Bool-cases, List, Option, [], arith, bytes_eq, false, find_if, if◌then◌else◌, inl, inr,
  int_eq, loc_eq, nat_eq, none, refl, some, suc, true, ℕ, ◌==◌, ◌∈◌, ◌∷◌, ◌≡◌, ◌⊎◌,
}

module _ {H : Type 0} where
  unfoldable pub count_available : List (PoolConnection H) → ℕ
  count_available [] = 0
  count_available (c ∷ cs) = if c.available then suc (count_available cs) else count_available cs

  -- The first entry with an id says whether it is available.
  unfoldable pub available_of : ℕ → List (PoolConnection H) → Option Bool
  available_of i [] = none
  available_of i (c ∷ cs) = if c.id == i then some c.available else available_of i cs

  pub take_available-nil : (found : ℕ × Option H) → take_available [] found ≡ ([], found)
  unfolding take_available
  take_available-nil found = refl

  pub take_available-taken :
      (c : PoolConnection H) (cs : List (PoolConnection H)) (found : ℕ × Option H)
      → c.available ≡ true
      → take_available (c ∷ cs) found ≡ (
        record c { available = false } ∷ (take_available cs (c.id, some c.conn)).0,
        (take_available cs (c.id, some c.conn)).1,
      )
  unfolding take_available
  take_available-taken c cs found e = rw e

  pub take_available-kept :
      (c : PoolConnection H) (cs : List (PoolConnection H)) (found : ℕ × Option H)
      → c.available ≡ false
      → take_available (c ∷ cs) found
        ≡ (c ∷ (take_available cs found).0, (take_available cs found).1)
  unfolding take_available
  take_available-kept c cs found e = rw e

  -- Afterwards nothing is available.
  pub take_available-none :
      (cs : List (PoolConnection H)) (found : ℕ × Option H)
      → count_available (take_available cs found).0 ≡ 0
  unfolding count_available
  take_available-none [] found = rw (take_available-nil found)
  take_available-none (c ∷ cs) found = elim (Bool-cases c.available) [
    | inl e ↦ rw (take_available-taken c cs found e) (take_available-none cs (c.id, some c.conn))
    | inr e ↦ rw (take_available-kept c cs found e, e) (take_available-none cs found)
  ]

  -- Afterwards the same ids are known, and none of them is available.
  pub take_available-of :
      (cs : List (PoolConnection H)) (found : ℕ × Option H) (i : ℕ)
      → available_of i (take_available cs found).0
        ≡ elim (available_of i cs) [ none ↦ none | some b ↦ some false ]
  unfolding available_of
  take_available-of [] found i = rw (take_available-nil found)
  take_available-of (c ∷ cs) found i = elim (Bool-cases c.available) [
    | inl e ↦
        rw (take_available-taken c cs found e)
          (ground (arith, take_available-of cs (c.id, some c.conn) i))
    | inr e ↦ rw (take_available-kept c cs found e) (ground (arith, take_available-of cs found i))
  ]

  -- What is handed out: the first argument if nothing was available, and otherwise the id and the
  -- connection of an entry that was available.
  pub take_available-found :
      (cs : List (PoolConnection H)) (found : ℕ × Option H)
      → ((take_available cs found).1 ≡ found)
        ⊎ ((c : PoolConnection H) × (c ∈ cs)
            × (c.available ≡ true)
            × ((take_available cs found).1 ≡ (c.id, some c.conn)))
  take_available-found [] found = inl (rw (take_available-nil found))
  take_available-found (c ∷ cs) found = elim (Bool-cases c.available) [
    | inl e ↦
        rw (take_available-taken c cs found e) (elim (take_available-found cs (c.id, some c.conn)) [
          | inl same ↦ inr (c, inl refl, e, same)
          | inr (d, d_in, d_free, same) ↦ inr (d, inr d_in, d_free, same)
        ])
    | inr e ↦ rw (take_available-kept c cs found e) (elim (take_available-found cs found) [
      | inl same ↦ inl same
      | inr (d, d_in, d_free, same) ↦ inr (d, inr d_in, d_free, same)
    ])
  ]

  pub set_available-count :
      (i : ℕ) (cs : List (PoolConnection H))
      → available_of i cs ≡ some false
      → count_available (set_available i cs) ≡ suc (count_available cs)
  unfolding set_available count_available available_of
  set_available-count i [] e = cc
  set_available-count i (c ∷ cs) e = ground (arith, set_available-count i cs)

  available_of-find :
      (i : ℕ) (cs : List (PoolConnection H))
      → available_of i cs
        ≡ elim (find_if (λ c. c.id == i) cs) [ none ↦ none | some c ↦ some c.available ]
  unfolding available_of
  available_of-find i [] = refl
  available_of-find i (c ∷ cs) = ground (arith, available_of-find i cs)

  -- A connection that is in use can be released.
  pub release_connection-in_use :
      (i : ℕ) (pool : DatabasePool H)
      → available_of i pool.connections ≡ some false
      → (next : DatabasePool H) × (release_connection i pool ≡ released next)
  unfolding release_connection
  release_connection-in_use i pool e = (
    record pool { connections = set_available i pool.connections },
    ground (arith, e, available_of-find i pool.connections),
  )
