-- ===== src/Database/Held.antt =====
-- Distinct ids, and the entries of a pool that are held.
use core_cpp_archive.Database.Leases.{
  available_of, take_available-found, take_available-kept, take_available-nil, take_available-of,
  take_available-taken,
}
use core_cpp_archive.Database.Pool.{
  DatabasePool, PoolConnection, create_transaction, created, release_connection, released,
  set_available, take_available, waiting,
}
use core_cpp_archive.Prelude.{
  All, Bool-cases, List, Option, [], ap, arith, beq_refl, bytes_eq, false, inl, inr, int_eq, loc_eq,
  map, nat_beq_iff, nat_eq, none, refl, some, subst, sym, true, ℕ, ◌%◌, ◌++◌, ◌+◌, ◌==◌, ◌^◌, ◌∈◌,
  ◌∙◌, ◌∷◌, ◌≡◌,
}

unfoldable pub Distinct : List ℕ → Type 0
Distinct [] = Unit
Distinct (i ∷ is) = All (λ j. (j == i) ≡ false) is × Distinct is

unfoldable pub Held : {H : Type 0} → List (PoolConnection H) → ℕ → Type 0
Held cs i = available_of i cs ≡ some false

-- Leaving out one entry of a list.
pub All-without :
    (P : ℕ → Type 0) (front back : List ℕ) (i : ℕ)
    → All P (front ++ i ∷ back)
    → P i × All P (front ++ back)
All-without P [] back i h = h
All-without P (j ∷ front) back i (hj, h) =
    let rest = All-without P front back i h in (rest.0, (hj, rest.1))

pub Distinct-without :
    (front back : List ℕ) (i : ℕ)
    → Distinct (front ++ i ∷ back)
    → Distinct (front ++ back) × All (λ j. (j == i) ≡ false) (front ++ back)
unfolding Distinct
Distinct-without [] back i (other, h) = (h, other)
Distinct-without (j ∷ front) back i (other, h) =
    let rest = Distinct-without front back i h in
    let parts = All-without (λ k. (k == j) ≡ false) front back i other in
    ((parts.1, rest.0), (ground (arith, parts.0), rest.1))

module _ {H : Type 0} where
  pub create_transaction-created :
      (pool next : DatabasePool H) (i : ℕ) (h : H)
      → create_transaction pool ≡ created next i h
      → (next.connections
          ≡ (take_available pool.connections ((pool.min_connections + 1) % 2 ^ 32, none)).0)
        × ((take_available pool.connections ((pool.min_connections + 1) % 2 ^ 32, none)).1
            ≡ (i, some h))
  unfolding create_transaction
  create_transaction-created pool next i h e = ground arith

  pub create_transaction-waiting :
      (pool next : DatabasePool H)
      → create_transaction pool ≡ waiting next
      → next.connections
        ≡ (take_available pool.connections ((pool.min_connections + 1) % 2 ^ 32, none)).0
  unfolding create_transaction
  create_transaction-waiting pool next e = ground arith

  pub release_connection-released :
      (pool next : DatabasePool H) (i : ℕ)
      → release_connection i pool ≡ released next
      → next.connections ≡ set_available i pool.connections
  unfolding release_connection
  release_connection-released pool next i e = ground arith

  pub take_available-ids :
      (cs : List (PoolConnection H)) (found : ℕ × Option H)
      → map (λ c. c.id) (take_available cs found).0 ≡ map (λ c. c.id) cs
  take_available-ids [] found = rw (take_available-nil found)
  take_available-ids (c ∷ cs) found = elim (Bool-cases c.available) [
    | inl e ↦ rw (take_available-taken c cs found e, take_available-ids cs (c.id, some c.conn))
    | inr e ↦ rw (take_available-kept c cs found e, take_available-ids cs found)
  ]

  pub set_available-ids :
      (i : ℕ) (cs : List (PoolConnection H))
      → map (λ c. c.id) (set_available i cs) ≡ map (λ c. c.id) cs
  unfolding set_available
  set_available-ids i [] = refl
  set_available-ids i (c ∷ cs) = ground (arith, set_available-ids i cs)

  pub set_available-other :
      (i j : ℕ) (cs : List (PoolConnection H))
      → (j == i) ≡ false
      → available_of j (set_available i cs) ≡ available_of j cs
  unfolding set_available available_of
  set_available-other i j [] h = refl
  set_available-other i j (c ∷ cs) h = ground (arith, set_available-other i j cs h)

  pub All-id :
      (P : ℕ → Type 0) (cs : List (PoolConnection H)) (c : PoolConnection H)
      → All P (map (λ d. d.id) cs)
      → c ∈ cs
      → P c.id
  All-id P [] c h m = elim m [ ]
  All-id P (d ∷ cs) c (hd, h) (inl e) = subst (λ x. P x.id) (sym e) hd
  All-id P (d ∷ cs) c (hd, h) (inr m) = All-id P cs c h m

  -- With distinct ids, an entry is the first with its id.
  pub mem-available_of :
      (cs : List (PoolConnection H)) (c : PoolConnection H)
      → Distinct (map (λ d. d.id) cs)
      → c ∈ cs
      → available_of c.id cs ≡ some c.available
  unfolding available_of Distinct
  mem-available_of [] c ids h = elim h [ ]
  mem-available_of (d ∷ cs) c ids (inl e) =
      subst (λ x. available_of x.id (d ∷ cs) ≡ some x.available) (sym e) (rw (beq_refl d.id) refl)
  mem-available_of (d ∷ cs) c (fresh, ids) (inr h) =
      ground (arith, All-id (λ j. (j == d.id) ≡ false) cs c fresh h, mem-available_of cs c ids h)

  -- What becomes of the entries that were held, when all that is available is taken.
  pub Held-take :
      (cs : List (PoolConnection H)) (found : ℕ × Option H) (live : List ℕ)
      → All (Held cs) live
      → All (Held (take_available cs found).0) live
  unfolding Held
  Held-take cs found [] h = tt
  Held-take cs found (i ∷ live) (hi, h) =
      (rw (take_available-of cs found i, hi), Held-take cs found live h)

  -- An entry that was available is none of those that were held.
  pub Held-other :
      (cs : List (PoolConnection H)) (i : ℕ) (live : List ℕ)
      → available_of i cs ≡ some true
      → All (Held cs) live
      → All (λ j. (j == i) ≡ false) live
  unfolding Held
  Held-other cs i [] free h = tt
  Held-other cs i (j ∷ live) free (hj, h) = (
    elim (Bool-cases (j == i)) [
      | inl e ↦
          let same = subst (λ k. available_of k cs ≡ some false) ((nat_beq_iff j i).0 e) hj in cc
      | inr e ↦ e
    ],
    Held-other cs i live free h,
  )

  pub Held-set :
      (cs : List (PoolConnection H)) (i : ℕ) (live : List ℕ)
      → All (λ j. (j == i) ≡ false) live
      → All (Held cs) live
      → All (Held (set_available i cs)) live
  unfolding Held
  Held-set cs i [] other h = tt
  Held-set cs i (j ∷ live) (oj, other) (hj, h) =
      (rw (set_available-other i j cs oj) hj, Held-set cs i live other h)

  -- What a transaction gets was available.
  pub taken-free :
      (cs : List (PoolConnection H)) (first i : ℕ) (h : H)
      → Distinct (map (λ c. c.id) cs)
      → (take_available cs (first, none)).1 ≡ (i, some h)
      → available_of i cs ≡ some true
  taken-free cs first i h ids e = elim (take_available-found cs (first, none)) [
    | inl same ↦ let missing = ap (λ p. p.1) (sym same ∙ e) in cc
    | inr (c, c_in, c_free, same) ↦
        subst (λ k. available_of k cs ≡ some true) (sym (ap (λ p. p.0) (sym e ∙ same)))
          (mem-available_of cs c ids c_in ∙ ap some c_free)
  ]

  pub Held-new :
      (cs : List (PoolConnection H)) (found : ℕ × Option H) (i : ℕ)
      → available_of i cs ≡ some true
      → Held (take_available cs found).0 i
  unfolding Held
  Held-new cs found i free = rw (take_available-of cs found i, free)

  pub Held-start :
      (cs : List (PoolConnection H)) (first i : ℕ) (h : H) (live : List ℕ)
      → Distinct (map (λ c. c.id) cs)
      → (take_available cs (first, none)).1 ≡ (i, some h)
      → All (Held cs) live
      → Distinct live
      → All (Held (take_available cs (first, none)).0) (i ∷ live) × Distinct (i ∷ live)
  unfolding Distinct
  Held-start cs first i h live ids taken held distinct =
      let free = taken-free cs first i h ids taken in
      (
        (Held-new cs (first, none) i free, Held-take cs (first, none) live held),
        (Held-other cs i live free held, distinct),
      )
