-- ===== src/AStar/Invariant.antt =====
-- The invariant of the `while` loop of `a_star_path`, and what one neighbour changes.
use core_cpp_archive.AStar.{Search, record_step}
use core_cpp_archive.AStar.Frontier.{Waits}
use core_cpp_archive.AStar.Neighbours.Found.{IsNear}
use core_cpp_archive.AStar.Reachable.{Chain, Chain-assign, link}
use core_cpp_archive.Prelude.{
  Bool-cases, Dict, Location, Option-cases, arith, assign, bytes_eq, find, find-assign,
  find-assign_self, inl, inr, int_eq, loc_beq_iff, loc_eq, nat_eq, none, some, sym, ℕ, ◌==◌, ◌≡◌,
  ◌≤◌, ◌⊎◌,
}
use core_cpp_archive.Tiles.Laws.{IsFree}
use core_cpp_archive.World.{MapComponent}

abbrev pub IsSeen : Search → Location → Type 0
IsSeen s q = (c : ℕ) × (find q s.cost_so_far ≡ some c)

module _ (m : MapComponent) (start goal : Location) where
  -- `closed` says that the neighbours of every location that left the frontier are seen; while the
  -- neighbours of `current` are visited, it is exempt.
  pub record Inv (current : Location → Type 0) (s : Search) : Type 0 where
    pub cost_le : (q : Location) (c : ℕ) → find q s.cost_so_far ≡ some c → c ≤ 1
    pub edge : (q p : Location) → find q s.came_from ≡ some p → IsNear p q × IsFree m q
    pub came_seen : (q p : Location) → find q s.came_from ≡ some p → IsSeen s q
    pub chain : (q : Location) → IsSeen s q → Chain s.came_from start q
    pub waiting : (q : Location) → Waits q s.frontier → IsSeen s q
    pub start_seen : IsSeen s start
    pub closed :
        (p : Location)
        → IsSeen s p
        → current p ⊎ Waits p s.frontier ⊎ ((q : Location) → IsNear p q → IsFree m q → IsSeen s q)

  pub IsSeen-assign :
      (next current q : Location) (s : Search)
      → IsSeen s q
      → IsSeen (record_step goal current next 1 s) q
  unfolding record_step
  IsSeen-assign next current q s (c, e) = elim (Bool-cases (next == q)) [
    | inl same ↦ (1, ground (arith, find-assign next q 1 s.cost_so_far, same))
    | inr other ↦ (c, ground (arith, find-assign next q 1 s.cost_so_far, other, e))
  ]

  IsSeen-cases :
      (next current q : Location) (s : Search)
      → IsSeen (record_step goal current next 1 s) q
      → (q ≡ next) ⊎ IsSeen s q
  unfolding record_step
  IsSeen-cases next current q s (c, e) = elim (Bool-cases (next == q)) [
    | inl same ↦ inl (sym ((loc_beq_iff next q).0 same))
    | inr other ↦ inr (c, ground (arith, find-assign next q 1 s.cost_so_far, other, e))
  ]

  pub next-IsSeen :
      (next current : Location) (s : Search) → IsSeen (record_step goal current next 1 s) next
  unfolding record_step
  next-IsSeen next current s = (1, find-assign_self next 1 s.cost_so_far)

  came_cases :
      (next current q p : Location) (came : Dict Location Location)
      → find q (assign next current came) ≡ some p
      → (q ≡ next) × (p ≡ current) ⊎ (find q came ≡ some p)
  came_cases next current q p came e = elim (Bool-cases (next == q)) [
    | inl same ↦ inl (
      sym ((loc_beq_iff next q).0 same),
      ground (arith, find-assign next q current came, same, e),
    )
    | inr other ↦ inr (ground (arith, find-assign next q current came, other, e))
  ]

  -- A neighbour whose cost was unknown.
  pub record_step-Inv :
      (P : Location → Type 0) (next current : Location) (s : Search)
      → Inv P s
      → IsSeen s current
      → IsNear current next
      → IsFree m next
      → find next s.cost_so_far ≡ none
      → Inv P (record_step goal current next 1 s)
  unfolding record_step
  record_step-Inv P next current s i seen near free new = record {
    cost_le = λ q c e. ground (arith, find-assign next q 1 s.cost_so_far, i.cost_le q c, e);
    edge = λ q p e. elim (came_cases next current q p s.came_from e) [
      | inl (same, from) ↦ rw (same, from) (near, free)
      | inr old ↦ i.edge q p old
    ];
    came_seen = λ q p e. elim (came_cases next current q p s.came_from e) [
      | inl (same, from) ↦ rw same (next-IsSeen next current s)
      | inr old ↦ IsSeen-assign next current q s (i.came_seen q p old)
    ];
    chain = λ q h.
        let longer =
          λ (r : Location) (k : IsSeen s r). Chain-assign next current unlinked (i.chain r k) in
        elim (IsSeen-cases next current q s h) [
          | inl same ↦
              rw same (link (find-assign_self next current s.came_from) (longer current seen))
          | inr old ↦ longer q old
        ];
    waiting = λ q h. elim h [
      | inl same ↦ rw same (next-IsSeen next current s)
      | inr old ↦ IsSeen-assign next current q s (i.waiting q old)
    ];
    start_seen = IsSeen-assign next current start s i.start_seen;
    closed = λ p h. elim (IsSeen-cases next current p s h) [
      | inl same ↦ inr (inl (inl same))
      | inr old ↦ elim (i.closed p old) [
        | inl exempt ↦ inl exempt
        | inr (inl waits) ↦ inr (inl (inr waits))
        | inr (inr done) ↦ inr (inr λ q n f. IsSeen-assign next current q s (done q n f))
      ]
    ];
  }
    where
      unlinked : find next s.came_from ≡ none
      unlinked = elim (Option-cases (find next s.came_from)) [
        | inl e ↦ e
        | inr (p, e) ↦ let (c, h) = i.came_seen next p e in absurd (ground (arith, h, new))
      ]
