-- ===== src/AStar/Path.antt =====
-- `a_star_path` as a whole: it ends, it reads no tile behind the end of a layer, and its map leads
-- from the goal back to the start exactly if a walk over free tiles does.
use core_cpp_archive.AStar.{Outcome, Search, a_star_path, came_from_map, initial, search, visit_all}
use core_cpp_archive.AStar.Frontier.{Entry, Takes, Waits, get, get-Takes, get-none}
use core_cpp_archive.AStar.Invariant.{Inv, IsSeen}
use core_cpp_archive.AStar.Neighbours.{get_neighbours, no_location}
use core_cpp_archive.AStar.Neighbours.Found.{IsNear, found_neighbours-Surrounds, get_neighbours_lem}
use core_cpp_archive.AStar.Reachable.{
  Chain, Chain-Reach, Reach, grid, here, length-grid, link, root, step, unseen-le-length,
}
use core_cpp_archive.AStar.Visits.{tiles_left, visit_all-Visited}
use core_cpp_archive.Prelude.{
  Bool-cases, Dict, List, Location, Option-cases, [], arith, assign, bytes_eq, false, find,
  find-assign, find-assign_self, inl, inr, int_eq, length, loc_beq_iff, loc_eq, nat_eq, none, refl,
  replicate, some, subst, suc, sym, true, zero, ℕ, ◌*◌, ◌++◌, ◌+◌, ◌-◌, ◌<◌, ◌==◌, ◌↔◌, ◌≡◌, ◌≢◌,
}
use core_cpp_archive.Tiles.Laws.{HasLayers, IsFree}
use core_cpp_archive.World.{MapComponent}

module _ (m : MapComponent) (start goal : Location) where
  abbrev NoLocation : Location → Type 0
  NoLocation p = ⊥

  -- What `a_star_path` should return.
  pub record Finds (r : Outcome) : Type 0 where
    pub came_from : Dict Location Location
    pub returns : r ≡ came_from_map came_from
    pub edge : (q p : Location) → find q came_from ≡ some p → IsNear p q × IsFree m q
    pub chain : (q p : Location) → find q came_from ≡ some p → Chain came_from start q
    pub reaches :
        goal ≢ start → Reach m start goal ↔ ((p : Location) × (find goal came_from ≡ some p))

  -- A location with a cost that is not the start has an origin.
  Chain-find :
      {came : Dict Location Location} {q : Location}
      → Chain came start q
      → q ≢ start
      → (p : Location) × (find q came ≡ some p)
  Chain-find root ne = absurd (ne refl)
  Chain-find (link {p} e c) ne = (p, e)

  Inv-Finds :
      (P : Location → Type 0) (s : Search)
      → Inv m start goal P s
      → (Reach m start goal → IsSeen s goal)
      → Finds (came_from_map s.came_from)
  Inv-Finds P s i seen = record {
    came_from = s.came_from;
    returns = refl;
    edge = i.edge;
    chain = λ q p e. i.chain q (i.came_seen q p e);
    reaches = λ ne. (
      λ r. Chain-find (i.chain goal (seen r)) ne,
      λ (p, e). Chain-Reach i.edge (i.chain goal (i.came_seen goal p e)),
    );
  }

  -- With an empty frontier every location that a walk reaches is seen.
  Reach-IsSeen :
      (s : Search) {q : Location}
      → Inv m start goal NoLocation s
      → s.frontier ≡ []
      → Reach m start q
      → IsSeen s q
  Reach-IsSeen s i e here = i.start_seen
  Reach-IsSeen s i e (step {p} {q} r near free) = elim (i.closed p (Reach-IsSeen s i e r)) [
    | inl never ↦ absurd never
    | inr (inl waits) ↦ absurd (subst (Waits p) e waits)
    | inr (inr done) ↦ done q near free
  ]

  search-empty :
      (fuel : ℕ) (s : Search)
      → get s.frontier ≡ none
      → search m goal (suc fuel) s ≡ came_from_map s.came_from
  unfolding search
  search-empty fuel s e = rw (e, search)

  search-goal :
      (fuel : ℕ) (s : Search) (current : Location) (rest : List Entry)
      → get s.frontier ≡ some (current, rest)
      → (current == goal) ≡ true
      → search m goal (suc fuel) s ≡ came_from_map s.came_from
  unfolding search
  search-goal fuel s current rest e h = rw (e, h, search)

  search-step :
      (fuel : ℕ) (s : Search) (current : Location) (rest : List Entry) (nexts : List Location)
      → get s.frontier ≡ some (current, rest)
      → (current == goal) ≡ false
      → get_neighbours m current ≡ some nexts
      → search m goal (suc fuel) s
        ≡ search m goal fuel (visit_all goal current nexts (record s { frontier = rest }))
  unfolding search
  search-step fuel s current rest nexts e h n = rw (e, h, n, search)

  -- The location that is taken is exempt until its neighbours are visited.
  Inv-take :
      (s : Search) (current : Location) (rest : List Entry)
      → Takes s.frontier current rest
      → Inv m start goal NoLocation s
      → Inv m start goal (λ p. p ≡ current) (record s { frontier = rest })
  Inv-take s current rest t i = record {
    cost_le = i.cost_le;
    edge = i.edge;
    came_seen = i.came_seen;
    chain = i.chain;
    waiting = λ q h. i.waiting q (t.stays q h);
    start_seen = i.start_seen;
    closed = λ p h. elim (i.closed p h) [
      | inl never ↦ absurd never
      | inr (inl waits) ↦ elim (t.only p waits) [ inl e ↦ inl e | inr w ↦ inr (inl w) ]
      | inr (inr done) ↦ inr (inr done)
    ];
  }

  Inv-close :
      (s : Search) (current : Location)
      → ((q : Location) → IsNear current q → IsFree m q → IsSeen s q)
      → Inv m start goal (λ p. p ≡ current) s
      → Inv m start goal NoLocation s
  Inv-close s current done i = record {
    cost_le = i.cost_le;
    edge = i.edge;
    came_seen = i.came_seen;
    chain = i.chain;
    waiting = i.waiting;
    start_seen = i.start_seen;
    closed =
        λ p h. elim (i.closed p h) [ inl same ↦ inr (inr (rw same done)) | inr other ↦ inr other ];
  }

  abbrev no_costs : Dict Location ℕ
  no_costs = []

  find_nil : (q : Location) → find q no_costs ≡ none
  unfolding find
  find_nil q = refl

  no_origin : (q : Location) → find {V = Location} q [] ≡ none
  unfolding find
  no_origin q = refl

  Inv-initial : Inv m start goal NoLocation (initial start)
  unfolding initial
  Inv-initial = record {
    cost_le = λ q c e. ground (arith, find-assign start q 0 no_costs, find_nil q, e);
    edge = λ q p e. absurd (ground (arith, e, no_origin q));
    came_seen = λ q p e. absurd (ground (arith, e, no_origin q));
    chain = λ q (c, e). elim (Bool-cases (start == q)) [
      | inl same ↦ subst (Chain [] start) ((loc_beq_iff start q).0 same) root
      | inr other ↦ absurd (ground (arith, find-assign start q 0 no_costs, other, e, find_nil q))
    ];
    waiting = λ q. elim [
      | inl e ↦ rw e (0, find-assign_self start 0 no_costs)
      | inr nowhere ↦ absurd nowhere
    ];
    start_seen = (0, find-assign_self start 0 no_costs);
    closed = λ p (c, e). elim (Bool-cases (start == p)) [
      | inl same ↦ inr (inl (inl (sym ((loc_beq_iff start p).0 same))))
      | inr other ↦ absurd (ground (arith, find-assign start p 0 no_costs, other, e, find_nil p))
    ];
  }

  initial_work : tiles_left m start goal (initial start) < m.width * m.height + 2
  unfolding initial
  initial_work = omega (
    arith,
    unseen-le-length (assign start 0 no_costs) (grid m.width m.height),
    length-grid m.width m.height,
  )

  module _ (v : HasLayers m) where
    search-Finds :
        (fuel : ℕ) (s : Search)
        → Inv m start goal NoLocation s
        → tiles_left m start goal s < fuel
        → Finds (search m goal fuel s)
    search-Finds zero s i h = elim h [ ]
    search-Finds (suc fuel) s i h = elim (Option-cases (get s.frontier)) [
      | inl e ↦
          rw (search-empty fuel s e)
            (Inv-Finds NoLocation s i λ r. Reach-IsSeen s i (get-none s.frontier e) r)
      | inr ((current, rest), e) ↦
          let t = get-Takes s.frontier current rest e in
          elim (Bool-cases (current == goal)) [
            | inl same ↦ rw (search-goal fuel s current rest e same) (
                Inv-Finds NoLocation s i λ r.
                  subst (IsSeen s) ((loc_beq_iff current goal).0 same) (i.waiting current t.taken))
            | inr other ↦
                let found = found_neighbours-Surrounds m v current in
                let k = 9 - length found.out in
                let s₁ : Search = record s { frontier = rest } in
                let done =
                  visit_all-Visited m start goal (λ p. p ≡ current) current found.out k s₁
                    (Inv-take s current rest t i) (i.waiting current t.taken) found.near in
                rw
                  (search-step fuel s current rest (found.out ++ replicate k no_location) e other
                    (get_neighbours_lem m current found.out found.returns))
                  (search-Finds fuel _
                    (Inv-close _ current (λ q n f. done.all q (found.all q n f)) done.inv)
                    (omega (arith, done.work, t.shorter)))
          ]
    ]

    -- On a map with its layers `a_star_path` ends within its fuel and reads no element behind the end
    -- of a layer. In the map that it returns every entry is a step of one tile at most to a free tile,
    -- and its origins lead back to the start. If the goal is not the start, it has an entry exactly
    -- if a walk over free tiles reaches it.
    pub a_star_path-Finds : Finds (a_star_path m start goal)
    unfolding a_star_path
    a_star_path-Finds =
        search-Finds (m.width * m.height + 2) (initial start) Inv-initial initial_work
