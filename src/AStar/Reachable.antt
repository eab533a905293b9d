-- ===== src/AStar/Reachable.antt =====
-- What the search should find: the locations that a walk over free tiles reaches, the chains that
-- `came_from` holds, and the tiles of a map as a list, for the count of the rounds.
use core_cpp_archive.AStar.Neighbours.Found.{IsNear}
use core_cpp_archive.Prelude.{
  Bool-cases, Dict, List, Location, [], ap, arith, assign, bytes_eq, find, find-assign, inl, inr,
  int_eq, length, length-append, loc_beq_iff, loc_eq, ltb, mem-append_left, mem-append_right,
  nat_eq, none, refl, some, subst, suc, zero, ℕ, ℤ, ◌*◌, ◌++◌, ◌<◌, ◌∈◌, ◌∷◌, ◌≡◌, ◌≤◌,
}
use core_cpp_archive.Tiles.Laws.{IsFree}
use core_cpp_archive.World.{MapComponent}

-- `q` is reached from `start` by steps to free tiles. The start itself need not be free.
pub data Reach (m : MapComponent) (start : Location) : Location → Type 0 where
  here : Reach m start start
  step : {p q : Location} → Reach m start p → IsNear p q → IsFree m q → Reach m start q

-- Following `came` from `q` ends at `start`.
pub data Chain (came : Dict Location Location) (start : Location) : Location → Type 0 where
  root : Chain came start start
  link : {p q : Location} → find q came ≡ some p → Chain came start p → Chain came start q

pub Chain-assign :
    {came : Dict Location Location} {start q : Location} (n p : Location)
    → find n came ≡ none
    → Chain came start q
    → Chain (assign n p came) start q
Chain-assign n p fresh root = root
Chain-assign {came} n p fresh (link {p = r} {q = q} e c) =
    link (ground (arith, find-assign n q p came, e, fresh, loc_beq_iff n q))
      (Chain-assign n p fresh c)

-- The edges of a chain are steps, so a chain is a walk.
pub Chain-Reach :
    {m : MapComponent} {came : Dict Location Location} {start q : Location}
    → ((q p : Location) → find q came ≡ some p → IsNear p q × IsFree m q)
    → Chain came start q
    → Reach m start q
Chain-Reach edge root = here
Chain-Reach edge (link {p} {q} e c) =
    let near = edge q p e in step (Chain-Reach edge c) near.0 near.1

grid_row : ℕ → ℕ → List Location
grid_row zero j = []
grid_row (suc i) j = (ℤ.pos i, ℤ.pos j) ∷ grid_row i j

pub grid : ℕ → ℕ → List Location
unfolding grid_row
grid w zero = []
grid w (suc j) = grid_row w j ++ grid w j

length-grid_row : (w j : ℕ) → length (grid_row w j) ≡ w
unfolding grid_row
length-grid_row zero j = refl
length-grid_row (suc i) j = ap suc (length-grid_row i j)

pub length-grid : (w h : ℕ) → length (grid w h) ≡ w * h
unfolding grid
length-grid w zero = omega arith
length-grid w (suc j) =
    grind (arith, length-append (grid_row w j) (grid w j), length-grid_row w j, length-grid w j)

mem-grid_row : (i j w : ℕ) → i < w → (ℤ.pos i, ℤ.pos j) ∈ grid_row w j
unfolding grid_row
mem-grid_row i j zero h = elim h [ ]
mem-grid_row i j (suc w) h = elim (Bool-cases (ltb i w)) [
  | inl less ↦ inr (mem-grid_row i j w (ground arith))
  | inr last ↦ inl (ground arith)
]

pub mem-grid : (i j w h : ℕ) → i < w → j < h → (ℤ.pos i, ℤ.pos j) ∈ grid w h
unfolding grid
mem-grid i j w zero p q = elim q [ ]
mem-grid i j w (suc h) p q = elim (Bool-cases (ltb j h)) [
  | inl less ↦ mem-append_right _ (grid_row w h) (grid w h) (mem-grid i j w h p (ground arith))
  | inr last ↦
      mem-append_left _ (grid_row w h) (grid w h)
        (let e : j ≡ h = ground arith in rw e (mem-grid_row i h w p))
]

-- How many of some locations have no cost yet.
pub unseen : Dict Location ℕ → List Location → ℕ
unseen cost [] = 0
unseen cost (c ∷ cs) = elim (find c cost) [ none ↦ suc (unseen cost cs) | some v ↦ unseen cost cs ]

pub unseen-le-length : (cost : Dict Location ℕ) (cs : List Location) → unseen cost cs ≤ length cs
unfolding unseen
unseen-le-length cost [] = omega arith
unseen-le-length cost (c ∷ cs) = ground (arith, unseen-le-length cost cs)

unseen-assign_le :
    (n : Location) (v : ℕ) (cost : Dict Location ℕ) (cs : List Location)
    → unseen (assign n v cost) cs ≤ unseen cost cs
unfolding unseen
unseen-assign_le n v cost [] = omega arith
unseen-assign_le n v cost (c ∷ cs) =
    ground (arith, find-assign n c v cost, unseen-assign_le n v cost cs)

-- A first cost for one of them lowers the count.
pub unseen-assign_lt :
    (n : Location) (v : ℕ) (cost : Dict Location ℕ) (cs : List Location)
    → n ∈ cs
    → find n cost ≡ none
    → unseen (assign n v cost) cs < unseen cost cs
unfolding unseen
unseen-assign_lt n v cost [] h e = elim h [ ]
unseen-assign_lt n v cost (c ∷ cs) (inl same) e = ground (
  arith,
  find-assign n c v cost,
  unseen-assign_le n v cost cs,
  loc_beq_iff n c,
  same,
  e,
  subst (λ l. find l cost ≡ none) same e,
)
unseen-assign_lt n v cost (c ∷ cs) (inr h) e =
    ground (arith, find-assign n c v cost, unseen-assign_lt n v cost cs h e)
