-- ===== src/AStar.antt =====
-- src/game_logic/a_star.cpp. The frontier is the list of the entries of the priority queue; an
-- `int32_t` coordinate is an integer, and a sum of coordinates does not wrap. The `while` loop takes
-- fuel: one round for each tile, one for the start and one for the last test are enough, since a
-- location is put into the frontier at most once.
pub mod Frontier
pub mod Neighbours
pub mod Reachable
pub mod Invariant
pub mod Visits
pub mod Path
mod Tests
use core_cpp_archive.AStar.Frontier.{Entry, get}
use core_cpp_archive.AStar.Neighbours.{get_neighbours}
use core_cpp_archive.Prelude.{
  Dict, List, Location, [], abs_diff, assign, bytes_eq, false, find, if◌then◌else◌, int_eq, loc_eq,
  ltb, nat_eq, none, some, suc, true, zero, ℕ, ℤ, ◌%◌, ◌*◌, ◌+◌, ◌==◌, ◌^◌, ◌∷◌,
}
use core_cpp_archive.Tiles.{to_i32}
use core_cpp_archive.World.{MapComponent}

-- What `a_star_path` returns, a read behind the end of a layer, or a model that ran out of fuel.
pub data Outcome : Type 0 where
  came_from_map : Dict Location Location → Outcome
  out_of_range out_of_fuel : Outcome

-- The locals of `a_star_path`.
pub record Search : Type 0 where
  pub frontier : List Entry
  pub came_from : Dict Location Location
  pub cost_so_far : Dict Location ℕ

unfoldable pub heuristic : Location → Location → ℕ
heuristic (x, y) (x', y') = (abs_diff x x' + abs_diff y y') % 2 ^ 32

-- The priority, a `uint32_t` that `put` takes as an `int`.
unfoldable pub priority : ℕ → Location → Location → ℤ
priority new_cost next goal = to_i32 ((new_cost + heuristic next goal) % 2 ^ 32)

-- The assignments under the test of the cost.
unfoldable pub record_step : Location → Location → Location → ℕ → Search → Search
record_step goal current next new_cost s = record {
  frontier = (priority new_cost next goal, next) ∷ s.frontier;
  came_from = assign next current s.came_from;
  cost_so_far = assign next new_cost s.cost_so_far;
}

-- The body of the loop over the neighbours, behind its `break`.
unfoldable pub visit : Location → Location → Location → Search → Search
visit goal current next s = elim (find next s.cost_so_far) [
  | none ↦ record_step goal current next 1 s
  | some cost ↦
      let new_cost = (cost + 1) % 2 ^ 32 in
      if ltb new_cost cost then record_step goal current next new_cost s else s
]

unfoldable pub visit_all : Location → Location → List Location → Search → Search
visit_all goal current [] s = s
visit_all goal current (next ∷ rest) s =
    if next.0 == ℤ.negsuc 0 then s else visit_all goal current rest (visit goal current next s)

-- `while(!frontier.empty())`.
unfoldable pub search : MapComponent → Location → ℕ → Search → Outcome
search m goal zero s = out_of_fuel
search m goal (suc fuel) s = elim (get s.frontier) [
  | none ↦ came_from_map s.came_from
  | some (current, rest) ↦ elim (current == goal) [
    | true ↦ came_from_map s.came_from
    | false ↦ elim (get_neighbours m current) [
      | none ↦ out_of_range
      | some nexts ↦
          search m goal fuel (visit_all goal current nexts (record s { frontier = rest }))
    ]
  ]
]

unfoldable pub initial : Location → Search
initial start = record {
  frontier = (ℤ.pos 0, start) ∷ [];
  came_from = [];
  cost_so_far = assign start 0 [];
}

unfoldable pub a_star_path : MapComponent → Location → Location → Outcome
a_star_path m start goal = search m goal (m.width * m.height + 2) (initial start)
