-- ===== src/AStar/Tests.antt =====
-- Runs of `a_star_path` on a small map, and the theorems at that map.
use core_cpp_archive.AStar.{
  a_star_path, came_from_map, heuristic, initial, priority, record_step, search, visit, visit_all,
}
use core_cpp_archive.AStar.Frontier.{IsLeast, entry_lt, extract, extract-IsLeast, get, loc_lt}
use core_cpp_archive.AStar.Neighbours.{
  around, column_loop, column_neighbours, found_neighbours, get_neighbours, int_range, range_from,
}
use core_cpp_archive.AStar.Neighbours.Found.{Surrounds, found_neighbours-Surrounds}
use core_cpp_archive.AStar.Path.{Finds, a_star_path-Finds}
use core_cpp_archive.Prelude.{
  Bool, Location, Option, [], assign, bytes_eq, find, int_eq, loc_eq, nat_eq, none, refl, some, ℤ,
  ◌+ℤ◌, ◌-ℤ◌, ◌∷◌, ◌≡◌,
}
use core_cpp_archive.Samples.{small, small-HasLayers}
use core_cpp_archive.Tiles.{tile_in_layer, tile_is_walkable, to_i32}
use core_cpp_archive.Tiles.Laws.{tile_is_walkable-total}

abbrev corner : Location
corner = (ℤ.pos 0, ℤ.pos 0)

abbrev far_corner : Location
far_corner = (ℤ.pos 2, ℤ.pos 0)

walk : Option Location
walk = elim (a_star_path small corner far_corner) [ came_from_map c ↦ find far_corner c | _ ↦ none ]

walk_runs : walk ≡ some (ℤ.pos 2, ℤ.pos 1)
unfolding walk tile_in_layer a_star_path search initial visit_all visit record_step get entry_lt
    loc_lt get_neighbours found_neighbours column_loop column_neighbours around int_range range_from
    tile_is_walkable to_i32 priority heuristic find assign ◌+ℤ◌ ◌-ℤ◌
walk_runs = refl

a_star_path-Finds_example : Finds small corner far_corner (a_star_path small corner far_corner)
a_star_path-Finds_example = a_star_path-Finds small corner far_corner small-HasLayers

tile_is_walkable-total_example : (b : Bool) × (tile_is_walkable small (ℤ.pos 1) (ℤ.pos 2) ≡ some b)
tile_is_walkable-total_example = tile_is_walkable-total small small-HasLayers (ℤ.pos 1) (ℤ.pos 2)

found_neighbours-Surrounds_example :
    Surrounds small small-HasLayers corner (found_neighbours small corner)
found_neighbours-Surrounds_example = found_neighbours-Surrounds small small-HasLayers corner

extract-IsLeast_example :
    IsLeast
      (extract (ℤ.pos 3, corner) ((ℤ.pos 2, far_corner) ∷ [])).0
      ((ℤ.pos 3, corner) ∷ (ℤ.pos 2, far_corner) ∷ [])
extract-IsLeast_example = extract-IsLeast (ℤ.pos 3, corner) ((ℤ.pos 2, far_corner) ∷ [])
