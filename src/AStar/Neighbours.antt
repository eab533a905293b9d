-- ===== src/AStar/Neighbours.antt =====
-- src/game_logic/a_star.cpp: `get_neighbours`. The array `locs` is the list of the locations written
-- so far; what is left of its nine places holds (-1, -1).
pub mod Ranges
pub mod Found
use core_cpp_archive.Prelude.{
  List, Location, Option, [], if◌then◌else◌, length, ltb_ℤ, pos_part, replicate, some, suc, zero, ℕ,
  ℤ, ◌++◌, ◌+ℤ◌, ◌-ℤ◌, ◌-◌, ◌>>=◌, ◌∷◌,
}
use core_cpp_archive.Tiles.{tile_is_walkable, to_i32}
use core_cpp_archive.World.{MapComponent}

unfoldable pub range_from : ℕ → ℤ → List ℤ
range_from zero z = []
range_from (suc n) z = z ∷ range_from n (z +ℤ ℤ.pos 1)

-- `for(z = lo; z <= hi; z++)`.
unfoldable pub int_range : ℤ → ℤ → List ℤ
int_range lo hi = range_from (pos_part (hi -ℤ lo +ℤ ℤ.pos 1)) lo

-- The inner loop over the rows of one column, after the locations found so far.
unfoldable pub column_neighbours :
    MapComponent → ℤ → List ℤ → List Location → Option (List Location)
column_neighbours m x [] locs = some locs
column_neighbours m x (y ∷ ys) locs = tile_is_walkable m x y >>= λ free.
    column_neighbours m x ys (if free then locs ++ (x, y) ∷ [] else locs)

unfoldable pub column_loop : MapComponent → List ℤ → List ℤ → List Location → Option (List Location)
column_loop m [] ys locs = some locs
column_loop m (x ∷ xs) ys locs = column_neighbours m x ys locs >>= column_loop m xs ys

abbrev pub no_location : Location
no_location = (ℤ.negsuc 0, ℤ.negsuc 0)

-- The two ranges: one step around `c`, cut to 0 and to the size of the map.
unfoldable pub around : ℤ → ℕ → List ℤ
around c size =
    let hi = c +ℤ ℤ.pos 1 in
    let limit = to_i32 size in
    int_range (ℤ.pos (pos_part (c -ℤ ℤ.pos 1))) (if ltb_ℤ limit hi then limit else hi)

unfoldable pub found_neighbours : MapComponent → Location → Option (List Location)
found_neighbours m loc = column_loop m (around loc.0 m.width) (around loc.1 m.height) []

unfoldable pub get_neighbours : MapComponent → Location → Option (List Location)
get_neighbours m loc =
    found_neighbours m loc >>= λ locs. some (locs ++ replicate (9 - length locs) no_location)
