-- ===== src/Ai/Paths.antt =====
-- src/ai/default_ai.cpp: an npc that follows its paths.
use core_cpp_archive.AStar.{Outcome, a_star_path, came_from_map, out_of_fuel, out_of_range}
use core_cpp_archive.Prelude.{
  Dict, List, Location, Option, Text, [], assign, bytes_eq, drop, false, find, get_elem?,
  if◌then◌else◌, int_eq, leb, length, loc_eq, nat_eq, none, pos_part, some, suc, zero, ℕ, ℤ, ◌++◌,
  ◌+ℤ◌, ◌+◌, ◌-ℤ◌, ◌==◌, ◌∷◌,
}
use core_cpp_archive.Spawning.{Drawn, and_then, bad_draw, drawn, still_drawing}
use core_cpp_archive.World.{
  MapComponent, MovementDirection, NpcComponent, east, north, north_east, north_west, south,
  south_east, south_west, to_u64, west,
}
use mathlib.Core.List.{reverse}

unfoldable pub set_loc : Location → NpcComponent → NpcComponent
set_loc loc npc = record npc { base = record npc.base { loc = loc } }

unfoldable pub set_npc_stats : Dict Text ℕ → NpcComponent → NpcComponent
set_npc_stats stats npc = record npc { base = record npc.base { stats = stats } }

unfoldable pub direction_to_position_offset : MovementDirection → ℤ → Location
direction_to_position_offset north steps = (ℤ.pos 0, steps)
direction_to_position_offset east steps = (steps, ℤ.pos 0)
direction_to_position_offset south steps = (ℤ.pos 0, ℤ.pos 0 -ℤ steps)
direction_to_position_offset west steps = (ℤ.pos 0 -ℤ steps, ℤ.pos 0)
direction_to_position_offset north_east steps = (steps, steps)
direction_to_position_offset north_west steps = (steps, ℤ.pos 0 -ℤ steps)
direction_to_position_offset south_east steps = (ℤ.pos 0 -ℤ steps, steps)
direction_to_position_offset south_west steps = (ℤ.pos 0 -ℤ steps, ℤ.pos 0 -ℤ steps)

-- The end of a path: the next one, or the first again.
unfoldable pub next_path : NpcComponent → Option NpcComponent
next_path npc =
    let index =
      if leb (length npc.paths) (npc.current_path_index + 1)
      then 0
      else npc.current_path_index + 1 in
    elim (get_elem? npc.paths index) [
      | none ↦ none
      | some path ↦
          some (record npc { current_path_index = index; steps_remaining_in_path = path.steps })
    ]

unfoldable pub move_npc_along_path : ℤ → NpcComponent → Option NpcComponent
move_npc_along_path num_steps npc = elim (get_elem? npc.paths npc.current_path_index) [
  | none ↦ none
  | some path ↦
      let offset = direction_to_position_offset path.direction num_steps in
      let remaining = to_u64 (ℤ.pos npc.steps_remaining_in_path -ℤ num_steps) in
      let walked = record (set_loc (npc.loc.0 +ℤ offset.0, npc.loc.1 +ℤ offset.1) npc) {
        steps_remaining_in_path = remaining;
      } in
      if remaining == 0 then next_path walked else some walked
]

-- `while (next != npc.loc)`: `next` is the entry of the goal, which the loop overwrites. A key that
-- is missing is inserted, after which the reference may dangle (`bad_draw`).
unfoldable pub trace_back :
    {G : Type 0}
    → Location
    → Location
    → Dict Location Location
    → ℕ
    → Location
    → List Location
    → G
    → Drawn G (List Location)
trace_back loc goal paths zero next path g = still_drawing
trace_back loc goal paths (suc fuel) next path g =
    if next == loc then drawn path g else elim (find next paths) [
      | none ↦ bad_draw
      | some before ↦
          trace_back loc goal (assign goal before paths) fuel before (path ++ next ∷ []) g
    ]

-- `paths[key]`: a missing key is inserted with two zeros.
abbrev or_origin : Option Location → Location
or_origin none = (ℤ.pos 0, ℤ.pos 0)
or_origin (some loc) = loc

unfoldable pub return_path : {G : Type 0} → ℕ → NpcComponent → Outcome → G → Drawn G (List Location)
return_path fuel npc out_of_range g = bad_draw
return_path fuel npc out_of_fuel g = still_drawing
return_path fuel npc (came_from_map paths) g =
    let next = or_origin (find npc.loc_before_interruption paths) in
    trace_back npc.loc npc.loc_before_interruption (assign npc.loc_before_interruption next paths)
      fuel next [] g

unfoldable pub first_after : ℤ → List Location → Location → Location
first_after num_steps path loc = elim (drop (pos_part num_steps) path) [
  | [] ↦ loc
  | ◌∷◌ next rest ↦ next
]

unfoldable pub of_step : {G A : Type 0} → Option A → G → Drawn G A
of_step none g = bad_draw
of_step (some a) g = drawn a g

-- An npc whose path was interrupted, or not.
unfoldable pub follow_path :
    {G : Type 0} → MapComponent → ℕ → ℤ → NpcComponent → G → Drawn G NpcComponent
follow_path m fuel num_steps npc g =
    if npc.is_path_interrupted
    then (if npc.loc == npc.loc_before_interruption
        then of_step (move_npc_along_path num_steps (record npc { is_path_interrupted = false })) g
        else and_then (return_path fuel npc (a_star_path m npc.loc npc.loc_before_interruption) g)
            (λ path g. drawn (set_loc (first_after num_steps (reverse path) npc.loc) npc) g))
    else of_step (move_npc_along_path num_steps npc) g
