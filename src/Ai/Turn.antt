-- ===== src/Ai/Turn.antt =====
-- src/ai/default_ai.cpp: what an npc does in one tick.
use core_cpp_archive.Ai.Paths.{follow_path, set_loc, set_npc_stats}
use core_cpp_archive.Prelude.{
  Bool, Dict, List, Location, Option, Text, [], assign, bytes_eq, false, find, get_elem?,
  if◌then◌else◌, int_eq, is_empty, leb_ℤ, length, loc_eq, ltb, ltb_ℤ, min, nat_eq, neg_part, negsuc,
  none, not, pos_part, some, suc, text, true, zero, ℕ, ℤ, ◌%◌, ◌&&◌, ◌*◌, ◌++◌, ◌+ℤ◌, ◌+◌, ◌-ℤ◌,
  ◌-◌, ◌==◌, ◌^◌, ◌||◌, ◌∷◌,
}
use core_cpp_archive.Rapidjson.{is_some}
use core_cpp_archive.Spawning.{Drawn, Random, and_then, bad_draw, drawn, of_draw, still_drawing}
use core_cpp_archive.Tiles.{tile_is_walkable, to_i32}
use core_cpp_archive.World.{
  MapComponent, NpcComponent, SpawnerScript, stat_hp, stat_max_hp, stat_max_mp, stat_move, stat_mp,
  stat_value, touch_stat,
}

-- What is called outside of src/: the generators and distributions (Random), a pcg with an upper
-- bound, which divides by 0 (`none`) for the bound 0, and `sqrt` as a `uint32_t`.
pub record AiServices : Type 1 where
  pub rng : Random
  pub bounded : ℕ → rng.Gen → Option (ℕ × rng.Gen)
  pub root : ℕ → ℕ

-- The players at a location, by the ids of their connections.
abbrev pub PlayerLocationMap : Type 0
PlayerLocationMap = Dict Location (List ℕ)

-- The texts of src/ecs/components.cpp; that of `hostility_never` is "always" there.
abbrev pub hostility_never : Text
hostility_never = text "always"

abbrev pub hostility_on_hit : Text
hostility_on_hit = text "onHit"

-- -radius, ..., radius.
unfoldable pub upward : ℤ → ℕ → List ℤ
upward from zero = []
upward from (suc n) = from ∷ upward (from +ℤ ℤ.pos 1) n

abbrev pub outside : ℤ → ℕ → Bool
outside c size = ltb_ℤ c (ℤ.pos 0) || leb_ℤ (to_i32 size) c

unfoldable pub players_in_column : MapComponent → PlayerLocationMap → ℤ → ℤ → List ℤ → List ℕ
players_in_column m locations x y [] = []
players_in_column m locations x y (y_radius ∷ rest) =
    if outside (y -ℤ y_radius) m.height
    then players_in_column m locations x y rest
    else elim (find (x, y -ℤ y_radius) locations) [
      | none ↦ players_in_column m locations x y rest
      | some players ↦ players ++ players_in_column m locations x y rest
    ]

unfoldable pub players_in_columns :
    MapComponent → PlayerLocationMap → Location → List ℤ → List ℤ → List ℕ
players_in_columns m locations (x, y) [] radii = []
players_in_columns m locations (x, y) (x_radius ∷ rest) radii =
    if outside (x -ℤ x_radius) m.width
    then players_in_columns m locations (x, y) rest radii
    else players_in_column m locations (x -ℤ x_radius) y radii
      ++ players_in_columns m locations (x, y) rest radii

unfoldable pub get_players_in_range : NpcComponent → MapComponent → PlayerLocationMap → ℕ → List ℕ
get_players_in_range npc m locations radius =
    let radii = upward (ℤ.pos 0 -ℤ ℤ.pos radius) (2 * radius + 1) in
    players_in_columns m locations npc.loc radii radii

unfoldable pub heal : NpcComponent → NpcComponent
heal npc =
    let stats = touch_stat stat_max_mp (touch_stat stat_max_hp npc.stats) in
    set_npc_stats
      (assign stat_mp (stat_value stat_max_mp stats)
        (assign stat_hp (stat_value stat_max_hp stats) stats))
      npc

module _ (ai : AiServices) where
  abbrev Turn : Type 0 → Type 0
  Turn A = Drawn ai.rng.Gen A

  -- `while(num_steps > 0)`.
  unfoldable pub wander : MapComponent → ℕ → ℤ → NpcComponent → ai.rng.Gen → Turn NpcComponent
  wander m zero num_steps npc g = still_drawing
  wander m (suc fuel) num_steps npc g =
      if leb_ℤ num_steps (ℤ.pos 0)
      then drawn npc g
      else and_then (of_draw (ai.rng.uniform_i64 (negsuc 0) (ℤ.pos 1) g)) (λ x g.
        and_then (of_draw (ai.rng.uniform_i64 (negsuc 0) (ℤ.pos 1) g)) (λ y g.
          elim (tile_is_walkable m (npc.loc.0 +ℤ x) (npc.loc.1 +ℤ y)) [
            | none ↦ bad_draw
            | some true ↦
                wander m fuel (num_steps -ℤ ℤ.pos 1) (set_loc (npc.loc.0 +ℤ x, npc.loc.1 +ℤ y) npc)
                  g
            | some false ↦ wander m fuel num_steps npc g
          ]))

  -- Whether there is a target; the only one in range is taken for none.
  unfoldable pub has_target :
      NpcComponent → MapComponent → PlayerLocationMap → ai.rng.Gen → Turn Bool
  has_target npc m locations g =
      if not (npc.hostility == hostility_on_hit && not (is_some npc.agro_target))
        && is_some (find npc.loc locations)
      then (let targets = get_players_in_range npc m locations 4 in
          if ltb 1 (length targets)
          then and_then (of_draw (ai.bounded (length targets - 1) g))
              (λ i g. elim (get_elem? targets i) [ none ↦ bad_draw | some target ↦ drawn true g ])
          else drawn false g)
      else drawn false g

  -- The three ways to move.
  unfoldable pub move_npc :
      MapComponent → ℕ → Bool → ℤ → NpcComponent → ai.rng.Gen → Turn NpcComponent
  move_npc m fuel target num_steps npc g =
      if target
      then drawn npc g
      else (if is_empty npc.paths
          then wander m fuel num_steps npc g
          else follow_path m fuel num_steps npc g)

  unfoldable pub distance_between : Location → Location → ℕ
  distance_between (x, y) (x', y') =
      let dx = pos_part (x' -ℤ x) + neg_part (x' -ℤ x) in
      let dy = pos_part (y' -ℤ y) + neg_part (y' -ℤ y) in ai.root (dx * dx + dy * dy)

  -- The end of `run_ai_on`: an npc without paths that has gone too far is put back.
  unfoldable pub leash : Bool → SpawnerScript → NpcComponent → NpcComponent
  leash target script npc =
      let distance = distance_between npc.loc script.loc in
      if is_empty npc.paths
        && (not target && ltb script.random_walk_radius distance
            || ltb script.leash_radius distance)
      then (if ltb ((script.leash_radius + 4) % 2 ^ 32) distance
          then heal (set_loc script.loc npc)
          else set_loc script.loc npc)
      else npc

  unfoldable pub leash_to :
      Bool → Option SpawnerScript → NpcComponent → ai.rng.Gen → Turn NpcComponent
  leash_to target none npc g = bad_draw
  leash_to target (some script) npc g = drawn (leash target script npc) g

  -- `check_ground_for_items` changes nothing, so that only its draw is left.
  unfoldable pub act :
      MapComponent → ℕ → PlayerLocationMap → NpcComponent → ai.rng.Gen → Turn NpcComponent
  act m fuel locations npc g = and_then (has_target npc m locations g) (λ target g.
      let rate = stat_value stat_move npc.stats in
      let touched = set_npc_stats (touch_stat stat_move npc.stats) npc in
      and_then
        (of_draw (
          ai.bounded (if is_empty npc.paths then rate else min rate npc.steps_remaining_in_path) g))
        (λ n g. and_then (of_draw (ai.rng.uniform_u64 0 100 g)) (λ _ g.
          and_then (move_npc m fuel target (to_i32 (n % 2 ^ 32)) touched g)
            (λ walked g. leash_to target walked.spawner walked g))))

  unfoldable pub run_ai_on :
      NpcComponent → MapComponent → ℕ → PlayerLocationMap → ai.rng.Gen → Turn NpcComponent
  run_ai_on npc m fuel locations g =
      if npc.hostility == hostility_never then drawn npc g else act m fuel locations npc g
