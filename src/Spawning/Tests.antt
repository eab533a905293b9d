-- ===== src/Spawning/Tests.antt =====
-- Npcs on the map of three by three tiles.
use core_cpp_archive.Prelude.{
  All, Dict, List, Text, [], assign, bytes_beq, bytes_eq, false, find, if◌then◌else◌, int_eq, leb,
  leb_ℤ, loc_eq, nat_eq, none, refl, some, text, true, ℕ, ℤ, ◌∷◌, ◌≡◌,
}
use core_cpp_archive.Samples.{small}
use core_cpp_archive.Spawning.{
  Random, and_then, bad_draw, create_npc, draw_coordinate, draw_sprite, draw_stat, draw_stats,
  find_coord, npc_of, of_draw, spawn_loc,
}
use core_cpp_archive.Spawning.Laws.{fill_spawners_lem}
use core_cpp_archive.Spawning.Placed.{HasStat, Stands, create_npc_lem}
use core_cpp_archive.Spawning.Spawners.{fill_spawners, is_dead}
use core_cpp_archive.Tiles.{tile_in_layer, tile_is_free, tile_is_walkable, to_i32}
use core_cpp_archive.World.{
  NpcComponent, SpawnerNpcId, SpawnerScript, StatComponent, empty_npc, stat_hp, stat_names,
  stat_value, to_u32, to_u64,
}

-- Draws the smallest number, and is undefined if there is none.
abbrev lowest : Random
lowest = record {
  Gen = Unit;
  uniform_u64 = λ from to g. if leb from to then some (from, g) else none;
  uniform_i64 = λ from to g. if leb_ℤ from to then some (from, g) else none;
}

abbrev fixed : List Text → List StatComponent
fixed [] = []
fixed (name ∷ names) = record { name = name; value = ℤ.pos 7 } ∷ fixed names

abbrev rat : SpawnerNpcId
rat = record {
  chance = 1;
  npc_id = text "rat";
  allegiance = [];
  alignment = [];
  gender = [];
  dir = [];
  hostility = [];
  character_class = [];
  monster_class = [];
  spawn_message = [];
  sfx = [];
  level = 1;
  highest_level = 1;
  sprite = 5 ∷ [];
  skill_on_kill = 0;
  sfx_max_chance = 0;
  stats = fixed stat_names;
  random_stats = [];
  items = [];
  skills = [];
}

abbrev nest : SpawnerScript
nest = record {
  id = 1;
  respawn_rate = 1;
  initial_spawn = 1;
  max_creatures = 2;
  spawn_radius = 1;
  random_walk_radius = 1;
  leash_radius = 1;
  elite_tick_cap = 0;
  max_spawn = 2;
  loc = (ℤ.pos 1, ℤ.pos 1);
  should_be_active = true;
  can_slow_down = false;
  should_serialize = false;
  always_spawn = false;
  require_dead_to_respawn = false;
  do_initial_spawn_immediately = false;
  npc_ids = rat ∷ [];
  paths = [];
  npc_ai_settings = [];
}

abbrev seven : List Text → Dict Text ℕ → Dict Text ℕ
seven [] stats = stats
seven (name ∷ names) stats = seven names (assign name 7 stats)

abbrev new_rat : NpcComponent
new_rat = npc_of 0 rat nest 5 (ℤ.pos 0, ℤ.pos 0) (seven stat_names [])

create_npc_lem_example : Stands small nest new_rat.loc × All (HasStat new_rat.stats) stat_names
unfolding create_npc draw_sprite spawn_loc find_coord draw_coordinate and_then of_draw draw_stats
    draw_stat tile_is_walkable tile_in_layer tile_is_free to_u64 to_u32 to_i32 bytes_beq text assign
    find
create_npc_lem_example = create_npc_lem lowest rat small nest 0 3 tt tt new_rat refl

abbrev grown : NpcComponent
grown = npc_of 0 rat nest 5 (ℤ.pos 1, ℤ.pos 1) ((stat_hp, 3) ∷ [])

fill_spawners_lem_example : fill_spawners lowest small 0 3 (empty_npc ∷ grown ∷ []) tt ≡ bad_draw
unfolding is_dead stat_value find empty_npc npc_of bytes_beq text
fill_spawners_lem_example = fill_spawners_lem lowest small 0 3 (empty_npc ∷ grown ∷ []) tt
