-- ===== src/Ai/Tests.antt =====
-- One turn of an npc on the map of three by three tiles.
use core_cpp_archive.Ai.Leash.{run_ai_on-OnLeash}
use core_cpp_archive.Ai.Paths.{set_loc, set_npc_stats}
use core_cpp_archive.Ai.Turn.{
  AiServices, act, distance_between, has_target, leash, leash_to, move_npc, run_ai_on, wander,
}
use core_cpp_archive.Prelude.{
  [], bytes_beq, bytes_eq, false, find, if◌then◌else◌, int_eq, loc_eq, nat_eq, none, refl, some,
  text, true, ℤ, ◌-ℤ◌, ◌==◌, ◌∷◌, ◌≡◌, ◌≤◌, ◌⊎◌,
}
use core_cpp_archive.Samples.{small}
use core_cpp_archive.Spawning.{and_then, of_draw}
use core_cpp_archive.Tiles.{to_i32}
use core_cpp_archive.World.{
  NpcComponent, SpawnerScript, empty_character, empty_npc, stat_move, stat_value, touch_stat,
}

-- Draws the smallest number; a bound of 0 is undefined.
abbrev still_dice : AiServices
still_dice = record {
  rng = record {
    Gen = Unit;
    uniform_u64 = λ from to g. some (from, g);
    uniform_i64 = λ from to g. some (from, g);
  };
  bounded = λ bound g. if bound == 0 then none else some (0, g);
  root = λ n. n;
}

abbrev den : SpawnerScript
den = record {
  id = 1;
  respawn_rate = 1;
  initial_spawn = 1;
  max_creatures = 2;
  spawn_radius = 1;
  random_walk_radius = 1;
  leash_radius = 2;
  elite_tick_cap = 0;
  max_spawn = 2;
  loc = (ℤ.pos 0, ℤ.pos 0);
  should_be_active = true;
  can_slow_down = false;
  should_serialize = false;
  always_spawn = false;
  require_dead_to_respawn = false;
  do_initial_spawn_immediately = false;
  npc_ids = [];
  paths = [];
  npc_ai_settings = [];
}

-- Three tiles away from its spawner.
abbrev stray : NpcComponent
stray = record empty_npc {
  base = record empty_character { loc = (ℤ.pos 2, ℤ.pos 1); stats = (stat_move, 3) ∷ [] };
  spawner = some den;
}

run_ai_on-OnLeash_example :
    ((ℤ.pos 0, ℤ.pos 0) ≡ den.loc)
    ⊎ (distance_between still_dice (ℤ.pos 0, ℤ.pos 0) den.loc ≤ den.leash_radius)
unfolding run_ai_on act has_target find and_then of_draw set_npc_stats touch_stat stat_value
    move_npc wander leash_to leash set_loc to_i32 distance_between ◌-ℤ◌ bytes_beq text empty_npc
    empty_character
run_ai_on-OnLeash_example =
    run_ai_on-OnLeash still_dice den stray small 1 [] tt tt (set_loc (ℤ.pos 0, ℤ.pos 0) stray) refl
      refl refl refl
