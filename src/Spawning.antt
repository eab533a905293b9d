-- ===== src/Spawning.antt =====
-- src/game_logic/logic_helpers.cpp: making npcs.
pub mod Spawners
pub mod Laws
pub mod Placed
mod Tests
use core_cpp_archive.Prelude.{
  Dict, List, Location, Option, Text, [], assign, bytes_eq, false, find_if, get_elem?,
  if◌then◌else◌, int_eq, is_empty, length, loc_eq, ltb, nat_eq, none, some, suc, true, zero, ℕ, ℤ,
  ◌%◌, ◌+◌, ◌-◌, ◌==◌, ◌^◌, ◌∷◌,
}
use core_cpp_archive.Tiles.{tile_is_walkable, to_i32}
use core_cpp_archive.World.{
  MapComponent, NpcComponent, SpawnerNpcId, SpawnerScript, empty_character, empty_npc, stat_names,
  to_u32, to_u64,
}

-- pcg and the distributions of <random>, whose results lie between their two arguments and which
-- are undefined (`none`) if the first is larger.
pub record Random : Type 1 where
  pub Gen : Type 0
  pub uniform_u64 : ℕ → ℕ → Gen → Option (ℕ × Gen)
  pub uniform_i64 : ℤ → ℤ → Gen → Option (ℤ × Gen)

-- A run that draws random numbers: a result, undefined behaviour, or fuel that has run out.
pub data Drawn (G A : Type 0) : Type 0 where
  drawn : A → G → Drawn G A
  bad_draw : Drawn G A
  still_drawing : Drawn G A

unfoldable pub and_then : {G A B : Type 0} → Drawn G A → (A → G → Drawn G B) → Drawn G B
and_then (drawn a g) f = f a g
and_then bad_draw f = bad_draw
and_then still_drawing f = still_drawing

unfoldable pub of_draw : {G A : Type 0} → Option (A × G) → Drawn G A
of_draw none = bad_draw
of_draw (some (a, g)) = drawn a g

-- The members that do not depend on a loop.
unfoldable pub npc_of : ℕ → SpawnerNpcId → SpawnerScript → ℕ → Location → Dict Text ℕ → NpcComponent
npc_of npc_id_counter id script sprite loc stats = record empty_npc {
  base = record empty_character {
    id = npc_id_counter;
    allegiance = id.allegiance;
    alignment = id.alignment;
    gender = id.gender;
    dir = id.dir;
    hostility = id.hostility;
    character_class = id.character_class;
    monster_class = id.monster_class;
    spawn_message = id.spawn_message;
    sfx = id.sfx;
    level = id.level;
    highest_level = id.level;
    sprite = sprite;
    skill_on_kill = id.skill_on_kill;
    sfx_max_chance = id.sfx_max_chance;
    loc = loc;
    stats = stats;
  };
  npc_id = id.npc_id;
  spawner = some script;
}

module _ (rng : Random) where
  -- One coordinate: `generate_single((uint64_t)c - spawn_radius, c + spawn_radius)` as an `int32_t`.
  unfoldable pub draw_coordinate : ℤ → ℕ → rng.Gen → Drawn rng.Gen ℤ
  draw_coordinate c spawn_radius g =
      and_then
        (of_draw (
          rng.uniform_u64 ((to_u64 c + (2 ^ 64 - spawn_radius)) % 2 ^ 64)
            ((to_u32 c + spawn_radius) % 2 ^ 32) g))
        (λ n g. drawn (to_i32 (n % 2 ^ 32)) g)

  -- `while(!found_coord)`.
  unfoldable pub find_coord : MapComponent → Location → ℕ → ℕ → rng.Gen → Drawn rng.Gen Location
  find_coord m (x, y) spawn_radius zero g = still_drawing
  find_coord m (x, y) spawn_radius (suc fuel) g =
      and_then (draw_coordinate x spawn_radius g) (λ a g.
        and_then (draw_coordinate y spawn_radius g) (λ b g. elim (tile_is_walkable m a b) [
          | none ↦ bad_draw
          | some true ↦ drawn (a, b) g
          | some false ↦ find_coord m (x, y) spawn_radius fuel g
        ]))

  -- One stat: random, fixed, or missing (`none`).
  unfoldable pub draw_stat : SpawnerNpcId → Text → rng.Gen → Drawn rng.Gen (Option ℕ)
  draw_stat id stat g = elim (find_if (λ rs. rs.name == stat) id.random_stats) [
    | some rs ↦
        and_then (of_draw (rng.uniform_i64 rs.min rs.max g)) (λ n g. drawn (some (to_u64 n)) g)
    | none ↦ elim (find_if (λ s. s.name == stat) id.stats) [
      | none ↦ drawn none g
      | some s ↦ drawn (some (to_u64 s.value)) g
    ]
  ]

  -- The loop over `stat_names`.
  unfoldable pub draw_stats :
      SpawnerNpcId → List Text → Dict Text ℕ → rng.Gen → Drawn rng.Gen (Option (Dict Text ℕ))
  draw_stats id [] stats g = drawn (some stats) g
  draw_stats id (stat ∷ names) stats g = and_then (draw_stat id stat g) (λ value g. elim value [
    | none ↦ drawn none g
    | some n ↦ draw_stats id names (assign stat n stats) g
  ])

  unfoldable pub spawn_loc : MapComponent → SpawnerScript → ℕ → rng.Gen → Drawn rng.Gen Location
  spawn_loc m script fuel g =
      if ltb 0 script.spawn_radius
      then find_coord m script.loc script.spawn_radius fuel g
      else drawn script.loc g

  unfoldable pub draw_sprite : List ℕ → rng.Gen → Drawn rng.Gen ℕ
  draw_sprite sprites g =
      and_then (of_draw (rng.uniform_u64 0 (length sprites - 1) g))
        (λ i g. elim (get_elem? sprites i) [ none ↦ bad_draw | some sprite ↦ drawn sprite g ])

  -- The next value of `npc_id_counter` is `npc_id_counter + 1` unless there is no sprite.
  unfoldable pub create_npc :
      ℕ
      → SpawnerNpcId
      → MapComponent
      → SpawnerScript
      → ℕ
      → rng.Gen
      → Drawn rng.Gen (Option NpcComponent)
  create_npc npc_id_counter id m script fuel g =
      if is_empty id.sprite
      then drawn none g
      else and_then (draw_sprite id.sprite g) (λ sprite g.
        and_then (spawn_loc m script fuel g) (λ loc g.
          and_then (draw_stats id stat_names [] g) (λ stats g. elim stats [
            | none ↦ drawn none g
            | some stats ↦ drawn (some (npc_of npc_id_counter id script sprite loc stats)) g
          ])))
