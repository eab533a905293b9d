-- ===== src/Spawning/Spawners.antt =====
-- src/game_logic/logic_helpers.cpp: `remove_dead_npcs` and `fill_spawners`.
use core_cpp_archive.Prelude.{
  Bool, Dict, List, Option, [], assign, bytes_eq, find, get_elem?, if◌then◌else◌, int_eq, is_empty,
  length, loc_eq, ltb, nat_eq, none, not, reject, some, ℕ, ◌%◌, ◌&&◌, ◌++◌, ◌+◌, ◌-◌, ◌==◌, ◌^◌,
  ◌∷◌,
}
use core_cpp_archive.Spawning.{Drawn, Random, and_then, bad_draw, create_npc, drawn, of_draw}
use core_cpp_archive.World.{MapComponent, NpcComponent, SpawnerScript, stat_hp, stat_value}

-- `npc.stats[stat_hp] <= 0`, of an unsigned number.
unfoldable pub is_dead : NpcComponent → Bool
is_dead npc = stat_value stat_hp npc.stats == 0

unfoldable pub remove_dead_npcs : List NpcComponent → List NpcComponent
remove_dead_npcs npcs = reject is_dead npcs

abbrev pub Counter : Type 0
Counter = Dict ℕ (ℕ × SpawnerScript)

-- The first loop of `fill_spawners`. Its test is the wrong way round: where the spawner has no
-- entry, it goes through the end iterator. `stats[stat_hp]` also makes an entry of 0 for an npc that
-- has none; it reads as before and is left out.
unfoldable pub count_npcs : List NpcComponent → Counter → Option Counter
count_npcs [] counter = some counter
count_npcs (npc ∷ npcs) counter =
    if is_dead npc then count_npcs npcs counter else elim npc.spawner [
      | none ↦ count_npcs npcs counter
      | some script ↦ elim (find script.id counter) [
        | none ↦ none
        | some _ ↦ count_npcs npcs (assign script.id (1, script) counter)
      ]
    ]

module _ (rng : Random) where
  -- One new npc of a spawner, in the second loop, with the next value of `npc_id_counter`.
  unfoldable pub spawn_one :
      MapComponent
      → ℕ
      → ℕ
      → SpawnerScript
      → List NpcComponent
      → rng.Gen
      → Drawn rng.Gen (List NpcComponent × ℕ)
  spawn_one m npc_id_counter fuel script npcs g =
      and_then (of_draw (rng.uniform_u64 0 (length script.npc_ids - 1) g)) (λ i g.
        elim (get_elem? script.npc_ids i) [
          | none ↦ bad_draw
          | some id ↦ and_then (create_npc rng npc_id_counter id m script fuel g) (λ made g.
              let next_id =
                if is_empty id.sprite then npc_id_counter else (npc_id_counter + 1) % 2 ^ 64 in
              elim made [
                | none ↦ drawn (npcs, next_id) g
                | some npc ↦ drawn (npcs ++ npc ∷ [], next_id) g
              ])
        ])

  -- The second loop.
  unfoldable pub fill :
      MapComponent
      → ℕ
      → ℕ
      → Counter
      → List NpcComponent
      → rng.Gen
      → Drawn rng.Gen (List NpcComponent)
  fill m npc_id_counter fuel [] npcs g = drawn npcs g
  fill m npc_id_counter fuel ((_, (count, script)) ∷ counter) npcs g =
      if ltb count script.max_creatures && not (is_empty script.npc_ids)
      then and_then (spawn_one m npc_id_counter fuel script npcs g)
          (λ made g. fill m made.1 fuel counter made.0 g)
      else fill m npc_id_counter fuel counter npcs g

  unfoldable pub fill_counted :
      Option Counter
      → MapComponent
      → ℕ
      → ℕ
      → List NpcComponent
      → rng.Gen
      → Drawn rng.Gen (List NpcComponent)
  fill_counted none m npc_id_counter fuel npcs g = bad_draw
  fill_counted (some counter) m npc_id_counter fuel npcs g =
      fill m npc_id_counter fuel counter npcs g

  unfoldable pub fill_spawners :
      MapComponent → ℕ → ℕ → List NpcComponent → rng.Gen → Drawn rng.Gen (List NpcComponent)
  fill_spawners m npc_id_counter fuel npcs g =
      fill_counted (count_npcs npcs []) m npc_id_counter fuel npcs g
