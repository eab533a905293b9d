-- ===== src/Spawning/Laws.antt =====
-- Where a new npc stands and what stats it has, and what `fill_spawners` comes to.
use core_cpp_archive.Prelude.{
  Bool, List, Option, [], any_of, bytes_eq, false, find, if◌then◌else◌, int_eq, loc_eq, nat_eq,
  none, not, refl, some, true, ℕ, ◌&&◌, ◌∷◌, ◌≡◌,
}
use core_cpp_archive.Rapidjson.{is_some}
use core_cpp_archive.Spawning.{Random, bad_draw, drawn}
use core_cpp_archive.Spawning.Spawners.{count_npcs, fill, fill_counted, fill_spawners, is_dead}
use core_cpp_archive.World.{MapComponent, NpcComponent, SpawnerScript}

-- A living npc that a spawner has made.
abbrev pub is_spawned : NpcComponent → Bool
is_spawned npc = not (is_dead npc) && is_some npc.spawner

count_npcs-nobody :
    (npcs : List NpcComponent)
    → count_npcs npcs [] ≡ (if any_of is_spawned npcs then none else some [])
unfolding count_npcs find
count_npcs-nobody [] = refl
count_npcs-nobody (npc ∷ npcs) = counted (is_dead npc) npc.spawner (count_npcs-nobody npcs)
  where
    counted :
        (dead : Bool) (o : Option SpawnerScript)
        → count_npcs npcs [] ≡ (if any_of is_spawned npcs then none else some [])
        → (if dead
            then count_npcs npcs []
            else elim o [ none ↦ count_npcs npcs [] | some script ↦ none ])
          ≡ (if (if not dead && is_some o then true else any_of is_spawned npcs)
              then none
              else some [])
    counted true o rest = rest
    counted false none rest = rest
    counted false (some script) rest = refl

-- `fill_spawners` is undefined if a living npc has a spawner, and otherwise spawns nothing.
pub fill_spawners_lem :
    (rng : Random) (m : MapComponent) (npc_id_counter fuel : ℕ) (npcs : List NpcComponent)
    (g : rng.Gen)
    → fill_spawners rng m npc_id_counter fuel npcs g
      ≡ (if any_of is_spawned npcs then bad_draw else drawn npcs g)
unfolding fill_spawners fill_counted fill
fill_spawners_lem rng m npc_id_counter fuel npcs g =
    rw (count_npcs-nobody npcs) (decided (any_of is_spawned npcs))
  where
    decided :
        (b : Bool)
        → fill_counted rng (if b then none else some []) m npc_id_counter fuel npcs g
          ≡ (if b then bad_draw else drawn npcs g)
    decided true = refl
    decided false = refl
