-- ===== src/World/Npc.antt =====
-- src/ecs/components.h: spawners and npcs.
use core_cpp_archive.Prelude.{Bool, List, Location, Option, Text, [], false, none, ℕ, ℤ}
use core_cpp_archive.World.Stats.{
  CharacterComponent, ItemComponent, RandomStatComponent, SkillComponent, StatComponent,
  empty_character,
}

pub data MovementDirection : Type 0 where
  north east south west north_east north_west south_east south_west : MovementDirection

pub record SpawnerNpcId : Type 0 where
  pub chance : ℕ
  pub npc_id : Text
  pub allegiance : Text
  pub alignment : Text
  pub gender : Text
  pub dir : Text
  pub hostility : Text
  pub character_class : Text
  pub monster_class : Text
  pub spawn_message : Text
  pub sfx : Text
  pub level : ℕ
  pub highest_level : ℕ
  pub sprite : List ℕ
  pub skill_on_kill : ℕ
  pub sfx_max_chance : ℕ
  pub stats : List StatComponent
  pub random_stats : List RandomStatComponent
  pub items : List ItemComponent
  pub skills : List SkillComponent

pub record NpcPath : Type 0 where
  pub direction : MovementDirection
  pub steps : ℕ

pub record SpawnerScript : Type 0 where
  pub id : ℕ
  pub respawn_rate : ℕ
  pub initial_spawn : ℕ
  pub max_creatures : ℕ
  pub spawn_radius : ℕ
  pub random_walk_radius : ℕ
  pub leash_radius : ℕ
  pub elite_tick_cap : ℕ
  pub max_spawn : ℕ
  pub loc : Location
  pub should_be_active : Bool
  pub can_slow_down : Bool
  pub should_serialize : Bool
  pub always_spawn : Bool
  pub require_dead_to_respawn : Bool
  pub do_initial_spawn_immediately : Bool
  pub npc_ids : List SpawnerNpcId
  pub paths : List (List NpcPath)
  pub npc_ai_settings : List Text

pub record NpcComponent : Type 0 where
  pub base : CharacterComponent
  pub open base use *
  pub npc_id : Text
  pub spawner : Option SpawnerScript
  -- The id of the npc that is pointed to.
  pub agro_target : Option ℕ
  pub paths : List NpcPath
  pub current_path_index : ℕ
  pub steps_remaining_in_path : ℕ
  pub loc_before_interruption : Location
  pub is_path_interrupted : Bool

unfoldable pub empty_npc : NpcComponent
unfolding empty_character
empty_npc = record {
  base = empty_character;
  npc_id = [];
  spawner = none;
  agro_target = none;
  paths = [];
  current_path_index = 0;
  steps_remaining_in_path = 0;
  loc_before_interruption = (ℤ.pos 0, ℤ.pos 0);
  is_path_interrupted = false;
}
