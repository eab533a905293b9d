-- ===== src/World/Map.antt =====
-- src/ecs/components.h: maps and their layers. `array<map_layer, 15>` is a function of the enum.
use core_cpp_archive.Prelude.{
  List, Option, Text, [], bytes_eq, if◌then◌else◌, int_eq, loc_eq, nat_eq, none, some, ℕ, ◌==◌, ◌∷◌,
}
use core_cpp_archive.World.Npc.{NpcComponent, SpawnerScript}
use core_cpp_archive.World.Stats.{PcComponent}

pub data MapLayerName : Type 0 where
  terrain floors fluids foliage walls decor dense_decor opaque_decor interactables npcs_layer
        spawners region_descriptions background_music succorport spawner_zones :
      MapLayerName

pub data PropertyValue : Type 0 where
  number : ℕ → PropertyValue
  words : Text → PropertyValue

pub record MapProperty : Type 0 where
  pub name : Text
  pub value : PropertyValue

pub record MapObject : Type 0 where
  pub gid : ℕ
  pub id : ℕ
  pub width : ℕ
  pub height : ℕ
  pub name : Text
  pub type : Text
  pub properties : List MapProperty
  pub script : Option SpawnerScript

abbrev pub empty_object : MapObject
empty_object = record {
  gid = 0;
  id = 0;
  width = 0;
  height = 0;
  name = [];
  type = [];
  properties = [];
  script = none;
}

-- The field `data` is `tiles` here.
pub record MapLayer : Type 0 where
  pub x : ℕ
  pub y : ℕ
  pub width : ℕ
  pub height : ℕ
  pub name : Text
  pub type : Text
  pub objects : List MapObject
  pub tiles : List ℕ

pub record MapTileset : Type 0 where
  pub firstgid : ℕ
  pub name : Text

pub record MapComponent : Type 0 where
  pub width : ℕ
  pub height : ℕ
  pub name : Text
  pub properties : List MapProperty
  pub layers : MapLayerName → MapLayer
  pub tilesets : List MapTileset
  pub npcs : List NpcComponent
  pub players : List PcComponent

-- The registry's maps, in the order of `registry.view<map_component>()`.
abbrev pub Registry : Type 0
Registry = List MapComponent

unfoldable pub get_map_by_name : Registry → Text → Option MapComponent
get_map_by_name [] name = none
get_map_by_name (m ∷ ms) name = if m.name == name then some m else get_map_by_name ms name
