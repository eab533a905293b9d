-- ===== src/Samples.antt =====
-- A map of three by three tiles, two of them walls, for the tests.
use core_cpp_archive.Prelude.{[], arith, refl, replicate, ◌∷◌}
use core_cpp_archive.Tiles.Laws.{HasLayers}
use core_cpp_archive.World.{MapComponent, MapLayer, MapLayerName, empty_object, opaque_decor, walls}

abbrev empty_layer : MapLayer
empty_layer = record {
  x = 0;
  y = 0;
  width = 0;
  height = 0;
  name = [];
  type = [];
  objects = [];
  tiles = [];
}

-- 0 1 0
-- 0 1 0
-- 0 0 0
abbrev small_layers : MapLayerName → MapLayer
small_layers walls = record empty_layer {
  width = 3;
  height = 3;
  tiles = 0 ∷ 1 ∷ 0 ∷ 0 ∷ 1 ∷ 0 ∷ 0 ∷ 0 ∷ 0 ∷ [];
}
small_layers opaque_decor = record empty_layer {
  width = 3;
  height = 3;
  objects = replicate 9 empty_object;
}
small_layers _ = empty_layer

abbrev pub small : MapComponent
small = record {
  width = 3;
  height = 3;
  name = [];
  properties = [];
  layers = small_layers;
  tilesets = [];
  npcs = [];
  players = [];
}

pub small-HasLayers : HasLayers small
small-HasLayers = record {
  width = refl;
  height = refl;
  tiles = refl;
  objects = refl;
  fits = omega arith;
  width_fits = omega arith;
  height_fits = omega arith;
}
