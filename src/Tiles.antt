-- ===== src/Tiles.antt =====
-- src/game_logic/logic_helpers.h: `tile_is_walkable`. A read behind the end of a layer's vector,
-- which only a debug build reports, is `none`.
pub mod Laws
use core_cpp_archive.Prelude.{
  Bool, List, Option, bytes_eq, false, get_elem?, if◌then◌else◌, int_eq, leb, loc_eq, ltb, nat_eq,
  none, some, ℕ, ℤ, ◌%◌, ◌*◌, ◌+◌, ◌-◌, ◌==◌, ◌^◌, ◌||◌,
}
use core_cpp_archive.World.{MapComponent, MapLayer, MapObject, opaque_decor, walls}

-- An `int32_t` made of a `uint32_t`.
unfoldable pub to_i32 : ℕ → ℤ
to_i32 n = if ltb n (2 ^ 31) then ℤ.pos n else ℤ.negsuc (2 ^ 32 - n - 1)

-- `walls_layer.data[c] == 0 && opaque_layer.objects[c].gid == 0`.
unfoldable pub tile_is_free : List ℕ → List MapObject → ℕ → Option Bool
tile_is_free tiles objects c = elim (get_elem? tiles c) [
  | none ↦ none
  | some t ↦
      if t == 0
      then elim (get_elem? objects c) [ none ↦ none | some o ↦ some (o.gid == 0) ]
      else some false
]

-- Both coordinates are not negative from here on.
unfoldable pub tile_in_layer : MapLayer → MapLayer → ℕ → ℕ → Option Bool
unfolding tile_is_free
tile_in_layer walls_layer opaque_layer x y =
    if leb walls_layer.width x || leb walls_layer.height y
    then some false
    else tile_is_free walls_layer.tiles opaque_layer.objects ((x + y * walls_layer.width) % 2 ^ 32)

unfoldable pub tile_is_walkable : MapComponent → ℤ → ℤ → Option Bool
tile_is_walkable m (ℤ.pos x) (ℤ.pos y) = tile_in_layer (m.layers walls) (m.layers opaque_decor) x y
tile_is_walkable m (ℤ.pos x) (ℤ.negsuc y) = some false
tile_is_walkable m (ℤ.negsuc x) y = some false
