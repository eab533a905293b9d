-- ===== src/Tiles/Laws.antt =====
-- `tile_is_walkable` on maps whose layers have one entry for each tile.
use core_cpp_archive.Prelude.{
  Bool, Bool-cases, List, Location, Option-cases, arith, false, get_elem?, get_elem?-total, inl,
  inr, length, ltb, refl, some, sym, true, ℕ, ℤ, ◌%◌, ◌&&◌, ◌*◌, ◌+◌, ◌<◌, ◌^◌, ◌∙◌, ◌≡◌, ◌≤◌, ◌⊎◌,
}
use core_cpp_archive.Tiles.{tile_in_layer, tile_is_free, tile_is_walkable}
use core_cpp_archive.World.{MapComponent, MapObject, opaque_decor, walls}

-- The wall and decor layers have the size of the map and an entry for each of its tiles.
pub record HasLayers (m : MapComponent) : Type 0 where
  pub width : (m.layers walls).width ≡ m.width
  pub height : (m.layers walls).height ≡ m.height
  pub tiles : length (m.layers walls).tiles ≡ m.width * m.height
  pub objects : length (m.layers opaque_decor).objects ≡ m.width * m.height
  pub fits : m.width * m.height < 2 ^ 31
  pub width_fits : m.width < 2 ^ 31
  pub height_fits : m.height < 2 ^ 31

pub index-lt : (x y w h : ℕ) → x < w → y < h → x + y * w < w * h
index-lt x y w h p q = grind arith

pub tile_is_free-total :
    (tiles : List ℕ) (objects : List MapObject) (c : ℕ)
    → c < length tiles
    → c < length objects
    → (b : Bool) × (tile_is_free tiles objects c ≡ some b)
unfolding tile_is_free
tile_is_free-total tiles objects c p q = elim (Option-cases (tile_is_free tiles objects c)) [
  | inl e ↦ absurd (ground (arith, e, get_elem?-total tiles c p, get_elem?-total objects c q))
  | inr h ↦ h
]

-- Inside the map the 32-bit index does not wrap, and lies in both layers.
index-mod : (x y w h : ℕ) → x < w → y < h → w * h < 2 ^ 31 → (x + y * w) % 2 ^ 32 ≡ x + y * w
index-mod x y w h p q fits = omega (arith, index-lt x y w h p q)

-- What stands on the tile: no wall and no opaque decor.
pub record IsFree (m : MapComponent) (loc : Location) : Type 0 where
  pub column : ℕ
  pub row : ℕ
  pub at : loc ≡ (ℤ.pos column, ℤ.pos row)
  pub in_width : column < m.width
  pub in_height : row < m.height
  pub no_wall : get_elem? (m.layers walls).tiles (column + row * m.width) ≡ some 0
  pub object : MapObject
  pub stands : get_elem? (m.layers opaque_decor).objects (column + row * m.width) ≡ some object
  pub no_decor : object.gid ≡ 0

tile_is_free-parts :
    (tiles : List ℕ) (objects : List MapObject) (c : ℕ)
    → tile_is_free tiles objects c ≡ some true
    → (get_elem? tiles c ≡ some 0) × (o : MapObject) × (get_elem? objects c ≡ some o) × (o.gid ≡ 0)
unfolding tile_is_free
tile_is_free-parts tiles objects c e = elim (Option-cases (get_elem? objects c)) [
  | inl missing ↦ absurd (ground (arith, e, missing))
  | inr (o, found) ↦ (ground arith, o, found, ground arith)
]

module _ (m : MapComponent) (v : HasLayers m) where
  tile_in_layer-off :
      (x y : ℕ)
      → (m.width ≤ x) ⊎ (m.height ≤ y)
      → tile_in_layer (m.layers walls) (m.layers opaque_decor) x y ≡ some false
  unfolding tile_in_layer
  tile_in_layer-off x y off = rw (v.width, v.height) (ground arith)

  tile_in_layer-on :
      (x y : ℕ)
      → x < m.width
      → y < m.height
      → tile_in_layer (m.layers walls) (m.layers opaque_decor) x y
        ≡ tile_is_free (m.layers walls).tiles (m.layers opaque_decor).objects (x + y * m.width)
  unfolding tile_in_layer
  tile_in_layer-on x y p q =
      rw (v.width, v.height, index-mod x y m.width m.height p q v.fits) (ground arith)

  tile_in_layer-total :
      (x y : ℕ) → (b : Bool) × (tile_in_layer (m.layers walls) (m.layers opaque_decor) x y ≡ some b)
  tile_in_layer-total x y = elim (Bool-cases (ltb x m.width && ltb y m.height)) [
    | inl on ↦
        let p : x < m.width = ground arith in
        let q : y < m.height = ground arith in
        let bound = index-lt x y m.width m.height p q in
        rw (tile_in_layer-on x y p q)
          (tile_is_free-total _ _ _ (rw v.tiles bound) (rw v.objects bound))
    | inr off ↦ (false, tile_in_layer-off x y (ground arith))
  ]

  -- On such a map `tile_is_walkable` reads no element behind the end of a layer.
  pub tile_is_walkable-total : (x y : ℤ) → (b : Bool) × (tile_is_walkable m x y ≡ some b)
  unfolding tile_is_walkable
  tile_is_walkable-total (ℤ.pos x) (ℤ.pos y) = tile_in_layer-total x y
  tile_is_walkable-total (ℤ.pos x) (ℤ.negsuc y) = (false, refl)
  tile_is_walkable-total (ℤ.negsuc x) y = (false, refl)

  pub walkable-IsFree : (x y : ℤ) → tile_is_walkable m x y ≡ some true → IsFree m (x, y)
  unfolding tile_is_walkable
  walkable-IsFree (ℤ.pos x) (ℤ.pos y) e = elim (Bool-cases (ltb x m.width && ltb y m.height)) [
    | inl on ↦
        let p : x < m.width = ground arith in
        let q : y < m.height = ground arith in
        let (wall, o, stands, free) =
          tile_is_free-parts _ _ _ (sym (tile_in_layer-on x y p q) ∙ e) in
        record {
          column = x;
          row = y;
          at = refl;
          in_width = p;
          in_height = q;
          no_wall = wall;
          object = o;
          stands = stands;
          no_decor = free;
        }
    | inr off ↦ absurd (ground (arith, e, tile_in_layer-off x y (ground arith)))
  ]
  walkable-IsFree (ℤ.pos x) (ℤ.negsuc y) e = cc
  walkable-IsFree (ℤ.negsuc x) y e = cc

  pub IsFree-walkable : (loc : Location) → IsFree m loc → tile_is_walkable m loc.0 loc.1 ≡ some true
  unfolding tile_is_walkable tile_is_free
  IsFree-walkable loc f = rw (f.at) (
      tile_in_layer-on f.column f.row f.in_width f.in_height
      ∙ ground (arith, f.no_wall, f.stands, f.no_decor))
