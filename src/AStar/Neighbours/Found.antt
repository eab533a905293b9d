-- ===== src/AStar/Neighbours/Found.antt =====
-- `get_neighbours`: it ends without a bad read or write, and finds the free tiles one step away.
use core_cpp_archive.AStar.Neighbours.{
  around, column_loop, column_neighbours, found_neighbours, get_neighbours, no_location,
}
use core_cpp_archive.AStar.Neighbours.Ranges.{around-bounds, around-mem, length-around}
use core_cpp_archive.Prelude.{
  Bool, List, Location, Option, [], abs_diff, arith, false, if◌then◌else◌, inl, inr, length,
  length-append, mem-append_left, mem-append_right, refl, replicate, some, subst, suc, sym, true, ℕ,
  ℤ, ◌*◌, ◌++◌, ◌+◌, ◌-◌, ◌∈◌, ◌∷◌, ◌≡◌, ◌≤◌, ◌⊎◌,
}
use core_cpp_archive.Tiles.{tile_is_walkable}
use core_cpp_archive.Tiles.Laws.{
  HasLayers, IsFree, IsFree-walkable, tile_is_walkable-total, walkable-IsFree,
}
use core_cpp_archive.World.{MapComponent}

nine : (a b : ℕ) → a ≤ 3 → b ≤ 3 → a * b ≤ 9
nine a b p q = grind arith

-- One step in each direction, or none.
abbrev pub IsNear : Location → Location → Type 0
IsNear (x, y) (x', y') = (abs_diff x x' ≤ 1) × (abs_diff y y' ≤ 1)

module _ (m : MapComponent) (v : HasLayers m) where
  -- `r` is a normal return of the old list with the free tiles among `new`, and with `n` more
  -- locations at most.
  record Collects (new : Location → Type 0) (n : ℕ) (locs : List Location)
      (r : Option (List Location)) : Type 0 where
    out : List Location
    returns : r ≡ some out
    few : length out ≤ length locs + n
    old : (q : Location) → q ∈ locs → q ∈ out
    free : (q : Location) → new q → tile_is_walkable m q.0 q.1 ≡ some true → q ∈ out
    only : (q : Location) → q ∈ out → (q ∈ locs) ⊎ new q × (tile_is_walkable m q.0 q.1 ≡ some true)

  mem-append_cases :
      (q a : Location) (locs : List Location) → q ∈ (locs ++ a ∷ []) → (q ∈ locs) ⊎ (q ≡ a)
  mem-append_cases q a [] (inl e) = inr e
  mem-append_cases q a (x ∷ xs) (inl e) = inl (inl e)
  mem-append_cases q a (x ∷ xs) (inr h) = ground (arith, mem-append_cases q a xs h)
  mem-append_cases q a [] (inr h) = elim h [ ]

  abbrev InColumn : ℤ → List ℤ → Location → Type 0
  InColumn x ys q = (q.0 ≡ x) × (q.1 ∈ ys)

  column_end :
      (x : ℤ) (locs : List Location)
      → Collects (InColumn x []) 0 locs (column_neighbours m x [] locs)
  unfolding column_neighbours
  column_end x locs = record {
    out = locs;
    returns = refl;
    few = omega arith;
    old = λ q h. h;
    free = λ q h _. elim h.1 [ ];
    only = λ q h. inl h;
  }

  column_step :
      (x y : ℤ) (ys : List ℤ) (locs : List Location) (b : Bool)
      → tile_is_walkable m x y ≡ some b
      → (let locs' = if b then locs ++ (x, y) ∷ [] else locs in
          Collects (InColumn x ys) (length ys) locs' (column_neighbours m x ys locs'))
      → Collects (InColumn x (y ∷ ys)) (suc (length ys)) locs (column_neighbours m x (y ∷ ys) locs)
  unfolding column_neighbours
  column_step x y ys locs true e rest = record {
    out = rest.out;
    returns = rw e rest.returns;
    few = omega (arith, rest.few, length-append locs ((x, y) ∷ []));
    old = λ q h. rest.old q (mem-append_left q locs ((x, y) ∷ []) h);
    free = λ (qx, qy) h w. elim h.1 [
      | inl hy ↦
          rest.old (qx, qy) (mem-append_right (qx, qy) locs ((x, y) ∷ []) (inl (ground arith)))
      | inr hys ↦ rest.free (qx, qy) (h.0, hys) w
    ];
    only = λ (qx, qy) h.
        ground (arith, rest.only (qx, qy) h, mem-append_cases (qx, qy) (x, y) locs, e);
  }
  column_step x y ys locs false e rest = record {
    out = rest.out;
    returns = rw e rest.returns;
    few = omega (arith, rest.few);
    old = rest.old;
    free = λ q h w. elim h.1 [
      | inl hy ↦ absurd (ground (arith, h.0, hy, w, e))
      | inr hys ↦ rest.free q (h.0, hys) w
    ];
    only = λ q h. ground (arith, rest.only q h);
  }

  column_neighbours-Collects :
      (x : ℤ) (ys : List ℤ) (locs : List Location)
      → Collects (InColumn x ys) (length ys) locs (column_neighbours m x ys locs)
  column_neighbours-Collects x [] locs = column_end x locs
  column_neighbours-Collects x (y ∷ ys) locs =
      let (b, e) = tile_is_walkable-total m v x y in
      column_step x y ys locs b e
        (column_neighbours-Collects x ys (if b then locs ++ (x, y) ∷ [] else locs))

  abbrev InBlock : List ℤ → List ℤ → Location → Type 0
  InBlock xs ys q = (q.0 ∈ xs) × (q.1 ∈ ys)

  column_loop-Collects :
      (xs ys : List ℤ) (locs : List Location)
      → Collects (InBlock xs ys) (length xs * length ys) locs (column_loop m xs ys locs)
  unfolding column_loop
  column_loop-Collects [] ys locs = record {
    out = locs;
    returns = refl;
    few = omega arith;
    old = λ q h. h;
    free = λ q h _. elim h.0 [ ];
    only = λ q h. inl h;
  }
  column_loop-Collects (x ∷ xs) ys locs =
      let column = column_neighbours-Collects x ys locs in
      let rest = column_loop-Collects xs ys column.out in
      record {
        out = rest.out;
        returns = rw column.returns rest.returns;
        few = omega (arith, column.few, rest.few);
        old = λ q h. rest.old q (column.old q h);
        free = λ q h w. elim h.0 [
          | inl e ↦ rest.old q (column.free q (e, h.1) w)
          | inr hx ↦ rest.free q (hx, h.1) w
        ];
        only = λ q h. ground (arith, rest.only q h, column.only q);
      }

  pub record Surrounds (loc : Location) (r : Option (List Location)) : Type 0 where
    pub out : List Location
    pub returns : r ≡ some out
    pub few : length out ≤ 9
    pub near : (q : Location) → q ∈ out → IsNear loc q × IsFree m q
    pub all : (q : Location) → IsNear loc q → IsFree m q → q ∈ out

  -- The loops of `get_neighbours` end without a bad read, find at most nine locations, which is the
  -- size of `locs`, and they find exactly the free tiles at most one step away in each direction.
  pub found_neighbours-Surrounds : (loc : Location) → Surrounds loc (found_neighbours m loc)
  unfolding found_neighbours
  found_neighbours-Surrounds (x, y) =
      let xs = around x m.width in
      let ys = around y m.height in
      let block = column_loop-Collects xs ys [] in
      record {
        out = block.out;
        returns = block.returns;
        few = omega (
          arith,
          block.few,
          nine (length xs) (length ys) (length-around x m.width v.width_fits)
              (length-around y m.height v.height_fits),
        );
        near = λ q h. elim (block.only q h) [
          | inl nowhere ↦ elim nowhere [ ]
          | inr (inside, w) ↦ (
            (
              (around-bounds x m.width v.width_fits q.0 inside.0).1,
              (around-bounds y m.height v.height_fits q.1 inside.1).1,
            ),
            walkable-IsFree m v q.0 q.1 w,
          )
        ];
        all = λ q h f.
            let near = subst (IsNear (x, y)) f.at h in
            block.free q
              (subst (InBlock xs ys) (sym f.at) (
                around-mem x m.width v.width_fits f.column f.in_width near.0,
                around-mem y m.height v.height_fits f.row f.in_height near.1,
              ))
              (IsFree-walkable m v q f);
      }

pub get_neighbours_lem :
    (m : MapComponent) (loc : Location) (out : List Location)
    → found_neighbours m loc ≡ some out
    → get_neighbours m loc ≡ some (out ++ replicate (9 - length out) no_location)
unfolding get_neighbours
get_neighbours_lem m loc out e = rw e
