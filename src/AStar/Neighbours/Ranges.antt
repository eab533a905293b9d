-- ===== src/AStar/Neighbours/Ranges.antt =====
-- The counted loops of `get_neighbours`: which coordinates they visit.
use core_cpp_archive.AStar.Neighbours.{around, int_range, range_from}
use core_cpp_archive.Prelude.{
  +ℤ_parts, -ℤ_parts, Bool-cases, abs_diff, ap, arith, if◌then◌else◌, inl, inr, int_beq,
  int_beq_iff, length, ltb_ℤ, neg_part, one_part, pos_part, refl, suc, zero, ℕ, ℤ, ◌+ℤ◌, ◌+◌, ◌-ℤ◌,
  ◌<◌, ◌^◌, ◌∈◌, ◌≡◌, ◌≤◌, ◌⊎◌,
}
use core_cpp_archive.Tiles.{to_i32}

abbrev pub ◌≤ℤ◌ : ℤ → ℤ → Type 0
◌≤ℤ◌ a b = pos_part a + neg_part b ≤ pos_part b + neg_part a

range_from-bounds :
    (n : ℕ) (lo z : ℤ)
    → z ∈ range_from n lo
    → ◌≤ℤ◌ lo z × (pos_part z + neg_part lo < pos_part lo + neg_part z + n)
unfolding range_from
range_from-bounds zero lo z h = elim h [ ]
range_from-bounds (suc n) lo z (inl e) = rw e (omega arith)
range_from-bounds (suc n) lo z (inr h) =
    omega (arith, range_from-bounds n (lo +ℤ ℤ.pos 1) z h, +ℤ_parts lo (ℤ.pos 1))

range_from-mem :
    (n : ℕ) (lo z : ℤ)
    → ◌≤ℤ◌ lo z
    → pos_part z + neg_part lo < pos_part lo + neg_part z + n
    → z ∈ range_from n lo
unfolding range_from
range_from-mem zero lo z h k = absurd (omega arith)
range_from-mem (suc n) lo z h k = elim (Bool-cases (int_beq z lo)) [
  | inl e ↦ inl ((int_beq_iff z lo).0 e)
  | inr ne ↦
      let parts = +ℤ_parts lo (ℤ.pos 1) in
      inr (range_from-mem n (lo +ℤ ℤ.pos 1) z (ground (arith, parts)) (ground (arith, parts)))
]

length-range_from : (n : ℕ) (lo : ℤ) → length (range_from n lo) ≡ n
unfolding range_from
length-range_from zero lo = refl
length-range_from (suc n) lo = ap suc (length-range_from n (lo +ℤ ℤ.pos 1))

module _ (lo hi : ℤ) where
  size_parts :
      (pos_part (hi -ℤ lo +ℤ ℤ.pos 1) + neg_part hi + pos_part lo ≡ pos_part hi + neg_part lo + 1)
      ⊎ (pos_part (hi -ℤ lo +ℤ ℤ.pos 1) ≡ 0)
        × (pos_part hi + neg_part lo + 1 ≤ neg_part hi + pos_part lo)
  size_parts = elim (one_part (hi -ℤ lo +ℤ ℤ.pos 1)) [
    | inl e ↦ inr (omega (arith, e, +ℤ_parts (hi -ℤ lo) (ℤ.pos 1), -ℤ_parts hi lo))
    | inr e ↦ inl (omega (arith, e, +ℤ_parts (hi -ℤ lo) (ℤ.pos 1), -ℤ_parts hi lo))
  ]

  pub int_range-bounds : (z : ℤ) → z ∈ int_range lo hi → ◌≤ℤ◌ lo z × ◌≤ℤ◌ z hi
  unfolding int_range
  int_range-bounds z h =
      omega (arith, range_from-bounds (pos_part (hi -ℤ lo +ℤ ℤ.pos 1)) lo z h, size_parts)

  pub int_range-mem : (z : ℤ) → ◌≤ℤ◌ lo z → ◌≤ℤ◌ z hi → z ∈ int_range lo hi
  unfolding int_range
  int_range-mem z h k =
      range_from-mem (pos_part (hi -ℤ lo +ℤ ℤ.pos 1)) lo z h (omega (arith, size_parts))

  pub length-int_range :
      (n : ℕ)
      → pos_part hi + neg_part lo + 1 ≤ pos_part lo + neg_part hi + n
      → length (int_range lo hi) ≤ n
  unfolding int_range
  length-int_range n h =
      omega (arith, length-range_from (pos_part (hi -ℤ lo +ℤ ℤ.pos 1)) lo, size_parts)

module _ (c : ℤ) (size : ℕ) (fits : size < 2 ^ 31) where
  to_i32-fits : to_i32 size ≡ ℤ.pos size
  unfolding to_i32
  to_i32-fits = ground arith

  abbrev lo : ℤ
  lo = ℤ.pos (pos_part (c -ℤ ℤ.pos 1))

  abbrev hi : ℤ
  hi = if ltb_ℤ (to_i32 size) (c +ℤ ℤ.pos 1) then to_i32 size else c +ℤ ℤ.pos 1

  hi_bounds :
      (◌≤ℤ◌ hi (c +ℤ ℤ.pos 1))
      × ◌≤ℤ◌ hi (ℤ.pos size)
      × ((z : ℤ) → ◌≤ℤ◌ z (c +ℤ ℤ.pos 1) → ◌≤ℤ◌ z (ℤ.pos size) → ◌≤ℤ◌ z hi)
  hi_bounds = rw to_i32-fits (ground arith, ground arith, λ z p q. ground arith)

  -- The loop visits no coordinate that is negative or more than one step away.
  pub around-bounds : (z : ℤ) → z ∈ around c size → (neg_part z ≡ 0) × (abs_diff c z ≤ 1)
  unfolding around
  around-bounds z h =
      let b = int_range-bounds lo hi z h in
      (
        omega (arith, b, one_part z, one_part (c -ℤ ℤ.pos 1)),
        omega (
          arith,
          b,
          hi_bounds.0,
          -ℤ_parts c (ℤ.pos 1),
          +ℤ_parts c (ℤ.pos 1),
          one_part (c -ℤ ℤ.pos 1),
        ),
      )

  pub around-mem : (i : ℕ) → i < size → abs_diff c (ℤ.pos i) ≤ 1 → ℤ.pos i ∈ around c size
  unfolding around
  around-mem i p q =
      int_range-mem lo hi (ℤ.pos i)
        (omega (arith, -ℤ_parts c (ℤ.pos 1), one_part (c -ℤ ℤ.pos 1), one_part c))
        (hi_bounds.2 (ℤ.pos i) (omega (arith, +ℤ_parts c (ℤ.pos 1))) (omega arith))

  pub length-around : length (around c size) ≤ 3
  unfolding around
  length-around = length-int_range lo hi 3 (
      omega
        (arith, hi_bounds.0, -ℤ_parts c (ℤ.pos 1), +ℤ_parts c (ℤ.pos 1), one_part (c -ℤ ℤ.pos 1)))
