-- ===== src/AStar/Frontier.antt =====
-- src/game_logic/a_star.cpp: `a_star_priority_queue`. `top` of a std::priority_queue ordered by
-- `greater` is the least entry: by priority, then by location.
use core_cpp_archive.Prelude.{
  All, Bool, Bool-cases, List, Location, Option, [], arith, false, if◌then◌else◌, inl, inr, int_beq,
  length, ltb_ℤ, none, refl, some, subst, suc, sym, true, ℤ, ◌&&◌, ◌||◌, ◌↔◌, ◌∷◌, ◌≡◌, ◌⊎◌,
}
use mathlib.Core.Option.{some-injective}

-- A priority and a location.
abbrev pub Entry : Type 0
Entry = ℤ × Location

unfoldable pub loc_lt : Location → Location → Bool
loc_lt (x, y) (x', y') = ltb_ℤ x x' || int_beq x x' && ltb_ℤ y y'

unfoldable pub entry_lt : Entry → Entry → Bool
entry_lt (p, l) (q, k) = ltb_ℤ p q || int_beq p q && loc_lt l k

-- The least of an entry and a list, and the others.
unfoldable pub extract : Entry → List Entry → Entry × List Entry
extract e [] = (e, [])
extract e (d ∷ ds) =
    let (best, rest) = extract d ds in if entry_lt best e then (best, e ∷ rest) else (e, d ∷ ds)

-- `top` and `pop`; `none` on an empty queue.
unfoldable pub get : List Entry → Option (Location × List Entry)
unfolding extract
get [] = none
get (e ∷ es) = let (best, rest) = extract e es in some (best.1, rest)

abbrev pub Waits : Location → List Entry → Type 0
Waits l [] = ⊥
Waits l (e ∷ es) = (l ≡ e.1) ⊎ Waits l es

pub length-extract : (e : Entry) (es : List Entry) → length (extract e es).1 ≡ length es
unfolding extract
length-extract e [] = refl
length-extract e (d ∷ ds) = ground (arith, length-extract d ds)

pub Waits-extract :
    (l : Location) (e : Entry) (es : List Entry)
    → Waits l (e ∷ es) ↔ ((l ≡ (extract e es).0.1) ⊎ Waits l (extract e es).1)
unfolding extract
Waits-extract l e [] = (λ h. h, λ h. h)
Waits-extract l e (d ∷ ds) =
    (λ h. ground (arith, Waits-extract l d ds), λ h. ground (arith, Waits-extract l d ds))

loc_lt_irrefl : (l : Location) → loc_lt l l ≡ false
unfolding loc_lt
loc_lt_irrefl (x, y) = ground arith

loc_lt_asymm : (l k : Location) → loc_lt l k ≡ true → loc_lt k l ≡ false
unfolding loc_lt
loc_lt_asymm (x, y) (x', y') h = ground arith

loc_lt_trans : (j k l : Location) → loc_lt j k ≡ false → loc_lt k l ≡ false → loc_lt j l ≡ false
unfolding loc_lt
loc_lt_trans (x, y) (x', y') (x'', y'') h k = ground arith

entry_lt_irrefl : (e : Entry) → entry_lt e e ≡ false
unfolding entry_lt
entry_lt_irrefl (p, l) = ground (arith, loc_lt_irrefl l)

entry_lt_asymm : (d e : Entry) → entry_lt d e ≡ true → entry_lt e d ≡ false
unfolding entry_lt
entry_lt_asymm (p, l) (q, k) h = ground (arith, loc_lt_asymm l k)

entry_lt_trans :
    (c d e : Entry) → entry_lt c d ≡ false → entry_lt d e ≡ false → entry_lt c e ≡ false
unfolding entry_lt
entry_lt_trans (p, j) (q, k) (r, l) h h' = ground (arith, loc_lt_trans j k l)

All-not_lt :
    (b e : Entry) (ds : List Entry)
    → entry_lt b e ≡ false
    → All (λ d. entry_lt d b ≡ false) ds
    → All (λ d. entry_lt d e ≡ false) ds
All-not_lt b e [] h a = tt
All-not_lt b e (d ∷ ds) h a = (entry_lt_trans d b e a.0 h, All-not_lt b e ds h a.1)

extract-swap :
    (e d : Entry) (ds : List Entry)
    → entry_lt (extract d ds).0 e ≡ true
    → extract e (d ∷ ds) ≡ ((extract d ds).0, e ∷ (extract d ds).1)
unfolding extract
extract-swap e d ds h = rw h

extract-stay :
    (e d : Entry) (ds : List Entry)
    → entry_lt (extract d ds).0 e ≡ false
    → extract e (d ∷ ds) ≡ (e, d ∷ ds)
unfolding extract
extract-stay e d ds h = rw h

abbrev pub IsLeast : Entry → List Entry → Type 0
IsLeast b es = All (λ d. entry_lt d b ≡ false) es

-- No entry of the queue comes before the one that `get` takes.
pub extract-IsLeast : (e : Entry) (es : List Entry) → IsLeast (extract e es).0 (e ∷ es)
unfolding extract
extract-IsLeast e [] = (entry_lt_irrefl e, tt)
extract-IsLeast e (d ∷ ds) = elim (Bool-cases (entry_lt (extract d ds).0 e)) [
  | inl less ↦
      subst (λ r. IsLeast r.0 (e ∷ d ∷ ds)) (sym (extract-swap e d ds less))
        (entry_lt_asymm (extract d ds).0 e less, extract-IsLeast d ds)
  | inr not_less ↦
      subst (λ r. IsLeast r.0 (e ∷ d ∷ ds)) (sym (extract-stay e d ds not_less))
        (entry_lt_irrefl e, All-not_lt (extract d ds).0 e (d ∷ ds) not_less (extract-IsLeast d ds))
]

-- What `get` takes stood in the queue, and all else stays.
pub record Takes (es : List Entry) (l : Location) (rest : List Entry) : Type 0 where
  pub shorter : length es ≡ suc (length rest)
  pub taken : Waits l es
  pub stays : (q : Location) → Waits q rest → Waits q es
  pub only : (q : Location) → Waits q es → (q ≡ l) ⊎ Waits q rest

pub get-none : (es : List Entry) → get es ≡ none → es ≡ []
unfolding get
get-none [] h = refl
get-none (e ∷ es) h = cc

extract-Takes : (e : Entry) (es : List Entry) → Takes (e ∷ es) (extract e es).0.1 (extract e es).1
extract-Takes e es = record {
  shorter = omega (arith, length-extract e es);
  taken = (Waits-extract (extract e es).0.1 e es).1 (inl refl);
  stays = λ q h. (Waits-extract q e es).1 (inr h);
  only = λ q h. (Waits-extract q e es).0 h;
}

pub get-Takes :
    (es : List Entry) (l : Location) (rest : List Entry) → get es ≡ some (l, rest) → Takes es l rest
unfolding get
get-Takes [] l rest h = absurd (ground arith)
get-Takes (e ∷ es) l rest h =
    subst (λ r. Takes (e ∷ es) r.0 r.1) (some-injective _ _ h) (extract-Takes e es)
