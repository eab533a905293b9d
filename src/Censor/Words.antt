-- ===== src/Censor/Words.antt =====
-- `is_profane` tests the words between the spaces of a phrase, and `is_profane_ish` every place.
use core_cpp_archive.Censor.Sensor.{
  CensorSensor, is_enabled_word, is_profane, next_word, profane_loop, space, string_tolower,
}
use core_cpp_archive.Prelude.{
  List, Option-cases, Text, [], any_of, arith, bytes_eq, if◌then◌else◌, inl, inr, int_eq, length,
  loc_eq, nat_eq, none, refl, some, suc, true, zero, ℕ, ◌<◌, ◌==◌, ◌∷◌, ◌≡◌,
}

-- The parts of a phrase between its spaces.
unfoldable pub split_words : Text → List Text
split_words [] = [] ∷ []
split_words (c ∷ rest) =
    if c == space
    then [] ∷ split_words rest
    else elim (split_words rest) [ [] ↦ (c ∷ []) ∷ [] | ◌∷◌ word others ↦ (c ∷ word) ∷ others ]

next_word-split :
    (s : Text)
    → split_words s
      ≡ elim (next_word s) [ none ↦ s ∷ [] | some (word, after) ↦ word ∷ split_words after ]
unfolding split_words next_word
next_word-split [] = refl
next_word-split (c ∷ rest) = ground (arith, next_word-split rest)

next_word-shorter :
    (s word after : Text) → next_word s ≡ some (word, after) → length after < length s
unfolding next_word
next_word-shorter [] word after e = cc
next_word-shorter (c ∷ rest) word after e = elim (Option-cases (next_word rest)) [
  | inl missing ↦ ground (arith, e, missing)
  | inr ((w, a), there) ↦ ground (arith, e, there, next_word-shorter rest w a there)
]

profane_loop-next :
    (fuel : ℕ) (s : CensorSensor) (rest word after : Text)
    → next_word rest ≡ some (word, after)
    → profane_loop (suc fuel) s rest
      ≡ (if is_enabled_word s word then true else profane_loop fuel s after)
unfolding profane_loop
profane_loop-next fuel s rest word after e = rw (profane_loop, e)

profane_loop-words :
    (fuel : ℕ) (s : CensorSensor) (rest : Text)
    → length rest < fuel
    → profane_loop fuel s rest ≡ any_of (is_enabled_word s) (split_words rest)
unfolding profane_loop
profane_loop-words zero s rest h = absurd (omega arith)
profane_loop-words (suc fuel) s rest h = elim (Option-cases (next_word rest)) [
  | inl e ↦ rw (next_word-split rest, e) (ground arith)
  | inr ((word, after), e) ↦
      let shorter = next_word-shorter rest word after e in
      rw (
        profane_loop-next fuel s rest word after e,
        next_word-split rest,
        e,
        profane_loop-words fuel s after (omega (arith, h, shorter)),
      )
]

-- A phrase is profane exactly if one of the parts between its spaces, in lower case, is a word of the
-- dictionary whose tier is enabled: the loop reaches all of them.
pub is_profane_lem :
    (s : CensorSensor) (phrase : Text)
    → is_profane s phrase ≡ any_of (is_enabled_word s) (split_words (string_tolower phrase))
unfolding is_profane
is_profane_lem s phrase =
    profane_loop-words (suc (length (string_tolower phrase))) s (string_tolower phrase)
      (omega arith)
