-- ===== src/Censor/Cleaning.antt =====
-- src/game_logic/censor_sensor.cpp: `clean_profanity`.
use core_cpp_archive.Censor.Sensor.{
  CensorSensor, is_enabled_word, next_word, replace, star, string_tolower,
}
use core_cpp_archive.Prelude.{
  Option, Text, [], arith, drop, false, if◌then◌else◌, is_empty, length, none, replicate, some, suc,
  true, zero, ℕ, ◌+◌, ◌-◌, ◌>>=◌, ◌∷◌, ◌≡◌,
}

-- The loop and the test of the last word. `last` is where the rest of the phrase begins; the range to
-- replace is from the byte after the space that was found to `last - next`.
unfoldable pub clean_loop : ℕ → CensorSensor → ℕ → Text → Option Text
clean_loop zero s last phrase = none
clean_loop (suc fuel) s last phrase = elim (next_word (drop last phrase)) [
  | none ↦
      if is_enabled_word s (drop last phrase)
      then replace last (length phrase) (replicate (length (drop last phrase)) star) phrase
      else some phrase
  | some (word, after) ↦
      let next = last + length word in
      if is_enabled_word s word
      then (replace (next + 1) (next + 1 - next) (replicate (length word) star) phrase
          >>= clean_loop fuel s (next + 1))
      else clean_loop fuel s (next + 1) phrase
]

unfoldable pub clean_profanity : CensorSensor → Text → Option Text
clean_profanity s phrase =
    let lower = string_tolower phrase in clean_loop (suc (length lower)) s 0 lower

-- If the word in front of the first space of a phrase is in the dictionary, not empty and of an
-- enabled tier, then cleaning the phrase is undefined: the range to replace ends in front of its start.
pub clean_profanity-undefined :
    (s : CensorSensor) (phrase word after : Text)
    → next_word (string_tolower phrase) ≡ some (word, after)
    → is_enabled_word s word ≡ true
    → is_empty word ≡ false
    → clean_profanity s phrase ≡ none
unfolding clean_profanity clean_loop replace
clean_profanity-undefined s phrase [] after e bad full = cc
clean_profanity-undefined s phrase (c ∷ word) after e bad full =
    rw (clean_profanity, clean_loop, e, bad) (ground arith)
