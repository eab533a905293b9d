-- ===== src/Censor/Tests.antt =====
-- A dictionary with two words.
use core_cpp_archive.Censor.Cleaning.{clean_loop, clean_profanity, clean_profanity-undefined}
use core_cpp_archive.Censor.Masks.{Masks, clean_profanity_ish-Masks}
use core_cpp_archive.Censor.Sensor.{
  CensorSensor, censor_sensor, clean_ish_loop, clean_profanity_ish, disable_tier, enable_tier,
  has_tier, insert_tier, is_enabled_word, is_profane, load_words, next_word, profane_loop, replace,
  string_tolower, tolower,
}
use core_cpp_archive.Censor.Tiers.{disable_tier-enable_tier}
use core_cpp_archive.Censor.Words.{is_profane_lem, split_words}
use core_cpp_archive.Prelude.{
  Text, [], any_of, arith, assign, bytes_beq, bytes_eq, false, find, int_eq, loc_eq, nat_eq, none,
  refl, some, text, true, ℤ, ◌∷◌, ◌≡◌,
}

abbrev two_words : CensorSensor
two_words = record {
  word_tiers = (text "damn", ℤ.pos 1) ∷ (text "ale", ℤ.pos 4) ∷ [];
  enabled_tiers = ℤ.pos 1 ∷ ℤ.pos 4 ∷ [];
}

loaded : censor_sensor ((text "Ale", ℤ.pos 4) ∷ (text "DAMN", ℤ.pos 1) ∷ []) ≡ record {
  word_tiers = (text "ale", ℤ.pos 4) ∷ (text "damn", ℤ.pos 1) ∷ [];
  enabled_tiers = ℤ.pos 1 ∷ ℤ.pos 4 ∷ [];
}
unfolding text bytes_beq censor_sensor load_words string_tolower tolower insert_tier has_tier assign
loaded = refl

profane : is_profane two_words (text "Good ALE here") ≡ true
unfolding text bytes_beq is_profane profane_loop next_word is_enabled_word string_tolower tolower
    has_tier find
profane = refl

-- Only the first "damn" is covered.
cleaned : clean_profanity_ish two_words (text "Damn, damn Ale") ≡ some (text "****, damn ***")
unfolding text bytes_beq clean_profanity_ish clean_ish_loop replace string_tolower tolower has_tier
cleaned = refl

is_profane_lem_example :
    is_profane two_words (text "Good ALE here")
    ≡ any_of (is_enabled_word two_words) (split_words (string_tolower (text "Good ALE here")))
is_profane_lem_example = is_profane_lem two_words (text "Good ALE here")

clean_profanity_ish-Masks_example :
    (result : Text) × ((clean_profanity_ish two_words (text "Damn, damn Ale") ≡ some result)
      × Masks (string_tolower (text "Damn, damn Ale")) result)
clean_profanity_ish-Masks_example = clean_profanity_ish-Masks two_words (text "Damn, damn Ale")

disable_tier-enable_tier_example :
    (has_tier (ℤ.pos 4) (disable_tier 4 two_words).enabled_tiers ≡ false)
    × (has_tier (ℤ.pos 4) (enable_tier 4 (disable_tier 4 two_words)).enabled_tiers ≡ true)
disable_tier-enable_tier_example = disable_tier-enable_tier 4 (ℤ.pos 4) two_words (omega arith)

clean_profanity-undefined_example : clean_profanity two_words (text "ale please") ≡ none
unfolding text bytes_beq next_word string_tolower tolower is_enabled_word has_tier find
clean_profanity-undefined_example =
    clean_profanity-undefined two_words (text "ale please") (text "ale") (text "please") refl refl
      refl

clean_last : clean_profanity two_words (text "this is Ale") ≡ some (text "this is ***")
unfolding text bytes_beq next_word string_tolower tolower is_enabled_word has_tier find
    clean_profanity clean_loop replace
clean_last = refl
