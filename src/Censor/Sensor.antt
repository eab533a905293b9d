-- ===== src/Censor/Sensor.antt =====
-- src/game_logic/censor_sensor.h and .cpp, and `string_tolower` of src/utf.cpp in a UTF-8 locale,
-- where only the bytes from A to Z change. The dictionary is what the constructor reads: words with their tiers.
use core_cpp_archive.GameQueue.Handlers.{place}
use core_cpp_archive.Prelude.{
  Bool, Dict, List, Option, Text, [], any_of, assign, bytes_eq, drop, false, find, if◌then◌else◌,
  int_eq, leb, length, loc_eq, map, nat_eq, none, reject, replicate, some, suc, take, true, zero, ℕ,
  ℤ, ◌&&◌, ◌++◌, ◌+◌, ◌==◌, ◌>>=◌, ◌∷◌,
}

pub record CensorSensor : Type 0 where
  pub word_tiers : Dict Text ℤ
  pub enabled_tiers : List ℤ

abbrev pub space : ℕ
space = 32

abbrev pub star : ℕ
star = 42

-- `tolower` of one byte.
unfoldable pub tolower : ℕ → ℕ
tolower c = if leb 65 c && leb c 90 then c + 32 else c

unfoldable pub string_tolower : Text → Text
string_tolower str = map tolower str

unfoldable pub has_tier : ℤ → List ℤ → Bool
has_tier tier tiers = any_of (λ t. t == tier) tiers

-- `unordered_set::insert`.
unfoldable pub insert_tier : ℤ → List ℤ → List ℤ
insert_tier tier tiers = if has_tier tier tiers then tiers else tier ∷ tiers

-- The loop of the constructor over the members of the dictionary.
unfoldable pub load_words : List (Text × ℤ) → CensorSensor → CensorSensor
load_words [] s = s
load_words ((name, tier) ∷ members) s = load_words members (record {
  word_tiers = assign (string_tolower name) tier s.word_tiers;
  enabled_tiers = insert_tier tier s.enabled_tiers;
})

unfoldable pub censor_sensor : List (Text × ℤ) → CensorSensor
censor_sensor members = load_words members (record { word_tiers = []; enabled_tiers = [] })

-- The lookup of a word and of its tier, as all four tests make it.
unfoldable pub is_enabled_word : CensorSensor → Text → Bool
is_enabled_word s word = elim (find word s.word_tiers) [
  | none ↦ false
  | some tier ↦ has_tier tier s.enabled_tiers
]

-- `find(' ', last)`: the word in front of the next space and what follows the space.
unfoldable pub next_word : Text → Option (Text × Text)
next_word [] = none
next_word (c ∷ rest) =
    if c == space
    then some ([], rest)
    else elim (next_word rest) [ none ↦ none | some (word, after) ↦ some (c ∷ word, after) ]

-- The loop of `is_profane` and the test of the last word, on what follows `last`.
unfoldable pub profane_loop : ℕ → CensorSensor → Text → Bool
profane_loop zero s rest = false
profane_loop (suc fuel) s rest = elim (next_word rest) [
  | none ↦ is_enabled_word s rest
  | some (word, after) ↦ if is_enabled_word s word then true else profane_loop fuel s after
]

unfoldable pub is_profane : CensorSensor → Text → Bool
is_profane s phrase = let lower = string_tolower phrase in profane_loop (suc (length lower)) s lower

abbrev pub starts_with : Text → Text → Bool
starts_with [] phrase = true
starts_with (c ∷ word) [] = false
starts_with (c ∷ word) (d ∷ phrase) = if c == d then starts_with word phrase else false

-- `phrase.find(word)`.
abbrev pub find_word : Text → Text → Option ℕ
find_word word [] = if starts_with word [] then some 0 else none
find_word word (c ∷ phrase) =
    if starts_with word (c ∷ phrase)
    then some 0
    else elim (find_word word phrase) [ none ↦ none | some n ↦ some (suc n) ]

unfoldable pub profane_ish_loop : Dict Text ℤ → List ℤ → Text → Bool
profane_ish_loop [] tiers phrase = false
profane_ish_loop ((word, tier) ∷ words_left) tiers phrase = elim (find_word word phrase) [
  | none ↦ profane_ish_loop words_left tiers phrase
  | some place ↦ if has_tier tier tiers then true else profane_ish_loop words_left tiers phrase
]

unfoldable pub is_profane_ish : CensorSensor → Text → Bool
is_profane_ish s phrase = profane_ish_loop s.word_tiers s.enabled_tiers (string_tolower phrase)

-- `phrase.replace(begin + first, begin + last, with)`, undefined if `last` is in front of `first` or
-- behind the end.
unfoldable pub replace : ℕ → ℕ → Text → Text → Option Text
replace first last with_text phrase =
    if leb first last && leb last (length phrase)
    then some (take first phrase ++ with_text ++ drop last phrase)
    else none

-- The loop over the words of the dictionary in its order of iteration: each word is looked for once.
unfoldable pub clean_ish_loop : Dict Text ℤ → List ℤ → Text → Option Text
clean_ish_loop [] tiers phrase = some phrase
clean_ish_loop ((word, tier) ∷ words_left) tiers phrase = elim (find_word word phrase) [
  | none ↦ clean_ish_loop words_left tiers phrase
  | some place ↦
      if has_tier tier tiers
      then (replace place (place + length word) (replicate (length word) star) phrase
          >>= clean_ish_loop words_left tiers)
      else clean_ish_loop words_left tiers phrase
]

unfoldable pub clean_profanity_ish : CensorSensor → Text → Option Text
clean_profanity_ish s phrase = clean_ish_loop s.word_tiers s.enabled_tiers (string_tolower phrase)

-- The tiers end with `USER_ADDED`, 4.
unfoldable pub enable_tier : ℕ → CensorSensor → CensorSensor
enable_tier tier s =
    if leb tier 4 then record s { enabled_tiers = insert_tier (ℤ.pos tier) s.enabled_tiers } else s

unfoldable pub disable_tier : ℕ → CensorSensor → CensorSensor
disable_tier tier s =
    if leb tier 4
    then record s { enabled_tiers = reject (λ t. t == ℤ.pos tier) s.enabled_tiers }
    else s
