-- ===== src/Censor/Masks.antt =====
-- What `clean_profanity_ish` may change, and what tiers do.
use core_cpp_archive.Censor.Sensor.{
  CensorSensor, clean_ish_loop, clean_profanity_ish, find_word, has_tier, replace, star,
  starts_with, string_tolower,
}
use core_cpp_archive.Prelude.{
  Bool-cases, Dict, List, Option-cases, Text, [], arith, drop, false, inl, inr, length, none, refl,
  replicate, some, suc, take, true, zero, ℕ, ℤ, ◌++◌, ◌+◌, ◌∙◌, ◌∷◌, ◌≡◌, ◌≤◌, ◌⊎◌,
}
use native.Mathlib.Nat.{zero-add, suc-add}

-- A phrase of the same length of which some bytes are stars.
abbrev pub Masks : Text → Text → Type 0
Masks [] [] = Unit
Masks (c ∷ s) (d ∷ t) = ((c ≡ d) ⊎ (d ≡ star)) × Masks s t
Masks [] (d ∷ t) = ⊥
Masks (c ∷ s) [] = ⊥

Masks-refl : (s : Text) → Masks s s
Masks-refl [] = tt
Masks-refl (c ∷ s) = (inl refl, Masks-refl s)

Masks-trans : (s t u : Text) → Masks s t → Masks t u → Masks s u
Masks-trans [] [] [] h k = tt
Masks-trans (c ∷ s) (d ∷ t) (e ∷ u) (h, hs) (k, ks) =
    (ground (arith, h, k), Masks-trans s t u hs ks)
Masks-trans [] [] (e ∷ u) h k = elim k [ ]
Masks-trans [] (d ∷ t) u h k = elim h [ ]
Masks-trans (c ∷ s) [] u h k = elim h [ ]
Masks-trans (c ∷ s) (d ∷ t) [] h k = elim k [ ]

starts_with-length :
    (word phrase : Text) → starts_with word phrase ≡ true → length word ≤ length phrase
starts_with-length [] phrase e = omega arith
starts_with-length (c ∷ word) [] e = cc
starts_with-length (c ∷ word) (d ∷ phrase) e = ground (arith, e, starts_with-length word phrase)

-- A word that is found lies inside the phrase.
find_word-inside :
    (word phrase : Text) (n : ℕ) → find_word word phrase ≡ some n → n + length word ≤ length phrase
find_word-inside word [] n e = ground (arith, e, starts_with-length word [])
find_word-inside word (c ∷ phrase) n e = elim (Option-cases (find_word word phrase)) [
  | inl missing ↦ ground (arith, e, missing, starts_with-length word (c ∷ phrase))
  | inr (m, there) ↦
      ground (
        arith,
        e,
        there,
        starts_with-length word (c ∷ phrase),
        find_word-inside word phrase m there,
      )
]

-- Stars over a part of a phrase.
Masks-stars : (k : ℕ) (s : Text) → k ≤ length s → Masks s (replicate k star ++ drop k s)
Masks-stars zero s h = Masks-refl s
Masks-stars (suc k) [] h = absurd (omega arith)
Masks-stars (suc k) (c ∷ s) h = (inr refl, Masks-stars k s (omega arith))

Masks-replace :
    (n k : ℕ) (s : Text)
    → n + k ≤ length s
    → Masks s (take n s ++ replicate k star ++ drop (n + k) s)
Masks-replace zero k s h = rw (zero-add k) (Masks-stars k s (omega arith))
Masks-replace (suc n) k [] h = absurd (omega arith)
Masks-replace (suc n) k (c ∷ s) h = rw (suc-add n k) (inl refl, Masks-replace n k s (omega arith))

replace-inside :
    (n k : ℕ) (with_text phrase : Text)
    → n + k ≤ length phrase
    → replace n (n + k) with_text phrase ≡ some (take n phrase ++ with_text ++ drop (n + k) phrase)
unfolding replace
replace-inside n k with_text phrase h = ground (arith, h)

clean_ish_loop-nil : (tiers : List ℤ) (phrase : Text) → clean_ish_loop [] tiers phrase ≡ some phrase
unfolding clean_ish_loop
clean_ish_loop-nil tiers phrase = refl

clean_ish_loop-skip :
    (word : Text) (tier : ℤ) (words_left : Dict Text ℤ) (tiers : List ℤ) (phrase : Text)
    → (find_word word phrase ≡ none) ⊎ (has_tier tier tiers ≡ false)
    → clean_ish_loop ((word, tier) ∷ words_left) tiers phrase
      ≡ clean_ish_loop words_left tiers phrase
unfolding clean_ish_loop
clean_ish_loop-skip word tier words_left tiers phrase h = ground (arith, h)

clean_ish_loop-mask :
    (word : Text) (tier : ℤ) (words_left : Dict Text ℤ) (tiers : List ℤ) (phrase : Text) (n : ℕ)
    → find_word word phrase ≡ some n
    → has_tier tier tiers ≡ true
    → clean_ish_loop ((word, tier) ∷ words_left) tiers phrase
      ≡ clean_ish_loop words_left tiers
          (take n phrase ++ replicate (length word) star ++ drop (n + length word) phrase)
unfolding clean_ish_loop
clean_ish_loop-mask word tier words_left tiers phrase n e t = rw (
  clean_ish_loop,
  e,
  t,
  replace-inside n (length word) (replicate (length word) star) phrase
      (find_word-inside word phrase n e),
)

clean_ish_loop-Masks :
    (words_left : Dict Text ℤ) (tiers : List ℤ) (phrase : Text)
    → (result : Text) × ((clean_ish_loop words_left tiers phrase ≡ some result)
        × Masks phrase result)
clean_ish_loop-Masks [] tiers phrase =
    (phrase, (clean_ish_loop-nil tiers phrase, Masks-refl phrase))
clean_ish_loop-Masks ((word, tier) ∷ words_left) tiers phrase =
    elim (Option-cases (find_word word phrase)) [
      | inl e ↦
          rw (clean_ish_loop-skip word tier words_left tiers phrase (inl e))
            (clean_ish_loop-Masks words_left tiers phrase)
      | inr (n, e) ↦ elim (Bool-cases (has_tier tier tiers)) [
        | inl t ↦
            let masked =
              take n phrase ++ replicate (length word) star ++ drop (n + length word) phrase in
            let later = clean_ish_loop-Masks words_left tiers masked in
            (
              later.0,
              (
                clean_ish_loop-mask word tier words_left tiers phrase n e t ∙ later.1.0,
                Masks-trans phrase masked later.0
                    (Masks-replace n (length word) phrase (find_word-inside word phrase n e))
                    later.1.1,
              ),
            )
        | inr f ↦
            rw (clean_ish_loop-skip word tier words_left tiers phrase (inr f))
              (clean_ish_loop-Masks words_left tiers phrase)
      ]
    ]

-- Cleaning never replaces outside the phrase, and its result has the length of the phrase: each byte
-- is the one of the phrase in lower case or a star.
pub clean_profanity_ish-Masks :
    (s : CensorSensor) (phrase : Text)
    → (result : Text) × ((clean_profanity_ish s phrase ≡ some result)
        × Masks (string_tolower phrase) result)
unfolding clean_profanity_ish
clean_profanity_ish-Masks s phrase =
    clean_ish_loop-Masks s.word_tiers s.enabled_tiers (string_tolower phrase)
