-- ===== src/Server/Sound.antt =====
-- The connections of src/uws_thread.cpp: what stays true of them, whatever happens.
use core_cpp_archive.Prelude.{
  Bool, [], ap, arith, assign, bytes_eq, erase, false, find, find-assign, find-erase, if◌then◌else◌,
  int_eq, loc_eq, ltb_ℤ, nat_beq_iff, nat_eq, refl, some, subst, sym, true, ℕ, ℤ, ◌<◌, ◌==◌, ◌^◌,
  ◌||◌, ◌∙◌, ◌∷◌, ◌≡◌, ◌≢◌,
}
use core_cpp_archive.Rapidjson.{at}
use core_cpp_archive.Samples.{small}
use core_cpp_archive.Server.Characters.{plays_elsewhere, plays_there}
use core_cpp_archive.Server.Effects.{IsLoggedIn, IsPlaying}
use core_cpp_archive.Server.State.{PerSocketData, UserConnections}
use core_cpp_archive.Tiles.{to_i32}
use core_cpp_archive.World.{to_u32}

-- An entry stands under its connection id, only users who are logged in play, and no user plays
-- one slot on two connections.
pub record IsSound (uc : UserConnections) : Type 0 where
  pub keys : (k : ℕ) (u : PerSocketData) → find k uc ≡ some u → u.connection_id ≡ k
  pub named : (k : ℕ) (u : PerSocketData) → find k uc ≡ some u → IsPlaying u → IsLoggedIn u
  pub exclusive :
      (j k : ℕ) (u w : PerSocketData)
      → find j uc ≡ some u
      → find k uc ≡ some w
      → IsPlaying u
      → u.user_id ≡ w.user_id
      → u.playing_character_slot ≡ w.playing_character_slot
      → j ≡ k

pub []-IsSound : IsSound []
unfolding find
[]-IsSound = record {
  keys = λ k u at. ground (arith, at);
  named = λ k u at plays. ground (arith, at);
  exclusive = λ j k u w at at' plays users slots. ground (arith, at);
}

pub erase-IsSound : (k : ℕ) (uc : UserConnections) → IsSound uc → IsSound (erase k uc)
erase-IsSound k uc sound = record {
  keys = λ j u at. sound.keys j u (kept j u at);
  named = λ j u at. sound.named j u (kept j u at);
  exclusive = λ i j u w at at'. sound.exclusive i j u w (kept i u at) (kept j w at');
}
  where
    kept : (j : ℕ) (u : PerSocketData) → find j (erase k uc) ≡ some u → find j uc ≡ some u
    kept j u at = ground (arith, at, find-erase k j uc)

module _ (id : ℕ) (u : PerSocketData) (uc : UserConnections) where
  data Assigned (j : ℕ) (w : PerSocketData) : Type 0 where
    the_new : j ≡ id → w ≡ u → Assigned j w
    an_old : j ≢ id → find j uc ≡ some w → Assigned j w

  entry : (j : ℕ) (w : PerSocketData) → find j (assign id u uc) ≡ some w → Assigned j w
  entry j w at = by_test (id == j) refl (sym (find-assign id j u uc) ∙ at)
    where
      by_test :
          (b : Bool) → (id == j) ≡ b → (if b then some u else find j uc) ≡ some w → Assigned j w
      by_test true same at = the_new (ground (arith, same, nat_beq_iff id j)) cc
      by_test false other at = an_old (ground (arith, other, nat_beq_iff id j)) at

  pub assign-IsSound :
      IsSound uc
      → u.connection_id ≡ id
      → (IsPlaying u → IsLoggedIn u)
      → ((j : ℕ) (w : PerSocketData)
          → find j uc ≡ some w
          → j ≢ id
          → IsPlaying u
          → u.user_id ≡ w.user_id
          → u.playing_character_slot ≢ w.playing_character_slot)
      → IsSound (assign id u uc)
  assign-IsSound sound key name free = record {
    keys = λ j w at. keys_of j w (entry j w at);
    named = λ j w at. named_of j w (entry j w at);
    exclusive = λ i j w w' at at'. exclusive_of i j w w' (entry i w at) (entry j w' at');
  }
    where
      keys_of : (j : ℕ) (w : PerSocketData) → Assigned j w → w.connection_id ≡ j
      keys_of j w (the_new j_id w_u) = ap (λ w. w.connection_id) w_u ∙ key ∙ sym j_id
      keys_of j w (an_old other at) = sound.keys j w at

      named_of : (j : ℕ) (w : PerSocketData) → Assigned j w → IsPlaying w → IsLoggedIn w
      named_of j w (the_new j_id w_u) plays =
          subst IsLoggedIn (sym w_u) (name (subst IsPlaying w_u plays))
      named_of j w (an_old other at) plays = sound.named j w at plays

      exclusive_of :
          (i j : ℕ) (w w' : PerSocketData)
          → Assigned i w
          → Assigned j w'
          → IsPlaying w
          → w.user_id ≡ w'.user_id
          → w.playing_character_slot ≡ w'.playing_character_slot
          → i ≡ j
      exclusive_of i j w w' (the_new i_id w_u) (the_new j_id w_u') plays users slots =
          i_id ∙ sym j_id
      exclusive_of i j w w' (the_new i_id w_u) (an_old other at) plays users slots =
          elim (free j w' at other (subst IsPlaying w_u plays)
            (sym (ap (λ w. w.user_id) w_u) ∙ users)
            (sym (ap (λ w. w.playing_character_slot) w_u) ∙ slots)) [ ]
      exclusive_of i j w w' (an_old other at) (the_new j_id w_u) plays users slots =
          (let same_slots : w.playing_character_slot ≡ u.playing_character_slot =
              slots ∙ ap (λ w. w.playing_character_slot) w_u in
            elim (free i w at other (subst (λ z. ltb_ℤ z (ℤ.pos 0) ≡ false) same_slots plays)
              (sym (users ∙ ap (λ w. w.user_id) w_u)) (sym same_slots)) [ ])
      exclusive_of i j w w' (an_old other at) (an_old other' at') plays users slots =
          sound.exclusive i j w w' at at' plays users slots

-- A number that is no slot of another connection of the user stays none as an `int32_t`.
pub to_u32-to_i32 : (n : ℕ) → n < 2 ^ 32 → to_u32 (to_i32 n) ≡ n
unfolding to_u32 to_i32
to_u32-to_i32 n small = ground (arith, small)

or_false : (a b : Bool) → (a || b) ≡ false → (a ≡ false) × (b ≡ false)
or_false true b h = ground (arith, h)
or_false false b h = (refl, h)

-- Where the loop finds nothing, no entry passes its test.
pub plays_elsewhere-find :
    (u : PerSocketData) (slot : ℕ) (uc : UserConnections) (j : ℕ) (w : PerSocketData)
    → plays_elsewhere u slot uc ≡ false
    → find j uc ≡ some w
    → plays_there u slot w ≡ false
unfolding plays_elsewhere find
plays_elsewhere-find u slot [] j w free at = ground (arith, at)
plays_elsewhere-find u slot ((i, other) ∷ rest) j w free at =
    by_test (i == j) at (or_false _ _ free) (plays_elsewhere-find u slot rest j w)
  where
    by_test :
        (b : Bool)
        → (if b then some other else find j rest) ≡ some w
        → (plays_there u slot other ≡ false) × (plays_elsewhere u slot rest ≡ false)
        → (plays_elsewhere u slot rest ≡ false
            → find j rest ≡ some w
            → plays_there u slot w ≡ false)
        → plays_there u slot w ≡ false
    by_test true at (head, tail) later =
        let same : other ≡ w = cc in subst (λ w. plays_there u slot w ≡ false) same head
    by_test false at (head, tail) later = later tail at
