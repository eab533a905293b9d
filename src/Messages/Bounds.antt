-- ===== src/Messages/Bounds.antt =====
-- src/messages: a number that a message gives is one that its getter can give.
use core_cpp_archive.Messages.Account.{PlayCharacterRequest, deserialize_play_character_request}
use core_cpp_archive.Prelude.{Option, ap, arith, none, some, text, ℕ, ◌<◌, ◌^◌, ◌≡◌}
use core_cpp_archive.Rapidjson.{
  RapidJson, Read, at, demand, got, nullopt, uint_at, undefined, ◌>>=◌,
}
use core_cpp_archive.Samples.{small}

-- `GetUint` returns an `unsigned`.
abbrev pub GetsUint32 : RapidJson → Type 0
GetsUint32 r = (d : r.Value) (n : ℕ) → r.get_uint d ≡ some n → n < 2 ^ 32

-- What the last read of a message with one number gives.
one_number :
    (members type_check : Read Unit) (slot_read : Read ℕ) (request : PlayCharacterRequest)
    → (do _ ← members; _ ← type_check; slot ← slot_read; got (record { slot = slot })) ≡ got request
    → slot_read ≡ got request.slot
one_number (got _) (got _) (got n) request e = ap got (ground (arith, e))
one_number (got _) (got _) undefined request e = ground (arith, e)
one_number (got _) (got _) nullopt request e = ground (arith, e)
one_number (got _) undefined slot_read request e = ground (arith, e)
one_number (got _) nullopt slot_read request e = ground (arith, e)
one_number undefined type_check slot_read request e = ground (arith, e)
one_number nullopt type_check slot_read request e = ground (arith, e)

module _ (r : RapidJson) (fits : GetsUint32 r) where
  uint_small :
      (field : Read r.Value) (n : ℕ) → (do d ← field; demand (r.get_uint d)) ≡ got n → n < 2 ^ 32
  unfolding demand
  uint_small undefined n e = ground (arith, e)
  uint_small nullopt n e = ground (arith, e)
  uint_small (got d) n e = of_option (r.get_uint d) (fits d) e
    where
      of_option :
          (o : Option ℕ) → ((n : ℕ) → o ≡ some n → n < 2 ^ 32) → demand o ≡ got n → n < 2 ^ 32
      of_option none small e = ground (arith, e)
      of_option (some k) small e = small n (ground (arith, e))

  pub play_character_slot :
      (d : r.Value) (request : PlayCharacterRequest)
      → deserialize_play_character_request r d ≡ got request
      → request.slot < 2 ^ 32
  unfolding deserialize_play_character_request uint_at
  play_character_slot d request is =
      uint_small (at r d (text "slot")) request.slot (one_number _ _ _ request is)
