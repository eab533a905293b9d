-- ===== src/Messages/RoundTrip/MapUpdate.antt =====
-- The npcs of a map update are read back with their name, sprite and place.
use core_cpp_archive.Messages.MapUpdate.{
  MapUpdateResponse, deserialize_map_update_response, map_update_response_type, read_npc,
  serialize_map_update_response, write_npc,
}
use core_cpp_archive.Messages.RoundTrip.Documents.{objects_of, write_objects_lem}
use core_cpp_archive.Prelude.{
  All, List, [], ap, arith, bytes_beq, map, neg_part, pos_of, pos_part, refl, some, text, ℤ, ◌++◌,
  ◌<◌, ◌^◌, ◌∷◌, ◌≡◌,
}
use core_cpp_archive.Rapidjson.{
  Event, IsCString, IsDocumented, Members, RapidJson, array_at-value, c_str, check_members-value,
  check_object-value, check_type-value, end_array, end_object, events, got, int_at-value, member,
  member_events, no_members, numeric, object, read_each-map, string, string_at-value,
}
use core_cpp_archive.Samples.{small}
use core_cpp_archive.World.{CharacterComponent, empty_character, to_u32, to_u32_small}

unfoldable pub npc_members : CharacterComponent → Members
npc_members npc = member (text "name") (string npc.name) (
    member (text "sprite") (numeric (ℤ.pos npc.sprite)) (
      member (text "x") (numeric (ℤ.pos (to_u32 npc.loc.0)))
        (member (text "y") (numeric (ℤ.pos (to_u32 npc.loc.1))) no_members)))

unfoldable pub map_update_response_members : MapUpdateResponse → Members
map_update_response_members m =
    member (text "type") (string map_update_response_type)
      (member (text "npcs") (objects_of npc_members m.npcs) no_members)

-- What is left of a character.
unfoldable pub npc_seen : CharacterComponent → CharacterComponent
npc_seen npc = record empty_character { name = npc.name; sprite = npc.sprite; loc = npc.loc }

-- An npc that stands on a map: its coordinates are not negative.
pub record NpcFits (npc : CharacterComponent) : Type 0 where
  pub clean_name : IsCString npc.name
  pub small_sprite : npc.sprite < 2 ^ 31
  pub non_negative_x : neg_part npc.loc.0 ≡ 0
  pub non_negative_y : neg_part npc.loc.1 ≡ 0
  pub small_x : pos_part npc.loc.0 < 2 ^ 31
  pub small_y : pos_part npc.loc.1 < 2 ^ 31

to_u32_pos : (z : ℤ) → neg_part z ≡ 0 → pos_part z < 2 ^ 31 → to_u32 z ≡ pos_part z
unfolding to_u32
to_u32_pos z h small = ground (arith, h, small)

write_npc_lem :
    (npc : CharacterComponent) (rest : List Event)
    → write_npc npc rest ≡ member_events (npc_members npc) rest
unfolding write_npc npc_members
write_npc_lem npc rest = refl

module _ (r : RapidJson) (doc : IsDocumented r) where
  read_npc-value :
      (npc : CharacterComponent) (objs : List CharacterComponent)
      → NpcFits npc
      → read_npc r (doc.value (object (npc_members npc))) objs ≡ got (objs ++ npc_seen npc ∷ [])
  unfolding read_npc npc_members text bytes_beq npc_seen
  read_npc-value npc objs fits =
      let ms = npc_members npc in
      let x = to_u32_pos npc.loc.0 fits.non_negative_x fits.small_x in
      let y = to_u32_pos npc.loc.1 fits.non_negative_y fits.small_y in
      rw (
        check_object-value r doc ms _ refl,
        string_at-value r doc ms (text "name") npc.name refl fits.clean_name,
        int_at-value r doc ms (text "sprite") npc.sprite refl fits.small_sprite,
        int_at-value r doc ms (text "x") (pos_part npc.loc.0) (ap (λ n. some (numeric (ℤ.pos n))) x)
            fits.small_x,
        int_at-value r doc ms (text "y") (pos_part npc.loc.1) (ap (λ n. some (numeric (ℤ.pos n))) y)
            fits.small_y,
        to_u32_small npc.sprite (omega (arith, fits.small_sprite)),
        ← pos_of npc.loc.0 fits.non_negative_x,
        ← pos_of npc.loc.1 fits.non_negative_y,
      )

  serialize_map_update_response_lem :
      (m : MapUpdateResponse)
      → serialize_map_update_response r m
        ≡ r.output (events (object (map_update_response_members m)) [])
  unfolding serialize_map_update_response map_update_response_members
  serialize_map_update_response_lem m = rw (
    serialize_map_update_response,
    write_objects_lem write_npc npc_members write_npc_lem m.npcs (end_array ∷ end_object ∷ []),
  )

  -- Of each npc of a map update the name, the sprite and the place are read back, if the name has
  -- no bytes 0, the coordinates are not negative and all numbers fit 31 bits.
  pub map_update_response_roundtrip :
      (m : MapUpdateResponse)
      → All NpcFits m.npcs
      → deserialize_map_update_response r (r.parse (serialize_map_update_response r m))
        ≡ got (record { npcs = map npc_seen m.npcs })
  unfolding deserialize_map_update_response map_update_response_members text bytes_beq c_str
  map_update_response_roundtrip m fits =
      let ms = map_update_response_members m in
      rw (
        serialize_map_update_response_lem m,
        doc.parse_output (object ms),
        check_members-value r doc ms _,
        check_type-value r doc ms map_update_response_type refl refl,
        array_at-value r doc ms (text "npcs") _ refl,
        read_each-map r doc (read_npc r) (λ npc. object (npc_members npc)) npc_seen NpcFits
            read_npc-value m.npcs [] fits,
      )
