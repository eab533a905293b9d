-- ===== src/Messages/RoundTrip/Selection.antt =====
-- The character selection is read back, with the items reduced to their names.
use core_cpp_archive.Messages.Objects.{
  ItemObject, SkillObject, write_item_object, write_skill_object, write_stat,
}
use core_cpp_archive.Messages.RoundTrip.Documents.{
  item_members, objects_of, skill_members, stat_members, write_item_lem, write_objects_lem,
  write_skill_lem, write_stat_lem,
}
use core_cpp_archive.Messages.RoundTrip.Fits.{SkillFits}
use core_cpp_archive.Messages.Selection.{
  CharacterAllegiance, CharacterClass, CharacterSelectResponse, character_select_response_type,
  deserialize_character_select_response, read_allegiance, read_class, read_item_name,
  read_skill_mod, read_stat_mod, serialize_character_select_response, write_allegiance, write_class,
}
use core_cpp_archive.Prelude.{
  All, List, [], arith, bytes_beq, map, refl, some, text, ℤ, ◌++◌, ◌^◌, ◌∷◌, ◌≡◌,
}
use core_cpp_archive.Rapidjson.{
  Event, IsCString, IsDocumented, Members, RapidJson, array_at-value, as_signed, c_str,
  check_members-value, check_object-value, check_type-value, elements_of, end_array, end_object,
  events, got, int64_at-value, member, member_events, no_members, numeric, object, read_each,
  read_each-map, read_each-value, string, string_at-value, values,
}
use core_cpp_archive.World.{StatComponent, to_u32_small}

unfoldable pub allegiance_members : CharacterAllegiance → Members
allegiance_members a = member (text "name") (string a.name) (
    member (text "description") (string a.description) (
      member (text "stat_mods") (objects_of stat_members a.stat_mods) (
        member (text "items") (objects_of item_members a.items)
          (member (text "skills") (objects_of skill_members a.skills) no_members))))

unfoldable pub class_members : CharacterClass → Members
class_members c = member (text "name") (string c.name) (
    member (text "description") (string c.description)
      (member (text "stat_mods") (objects_of stat_members c.stat_mods) no_members))

unfoldable pub character_select_response_members : CharacterSelectResponse → Members
character_select_response_members m = member (text "type") (string character_select_response_type) (
    member (text "base_stats") (objects_of stat_members m.base_stats) (
      member (text "allegiances") (objects_of allegiance_members m.allegiances)
        (member (text "classes") (objects_of class_members m.classes) no_members)))

-- What is left of an item, an allegiance and a whole message.
abbrev pub item_name_only : ItemObject → ItemObject
item_name_only o = record {
  tier = 0;
  value = 0;
  sprite = 0;
  name = o.name;
  description = [];
  item_type = [];
  stats = [];
}

abbrev pub item_names_only : CharacterAllegiance → CharacterAllegiance
item_names_only a = record a { items = map item_name_only a.items }

abbrev pub selection_read : CharacterSelectResponse → CharacterSelectResponse
selection_read m = record m { allegiances = map item_names_only m.allegiances }

-- The names are free of bytes 0, and the values of stats are of type `int64_t`.
pub record StatModFits (s : StatComponent) : Type 0 where
  pub clean_name : IsCString s.name
  pub int64 : as_signed (2 ^ 63) (numeric s.value) ≡ some s.value

pub record AllegianceFits (a : CharacterAllegiance) : Type 0 where
  pub clean_name : IsCString a.name
  pub clean_description : IsCString a.description
  pub mods_fit : All StatModFits a.stat_mods
  pub items_fit : All (λ o. IsCString o.name) a.items
  pub skills_fit : All SkillFits a.skills

pub record ClassFits (c : CharacterClass) : Type 0 where
  pub clean_name : IsCString c.name
  pub clean_description : IsCString c.description
  pub mods_fit : All StatModFits c.stat_mods

pub write_allegiance_lem :
    (a : CharacterAllegiance) (rest : List Event)
    → write_allegiance a rest ≡ member_events (allegiance_members a) rest
unfolding write_allegiance allegiance_members
write_allegiance_lem a rest = rw (
  write_objects_lem write_skill_object skill_members write_skill_lem a.skills (end_array ∷ rest),
  write_objects_lem write_item_object item_members write_item_lem a.items _,
  write_objects_lem write_stat stat_members write_stat_lem a.stat_mods _,
)

pub write_class_lem :
    (c : CharacterClass) (rest : List Event)
    → write_class c rest ≡ member_events (class_members c) rest
unfolding write_class class_members
write_class_lem c rest =
    rw (write_objects_lem write_stat stat_members write_stat_lem c.stat_mods (end_array ∷ rest))

module _ (r : RapidJson) (doc : IsDocumented r) where
  read_stat_mod-value :
      (s : StatComponent) (objs : List StatComponent)
      → StatModFits s
      → read_stat_mod r (doc.value (object (stat_members s))) objs ≡ got (objs ++ s ∷ [])
  unfolding read_stat_mod stat_members text bytes_beq
  read_stat_mod-value s objs fits =
      let ms = stat_members s in
      rw (
        check_object-value r doc ms _ refl,
        string_at-value r doc ms (text "name") s.name refl fits.clean_name,
        int64_at-value r doc ms (text "value") s.value fits.int64 refl,
      )

  read_stat_mods-value :
      (ss : List StatComponent)
      → All StatModFits ss
      → read_each r
          (read_stat_mod r)
          (values doc.value (elements_of (map (λ s. object (stat_members s)) ss)))
          []
        ≡ got ss
  read_stat_mods-value ss fit =
      read_each-value r doc (read_stat_mod r) (λ s. object (stat_members s)) StatModFits
        read_stat_mod-value ss fit

  read_item_name-value :
      (o : ItemObject) (objs : List ItemObject)
      → IsCString o.name
      → read_item_name r (doc.value (object (item_members o))) objs
        ≡ got (objs ++ item_name_only o ∷ [])
  unfolding read_item_name item_members text bytes_beq
  read_item_name-value o objs clean =
      let ms = item_members o in
      rw (
        check_object-value r doc ms _ refl,
        string_at-value r doc ms (text "name") o.name refl clean,
      )

  read_skill_mod-value :
      (o : SkillObject) (objs : List SkillObject)
      → SkillFits o
      → read_skill_mod r (doc.value (object (skill_members o))) objs ≡ got (objs ++ o ∷ [])
  unfolding read_skill_mod skill_members text bytes_beq
  read_skill_mod-value o objs fits =
      let ms = skill_members o in
      rw (
        check_object-value r doc ms _ refl,
        string_at-value r doc ms (text "name") o.name refl fits.clean_name,
        int64_at-value r doc ms (text "value") (ℤ.pos o.value) (ground (arith, fits.small)) refl,
        to_u32_small o.value fits.small,
      )

  read_allegiance-value :
      (a : CharacterAllegiance) (objs : List CharacterAllegiance)
      → AllegianceFits a
      → read_allegiance r (doc.value (object (allegiance_members a))) objs
        ≡ got (objs ++ item_names_only a ∷ [])
  unfolding read_allegiance allegiance_members text bytes_beq
  read_allegiance-value a objs fits =
      let ms = allegiance_members a in
      rw (
        check_object-value r doc ms _ refl,
        array_at-value r doc ms (text "stat_mods") _ refl,
        read_stat_mods-value a.stat_mods fits.mods_fit,
        array_at-value r doc ms (text "items") _ refl,
        read_each-map r doc (read_item_name r) (λ o. object (item_members o)) item_name_only
            (λ o. IsCString o.name) read_item_name-value a.items [] fits.items_fit,
        array_at-value r doc ms (text "skills") _ refl,
        read_each-value r doc (read_skill_mod r) (λ o. object (skill_members o)) SkillFits
            read_skill_mod-value a.skills fits.skills_fit,
        string_at-value r doc ms (text "name") a.name refl fits.clean_name,
        string_at-value r doc ms (text "description") a.description refl fits.clean_description,
      )

  read_class-value :
      (c : CharacterClass) (objs : List CharacterClass)
      → ClassFits c
      → read_class r (doc.value (object (class_members c))) objs ≡ got (objs ++ c ∷ [])
  unfolding read_class class_members text bytes_beq
  read_class-value c objs fits =
      let ms = class_members c in
      rw (
        check_object-value r doc ms _ refl,
        array_at-value r doc ms (text "stat_mods") _ refl,
        read_stat_mods-value c.stat_mods fits.mods_fit,
        string_at-value r doc ms (text "name") c.name refl fits.clean_name,
        string_at-value r doc ms (text "description") c.description refl fits.clean_description,
      )

  serialize_character_select_response_lem :
      (m : CharacterSelectResponse)
      → serialize_character_select_response r m
        ≡ r.output (events (object (character_select_response_members m)) [])
  unfolding serialize_character_select_response character_select_response_members
  serialize_character_select_response_lem m = rw (
    serialize_character_select_response,
    write_objects_lem write_class class_members write_class_lem m.classes
        (end_array ∷ end_object ∷ []),
    write_objects_lem write_allegiance allegiance_members write_allegiance_lem m.allegiances _,
    write_objects_lem write_stat stat_members write_stat_lem m.base_stats _,
  )

  -- The character selection is read back with all stats, descriptions and skills; of an item only
  -- the name is left. The texts have no bytes 0 and the numbers fit.
  pub character_select_response_roundtrip :
      (m : CharacterSelectResponse)
      → All StatModFits m.base_stats
      → All AllegianceFits m.allegiances
      → All ClassFits m.classes
      → deserialize_character_select_response r (r.parse (serialize_character_select_response r m))
        ≡ got (selection_read m)
  unfolding deserialize_character_select_response character_select_response_members text bytes_beq
      c_str
  character_select_response_roundtrip m stats allegiances classes =
      let ms = character_select_response_members m in
      rw (
        serialize_character_select_response_lem m,
        doc.parse_output (object ms),
        check_members-value r doc ms _,
        check_type-value r doc ms character_select_response_type refl refl,
        array_at-value r doc ms (text "base_stats") _ refl,
        read_stat_mods-value m.base_stats stats,
        array_at-value r doc ms (text "allegiances") _ refl,
        read_each-map r doc (read_allegiance r) (λ a. object (allegiance_members a)) item_names_only
            AllegianceFits read_allegiance-value m.allegiances [] allegiances,
        array_at-value r doc ms (text "classes") _ refl,
        read_each-value r doc (read_class r) (λ c. object (class_members c)) ClassFits
            read_class-value m.classes classes,
      )
