-- ===== src/Messages/RoundTrip/Objects.antt =====
-- What src/messages/objects writes is read back.
use core_cpp_archive.Messages.Objects.{AccountObject, CharacterObject, ItemObject, SkillObject}
use core_cpp_archive.Messages.Reading.{
  read_account_object_into_vector, read_character_object_into_vector, read_item_object_into_vector,
  read_skill_object_into_vector, read_stat,
}
use core_cpp_archive.Messages.RoundTrip.Documents.{
  account_members, character_members, item_members, skill_members, stat_members,
}
use core_cpp_archive.Messages.RoundTrip.Fits.{
  AccountFits, CharacterFits, HasCharacter, ItemFits, SkillFits, StatFits, character_keys,
  character_members-HasCharacter,
}
use core_cpp_archive.Prelude.{
  All, List, [], ap, bytes_beq, map, pos_of, pos_part, refl, some, sym, text, ◌++◌, ◌∷◌, ◌≡◌,
}
use core_cpp_archive.Rapidjson.{
  IsDocumented, Members, RapidJson, array_at-value, bool_at-value, check_object-value, elements_of,
  got, no_members, numeric, object, read_each, read_each-value, string_at-value, uint64_at-value,
  uint_at-value, values,
}
use core_cpp_archive.World.{StatComponent}

module _ (r : RapidJson) (doc : IsDocumented r) where
  pub read_stat-value :
      (s : StatComponent) (objs : List StatComponent)
      → StatFits s
      → read_stat r (doc.value (object (stat_members s))) objs ≡ got (objs ++ s ∷ [])
  unfolding read_stat stat_members text bytes_beq
  read_stat-value s objs fits =
      let ms = stat_members s in
      let e = pos_of s.value fits.non_negative in
      rw
        (
          check_object-value r doc ms (text "name" ∷ text "value" ∷ []) refl,
          string_at-value r doc ms (text "name") s.name refl fits.clean_name,
          uint_at-value r doc ms (text "value") (pos_part s.value) (ap (λ z. some (numeric z)) e)
              fits.small,
        )
        (ap (λ z. got (objs ++ record { name = s.name; value = z } ∷ [])) (sym e))

  pub read_stats-value :
      (ss : List StatComponent)
      → All StatFits ss
      → read_each r
          (read_stat r)
          (values doc.value (elements_of (map (λ s. object (stat_members s)) ss)))
          []
        ≡ got ss
  read_stats-value ss fit =
      read_each-value r doc (read_stat r) (λ s. object (stat_members s)) StatFits read_stat-value ss
        fit

  pub read_skill-value :
      (o : SkillObject) (objs : List SkillObject)
      → SkillFits o
      → read_skill_object_into_vector r (doc.value (object (skill_members o))) objs
        ≡ got (objs ++ o ∷ [])
  unfolding read_skill_object_into_vector skill_members text bytes_beq
  read_skill-value o objs fits =
      let ms = skill_members o in
      rw (
        check_object-value r doc ms (text "value" ∷ text "name" ∷ []) refl,
        string_at-value r doc ms (text "name") o.name refl fits.clean_name,
        uint_at-value r doc ms (text "value") o.value refl fits.small,
      )

  pub read_account-value :
      (o : AccountObject) (objs : List AccountObject)
      → AccountFits o
      → read_account_object_into_vector r (doc.value (object (account_members o no_members))) objs
        ≡ got (objs ++ o ∷ [])
  unfolding read_account_object_into_vector account_members text bytes_beq
  read_account-value o objs fits =
      let ms = account_members o no_members in
      rw (
        check_object-value r doc ms _ refl,
        bool_at-value r doc ms (text "is_game_master") o.is_game_master refl,
        bool_at-value r doc ms (text "is_tester") o.is_tester refl,
        bool_at-value r doc ms (text "has_done_trial") o.has_done_trial refl,
        uint64_at-value r doc ms (text "trial_ends_unix_timestamp") o.trial_ends_unix_timestamp refl
            fits.small_trial,
        uint_at-value r doc ms (text "subscription_tier") o.subscription_tier refl fits.small_tier,
        string_at-value r doc ms (text "username") o.username refl fits.clean_name,
      )

  pub read_item-value :
      (o : ItemObject) (objs : List ItemObject)
      → ItemFits o
      → read_item_object_into_vector r (doc.value (object (item_members o))) objs
        ≡ got (objs ++ o ∷ [])
  unfolding read_item_object_into_vector item_members text bytes_beq
  read_item-value o objs fits =
      let ms = item_members o in
      rw (
        check_object-value r doc ms _ refl,
        array_at-value r doc ms (text "stats") _ refl,
        read_stats-value o.stats fits.stats_fit,
        uint_at-value r doc ms (text "tier") o.tier refl fits.small_tier,
        uint_at-value r doc ms (text "value") o.value refl fits.small_value,
        uint_at-value r doc ms (text "sprite") o.sprite refl fits.small_sprite,
        string_at-value r doc ms (text "name") o.name refl fits.clean_name,
        string_at-value r doc ms (text "description") o.description refl fits.clean_description,
        string_at-value r doc ms (text "item_type") o.item_type refl fits.clean_type,
      )

  pub read_items-value :
      (os : List ItemObject)
      → All ItemFits os
      → read_each r
          (read_item_object_into_vector r)
          (values doc.value (elements_of (map (λ o. object (item_members o)) os)))
          []
        ≡ got os
  read_items-value os fit =
      read_each-value r doc (read_item_object_into_vector r) (λ o. object (item_members o)) ItemFits
        read_item-value os fit

  pub read_skills-value :
      (os : List SkillObject)
      → All SkillFits os
      → read_each r
          (read_skill_object_into_vector r)
          (values doc.value (elements_of (map (λ o. object (skill_members o)) os)))
          []
        ≡ got os
  read_skills-value os fit =
      read_each-value r doc (read_skill_object_into_vector r) (λ o. object (skill_members o))
        SkillFits read_skill-value os fit

  pub read_character-value :
      (ms : Members) (o : CharacterObject) (objs : List CharacterObject)
      → HasCharacter ms o
      → CharacterFits o
      → read_character_object_into_vector r (doc.value (object ms)) objs ≡ got (objs ++ o ∷ [])
  unfolding read_character_object_into_vector
  read_character-value ms o objs has fits = rw (
    check_object-value r doc ms _ (character_keys ms o has),
    array_at-value r doc ms (text "stats") _ has.has_stats,
    array_at-value r doc ms (text "items") _ has.has_items,
    array_at-value r doc ms (text "skills") _ has.has_skills,
    read_stats-value o.stats fits.stats_fit,
    read_items-value o.items fits.items_fit,
    read_skills-value o.skills fits.skills_fit,
    string_at-value r doc ms (text "name") o.name has.has_name fits.clean_name,
    string_at-value r doc ms (text "gender") o.gender has.has_gender fits.clean_gender,
    string_at-value r doc ms (text "allegiance") o.allegiance has.has_allegiance
        fits.clean_allegiance,
    string_at-value r doc ms (text "baseclass") o.baseclass has.has_class fits.clean_class,
    string_at-value r doc ms (text "map_name") o.map_name has.has_map fits.clean_map,
    uint_at-value r doc ms (text "level") o.level has.has_level fits.small_level,
    uint_at-value r doc ms (text "slot") o.slot has.has_slot fits.small_slot,
    uint_at-value r doc ms (text "gold") o.gold has.has_gold fits.small_gold,
    uint_at-value r doc ms (text "x") o.x has.has_x fits.small_x,
    uint_at-value r doc ms (text "y") o.y has.has_y fits.small_y,
  )

  pub read_accounts-value :
      (os : List AccountObject)
      → All AccountFits os
      → read_each r
          (read_account_object_into_vector r)
          (values doc.value (elements_of (map (λ o. object (account_members o no_members)) os)))
          []
        ≡ got os
  read_accounts-value os fit =
      read_each-value r doc (read_account_object_into_vector r)
        (λ o. object (account_members o no_members)) AccountFits read_account-value os fit

  pub read_characters-value :
      (os : List CharacterObject)
      → All CharacterFits os
      → read_each r
          (read_character_object_into_vector r)
          (values doc.value (elements_of (map (λ o. object (character_members o)) os)))
          []
        ≡ got os
  read_characters-value os fit =
      read_each-value r doc (read_character_object_into_vector r)
        (λ o. object (character_members o)) CharacterFits
        (λ o objs.
          read_character-value (character_members o) o objs (character_members-HasCharacter o))
        os fit
