-- ===== src/Messages/Tests.antt =====
-- Examples of messages that are written and read with the small library of `Rapidjson.Decoder`.
use core_cpp_archive.Messages.MapUpdate.{
  deserialize_map_update_response, serialize_map_update_response,
}
use core_cpp_archive.Messages.Objects.{AccountObject, CharacterObject, ItemObject, SkillObject}
use core_cpp_archive.Messages.Presence.{
  LoginResponse, deserialize_create_character_response, deserialize_login_response,
  serialize_create_character_response, serialize_login_response,
}
use core_cpp_archive.Messages.RoundTrip.Fits.{
  AccountFits, CharacterFits, ItemFits, SkillFits, StatFits,
}
use core_cpp_archive.Messages.RoundTrip.MapUpdate.{NpcFits, map_update_response_roundtrip, npc_seen}
use core_cpp_archive.Messages.RoundTrip.Presence.{
  create_character_response_roundtrip, login_response_roundtrip,
}
use core_cpp_archive.Messages.RoundTrip.Selection.{
  AllegianceFits, ClassFits, StatModFits, character_select_response_roundtrip, selection_read,
}
use core_cpp_archive.Messages.Selection.{
  CharacterAllegiance, CharacterSelectResponse, deserialize_character_select_response,
  serialize_character_select_response,
}
use core_cpp_archive.Prelude.{[], arith, false, refl, text, true, ℤ, ◌∷◌, ◌≡◌}
use core_cpp_archive.Rapidjson.{c_str, got}
use core_cpp_archive.Rapidjson.Decoder.{call_list, call_list-IsDocumented}
use core_cpp_archive.World.{CharacterComponent, StatComponent, empty_character}

abbrev strength : StatComponent
strength = record { name = text "str"; value = ℤ.pos 12 }

abbrev dagger : ItemObject
dagger = record {
  tier = 1;
  value = 10;
  sprite = 7;
  name = text "Dagger";
  description = text "a dagger";
  item_type = text "Dagger";
  stats = strength ∷ [];
}

abbrev stealth : SkillObject
stealth = record { value = 3; name = text "thievery" }

abbrev thief : CharacterObject
thief = record {
  name = text "Ann";
  gender = text "female";
  allegiance = text "Underground";
  baseclass = text "Thief";
  map_name = text "Tutorial";
  level = 1;
  slot = 0;
  gold = 500;
  x = 3;
  y = 4;
  stats = strength ∷ [];
  items = dagger ∷ [];
  skills = stealth ∷ [];
}

abbrev account : AccountObject
account = record {
  is_game_master = false;
  is_tester = true;
  has_done_trial = false;
  trial_ends_unix_timestamp = 1575000000;
  subscription_tier = 0;
  username = text "ann";
}

abbrev login : LoginResponse
login = record {
  players = thief ∷ [];
  online_users = account ∷ [];
  username = text "ann";
  email = text "ann@example.org";
  motd = text "Welcome";
}

abbrev underground : CharacterAllegiance
underground = record {
  name = text "Underground";
  description = text "thieves";
  stat_mods = record { name = text "luk"; value = ℤ.negsuc 1 } ∷ [];
  items = dagger ∷ [];
  skills = stealth ∷ [];
}

abbrev selection : CharacterSelectResponse
selection = record {
  base_stats = strength ∷ [];
  allegiances = underground ∷ [];
  classes = record { name = text "Thief"; description = []; stat_mods = strength ∷ [] } ∷ [];
}

abbrev rat : CharacterComponent
rat = record empty_character { name = text "rat"; sprite = 1439; loc = (ℤ.pos 3, ℤ.pos 5) }

strength-StatFits : StatFits strength
unfolding text c_str
strength-StatFits = record { clean_name = refl; non_negative = refl; small = omega arith }

dagger-ItemFits : ItemFits dagger
unfolding text c_str
dagger-ItemFits = record {
  small_tier = omega arith;
  small_value = omega arith;
  small_sprite = omega arith;
  clean_name = refl;
  clean_description = refl;
  clean_type = refl;
  stats_fit = (strength-StatFits, tt);
}

stealth-SkillFits : SkillFits stealth
unfolding text c_str
stealth-SkillFits = record { clean_name = refl; small = omega arith }

thief-CharacterFits : CharacterFits thief
unfolding text c_str
thief-CharacterFits = record {
  clean_name = refl;
  clean_gender = refl;
  clean_allegiance = refl;
  clean_class = refl;
  clean_map = refl;
  small_level = omega arith;
  small_slot = omega arith;
  small_gold = omega arith;
  small_x = omega arith;
  small_y = omega arith;
  stats_fit = (strength-StatFits, tt);
  items_fit = (dagger-ItemFits, tt);
  skills_fit = (stealth-SkillFits, tt);
}

account-AccountFits : AccountFits account
unfolding text c_str
account-AccountFits = record {
  small_trial = omega arith;
  small_tier = omega arith;
  clean_name = refl;
}

strength-StatModFits : StatModFits strength
unfolding text c_str
strength-StatModFits = record { clean_name = refl; int64 = refl }

underground-AllegianceFits : AllegianceFits underground
unfolding text c_str
underground-AllegianceFits = record {
  clean_name = refl;
  clean_description = refl;
  mods_fit = (record { clean_name = refl; int64 = refl }, tt);
  items_fit = (refl, tt);
  skills_fit = (stealth-SkillFits, tt);
}

thief-ClassFits :
    ClassFits (record { name = text "Thief"; description = []; stat_mods = strength ∷ [] })
unfolding text c_str
thief-ClassFits = record {
  clean_name = refl;
  clean_description = refl;
  mods_fit = (strength-StatModFits, tt);
}

rat-NpcFits : NpcFits rat
unfolding text c_str
rat-NpcFits = record {
  clean_name = refl;
  small_sprite = omega arith;
  non_negative_x = refl;
  non_negative_y = refl;
  small_x = omega arith;
  small_y = omega arith;
}

login_response_roundtrip_example :
    deserialize_login_response call_list
      (call_list.parse (serialize_login_response call_list login))
    ≡ got login
unfolding text c_str
login_response_roundtrip_example =
    login_response_roundtrip call_list call_list-IsDocumented login (thief-CharacterFits, tt)
      (account-AccountFits, tt) refl refl refl

character_select_response_roundtrip_example :
    deserialize_character_select_response call_list
      (call_list.parse (serialize_character_select_response call_list selection))
    ≡ got (selection_read selection)
character_select_response_roundtrip_example =
    character_select_response_roundtrip call_list call_list-IsDocumented selection
      (strength-StatModFits, tt) (underground-AllegianceFits, tt) (thief-ClassFits, tt)

create_character_response_roundtrip_example :
    deserialize_create_character_response call_list (
      call_list.parse
        (serialize_create_character_response call_list (record { character = thief })))
    ≡ got (record { character = thief })
create_character_response_roundtrip_example =
    create_character_response_roundtrip call_list call_list-IsDocumented
      (record { character = thief }) thief-CharacterFits

map_update_response_roundtrip_example :
    deserialize_map_update_response call_list
      (call_list.parse (serialize_map_update_response call_list (record { npcs = rat ∷ [] })))
    ≡ got (record { npcs = npc_seen rat ∷ [] })
map_update_response_roundtrip_example =
    map_update_response_roundtrip call_list call_list-IsDocumented (record { npcs = rat ∷ [] })
      (rat-NpcFits, tt)
