-- ===== src/Messages/RoundTrip/Fits.antt =====
-- Which objects are read back whole, and which documents hold a character.
use core_cpp_archive.Messages.Objects.{AccountObject, CharacterObject, ItemObject, SkillObject}
use core_cpp_archive.Messages.RoundTrip.Documents.{
  character_members, item_members, objects_of, skill_members, stat_members,
}
use core_cpp_archive.Prelude.{
  All, Text, [], bytes_beq, neg_part, pos_part, refl, some, text, true, ℤ, ◌<◌, ◌^◌, ◌∷◌, ◌≡◌,
}
use core_cpp_archive.Rapidjson.{IsCString, Members, find_member, has_all, member, numeric, string}
use core_cpp_archive.World.{StatComponent}

pub record StatFits (s : StatComponent) : Type 0 where
  pub clean_name : IsCString s.name
  pub non_negative : neg_part s.value ≡ 0
  pub small : pos_part s.value < 2 ^ 32

pub record SkillFits (o : SkillObject) : Type 0 where
  pub clean_name : IsCString o.name
  pub small : o.value < 2 ^ 32

pub record AccountFits (o : AccountObject) : Type 0 where
  pub small_trial : o.trial_ends_unix_timestamp < 2 ^ 64
  pub small_tier : o.subscription_tier < 2 ^ 32
  pub clean_name : IsCString o.username

pub record ItemFits (o : ItemObject) : Type 0 where
  pub small_tier : o.tier < 2 ^ 32
  pub small_value : o.value < 2 ^ 32
  pub small_sprite : o.sprite < 2 ^ 32
  pub clean_name : IsCString o.name
  pub clean_description : IsCString o.description
  pub clean_type : IsCString o.item_type
  pub stats_fit : All StatFits o.stats

pub record CharacterFits (o : CharacterObject) : Type 0 where
  pub clean_name : IsCString o.name
  pub clean_gender : IsCString o.gender
  pub clean_allegiance : IsCString o.allegiance
  pub clean_class : IsCString o.baseclass
  pub clean_map : IsCString o.map_name
  pub small_level : o.level < 2 ^ 32
  pub small_slot : o.slot < 2 ^ 32
  pub small_gold : o.gold < 2 ^ 32
  pub small_x : o.x < 2 ^ 32
  pub small_y : o.y < 2 ^ 32
  pub stats_fit : All StatFits o.stats
  pub items_fit : All ItemFits o.items
  pub skills_fit : All SkillFits o.skills

-- The members of a document that a character is read from.
pub record HasCharacter (ms : Members) (o : CharacterObject) : Type 0 where
  pub has_name : find_member (text "name") ms ≡ some (string o.name)
  pub has_gender : find_member (text "gender") ms ≡ some (string o.gender)
  pub has_allegiance : find_member (text "allegiance") ms ≡ some (string o.allegiance)
  pub has_class : find_member (text "baseclass") ms ≡ some (string o.baseclass)
  pub has_map : find_member (text "map_name") ms ≡ some (string o.map_name)
  pub has_level : find_member (text "level") ms ≡ some (numeric (ℤ.pos o.level))
  pub has_slot : find_member (text "slot") ms ≡ some (numeric (ℤ.pos o.slot))
  pub has_gold : find_member (text "gold") ms ≡ some (numeric (ℤ.pos o.gold))
  pub has_x : find_member (text "x") ms ≡ some (numeric (ℤ.pos o.x))
  pub has_y : find_member (text "y") ms ≡ some (numeric (ℤ.pos o.y))
  pub has_stats : find_member (text "stats") ms ≡ some (objects_of stat_members o.stats)
  pub has_items : find_member (text "items") ms ≡ some (objects_of item_members o.items)
  pub has_skills : find_member (text "skills") ms ≡ some (objects_of skill_members o.skills)

pub character_keys :
    (ms : Members) (o : CharacterObject)
    → HasCharacter ms o
    → has_all
        (text "name"
          ∷ text "gender"
          ∷ text "allegiance"
          ∷ text "baseclass"
          ∷ text "map_name"
          ∷ text "x"
          ∷ text "level"
          ∷ text "gold"
          ∷ text "slot"
          ∷ text "y"
          ∷ text "stats"
          ∷ text "items"
          ∷ text "skills"
          ∷ [])
        ms
      ≡ true
character_keys ms o has = rw (
  has_all, has.has_name, has.has_gender, has.has_allegiance, has.has_class, has.has_map, has.has_x,
  has.has_level, has.has_gold, has.has_slot, has.has_y, has.has_stats, has.has_items,
  has.has_skills,
)

pub character_members-HasCharacter : (o : CharacterObject) → HasCharacter (character_members o) o
unfolding character_members text bytes_beq
character_members-HasCharacter o = record {
  has_name = refl;
  has_gender = refl;
  has_allegiance = refl;
  has_class = refl;
  has_map = refl;
  has_x = refl;
  has_level = refl;
  has_gold = refl;
  has_slot = refl;
  has_y = refl;
  has_stats = refl;
  has_items = refl;
  has_skills = refl;
}

-- The member `type` in front is none of those that are read.
pub typed-HasCharacter :
    (type : Text) (o : CharacterObject)
    → HasCharacter (member (text "type") (string type) (character_members o)) o
unfolding character_members text bytes_beq
typed-HasCharacter type o = record {
  has_name = refl;
  has_gender = refl;
  has_allegiance = refl;
  has_class = refl;
  has_map = refl;
  has_x = refl;
  has_level = refl;
  has_gold = refl;
  has_slot = refl;
  has_y = refl;
  has_stats = refl;
  has_items = refl;
  has_skills = refl;
}
