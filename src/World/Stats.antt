-- ===== src/World/Stats.antt =====
-- src/ecs/components.h: stats, the names of stats, and the parts that npcs and players share.
use core_cpp_archive.Prelude.{
  Bool, Dict, List, Location, Text, [], arith, assign, bytes_eq, find, int_eq, loc_eq, nat_eq,
  neg_part, none, pos_part, some, text, ℕ, ℤ, ◌%◌, ◌+◌, ◌-◌, ◌<◌, ◌^◌, ◌∷◌, ◌≡◌,
}

pub record StatComponent : Type 0 where
  pub name : Text
  pub value : ℤ

pub record RandomStatComponent : Type 0 where
  pub name : Text
  pub min : ℤ
  pub max : ℤ

pub record SkillComponent : Type 0 where
  pub name : Text
  pub value : ℤ

pub record ItemComponent : Type 0 where
  pub name : Text
  pub desc : Text
  pub value : ℕ
  pub sprite : ℕ
  pub stats : List StatComponent

pub record SilverPurchasesComponent : Type 0 where
  pub name : Text
  pub count : ℕ

-- An `int64_t` stored as a `uint64_t`.
unfoldable pub to_u64 : ℤ → ℕ
to_u64 z = (pos_part z + (2 ^ 64 - neg_part z % 2 ^ 64)) % 2 ^ 64

-- An `int32_t` or `int64_t` stored as a `uint32_t`.
unfoldable pub to_u32 : ℤ → ℕ
to_u32 z = (pos_part z + (2 ^ 32 - neg_part z % 2 ^ 32)) % 2 ^ 32

-- A small number keeps its value.
pub to_u32_small : (n : ℕ) → n < 2 ^ 32 → to_u32 (ℤ.pos n) ≡ n
unfolding to_u32
to_u32_small n h = ground arith

-- `stats[name]` of a flat map: a missing key reads as 0 (and is inserted with that value).
unfoldable pub stat_value : Text → Dict Text ℕ → ℕ
stat_value name stats = elim (find name stats) [ none ↦ 0 | some v ↦ v ]

unfoldable pub touch_stat : Text → Dict Text ℕ → Dict Text ℕ
touch_stat name stats = elim (find name stats) [ none ↦ assign name 0 stats | some v ↦ stats ]

abbrev pub stat_move : Text
stat_move = text "move"

abbrev pub stat_hp : Text
stat_hp = text "hp"

abbrev pub stat_max_hp : Text
stat_max_hp = text "maxhp"

abbrev pub stat_mp : Text
stat_mp = text "mp"

abbrev pub stat_max_mp : Text
stat_max_mp = text "maxmp"

abbrev pub stat_names : List Text
stat_names =
    text "str"
    ∷ text "dex"
    ∷ text "agi"
    ∷ text "int"
    ∷ text "wis"
    ∷ text "wil"
    ∷ text "luk"
    ∷ text "cha"
    ∷ text "con"
    ∷ stat_move
    ∷ text "hpregen"
    ∷ text "mpregen"
    ∷ stat_hp
    ∷ stat_mp
    ∷ stat_max_hp
    ∷ stat_max_mp
    ∷ text "weaponDamageRolls"
    ∷ text "weaponArmorClass"
    ∷ text "armorClass"
    ∷ text "accuracy"
    ∷ text "offense"
    ∷ text "defense"
    ∷ text "stealth"
    ∷ text "perception"
    ∷ text "physicalDamageBoost"
    ∷ text "magicalDamageBoost"
    ∷ text "healingBoost"
    ∷ text "physicalDamageReflect"
    ∷ text "magicalDamageReflect"
    ∷ text "mitigation"
    ∷ text "magicalResist"
    ∷ text "physicalResist"
    ∷ text "necroticResist"
    ∷ text "energyResist"
    ∷ text "waterResist"
    ∷ text "fireResist"
    ∷ text "iceResist"
    ∷ text "poisonResist"
    ∷ text "diseaseResist"
    ∷ text "actionSpeed"
    ∷ []

pub record CharacterComponent : Type 0 where
  pub id : ℕ
  pub name : Text
  pub allegiance : Text
  pub alignment : Text
  pub gender : Text
  pub dir : Text
  pub hostility : Text
  pub character_class : Text
  pub monster_class : Text
  pub spawn_message : Text
  pub sfx : Text
  pub level : ℕ
  pub highest_level : ℕ
  pub sprite : ℕ
  pub skill_on_kill : ℕ
  pub gold : ℕ
  pub give_xp : ℕ
  pub sfx_max_chance : ℕ
  pub loc : Location
  pub stats : Dict Text ℕ
  pub items : Dict Text ItemComponent
  pub skills : List SkillComponent

-- The constructor leaves `gold` and `give_xp` out: their value is indeterminate, and 0 here.
unfoldable pub empty_character : CharacterComponent
empty_character = record {
  id = 0;
  name = [];
  allegiance = [];
  alignment = [];
  gender = [];
  dir = [];
  hostility = [];
  character_class = [];
  monster_class = [];
  spawn_message = [];
  sfx = [];
  level = 0;
  highest_level = 0;
  sprite = 0;
  skill_on_kill = 0;
  gold = 0;
  give_xp = 0;
  sfx_max_chance = 0;
  loc = (ℤ.pos 0, ℤ.pos 0);
  stats = [];
  items = [];
  skills = [];
}

pub record PcComponent : Type 0 where
  pub base : CharacterComponent
  pub open base use *
  pub silver_purchases : List SilverPurchasesComponent
  pub fov : List Bool
  pub connection_id : ℕ
