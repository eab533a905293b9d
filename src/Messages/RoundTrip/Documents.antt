-- ===== src/Messages/RoundTrip/Documents.antt =====
-- The documents that src/messages/objects writes, as trees.
use core_cpp_archive.Messages.Objects.{
  AccountObject, CharacterObject, ItemObject, SkillObject, write_account_object,
  write_character_object, write_item_object, write_objects, write_skill_object, write_stat,
}
use core_cpp_archive.Prelude.{List, [], map, refl, text, ℤ, ◌∷◌, ◌≡◌}
use core_cpp_archive.Rapidjson.{
  Event, Json, Members, array, boolean, element_events, elements_of, end_array, end_object, member,
  member_events, no_members, numeric, object, string,
}
use core_cpp_archive.World.{StatComponent}

unfoldable pub stat_members : StatComponent → Members
stat_members s =
    member (text "name") (string s.name) (member (text "value") (numeric s.value) no_members)

unfoldable pub skill_members : SkillObject → Members
skill_members o =
    member (text "value") (numeric (ℤ.pos o.value))
      (member (text "name") (string o.name) no_members)

unfoldable pub account_members : AccountObject → Members → Members
account_members o rest = member (text "is_game_master") (boolean o.is_game_master) (
    member (text "is_tester") (boolean o.is_tester) (
      member (text "has_done_trial") (boolean o.has_done_trial) (
        member (text "trial_ends_unix_timestamp") (numeric (ℤ.pos o.trial_ends_unix_timestamp)) (
          member (text "subscription_tier") (numeric (ℤ.pos o.subscription_tier))
            (member (text "username") (string o.username) rest)))))

abbrev pub objects_of : {A : Type 0} → (A → Members) → List A → Json
objects_of members xs = array (elements_of (map (λ a. object (members a)) xs))

unfoldable pub item_members : ItemObject → Members
item_members o = member (text "tier") (numeric (ℤ.pos o.tier)) (
    member (text "value") (numeric (ℤ.pos o.value)) (
      member (text "sprite") (numeric (ℤ.pos o.sprite)) (
        member (text "name") (string o.name) (
          member (text "description") (string o.description) (
            member (text "item_type") (string o.item_type)
              (member (text "stats") (objects_of stat_members o.stats) no_members))))))

unfoldable pub character_members : CharacterObject → Members
character_members o = member (text "name") (string o.name) (
    member (text "gender") (string o.gender) (
      member (text "allegiance") (string o.allegiance) (
        member (text "baseclass") (string o.baseclass) (
          member (text "map_name") (string o.map_name) (
            member (text "level") (numeric (ℤ.pos o.level)) (
              member (text "slot") (numeric (ℤ.pos o.slot)) (
                member (text "gold") (numeric (ℤ.pos o.gold)) (
                  member (text "x") (numeric (ℤ.pos o.x)) (
                    member (text "y") (numeric (ℤ.pos o.y)) (
                      member (text "stats") (objects_of stat_members o.stats) (
                        member (text "items") (objects_of item_members o.items) (
                          member (text "skills") (objects_of skill_members o.skills)
                            no_members))))))))))))

-- A loop that writes objects writes the elements of an array.
pub write_objects_lem :
    {A : Type 0} (write : A → List Event → List Event) (members : A → Members)
    (same : (a : A) (rest : List Event) → write a rest ≡ member_events (members a) rest)
    (xs : List A) (rest : List Event)
    → write_objects write xs rest
      ≡ element_events (elements_of (map (λ a. object (members a)) xs)) rest
unfolding write_objects
write_objects_lem write members same [] rest = refl
write_objects_lem write members same (a ∷ xs) rest = rw (
  same a (end_object ∷ write_objects write xs rest),
  write_objects_lem write members same xs rest,
)

pub write_stat_lem :
    (s : StatComponent) (rest : List Event)
    → write_stat s rest ≡ member_events (stat_members s) rest
unfolding write_stat stat_members
write_stat_lem s rest = refl

pub write_skill_lem :
    (o : SkillObject) (rest : List Event)
    → write_skill_object o rest ≡ member_events (skill_members o) rest
unfolding write_skill_object skill_members
write_skill_lem o rest = refl

pub write_item_lem :
    (o : ItemObject) (rest : List Event)
    → write_item_object o rest ≡ member_events (item_members o) rest
unfolding write_item_object item_members
write_item_lem o rest =
    rw (write_objects_lem write_stat stat_members write_stat_lem o.stats (end_array ∷ rest))

pub write_character_lem :
    (o : CharacterObject) (rest : List Event)
    → write_character_object o rest ≡ member_events (character_members o) rest
unfolding write_character_object character_members
write_character_lem o rest = rw (
  write_objects_lem write_skill_object skill_members write_skill_lem o.skills (end_array ∷ rest),
  write_objects_lem write_item_object item_members write_item_lem o.items _,
  write_objects_lem write_stat stat_members write_stat_lem o.stats _,
)

pub write_account_lem :
    (o : AccountObject) (rest : List Event)
    → write_account_object o rest ≡ member_events (account_members o no_members) rest
unfolding write_account_object account_members
write_account_lem o rest = refl
