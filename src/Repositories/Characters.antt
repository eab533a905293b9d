-- ===== src/Repositories/Characters.antt =====
-- src/repositories/characters_repository.cpp: what writes characters.
use core_cpp_archive.Prelude.{
  Bool, List, Text, [], bytes_eq, false, int_eq, loc_eq, nat_eq, text, ℕ, ◌++◌, ◌==◌, ◌∷◌,
}
use core_cpp_archive.Repositories.Models.{DbCharacter}
use core_cpp_archive.Repositories.Sql.{
  Query, Sql, column_number, decimal, give, max_u64, quoted, ◌>>=◌,
}

-- A text between quotes as it is.
abbrev pub bare : Text → Text
bare s = 39 ∷ s ++ 39 ∷ []

module _ (x : Sql) where
  unfoldable pub insert_text : DbCharacter → Text
  insert_text character =
      text
        "INSERT INTO characters (user_id, location_id, slot, level, gold, character_name, allegiance, gender, alignment, class) VALUES ("
      ++ decimal character.user_id
      ++ text ", "
      ++ decimal character.location_id
      ++ text ", "
      ++ decimal character.slot
      ++ text ", "
      ++ decimal character.level
      ++ text ", "
      ++ decimal character.gold
      ++ text ", "
      ++ quoted x character.name
      ++ text ", "
      ++ quoted x character.allegiance
      ++ text ", "
      ++ quoted x character.gender
      ++ text ", "
      ++ quoted x character.alignment
      ++ text ", "
      ++ quoted x character.class_name
      ++ text ") "

  -- What both inserts do with the row that they get back: the id, and whether the row is new.
  unfoldable pub inserted : DbCharacter → List x.Row → Query x.Db (Bool × DbCharacter)
  inserted character [] = give (false, character)
  inserted character (row ∷ rows) = do
    id ← column_number x max_u64 row 1
    xmax ← column_number x max_u64 row 0
    give (xmax == 0, record character { id = id })

  unfoldable pub insert_character : DbCharacter → Query x.Db (Bool × DbCharacter)
  insert_character character = do
    result ←
        x.execute (
          insert_text character ++ text "ON CONFLICT (user_id, slot) DO NOTHING RETURNING xmax, id")
    inserted character result

  -- The assignments of an update, the texts written by `show`.
  unfoldable pub assignments : (Text → Text) → DbCharacter → Text
  assignments show character =
      text "SET user_id = "
      ++ decimal character.user_id
      ++ text ", location_id = "
      ++ decimal character.location_id
      ++ text ", level = "
      ++ decimal character.level
      ++ text ", gold = "
      ++ decimal character.gold
      ++ text ", allegiance = "
      ++ show character.allegiance
      ++ text ", gender = "
      ++ show character.gender
      ++ text ", alignment = "
      ++ show character.alignment
      ++ text ", class = "
      ++ show character.class_name

  unfoldable pub insert_or_update_character : DbCharacter → Query x.Db (Bool × DbCharacter)
  insert_or_update_character character = do
    result ← x.execute (
        insert_text character
        ++ text "ON CONFLICT (user_id, slot) DO UPDATE "
        ++ assignments (quoted x) character
        ++ text " RETURNING xmax, id")
    inserted character result

  -- The texts are not escaped here.
  unfoldable pub update_character : DbCharacter → Query x.Db Unit
  update_character character = do
    _ ← x.execute (
        text "UPDATE characters "
        ++ assignments bare character
        ++ text " WHERE id = "
        ++ decimal character.id)
    give tt

  unfoldable pub delete_character_by_slot : ℕ → ℕ → Query x.Db Unit
  delete_character_by_slot slot user_id = do
    _ ← x.execute (
        text "DELETE FROM characters WHERE slot = "
        ++ decimal slot
        ++ text " AND user_id = "
        ++ decimal user_id)
    give tt
