-- ===== src/Repositories/CharacterReads.antt =====
-- src/repositories/characters_repository.cpp: what reads characters.
use core_cpp_archive.Prelude.{List, Option, Text, [], none, some, text, ℕ, ◌++◌, ◌∷◌}
use core_cpp_archive.Repositories.Locations.{location_of_row}
use core_cpp_archive.Repositories.Models.{DbCharacter, IncludedTables}
use core_cpp_archive.Repositories.Sql.{
  Query, Sql, column_number, column_text, decimal, give, max_u32, max_u64, quoted, ◌>>=◌,
}

-- The columns that the queries select.
abbrev pub character_columns : Text
character_columns =
    text
      "SELECT p.id, p.user_id, p.location_id, p.slot, p.level, p.gold, p.character_name, p.allegiance, p.gender, p.alignment, p.class"

abbrev pub with_location : Text
with_location =
    text
      ", l.id, l.map_name, l.x, l.y FROM characters p INNER JOIN locations l ON l.id = p.location_id WHERE "

abbrev pub without_location : Text
without_location = text " FROM characters p WHERE "

module _ (x : Sql) where
  -- The columns of a row, without its location.
  unfoldable pub character_of_row : x.Row → Query x.Db DbCharacter
  character_of_row row = do
    id ← column_number x max_u64 row 0
    user_id ← column_number x max_u64 row 1
    location_id ← column_number x max_u64 row 2
    slot ← column_number x max_u32 row 3
    level ← column_number x max_u32 row 4
    gold ← column_number x max_u32 row 5
    name ← column_text x row 6
    allegiance ← column_text x row 7
    gender ← column_text x row 8
    alignment ← column_text x row 9
    class_name ← column_text x row 10
    give (record {
      id = id;
      user_id = user_id;
      location_id = location_id;
      slot = slot;
      level = level;
      gold = gold;
      name = name;
      allegiance = allegiance;
      gender = gender;
      alignment = alignment;
      class_name = class_name;
      loc = none;
      stats = [];
      items = [];
    })

  -- `ret->loc.emplace(...)` if the location is included, from the row `row`.
  unfoldable pub emplace_location : IncludedTables → x.Row → DbCharacter → Query x.Db DbCharacter
  emplace_location IncludedTables.location_table row character = do
    loc ← location_of_row x 11 row
    give (record character { loc = some loc })
  emplace_location _ row character = give character

  -- The query of a getter; `none` if the tables are not implemented, after which it returns.
  unfoldable pub select_from : IncludedTables → Text → Text → Option Text
  select_from IncludedTables.no_table plain joined =
      some (character_columns ++ without_location ++ plain)
  select_from IncludedTables.location_table plain joined =
      some (character_columns ++ with_location ++ joined)
  select_from _ plain joined = none

  unfoldable pub first_character : IncludedTables → List x.Row → Query x.Db (Option DbCharacter)
  first_character includes [] = give none
  first_character includes (row ∷ rows) = do
    character ← character_of_row row
    character' ← emplace_location includes row character
    give (some character')

  unfoldable pub get_character : Text → ℕ → IncludedTables → Query x.Db (Option DbCharacter)
  get_character name user_id includes =
      elim (select_from includes
        (text "character_name = " ++ quoted x name ++ text " and p.user_id = " ++ decimal user_id)
        (text "p.character_name = "
          ++ quoted x name
          ++ text " and p.user_id = "
          ++ decimal user_id)) [
            | none ↦ give none
            | some sql ↦ do result ← x.execute sql; first_character includes result
          ]

  unfoldable pub get_character_by_id : ℕ → ℕ → IncludedTables → Query x.Db (Option DbCharacter)
  get_character_by_id id user_id includes = do
    result ← x.execute (
        character_columns
        ++ without_location
        ++ text "id = "
        ++ decimal id
        ++ text " and user_id = "
        ++ decimal user_id)
    first_character IncludedTables.no_table result

  abbrev by_slot : ℕ → ℕ → Text
  by_slot slot user_id = text "slot = " ++ decimal slot ++ text " and user_id = " ++ decimal user_id

  unfoldable pub get_character_by_slot : ℕ → ℕ → IncludedTables → Query x.Db (Option DbCharacter)
  get_character_by_slot slot user_id includes =
      elim (select_from includes (by_slot slot user_id) (by_slot slot user_id)) [
        | none ↦ give none
        | some sql ↦ do result ← x.execute sql; first_character includes result
      ]

  -- The loop of `get_by_user_id`: the character from each row, the location from `result[0]`.
  unfoldable pub characters_of_rows :
      IncludedTables → x.Row → List x.Row → Query x.Db (List DbCharacter)
  characters_of_rows includes first [] = give []
  characters_of_rows includes first (row ∷ rows) = do
    character ← character_of_row row
    character' ← emplace_location includes first character
    characters ← characters_of_rows includes first rows
    give (character' ∷ characters)

  unfoldable pub get_by_user_id : ℕ → IncludedTables → Query x.Db (List DbCharacter)
  get_by_user_id user_id includes =
      elim (select_from includes (text "user_id = " ++ decimal user_id)
        (text "p.user_id = " ++ decimal user_id)) [
          | none ↦ give []
          | some sql ↦ do
            result ← x.execute sql
            elim result [
              | [] ↦ give []
              | ◌∷◌ row rows ↦ characters_of_rows includes row (row ∷ rows)
            ]
        ]
