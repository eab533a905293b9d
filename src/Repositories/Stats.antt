-- ===== src/Repositories/Stats.antt =====
-- src/repositories/stats_repository.cpp.
use core_cpp_archive.Prelude.{List, Option, [], none, some, text, ℕ, ◌++◌, ◌∷◌}
use core_cpp_archive.Repositories.Models.{CharacterStat}
use core_cpp_archive.Repositories.Sql.{
  Query, Sql, column_int64, column_number, column_text, decimal, decimal_ℤ, give, max_u32, max_u64,
  quoted, ◌>>=◌,
}

module _ (x : Sql) where
  unfoldable pub insert_stat : CharacterStat → Query x.Db CharacterStat
  insert_stat stat = do
    result ← x.execute (
        text "INSERT INTO character_stats (character_id, stat_name, value) VALUES ("
        ++ decimal stat.character_id
        ++ text ", "
        ++ quoted x stat.name
        ++ text ", "
        ++ decimal_ℤ stat.value
        ++ text ") RETURNING id")
    elim result [
      | [] ↦ give stat
      | ◌∷◌ row rows ↦ do id ← column_number x max_u32 row 0; give (record stat { id = id })
    ]

  unfoldable pub update_stat : CharacterStat → Query x.Db Unit
  update_stat stat = do
    _ ← x.execute (
        text "UPDATE character_stats SET value = "
        ++ decimal_ℤ stat.value
        ++ text " WHERE id = "
        ++ decimal stat.id)
    give tt

  unfoldable pub stat_of_row : x.Row → Query x.Db CharacterStat
  stat_of_row row = do
    id ← column_number x max_u64 row 0
    character_id ← column_number x max_u64 row 1
    name ← column_text x row 2
    value ← column_int64 x row 3
    give (record { id = id; character_id = character_id; name = name; value = value })

  unfoldable pub get_stat : ℕ → Query x.Db (Option CharacterStat)
  get_stat id = do
    result ← x.execute (
        text
          "SELECT s.id, s.character_id, s.stat_name, s.value FROM character_stats s WHERE s.id = "
        ++ decimal id)
    elim result [ [] ↦ give none | ◌∷◌ row rows ↦ do stat ← stat_of_row row; give (some stat) ]

  unfoldable pub stats_of_rows : List x.Row → Query x.Db (List CharacterStat)
  stats_of_rows [] = give []
  stats_of_rows (row ∷ rows) = do
    stat ← stat_of_row row
    stats ← stats_of_rows rows
    give (stat ∷ stats)

  unfoldable pub get_by_character_id : ℕ → Query x.Db (List CharacterStat)
  get_by_character_id character_id = do
    result ← x.execute (
        text
          "SELECT s.id, s.character_id, s.stat_name, s.value FROM character_stats s WHERE s.character_id = "
        ++ decimal character_id)
    stats_of_rows result
