-- ===== src/Repositories/Tests.antt =====
-- Rows of a concrete result.
use core_cpp_archive.Prelude.{All, Text, [], refl, some, text, ℕ, ℤ, ◌∷◌, ◌≡◌}
use core_cpp_archive.Repositories.CharacterReads.{
  character_of_row, characters_of_rows, emplace_location,
}
use core_cpp_archive.Repositories.FirstRow.{characters_of_rows-loc}
use core_cpp_archive.Repositories.Locations.{location_of_row}
use core_cpp_archive.Repositories.Models.{DbCharacter, DbLocation}
use core_cpp_archive.Repositories.Sql.{Sql, column_number, column_text, number_or_0}

abbrev rows_sql : Sql
rows_sql = record {
  Db = Unit;
  Row = Text;
  execute = λ sql db. some ([], db);
  escape = λ s. s;
  column = λ row i. some (some row);
  named = λ row name. some (some row);
  unsigned_of = λ largest s. some (elim s [ [] ↦ 0 | ◌∷◌ c cs ↦ c ]);
  int64_of = λ s. some (ℤ.pos 1);
}

abbrev place_of_a : DbLocation
place_of_a = record { id = 97; map_name = text "a"; x = 97; y = 97 }

abbrev character_in : Text → ℕ → DbCharacter
character_in s n = record {
  id = n;
  user_id = n;
  location_id = n;
  slot = n;
  level = n;
  gold = n;
  name = s;
  allegiance = s;
  gender = s;
  alignment = s;
  class_name = s;
  loc = some place_of_a;
  stats = [];
  items = [];
}

characters_of_rows-loc_example :
    All
      (λ character. character.loc ≡ some place_of_a)
      (character_in (text "a") 97 ∷ character_in (text "b") 98 ∷ [])
unfolding text characters_of_rows emplace_location location_of_row character_of_row column_number
    column_text number_or_0
characters_of_rows-loc_example =
    characters_of_rows-loc rows_sql (text "a") place_of_a (text "a" ∷ text "b" ∷ []) tt tt _
      (λ db. refl) refl
