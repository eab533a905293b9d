-- ===== src/Repositories/FirstRow.antt =====
-- The loop of `get_by_user_id` in src/repositories/characters_repository.cpp, which reads the
-- location of every character from the first row of the result.
use core_cpp_archive.Prelude.{All, List, Option, [], ap, arith, none, refl, some, subst, ◌∷◌, ◌≡◌}
use core_cpp_archive.Repositories.CharacterReads.{
  character_of_row, characters_of_rows, emplace_location,
}
use core_cpp_archive.Repositories.Locations.{location_of_row}
use core_cpp_archive.Repositories.Models.{DbCharacter, DbLocation, IncludedTables}
use core_cpp_archive.Repositories.Sql.{Query, Sql, give, ◌>>=◌}
use mathlib.Core.Option.{some-injective}

module _ (x : Sql) (first : x.Row) (loc : DbLocation) where
  abbrev HasLoc : DbCharacter → Type 0
  HasLoc character = character.loc ≡ some loc

  abbrev put_before :
      DbCharacter → Option (List DbCharacter × x.Db) → Option (List DbCharacter × x.Db)
  put_before character none = none
  put_before character (some (characters, db)) = some (character ∷ characters, db)

  -- The characters of the other rows behind one with the location.
  behind :
      (character : DbCharacter) (o : Option (List DbCharacter × x.Db)) (cs : List DbCharacter)
      (db : x.Db)
      → HasLoc character
      → ((cs : List DbCharacter) (db : x.Db) → o ≡ some (cs, db) → All HasLoc cs)
      → put_before character o ≡ some (cs, db)
      → All HasLoc cs
  behind character none cs db has later e = ground (arith, e)
  behind character (some (characters, db')) cs db has later e =
      let same : character ∷ characters ≡ cs = ap (λ p. p.0) (some-injective _ _ e) in
      subst (All HasLoc) same (has, later characters db' refl)

  -- If the first row that get_by_user_id reads has a location, each character that it makes of
  -- the rows has this location.
  pub characters_of_rows-loc :
      (rows : List x.Row) (db db' : x.Db) (cs : List DbCharacter)
      → ((db : x.Db) → location_of_row x 11 first db ≡ some (loc, db))
      → characters_of_rows x IncludedTables.location_table first rows db ≡ some (cs, db')
      → All (λ character. character.loc ≡ some loc) cs
  unfolding characters_of_rows emplace_location
  characters_of_rows-loc [] db db' cs at_first e =
      let same : [] ≡ cs = ap (λ p. p.0) (some-injective _ _ e) in subst (All HasLoc) same tt
  characters_of_rows-loc (row ∷ rows) db db' cs at_first e =
      read (character_of_row x row db)
        (λ db cs db' f. characters_of_rows-loc rows db db' cs at_first f) e
    where
      located : DbCharacter → Query x.Db (List DbCharacter)
      located character = do
        character' ← (do
          spot ← location_of_row x 11 first
          give (record character { loc = some spot }))
        characters ← characters_of_rows x IncludedTables.location_table first rows
        give (character' ∷ characters)

      and_located : Option (DbCharacter × x.Db) → Option (List DbCharacter × x.Db)
      and_located none = none
      and_located (some (character, db)) = located character db

      read :
          (o : Option (DbCharacter × x.Db))
          → ((db : x.Db) (cs : List DbCharacter) (db' : x.Db)
              → characters_of_rows x IncludedTables.location_table first rows db ≡ some (cs, db')
              → All HasLoc cs)
          → and_located o ≡ some (cs, db')
          → All HasLoc cs
      read none later e = ground (arith, e)
      read (some (character, db)) later e =
          behind (record character { loc = some loc }) _ cs db' refl (later db)
            (rw (at_first db, ◌>>=◌) at e)
