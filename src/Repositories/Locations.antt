-- ===== src/Repositories/Locations.antt =====
-- src/repositories/locations_repository.cpp.
use core_cpp_archive.Prelude.{List, Option, Text, [], none, some, text, ℕ, ◌++◌, ◌+◌, ◌∷◌}
use core_cpp_archive.Repositories.Models.{DbLocation}
use core_cpp_archive.Repositories.Sql.{
  Query, Sql, column_number, column_text, decimal, give, max_u32, max_u64, quoted, ◌>>=◌,
}

module _ (x : Sql) where
  unfoldable pub insert_location : DbLocation → Query x.Db DbLocation
  insert_location loc = do
    result ← x.execute (
        text "INSERT INTO locations (map_name, x, y) VALUES ("
        ++ quoted x loc.map_name
        ++ text ", "
        ++ decimal loc.x
        ++ text ", "
        ++ decimal loc.y
        ++ text ") RETURNING id")
    elim result [
      | [] ↦ give loc
      | ◌∷◌ row rows ↦ do id ← column_number x max_u32 row 0; give (record loc { id = id })
    ]

  unfoldable pub update_location : DbLocation → Query x.Db Unit
  update_location loc = do
    _ ← x.execute (
        text "UPDATE locations SET map_name = "
        ++ quoted x loc.map_name
        ++ text ", x = "
        ++ decimal loc.x
        ++ text ", y = "
        ++ decimal loc.y
        ++ text " WHERE id = "
        ++ decimal loc.id)
    give tt

  -- The four columns of a location, of which the first stands at `i`.
  unfoldable pub location_of_row : ℕ → x.Row → Query x.Db DbLocation
  location_of_row i row = do
    id ← column_number x max_u64 row i
    map_name ← column_text x row (i + 1)
    x_coordinate ← column_number x max_u32 row (i + 2)
    y_coordinate ← column_number x max_u32 row (i + 3)
    give (record { id = id; map_name = map_name; x = x_coordinate; y = y_coordinate })

  unfoldable pub get_location : ℕ → Query x.Db (Option DbLocation)
  get_location id = do
    result ←
        x.execute
          (text "SELECT l.id, l.map_name, l.x, l.y FROM locations l WHERE id = " ++ decimal id)
    elim result [ [] ↦ give none | ◌∷◌ row rows ↦ do loc ← location_of_row 0 row; give (some loc) ]

  -- The loop of `get_by_map_name` reads the first row, `result[0]`, for every row of the result.
  unfoldable pub locations_of_rows : x.Row → List x.Row → Query x.Db (List DbLocation)
  locations_of_rows first [] = give []
  locations_of_rows first (_ ∷ rows) = do
    loc ← location_of_row 0 first
    locations ← locations_of_rows first rows
    give (loc ∷ locations)

  unfoldable pub get_by_map_name : Text → Query x.Db (List DbLocation)
  get_by_map_name map_name = do
    result ← x.execute (
        text "SELECT l.id, l.map_name, l.x, l.y FROM locations l WHERE map_name = "
        ++ quoted x map_name)
    elim result [ [] ↦ give [] | ◌∷◌ row rows ↦ locations_of_rows row (row ∷ rows) ]
