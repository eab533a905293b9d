-- ===== src/Repositories/Users.antt =====
-- src/repositories/users_repository.cpp.
use core_cpp_archive.Prelude.{
  Bool, List, Option, Text, [], false, none, some, text, true, ℤ, ◌++◌, ◌∷◌,
}
use core_cpp_archive.Repositories.Models.{User}
use core_cpp_archive.Repositories.Sql.{
  Query, Sql, column_number, decimal, decimal_ℤ, give, max_u16, max_u64, named_number, named_text,
  quoted, ◌>>=◌,
}

module _ (x : Sql) where
  unfoldable pub insert_user_if_not_exists : User → Query x.Db (Bool × User)
  insert_user_if_not_exists usr = do
    result ← x.execute (
        text
          "INSERT INTO users (username, password, email, login_attempts, verification_code, is_game_master, max_characters) VALUES ("
        ++ quoted x usr.username
        ++ text ", "
        ++ quoted x usr.password
        ++ text ", "
        ++ quoted x usr.email
        ++ text ", "
        ++ decimal usr.login_attempts
        ++ text ", "
        ++ quoted x usr.verification_code
        ++ text ", "
        ++ decimal usr.is_game_master
        ++ text ", "
        ++ decimal usr.max_characters
        ++ text ") ON CONFLICT DO NOTHING RETURNING id")
    elim result [
      | [] ↦ give (false, usr)
      | ◌∷◌ row rows ↦ do id ← column_number x max_u64 row 0; give (true, record usr { id = id })
    ]

  unfoldable pub update_user : User → Query x.Db Unit
  update_user usr = do
    _ ← x.execute (
        text "UPDATE users SET username = "
        ++ quoted x usr.username
        ++ text ", password = "
        ++ quoted x usr.password
        ++ text ", email = "
        ++ quoted x usr.email
        ++ text ", login_attempts = "
        ++ decimal usr.login_attempts
        ++ text ", verification_code = "
        ++ quoted x usr.verification_code
        ++ text ", is_game_master = "
        ++ decimal usr.is_game_master
        ++ text ", max_characters = "
        ++ decimal usr.max_characters
        ++ text " WHERE id = "
        ++ decimal usr.id)
    give tt

  unfoldable pub user_of_row : x.Row → Query x.Db User
  user_of_row row = do
    id ← named_number x max_u64 row (text "id")
    username ← named_text x row (text "username")
    password ← named_text x row (text "password")
    email ← named_text x row (text "email")
    login_attempts ← named_number x max_u16 row (text "login_attempts")
    verification_code ← named_text x row (text "verification_code")
    max_characters ← named_number x max_u16 row (text "max_characters")
    is_game_master ← named_number x max_u16 row (text "is_game_master")
    give (record {
      id = id;
      username = username;
      password = password;
      email = email;
      login_attempts = login_attempts;
      verification_code = verification_code;
      max_characters = max_characters;
      is_game_master = is_game_master;
    })

  unfoldable pub first_user : List x.Row → Query x.Db (Option User)
  first_user [] = give none
  first_user (row ∷ rows) = do usr ← user_of_row row; give (some usr)

  unfoldable pub get_user_by_id : ℤ → Query x.Db (Option User)
  get_user_by_id id = do
    result ← x.execute (text "SELECT * FROM users WHERE id = " ++ decimal_ℤ id)
    first_user result

  unfoldable pub get_user : Text → Query x.Db (Option User)
  get_user username = do
    result ← x.execute (text "SELECT * FROM users WHERE username = " ++ quoted x username)
    first_user result
