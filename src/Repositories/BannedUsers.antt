-- ===== src/Repositories/BannedUsers.antt =====
-- src/repositories/banned_users_repository.cpp.
use core_cpp_archive.Prelude.{
  Bool, List, Option, Text, [], false, if◌then◌else◌, is_empty, none, some, text, true, ℤ, ◌++◌,
  ◌∷◌,
}
use core_cpp_archive.Repositories.Models.{BannedUser, User, empty_user}
use core_cpp_archive.Repositories.Sql.{
  Query, Sql, column_number, decimal, decimal_ℤ, give, max_u64, named_number, named_text, quoted,
  throw_if_none, ◌>>=◌,
}

module _ (x : Sql) where
  -- The three values that `insert_if_not_exists` and `update` write.
  unfoldable pub ip_value : BannedUser → Text
  ip_value usr = if is_empty usr.ip then text "NULL" else quoted x usr.ip

  unfoldable pub user_id_value : Option User → Text
  user_id_value none = text "NULL"
  user_id_value (some usr) = decimal usr.id

  unfoldable pub until_value : Option ℤ → Text
  until_value none = text "NULL"
  until_value (some until) = decimal_ℤ until

  unfoldable pub insert_ban_if_not_exists : BannedUser → Query x.Db (Bool × BannedUser)
  insert_ban_if_not_exists usr = do
    result ← x.execute (
        text "INSERT INTO banned_users (ip, user_id, until) VALUES ("
        ++ ip_value usr
        ++ text ", "
        ++ user_id_value usr.user
        ++ text ", "
        ++ until_value usr.until
        ++ text ") RETURNING id")
    elim result [
      | [] ↦ give (false, usr)
      | ◌∷◌ row rows ↦ do id ← column_number x max_u64 row 0; give (true, record usr { id = id })
    ]

  unfoldable pub update_ban : BannedUser → Query x.Db Unit
  update_ban usr = do
    _ ← x.execute (
        text "UPDATE banned_users SET ip = "
        ++ ip_value usr
        ++ text ", user_id = "
        ++ user_id_value usr.user
        ++ text ", until = "
        ++ until_value usr.until)
    give tt

  -- `if(!field.is_null())` and then the value of the field.
  unfoldable pub ban_user_of : Option Text → Query x.Db (Option User)
  ban_user_of none = give none
  ban_user_of (some s) = do
    id ← throw_if_none (x.unsigned_of max_u64 s)
    give (some (record empty_user { id = id }))

  unfoldable pub until_of : Option Text → Query x.Db (Option ℤ)
  until_of none = give none
  until_of (some s) = do until ← throw_if_none (x.int64_of s); give (some until)

  unfoldable pub ban_of_row : x.Row → Query x.Db BannedUser
  ban_of_row row = do
    ip ← named_text x row (text "ip")
    user_field ← throw_if_none (x.named row (text "user_id"))
    usr ← ban_user_of user_field
    until_field ← throw_if_none (x.named row (text "until"))
    until ← until_of until_field
    id ← named_number x max_u64 row (text "id")
    give (record { id = id; ip = ip; user = usr; until = until })

  unfoldable pub get_ban : ℤ → Query x.Db (Option BannedUser)
  get_ban id = do
    result ←
        x.execute
          (text "SELECT id, ip, user_id, until FROM banned_users WHERE id = " ++ decimal_ℤ id)
    elim result [ [] ↦ give none | ◌∷◌ row rows ↦ do ban ← ban_of_row row; give (some ban) ]

  -- The rows of the three queries of `is_username_or_ip_banned`, read the same way in each.
  unfoldable pub active_ban : List x.Row → Query x.Db (Option BannedUser)
  active_ban [] = give none
  active_ban (row ∷ rows) = do
    ip ← named_text x row (text "ip")
    until_field ← throw_if_none (x.named row (text "until"))
    until ← until_of until_field
    id ← named_number x max_u64 row (text "id")
    give (some (record { id = id; ip = ip; user = some empty_user; until = until }))

  unfoldable pub is_username_or_ip_banned :
      ℤ → Option Text → Option Text → Query x.Db (Option BannedUser)
  is_username_or_ip_banned now none none = give none
  is_username_or_ip_banned now (some username) (some ip) = do
    result ← x.execute (
        text
          "SELECT bu.id as id, bu.ip, until FROM banned_users bu LEFT JOIN users u ON bu.user_id = u.id AND u.username = "
        ++ quoted x username
        ++ text " WHERE bu.until >= "
        ++ decimal_ℤ now
        ++ text " AND (u.id IS NOT NULL OR bu.ip = "
        ++ quoted x ip
        ++ text ")")
    active_ban result
  is_username_or_ip_banned now (some username) none = do
    result ← x.execute (
        text
          "SELECT bu.id as id, bu.ip, until FROM banned_users bu LEFT JOIN users u ON bu.user_id = u.id AND u.username = "
        ++ quoted x username
        ++ text " WHERE bu.until >= "
        ++ decimal_ℤ now
        ++ text " AND u.id IS NOT NULL")
    active_ban result
  is_username_or_ip_banned now none (some ip) = do
    result ← x.execute (
        text "SELECT bu.id as id, bu.ip, until FROM banned_users bu WHERE bu.until >= "
        ++ decimal_ℤ now
        ++ text " AND bu.ip = "
        ++ quoted x ip)
    active_ban result
