-- ===== src/Server/Login.antt =====
-- src/message_handlers/user_access/login_handler.cpp and register_handler.cpp.
use core_cpp_archive.Censor.Sensor.{is_profane_ish}
use core_cpp_archive.Messages.Account.{
  RegisterRequest, deserialize_login_request, deserialize_register_request,
}
use core_cpp_archive.Messages.Objects.{AccountObject, CharacterObject}
use core_cpp_archive.Messages.Presence.{serialize_login_response, serialize_user_joined_response}
use core_cpp_archive.Prelude.{
  List, Option, Text, [], bytes_eq, false, if◌then◌else◌, int_eq, is_empty, length, loc_eq, ltb,
  nat_eq, none, not, some, text, ℕ, ◌++◌, ◌==◌, ◌||◌, ◌∷◌,
}
use core_cpp_archive.Rapidjson.{is_some}
use core_cpp_archive.Repositories.BannedUsers.{is_username_or_ip_banned}
use core_cpp_archive.Repositories.CharacterReads.{get_by_user_id}
use core_cpp_archive.Repositories.Models.{
  BannedUser, CharacterStat, DbCharacter, IncludedTables, User, empty_user,
}
use core_cpp_archive.Repositories.Stats.{get_by_character_id}
use core_cpp_archive.Repositories.Users.{get_user, insert_user_if_not_exists}
use core_cpp_archive.Server.Guards.{deserialize_with_not_login_check}
use core_cpp_archive.Server.State.{
  Action, Frame, PerSocketData, Services, UserConnections, begin_transaction, close_frame, commit,
  delivered, deref, done, gets, json_frame, or_throw, pure, query, refuse, refuse_if, return, send,
  set_user_data, text_frame, user_data, ◌>>=◌,
}
use core_cpp_archive.World.{StatComponent}

unfoldable pub stats_of : List CharacterStat → List StatComponent
stats_of [] = []
stats_of (stat ∷ stats) = record { name = stat.name; value = stat.value } ∷ stats_of stats

unfoldable pub account_of : PerSocketData → AccountObject
account_of other = record {
  is_game_master = other.is_game_master;
  is_tester = other.is_tester;
  has_done_trial = false;
  trial_ends_unix_timestamp = 0;
  subscription_tier = other.subscription_tier;
  username = other.username;
}

module _ {v : Services} where
  -- The loop over the characters of a user.
  unfoldable pub message_players_of : List DbCharacter → Action v (List CharacterObject)
  message_players_of [] = pure []
  message_players_of (player ∷ players) = do
    db_stats ← query (get_by_character_id v.sql player.id)
    location ← deref player.loc
    message_players ← message_players_of players
    pure (
        record {
          name = player.name;
          gender = player.gender;
          allegiance = player.allegiance;
          baseclass = player.class_name;
          map_name = location.map_name;
          level = player.level;
          slot = player.slot;
          gold = player.gold;
          x = location.x;
          y = location.y;
          stats = stats_of db_stats;
          items = [];
          skills = [];
        }
        ∷ message_players)

  -- The loop that tells the connections of other users who has joined, and collects those users.
  unfoldable pub announce :
      ℕ → Frame v → UserConnections → List AccountObject → Action v (List AccountObject)
  announce user_id frame [] online_users s = done online_users s
  announce user_id frame ((_, other) ∷ rest) online_users s =
      if s.outside.expired other.ws || other.user_id == user_id || not (s.outside.writable other.ws)
      then announce user_id frame rest online_users s
      else announce user_id frame rest
          (if is_empty other.username then online_users else online_users ++ account_of other ∷ [])
          (delivered other.ws frame s)

  -- What both handlers send at the end.
  unfoldable pub welcome : ℕ → User → List CharacterObject → Action v Unit
  welcome id usr message_players = do
    u ← user_data id
    others ← gets (λ s. s.user_connections)
    online_users ←
        announce u.user_id
          (json_frame (
            serialize_user_joined_response v.json (record {
              user = record {
                is_game_master = not (usr.is_game_master == 0);
                is_tester = false;
                has_done_trial = false;
                trial_ends_unix_timestamp = 0;
                subscription_tier = 0;
                username = usr.username;
              };
            })))
          others []
    motd ← gets (λ s. s.motd)
    send u.ws (
        json_frame (
          serialize_login_response v.json (record {
            players = message_players;
            online_users = online_users;
            username = usr.username;
            email = usr.email;
            motd = motd;
          })))

  -- Closes the connection of a banned user.
  unfoldable pub leave_if_banned : ℕ → Option BannedUser → Action v Unit
  leave_if_banned hdl none = pure tt
  leave_if_banned hdl (some banned_usr) = do
    _ ← send hdl (close_frame (text "You are banned"))
    return

  unfoldable pub close_if_banned : ℕ → Text → Action v Unit
  close_if_banned hdl username = do
    now ← gets (λ s. s.outside.now_nanoseconds)
    banned_usr ← query (is_username_or_ip_banned v.sql now (some username) none)
    leave_if_banned hdl banned_usr

  unfoldable pub hash_or_leave : ℕ → Option Text → Action v Text
  hash_or_leave hdl none = do _ ← send hdl (text_frame (text "server error")); return
  hash_or_leave hdl (some hashed_password) = pure hashed_password

  unfoldable pub user_or_refuse : ℕ → Option User → Action v User
  user_or_refuse hdl none = refuse hdl (text "User already exists")
  user_or_refuse hdl (some usr) = pure usr

module _ (v : Services) where
  unfoldable pub handle_login : v.json.Value → ℕ → Action v Unit
  handle_login d id = do
    msg ← deserialize_with_not_login_check id (deserialize_login_request v.json d)
    u ← user_data id
    _ ← begin_transaction
    _ ← close_if_banned u.ws msg.username
    found ← query (get_user v.sql msg.username)
    usr ← user_or_refuse u.ws found
    _ ← refuse_if (not (v.pwhash_verify usr.password msg.password)) u.ws (text "Password incorrect")
    _ ← set_user_data id (record u {
      user_id = usr.id;
      username = usr.username;
      is_game_master = not (usr.is_game_master == 0);
    })
    players ← query (get_by_user_id v.sql usr.id IncludedTables.location_table)
    message_players ← message_players_of players
    welcome id usr message_players

  -- The tests on the name and the password of a new account.
  unfoldable pub check_new_account : ℕ → RegisterRequest → Action v Unit
  check_new_account hdl msg = do
    _ ←
        refuse_if (is_profane_ish v.sensor msg.username) hdl
          (text "Usernames cannot contain profanities")
    name ← or_throw (v.to_utf32 msg.username)
    _ ←
        refuse_if (ltb (length name) 2 || ltb 20 (length name)) hdl
          (text "Usernames needs to be at least 2 characters and at most 20 characters")
    password ← or_throw (v.to_utf32 msg.password)
    _ ← refuse_if (ltb (length password) 8) hdl (text "Password needs to be at least 8 characters")
    _ ← refuse_if (msg.password == msg.username) hdl (text "Password cannot equal username")
    refuse_if (msg.password == msg.email) hdl (text "Password cannot equal email")

  -- `usr` is the user that was found before the insert, and so is empty at `usr->id`.
  unfoldable pub handle_register : v.json.Value → ℕ → Action v Unit
  handle_register d id = do
    msg ← deserialize_with_not_login_check id (deserialize_register_request v.json d)
    u ← user_data id
    _ ← check_new_account u.ws msg
    _ ← begin_transaction
    _ ← close_if_banned u.ws msg.username
    usr ← query (get_user v.sql msg.username)
    _ ← refuse_if (is_some usr) u.ws (text "User already exists")
    hashed_password ← hash_or_leave u.ws (v.pwhash msg.password)
    row ← query (
        insert_user_if_not_exists v.sql (record empty_user {
          username = msg.username;
          password = hashed_password;
          email = msg.email;
        }))
    _ ← refuse_if (not row.0) u.ws (text "Server error")
    _ ← commit
    _ ← set_user_data id (record u { user_id = row.1.id; username = row.1.username })
    found ← deref usr
    players ← query (get_by_user_id v.sql found.id IncludedTables.all_tables)
    message_players ← message_players_of players
    welcome id row.1 message_players
