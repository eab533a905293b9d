-- ===== src/Server/Effects.antt =====
-- What one message of a client may do to the state of src/uws_thread.cpp: an abstract account of
-- all handlers of src/message_handlers, and the rules for the statements that change the core.
use core_cpp_archive.Censor.Sensor.{is_profane_ish}
use core_cpp_archive.GameQueue.Messages.{
  PlayerEnterMessage, QueueMessage, player_enter, player_move,
}
use core_cpp_archive.Messages.Account.{
  CreateCharacterRequest, DeleteCharacterRequest, LoginRequest, PlayCharacterRequest,
  deserialize_create_character_request, deserialize_delete_character_request,
  deserialize_login_request, deserialize_play_character_request,
}
use core_cpp_archive.Messages.Play.{
  MoveRequest, SetMotdRequest, deserialize_move_request, deserialize_set_motd_request,
}
use core_cpp_archive.Prelude.{
  Bool, List, Option, Text, [], any_of, assign, bytes_eq, false, if◌then◌else◌, int_eq, is_empty,
  leb_ℤ, length, loc_eq, ltb_ℤ, nat_eq, none, not, some, text, true, ℕ, ℤ, ◌++◌, ◌==◌, ◌∷◌, ◌≡◌,
  ◌≤◌,
}
use core_cpp_archive.Rapidjson.{got, is_some}
use core_cpp_archive.Repositories.BannedUsers.{is_username_or_ip_banned}
use core_cpp_archive.Repositories.CharacterReads.{get_character_by_slot}
use core_cpp_archive.Repositories.Characters.{delete_character_by_slot, insert_character}
use core_cpp_archive.Repositories.Locations.{insert_location}
use core_cpp_archive.Repositories.Models.{
  CharacterStat, DbCharacter, DbLocation, IncludedTables, User, empty_character_row,
}
use core_cpp_archive.Repositories.Stats.{get_by_character_id, insert_stat}
use core_cpp_archive.Repositories.Users.{get_user}
use core_cpp_archive.Server.Characters.{allegiance_exists, class_exists, is_played, plays_elsewhere}
use core_cpp_archive.Server.Login.{stats_of}
use core_cpp_archive.Server.NewCharacters.{is_digit, is_space}
use core_cpp_archive.Server.State.{PerSocketData, Services}
use core_cpp_archive.Server.Triples.{Core}
use core_cpp_archive.Tiles.{to_i32}
use core_cpp_archive.World.{StatComponent}

abbrev pub logged_in : User → PerSocketData → PerSocketData
logged_in usr u = record u {
  user_id = usr.id;
  username = usr.username;
  is_game_master = not (usr.is_game_master == 0);
}

abbrev pub playing : ℕ → PerSocketData → PerSocketData
playing slot u = record u { playing_character_slot = to_i32 slot }

abbrev pub IsLoggedIn : PerSocketData → Type 0
IsLoggedIn u = is_empty u.username ≡ false

abbrev pub IsPlaying : PerSocketData → Type 0
IsPlaying u = ltb_ℤ u.playing_character_slot (ℤ.pos 0) ≡ false

abbrev pub IsIdle : PerSocketData → Type 0
IsIdle u = leb_ℤ (ℤ.pos 0) u.playing_character_slot ≡ false

-- What is tested before a character is made.
pub record IsAcceptable (v : Services) (msg : CreateCharacterRequest) : Type 0 where
  pub clean : is_profane_ish v.sensor msg.name ≡ false
  pub chars : Text
  pub decoded : v.to_utf32 msg.name ≡ some chars
  pub at_least_2 : 2 ≤ length chars
  pub at_most_20 : length chars ≤ 20
  pub no_digit : any_of is_digit msg.name ≡ false
  pub no_space : any_of is_space msg.name ≡ false
  pub known_class : class_exists v msg.baseclass ≡ true

abbrev pub entering_message :
    PerSocketData → DbCharacter → DbLocation → List CharacterStat → PlayerEnterMessage
entering_message u character location db_stats = record {
  connection_id = u.connection_id;
  character_name = character.name;
  gender = character.gender;
  allegiance = character.allegiance;
  baseclass = character.class_name;
  map_name = location.map_name;
  player_stats = stats_of db_stats;
  level = character.level;
  gold = character.gold;
  x = location.x;
  y = location.y;
}

module _ (v : Services) where
  -- The character enters the game with its stored stats, at its stored location.
  pub record IsEntering (u : PerSocketData) (character : DbCharacter) (before : v.sql.Db)
      (msg : PlayerEnterMessage) : Type 0 where
    pub db_stats : List CharacterStat
    pub after : v.sql.Db
    pub location : DbLocation
    pub stored : get_by_character_id v.sql character.id before ≡ some (db_stats, after)
    pub allegiance : allegiance_exists v character.allegiance ≡ true
    pub class : class_exists v character.class_name ≡ true
    pub place : character.loc ≡ some location
    pub is : msg ≡ entering_message u character location db_stats

  abbrev pub store_stats : ℕ → List StatComponent → v.sql.Db → Option v.sql.Db
  store_stats character_id [] db = some db
  store_stats character_id (stat ∷ stats) db =
      elim (insert_stat v.sql
        (record { id = 0; character_id = character_id; name = stat.name; value = stat.value }) db) [
          | none ↦ none
          | some (_, db') ↦ store_stats character_id stats db'
        ]

  -- The queries that store a new character: the slot was empty, and the location, the character
  -- and the base stats have been written, in this order.
  pub record IsStored (u : PerSocketData) (msg : CreateCharacterRequest) (before after : v.sql.Db)
      : Type 0 where
    pub existing : Option DbCharacter
    pub location : DbLocation
    pub row : Bool × DbCharacter
    pub db_1 : v.sql.Db
    pub db_2 : v.sql.Db
    pub db_3 : v.sql.Db
    pub looked :
        get_character_by_slot v.sql msg.slot u.user_id IncludedTables.location_table before
        ≡ some (existing, db_1)
    pub empty : is_some existing ≡ false
    pub located :
        insert_location v.sql (record { id = 0; map_name = text "Tutorial"; x = 14; y = 14 }) db_1
        ≡ some (location, db_2)
    pub inserted :
        insert_character v.sql
          (record empty_character_row {
            user_id = u.user_id;
            location_id = location.id;
            slot = msg.slot;
            level = 1;
            name = msg.name;
            allegiance =
                if allegiance_exists v msg.allegiance then msg.allegiance else text "Undecided";
            gender = msg.gender;
            class_name = msg.baseclass;
            loc = some location;
          })
          db_2
        ≡ some (row, db_3)
    pub new : row.0 ≡ true
    pub stats : store_stats row.1.id v.select_response.base_stats db_3 ≡ some after

module _ {v : Services} where
  abbrev pub set_entry : ℕ → PerSocketData → Core v → Core v
  set_entry id u c = record c { connections = assign id u c.connections }

  abbrev pub set_queue : QueueMessage → Core v → Core v
  set_queue msg c = record c { queue = c.queue ++ msg ∷ [] }

  abbrev pub set_motto : Text → Core v → Core v
  set_motto new_motd c = record c { motto = new_motd }

  abbrev pub set_committed : v.sql.Db → Core v → Core v
  set_committed db c = record c { committed = db }

  -- The queries of a login: the user is not banned at this time, and is the one of that name.
  pub record IsKnown (c : Core v) (msg : LoginRequest) (usr : User) : Type 0 where
    pub after_ban : v.sql.Db
    pub after_user : v.sql.Db
    pub not_banned :
        is_username_or_ip_banned v.sql c.around.now_nanoseconds (some msg.username) none c.committed
        ≡ some (none, after_ban)
    pub found : get_user v.sql msg.username after_ban ≡ some (some usr, after_user)
    pub verified : v.pwhash_verify usr.password msg.password ≡ true

  -- A connection may take a slot: there is a character of its user, and no other connection of the
  -- user plays it.
  pub record IsFree (c : Core v) (u : PerSocketData) (slot : ℕ) (character : DbCharacter)
      (after : v.sql.Db) : Type 0 where
    pub logged : IsLoggedIn u
    pub idle : IsIdle u
    pub found :
        get_character_by_slot v.sql slot u.user_id IncludedTables.location_table c.committed
        ≡ some (some character, after)
    pub free : plays_elsewhere u slot c.connections ≡ false

  -- From the core `c` to the core `e`, by the message `d` of the connection `id`, whose entry
  -- is `u`.
  pub data Effect (d : v.json.Value) (id : ℕ) (u : PerSocketData) (c e : Core v) : Type 0 where
    nothing : e ≡ c → Effect d id u c e
    logs_in :
        (msg : LoginRequest) (usr : User)
        → deserialize_login_request v.json d ≡ got msg
        → is_empty u.username ≡ true
        → IsKnown c msg usr
        → e ≡ set_entry id (logged_in usr u) c
        → Effect d id u c e
    selects_slot :
        (msg : PlayCharacterRequest) (character : DbCharacter) (db : v.sql.Db)
        → deserialize_play_character_request v.json d ≡ got msg
        → IsFree c u msg.slot character db
        → e ≡ set_entry id (playing msg.slot u) c
        → Effect d id u c e
    enters :
        (msg : PlayCharacterRequest) (character : DbCharacter) (db : v.sql.Db)
        (entering : PlayerEnterMessage)
        → deserialize_play_character_request v.json d ≡ got msg
        → IsFree c u msg.slot character db
        → IsEntering v u character db entering
        → e ≡ set_queue (player_enter entering) (set_entry id (playing msg.slot u) c)
        → Effect d id u c e
    moves :
        (msg : MoveRequest)
        → deserialize_move_request v.json d ≡ got msg
        → IsPlaying u
        → e
          ≡ set_queue
              (player_move (record { connection_id = u.connection_id; x = msg.x; y = msg.y }))
              c
        → Effect d id u c e
    sets_motd :
        (msg : SetMotdRequest)
        → deserialize_set_motd_request v.json d ≡ got msg
        → u.is_game_master ≡ true
        → IsPlaying u
        → e ≡ set_motto msg.motd c
        → Effect d id u c e
    creates :
        (msg : CreateCharacterRequest) (db : v.sql.Db)
        → deserialize_create_character_request v.json d ≡ got msg
        → IsLoggedIn u
        → IsIdle u
        → IsAcceptable v msg
        → IsStored v u msg c.committed db
        → e ≡ set_committed db c
        → Effect d id u c e
    deletes :
        (msg : DeleteCharacterRequest) (db : v.sql.Db)
        → deserialize_delete_character_request v.json d ≡ got msg
        → IsLoggedIn u
        → IsIdle u
        → is_played u.user_id msg.slot c.connections ≡ false
        → delete_character_by_slot v.sql msg.slot u.user_id c.committed ≡ some (tt, db)
        → e ≡ set_committed db c
        → Effect d id u c e
