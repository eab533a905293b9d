-- ===== src/Lib.antt =====
-- A model of the Land of the Rair game server (src/), with the theorems that make its parts correct.
--
-- The server has two threads. The network thread takes messages from web sockets; the game loop of
-- src/main.cpp takes from a queue what the players do, moves the npcs and sends out what changed.
--
-- Prelude passes on the shared names: tests, lists, std::string as a list of bytes (Text), `int32_t`
-- and `int64_t` as integers, and `lotr_flat_map` as an association list (Dict).
-- World models the data of src/ecs/components.h.
-- Tiles models `tile_is_walkable` of src/game_logic/logic_helpers.h.
-- AStar models src/game_logic/a_star.cpp. Its loop takes fuel, two rounds more than the map has tiles;
-- that is enough since a location gets a cost only once.
-- GameQueue models src/game_queue_messages and src/game_queue_message_handlers and the loop of
-- src/main.cpp that empties the queue.
--
-- Rapidjson takes the JSON library as a parameter (its values, its getters with their assertions, and
-- the text that its writer makes), with its documented behaviour on documents; Rapidjson.Decoder is a
-- small instance for examples. Messages models src/messages: a module for each group of messages, the
-- objects inside them (Objects, Reading), and RoundTrip for what is written and read back.
--
-- Database models src/database/database_pool.cpp. The connections of pqxx are a parameter; the
-- transactions of all threads are a step relation on the pool (Database.Exclusive).
--
-- Censor models src/game_logic/censor_sensor.cpp: the tests of phrases and the tiers. Its loop over
-- the words takes fuel, one more than the phrase has bytes; each round takes a space away.
--
-- Repositories models src/repositories: the SQL texts that are run and what is made of their rows.
-- pqxx is a parameter (Sql); a run that throws is `none`.
--
-- Server models the network thread: src/uws_thread.cpp (Connections, and Network for the events
-- in a sequence) and src/message_handlers (Guards for the macros, Commands, Login, Characters,
-- NewCharacters). A handler is an action on the state that goes on, returns, throws, or is
-- undefined (State). Triples, Quiet, QuietAccounts and Guarded are the rules for such actions;
-- Effects says what a message may do, and HandlerEffects, AccountEffects, CharacterEffects,
-- Registrable, Registration and MessageEffects that it does no more. Steady, EffectRules and
-- Transactions follow the open transaction through the queries of a handler. Answers is about
-- messages that no handler gets. Sound, Invariant and Runs are about the connections over all
-- events. Delivery is the end of a tick of src/main.cpp, which hands the messages of the game
-- loop to the sockets. Services are the libraries that the handlers call: RapidJSON, pqxx,
-- libsodium, the conversions of <codecvt>. A transaction works on a view of the database, which
-- `commit` makes the database. The game loop talks to the network thread through the queue only;
-- each handler runs as a whole, as the one network thread runs it.
--
-- Spawning models src/game_logic/logic_helpers.cpp. Random numbers are a parameter; the search for a
-- free tile takes fuel, since it may go on for ever.
--
-- Ai models src/ai/default_ai.cpp: Paths for npcs with paths, Turn for the whole turn. Its loops take
-- fuel too, since a wanderer and a traced path may go on for ever.
--
-- Config models src/config_parsers.cpp on the contents of the file.
--
-- Not modelled: src/game_logic/fov.cpp, an edited copy of the shadowcasting of libtcod over
-- floating-point slopes; src/asset_loading, which reads the files of the game once at the start; the
-- start and the end of the threads, TLS, signals and logging, which keep no state of the game; the
-- libraries that the program calls.
--
-- A read behind the end of a vector is undefined in C++; the model returns `none` there. Logging is
-- left out everywhere.
pub mod Prelude
pub mod World
pub mod Tiles
pub mod Rapidjson
pub mod Messages
pub mod Database
pub mod Censor
pub mod Repositories
pub mod Server
pub mod Spawning
pub mod Ai
pub mod Config
pub mod Samples
pub mod AStar
pub mod GameQueue
