-- ===== src/World.antt =====
-- src/ecs/components.h, src/ecs/components.cpp and src/game_logic/location.h: the data that the
-- game loop keeps. An enum is a data type, a struct a record, a vector a list. A `double` is its bit
-- pattern. A script that an npc points to is copied, since no code writes to a script after loading.
mod Stats
pub mod Npc
pub mod Map
unfoldable pub use Stats.*
unfoldable pub use Npc.*
unfoldable pub use Map.*
