-- ===== src/GameQueue.antt =====
-- src/game_queue_messages and src/game_queue_message_handlers: the queue between the network thread
-- and the game loop, its messages and its handlers.
pub mod Messages
pub mod Handlers
pub mod Results
pub mod Unique
pub mod Inside
pub mod Run
pub mod Moving
mod Tests
