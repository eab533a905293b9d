-- ===== src/Server.antt =====
-- src/uws_thread.cpp and src/message_handlers: the thread that talks to the clients.
pub mod State
pub mod Guards
pub mod Commands
pub mod Login
pub mod Characters
pub mod NewCharacters
pub mod Connections
pub mod Triples
pub mod Quiet
pub mod Guarded
pub mod QuietAccounts
pub mod Effects
pub mod EffectRules
pub mod Steady
pub mod Transactions
pub mod HandlerEffects
pub mod AccountEffects
pub mod Registrable
pub mod Registration
pub mod CharacterEffects
pub mod MessageEffects
pub mod Sound
pub mod Invariant
pub mod Close
pub mod Network
pub mod Runs
pub mod Samples
pub mod Answers
pub mod Delivery
pub mod Delivered
mod Tests
