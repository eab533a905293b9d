-- ===== src/Rapidjson.antt =====
-- RapidJSON, the library that the messages are written and read with. Its source is not part of this
-- repository: `Api` takes it as a parameter, with its documented behaviour on the documents of `Tree`.
unfoldable pub use Tree.*
unfoldable pub use Api.*
pub use Laws.*
mod Tree
mod Api
mod Laws
pub mod Decoder
