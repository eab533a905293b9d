-- ===== src/GameQueue/Messages.antt =====
-- src/game_queue_messages/messages.h and .cpp and src/messages/message.h: what the threads send to
-- one another.
use core_cpp_archive.Messages.Replies.{GenericErrorResponse}
use core_cpp_archive.Prelude.{List, Text, [], true, ℕ, ◌++◌, ◌∷◌}
use core_cpp_archive.World.{CharacterComponent, Registry, StatComponent}

pub record PlayerEnterMessage : Type 0 where
  pub connection_id : ℕ
  pub character_name : Text
  pub gender : Text
  pub allegiance : Text
  pub baseclass : Text
  pub map_name : Text
  pub player_stats : List StatComponent
  pub level : ℕ
  pub gold : ℕ
  pub x : ℕ
  pub y : ℕ

pub record PlayerMoveMessage : Type 0 where
  pub connection_id : ℕ
  pub x : ℕ
  pub y : ℕ

-- A leave message has the id of its connection only.
pub data QueueMessage : Type 0 where
  player_enter : PlayerEnterMessage → QueueMessage
  player_leave : ℕ → QueueMessage
  player_move : PlayerMoveMessage → QueueMessage

pub data OutwardBody : Type 0 where
  error_response : GenericErrorResponse → OutwardBody
  map_update : List CharacterComponent → OutwardBody

pub record OutwardMessage : Type 0 where
  pub conn_id : ℕ
  pub msg : OutwardBody

-- The queue of outward messages, oldest first.
abbrev pub OutwardQueue : Type 0
OutwardQueue = List OutwardMessage

-- What the game loop works on.
pub record Game : Type 0 where
  pub registry : Registry
  pub outward : OutwardQueue

unfoldable pub enqueue_error : ℕ → Text → Game → Game
enqueue_error conn err g = record g {
  outward =
      g.outward
      ++ record {
        conn_id = conn;
        msg = error_response (record {
          error = err;
          pretty_error_name = err;
          pretty_error_description = err;
          clear_login_data = true;
        });
      }
        ∷ [];
}
