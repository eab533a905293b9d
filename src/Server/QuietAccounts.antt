-- ===== src/Server/QuietAccounts.antt =====
-- The parts of src/message_handlers/user_access that keep the core.
use core_cpp_archive.Messages.Objects.{AccountObject, CharacterObject}
use core_cpp_archive.Prelude.{
  List, [], bytes_eq, int_eq, loc_eq, nat_eq, not, refl, true, ℕ, ◌==◌, ◌||◌, ◌∷◌,
}
use core_cpp_archive.Repositories.Models.{DbCharacter, User}
use core_cpp_archive.Server.Login.{announce, message_players_of, welcome}
use core_cpp_archive.Server.Quiet.{
  Ends-if, delivered_if-core, deref-Learns, gets-IsQuiet, query-IsQuiet, send-IsQuiet,
  user_data-Learns,
}
use core_cpp_archive.Server.State.{Frame, Services, UserConnections, delivered}
use core_cpp_archive.Server.Triples.{Ends-last, IsQuiet, Learns-bind, core}

module _ {v : Services} where
  pub message_players_of-IsQuiet :
      (players : List DbCharacter) → IsQuiet {v = v} (message_players_of players)
  unfolding message_players_of
  message_players_of-IsQuiet [] = record { run = λ s. record { how = (refl, tt) } }
  message_players_of-IsQuiet (player ∷ players) = Learns-bind _ _ (query-IsQuiet _) (λ db_stats.
      Learns-bind _ _ (deref-Learns player.loc) (λ location.
        Learns-bind _ _ (message_players_of-IsQuiet players)
          (λ rest. record { run = λ s. record { how = (refl, tt) } })))

  pub announce-IsQuiet :
      (user_id : ℕ) (frame : Frame v) (uc : UserConnections) (online_users : List AccountObject)
      → IsQuiet (announce user_id frame uc online_users)
  unfolding announce
  announce-IsQuiet user_id frame [] online_users = record { run = λ s. record { how = (refl, tt) } }
  announce-IsQuiet user_id frame ((i, other) ∷ rest) online_users = record {
    run = λ s.
        Ends-if
          (s.outside.expired other.ws
            || other.user_id == user_id
            || not (s.outside.writable other.ws))
          (λ _. (announce-IsQuiet user_id frame rest online_users).run s)
          (λ _.
            Ends-last (announce-IsQuiet user_id frame rest _) (delivered other.ws frame s) (core s)
              (delivered_if-core true other.ws frame s) refl (λ a t. (refl, t)));
  }

  pub welcome-IsQuiet :
      (id : ℕ) (usr : User) (players : List CharacterObject)
      → IsQuiet {v = v} (welcome id usr players)
  unfolding welcome
  welcome-IsQuiet id usr players = Learns-bind _ _ (user_data-Learns id) (λ u.
      Learns-bind _ _ (gets-IsQuiet _) (λ others.
        Learns-bind _ _ (announce-IsQuiet _ _ _ _)
          (λ online_users. Learns-bind _ _ (gets-IsQuiet _) (λ motd. send-IsQuiet _ _))))
