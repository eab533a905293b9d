-- ===== src/Server/Invariant.antt =====
-- Whatever the clients do, the connections of src/uws_thread.cpp stay sound.
use core_cpp_archive.Messages.Account.{PlayCharacterRequest, deserialize_play_character_request}
use core_cpp_archive.Messages.Bounds.{GetsUint32, play_character_slot}
use core_cpp_archive.Prelude.{
  arith, assign, bytes_eq, false, find, int_eq, is_empty, loc_eq, nat_eq, some, subst, sym, true, ℕ,
  ◌<◌, ◌^◌, ◌∙◌, ◌≡◌, ◌≢◌,
}
use core_cpp_archive.Rapidjson.{at, got}
use core_cpp_archive.Repositories.Models.{User}
use core_cpp_archive.Samples.{small}
use core_cpp_archive.Server.Characters.{plays_elsewhere, plays_there}
use core_cpp_archive.Server.Effects.{
  Effect, IsLoggedIn, creates, deletes, enters, logged_in, logs_in, moves, nothing, playing,
  selects_slot, sets_motd,
}
use core_cpp_archive.Server.Sound.{IsSound, assign-IsSound, plays_elsewhere-find, to_u32-to_i32}
use core_cpp_archive.Server.State.{PerSocketData, Services, UserConnections}
use core_cpp_archive.Server.Triples.{Core}
use core_cpp_archive.Tiles.{to_i32}

-- A slot that `plays_elsewhere` has not found is played on no other connection.
slot_is_free :
    (u w : PerSocketData) (n : ℕ)
    → n < 2 ^ 32
    → plays_there u n w ≡ false
    → w.connection_id ≢ u.connection_id
    → u.user_id ≡ w.user_id
    → to_i32 n ≢ w.playing_character_slot
unfolding plays_there
slot_is_free u w n small free other users slots = ground (arith, to_u32-to_i32 n small)

module _ (v : Services) (fits : GetsUint32 v.json) where
  slot-IsSound :
      (id : ℕ) (u : PerSocketData) (uc : UserConnections) (d : v.json.Value)
      (request : PlayCharacterRequest)
      → find id uc ≡ some u
      → IsSound uc
      → deserialize_play_character_request v.json d ≡ got request
      → IsLoggedIn u
      → plays_elsewhere u request.slot uc ≡ false
      → IsSound (assign id (playing request.slot u) uc)
  slot-IsSound id u uc d request at sound is named free =
      assign-IsSound id (playing request.slot u) uc sound (sound.keys id u at) (λ _. named)
        (λ j w at_j other plays users.
          slot_is_free u w request.slot (play_character_slot v.json fits d request is)
            (plays_elsewhere-find u request.slot uc j w free at_j)
            (λ same. other (sym (sound.keys j w at_j) ∙ same ∙ sound.keys id u at)) users)

  login-IsSound :
      (id : ℕ) (u : PerSocketData) (usr : User) (uc : UserConnections)
      → find id uc ≡ some u
      → IsSound uc
      → is_empty u.username ≡ true
      → IsSound (assign id (logged_in usr u) uc)
  login-IsSound id u usr uc at sound unnamed =
      assign-IsSound id (logged_in usr u) uc sound (sound.keys id u at)
        (λ plays. ground (arith, unnamed, sound.named id u at plays))
        (λ j w at_j other plays users slots. ground (arith, unnamed, sound.named id u at plays))

  pub Effect-IsSound :
      (d : v.json.Value) (id : ℕ) (u : PerSocketData) (c e : Core v)
      → find id c.connections ≡ some u
      → IsSound c.connections
      → Effect d id u c e
      → IsSound e.connections
  Effect-IsSound d id u c e at sound (nothing eq) =
      subst (λ e. IsSound e.connections) (sym eq) sound
  Effect-IsSound d id u c e at sound (logs_in msg usr is unnamed known eq) =
      subst (λ e. IsSound e.connections) (sym eq)
        (login-IsSound id u usr c.connections at sound unnamed)
  Effect-IsSound d id u c e at sound (selects_slot msg character db is taken eq) =
      subst (λ e. IsSound e.connections) (sym eq)
        (slot-IsSound id u c.connections d msg at sound is taken.logged taken.free)
  Effect-IsSound d id u c e at sound (enters msg character db entering is taken enter eq) =
      subst (λ e. IsSound e.connections) (sym eq)
        (slot-IsSound id u c.connections d msg at sound is taken.logged taken.free)
  Effect-IsSound d id u c e at sound (moves msg is plays eq) =
      subst (λ e. IsSound e.connections) (sym eq) sound
  Effect-IsSound d id u c e at sound (sets_motd msg is master plays eq) =
      subst (λ e. IsSound e.connections) (sym eq) sound
  Effect-IsSound d id u c e at sound (creates msg db is named idle good stored eq) =
      subst (λ e. IsSound e.connections) (sym eq) sound
  Effect-IsSound d id u c e at sound (deletes msg db is named idle free asked eq) =
      subst (λ e. IsSound e.connections) (sym eq) sound
