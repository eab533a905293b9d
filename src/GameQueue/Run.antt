-- ===== src/GameQueue/Run.antt =====
-- What the handlers do to the players one by one, and the whole queue.
use core_cpp_archive.GameQueue.Handlers.{
  add_player, after_place, drain, handle_player_enter, handle_player_leave_message, has_connection,
  is_playing, leave_all, leave_map, new_player, place, placed,
}
use core_cpp_archive.GameQueue.Inside.{IsSafe, route-IsSafe}
use core_cpp_archive.GameQueue.Messages.{
  Game, PlayerEnterMessage, QueueMessage, enqueue_error, player_leave,
}
use core_cpp_archive.GameQueue.Results.{PlacedHas, place_rule}
use core_cpp_archive.GameQueue.Unique.{HasUniqueNames, route-HasUniqueNames}
use core_cpp_archive.Prelude.{
  List, Text, [], any_of, any_of-append, arith, bytes_beq_iff, bytes_eq, false, int_eq, keep,
  loc_eq, nat_eq, refl, reject, some, subst, text, true, ℕ, ◌++◌, ◌==◌, ◌∷◌, ◌≡◌, ◌≢◌,
}
use core_cpp_archive.World.{MapComponent, PcComponent, Registry}

-- For every list of messages, `drain` handles them all: on maps with their layers no message is
-- lost to a bad read, and afterwards every player is inside its map and no name is in the game twice.
pub drain-IsSafe :
    (msgs : List QueueMessage) (g : Game)
    → IsSafe g.registry
    → HasUniqueNames g
    → (g' : Game) × (drain msgs g ≡ some g') × IsSafe g'.registry × HasUniqueNames g'
unfolding drain
drain-IsSafe [] g h u = (g, refl, h, u)
drain-IsSafe (msg ∷ msgs) g h u =
    let (g₁, e, safe) = route-IsSafe msg g h in
    let (g', e', safe', names') = drain-IsSafe msgs g₁ safe (route-HasUniqueNames msg g g₁ u e) in
    (g', rw e e', safe', names')

is_playing_later :
    (n : Text) (m : MapComponent) (ms : Registry)
    → is_playing n ms ≡ true
    → is_playing n (m ∷ ms) ≡ true
unfolding is_playing
is_playing_later n m ms h = ground arith

new_player_name : (msg : PlayerEnterMessage) → (new_player msg).name ≡ msg.character_name
unfolding new_player
new_player_name msg = refl

any_of_last :
    (n : Text) (pcs : List PcComponent) (pc : PcComponent)
    → pc.name ≡ n
    → any_of (λ (c : PcComponent). c.name == n) (pcs ++ pc ∷ []) ≡ true
any_of_last n pcs pc e = ground (
  arith,
  any_of-append (λ (c : PcComponent). c.name == n) pcs (pc ∷ []),
  bytes_beq_iff (pc.name) n,
  e,
)

is_playing_new :
    (msg : PlayerEnterMessage) (m : MapComponent) (ms : Registry)
    → is_playing msg.character_name (add_player (new_player msg) m ∷ ms) ≡ true
unfolding is_playing add_player
is_playing_new msg m ms =
    rw (any_of_last msg.character_name m.players (new_player msg) (new_player_name msg))

place-is_playing :
    (msg : PlayerEnterMessage) (ms : Registry)
    → PlacedHas (λ ms'. is_playing msg.character_name ms' ≡ true) (place msg ms)
unfolding place
place-is_playing msg [] = tt
place-is_playing msg (m ∷ ms) =
    place_rule _ _ msg m ms (λ ms' h. is_playing_later msg.character_name m ms' h)
      (λ _ _. is_playing_new msg m ms) (place-is_playing msg ms)

-- Once a character has been placed on a map, every later enter message with its name is refused: the
-- players stay as they are, and one error goes to the connection that asked.
pub enter_again :
    (msg again : PlayerEnterMessage) (g : Game) (ms : Registry)
    → is_playing msg.character_name g.registry ≡ false
    → place msg g.registry ≡ placed ms
    → again.character_name ≡ msg.character_name
    → handle_player_enter again (handle_player_enter msg g)
      ≡ enqueue_error again.connection_id
          (text "already playing that character")
          (record g { registry = ms })
unfolding handle_player_enter after_place
enter_again msg again g ms absent e same = rw (absent, e) (rw (same, playing))
  where
    playing : is_playing msg.character_name ms ≡ true
    playing =
        subst (PlacedHas λ ms'. is_playing msg.character_name ms' ≡ true) e
          (place-is_playing msg g.registry)

-- The players of one connection, over all maps.
unfoldable pub of_connection : ℕ → Registry → List PcComponent
of_connection conn [] = []
of_connection conn (m ∷ ms) = keep (has_connection conn) m.players ++ of_connection conn ms

keep-reject_same :
    (conn : ℕ) (pcs : List PcComponent)
    → keep (has_connection conn) (reject (has_connection conn) pcs) ≡ []
keep-reject_same conn [] = refl
keep-reject_same conn (pc ∷ pcs) = ground (arith, keep-reject_same conn pcs)

keep-reject_other :
    (conn other : ℕ) (pcs : List PcComponent)
    → conn ≢ other
    → keep (has_connection other) (reject (has_connection conn) pcs)
      ≡ keep (has_connection other) pcs
keep-reject_other conn other [] h = refl
keep-reject_other conn other (pc ∷ pcs) h = ground (arith, keep-reject_other conn other pcs)

leave_all_same : (conn : ℕ) (ms : Registry) → of_connection conn (leave_all conn ms) ≡ []
unfolding of_connection leave_all leave_map
leave_all_same conn [] = refl
leave_all_same conn (m ∷ ms) = rw (keep-reject_same conn m.players) (leave_all_same conn ms)

leave_all_other :
    (conn other : ℕ) (ms : Registry)
    → conn ≢ other
    → of_connection other (leave_all conn ms) ≡ of_connection other ms
unfolding of_connection leave_all leave_map
leave_all_other conn other [] h = refl
leave_all_other conn other (m ∷ ms) h =
    rw (keep-reject_other conn other m.players h, leave_all_other conn other ms h)

-- A leave message takes all players of its connection out of the game, on every map, keeps those of
-- every other connection as they are, and sends nothing.
pub leave_lem :
    (conn : ℕ) (g : Game)
    → let g' = handle_player_leave_message (player_leave conn) g in
      (of_connection conn g'.registry ≡ [])
      × ((other : ℕ)
          → conn ≢ other
          → of_connection other g'.registry ≡ of_connection other g.registry)
      × (g'.outward ≡ g.outward)
unfolding handle_player_leave_message
leave_lem conn g =
    (leave_all_same conn g.registry, λ other h. leave_all_other conn other g.registry h, refl)
