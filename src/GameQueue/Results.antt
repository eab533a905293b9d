-- ===== src/GameQueue/Results.antt =====
-- Rules for what the two `for` loops over the maps come to: a property of the new maps is carried
-- from the maps behind a map to all of them.
use core_cpp_archive.GameQueue.Handlers.{
  Moved, Placed, add_player, after_move, after_place, can_move_to, handle_player_enter,
  handle_player_move, has_connection, is_playing, move_after, move_last, move_player, moved,
  new_player, no_map, no_player, place, place_after, placed, wrong_coordinates, wrong_move,
}
use core_cpp_archive.GameQueue.Messages.{Game, PlayerEnterMessage, PlayerMoveMessage, enqueue_error}
use core_cpp_archive.Prelude.{
  Bool, Bool-cases, Option, Option-cases, any_of, ap, arith, bytes_eq, false, if◌then◌else◌, inl,
  inr, int_eq, leb, loc_eq, nat_eq, none, refl, some, subst, true, ◌<◌, ◌==◌, ◌>>=◌, ◌||◌, ◌∙◌, ◌∷◌,
  ◌≡◌,
}
use core_cpp_archive.Tiles.{to_i32}
use core_cpp_archive.World.{MapComponent, Registry}
use mathlib.Core.Option.{some-injective}

abbrev pub PlacedHas : (Registry → Type 0) → Placed → Type 0
PlacedHas P (placed ms) = P ms
PlacedHas P wrong_coordinates = Unit {0}
PlacedHas P no_map = Unit {0}

pub place_after-has :
    (P Q : Registry → Type 0) (m : MapComponent) (r : Placed)
    → ((ms : Registry) → P ms → Q (m ∷ ms))
    → PlacedHas P r
    → PlacedHas Q (place_after m r)
place_after-has P Q m (placed ms) f h = f ms h
place_after-has P Q m wrong_coordinates f h = tt
place_after-has P Q m no_map f h = tt

-- The two branches of `place` that return maps.
pub place_rule :
    (P Q : Registry → Type 0) (msg : PlayerEnterMessage) (m : MapComponent) (ms : Registry)
    → ((ms' : Registry) → P ms' → Q (m ∷ ms'))
    → (msg.x < m.width → msg.y < m.height → Q (add_player (new_player msg) m ∷ ms))
    → PlacedHas P (place msg ms)
    → PlacedHas Q (place msg (m ∷ ms))
unfolding place
place_rule P Q msg m ms other same h = elim (Bool-cases (m.name == msg.map_name)) [
  | inr ne ↦ rw ne (place_after-has P Q m (place msg ms) other h)
  | inl e ↦ elim (Bool-cases (leb m.width msg.x || leb m.height msg.y)) [
    | inl off ↦ rw (e, off) tt
    | inr on ↦ rw (e, on) (same (ground arith) (ground arith))
  ]
]

-- `none` satisfies what a move on a map without its layers may do.
abbrev pub MovedHas : (Registry → Type 0) → Option Moved → Type 0
MovedHas P none = Unit {0}
MovedHas P (some (moved ms)) = P ms
MovedHas P (some wrong_move) = Unit {0}
MovedHas P (some no_player) = Unit {0}

pub move_after-has :
    (P Q : Registry → Type 0) (m : MapComponent) (r : Option Moved)
    → ((ms : Registry) → P ms → Q (m ∷ ms))
    → MovedHas P r
    → MovedHas Q (r >>= λ a. some (move_after m a))
move_after-has P Q m none f h = tt
move_after-has P Q m (some (moved ms)) f h = f ms h
move_after-has P Q m (some wrong_move) f h = tt
move_after-has P Q m (some no_player) f h = tt

abbrev pub move_here : PlayerMoveMessage → MapComponent → MapComponent
move_here msg m = record m {
  players = move_last msg.connection_id (to_i32 msg.x, to_i32 msg.y) m.players;
}

move_end :
    (Q : Registry → Type 0) (ms : Registry) (b : Bool)
    → (b ≡ true → Q ms)
    → MovedHas Q (some (if b then moved ms else wrong_move))
move_end Q ms true h = h refl
move_end Q ms false h = tt

pub move_rule :
    (P Q : Registry → Type 0) (msg : PlayerMoveMessage) (m : MapComponent) (ms : Registry)
    → ((ms' : Registry) → P ms' → Q (m ∷ ms'))
    → (can_move_to msg m ≡ some true → Q (move_here msg m ∷ ms))
    → MovedHas P (move_player msg ms)
    → MovedHas Q (move_player msg (m ∷ ms))
unfolding move_player
move_rule P Q msg m ms other same h =
    elim (Bool-cases (any_of (has_connection msg.connection_id) m.players)) [
      | inr absent ↦ rw absent (move_after-has P Q m (move_player msg ms) other h)
      | inl present ↦ elim (Option-cases (can_move_to msg m)) [
        | inl bad ↦ rw (present, bad) tt
        | inr (b, e) ↦
            rw (present, e) (move_end Q (move_here msg m ∷ ms) b λ t. same (e ∙ ap some t))
      ]
    ]

-- A handler changes the registry as its loop says, or leaves it.
pub enter_rule :
    (P : Registry → Type 0) (msg : PlayerEnterMessage) (g : Game)
    → P g.registry
    → (is_playing msg.character_name g.registry ≡ false → PlacedHas P (place msg g.registry))
    → P (handle_player_enter msg g).registry
unfolding handle_player_enter after_place enqueue_error
enter_rule P msg g old new = elim (Bool-cases (is_playing msg.character_name g.registry)) [
  | inl playing ↦ rw playing old
  | inr absent ↦ rw absent (after_place_rule (place msg g.registry) (new absent))
]
  where
    after_place_rule : (r : Placed) → PlacedHas P r → P (after_place msg g r).registry
    after_place_rule (placed ms) h = h
    after_place_rule wrong_coordinates h = old
    after_place_rule no_map h = old

pub move_game_rule :
    (P : Registry → Type 0) (msg : PlayerMoveMessage) (g g' : Game)
    → handle_player_move msg g ≡ some g'
    → P g.registry
    → MovedHas P (move_player msg g.registry)
    → P g'.registry
unfolding handle_player_move after_move enqueue_error
move_game_rule P msg g g' e old new = ends (move_player msg g.registry) new e
  where
    ends :
        (r : Option Moved)
        → MovedHas P r
        → (r >>= λ a. some (after_move msg g a)) ≡ some g'
        → P g'.registry
    ends none h e = absurd (ground (arith, e))
    ends (some (moved ms)) h e = subst (λ (k : Game). P k.registry) (some-injective _ _ e) h
    ends (some wrong_move) h e = subst (λ (k : Game). P k.registry) (some-injective _ _ e) old
    ends (some no_player) h e = subst (λ (k : Game). P k.registry) (some-injective _ _ e) old
