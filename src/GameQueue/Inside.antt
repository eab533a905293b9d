-- ===== src/GameQueue/Inside.antt =====
-- Every player stands on its map, every map keeps its layers, and no message makes a handler read
-- behind the end of a layer.
use core_cpp_archive.GameQueue.Handlers.{
  Moved, add_player, after_move, can_move_to, handle_player_enter, handle_player_enter_message,
  handle_player_leave_message, handle_player_move, handle_player_move_message, has_connection,
  leave_all, leave_map, move_last, move_player, new_player, no_player, place, route,
}
use core_cpp_archive.GameQueue.Messages.{
  Game, PlayerEnterMessage, PlayerMoveMessage, QueueMessage, player_enter, player_leave,
  player_move,
}
use core_cpp_archive.GameQueue.Results.{
  MovedHas, PlacedHas, enter_rule, move_game_rule, move_here, move_rule, place_rule,
}
use core_cpp_archive.Prelude.{
  All, All-append, All-reject, Bool, Bool-cases, List, [], any_of, arith, bytes_eq, false, inl, inr,
  int_eq, leb, loc_eq, nat_eq, refl, some, true, ℕ, ℤ, ◌<◌, ◌==◌, ◌^◌, ◌||◌, ◌∷◌, ◌≡◌,
}
use core_cpp_archive.Tiles.{to_i32}
use core_cpp_archive.Tiles.Laws.{HasLayers, tile_is_walkable-total}
use core_cpp_archive.World.{MapComponent, PcComponent, Registry}

pub record IsInside (m : MapComponent) (pc : PcComponent) : Type 0 where
  pub column : ℕ
  pub row : ℕ
  pub at : pc.loc ≡ (ℤ.pos column, ℤ.pos row)
  pub in_width : column < m.width
  pub in_height : row < m.height

pub record IsPopulated (m : MapComponent) : Type 0 where
  pub layers : HasLayers m
  pub inside : All (IsInside m) m.players

abbrev pub IsSafe : Registry → Type 0
IsSafe ms = All IsPopulated ms

to_i32-small : (n w : ℕ) → n < w → w < 2 ^ 31 → to_i32 n ≡ ℤ.pos n
unfolding to_i32
to_i32-small n w p q = ground arith

-- A change of the players alone.
with_players :
    (m : MapComponent) (pcs : List PcComponent)
    → IsPopulated m
    → All (IsInside m) pcs
    → IsPopulated (record m { players = pcs })
with_players m pcs p h = record {
  layers = record {
    width = p.layers.width;
    height = p.layers.height;
    tiles = p.layers.tiles;
    objects = p.layers.objects;
    fits = p.layers.fits;
    width_fits = p.layers.width_fits;
    height_fits = p.layers.height_fits;
  };
  inside = moved_all pcs h;
}
  where
    moved_all :
        (qcs : List PcComponent)
        → All (IsInside m) qcs
        → All (IsInside (record m { players = pcs })) qcs
    moved_all [] k = tt
    moved_all (pc ∷ qcs) k = (
      record {
        column = k.0.column;
        row = k.0.row;
        at = k.0.at;
        in_width = k.0.in_width;
        in_height = k.0.in_height;
      },
      moved_all qcs k.1,
    )

new_player-IsInside :
    (msg : PlayerEnterMessage) (m : MapComponent)
    → HasLayers m
    → msg.x < m.width
    → msg.y < m.height
    → IsInside m (new_player msg)
unfolding new_player
new_player-IsInside msg m v p q = record {
  column = msg.x;
  row = msg.y;
  at = rw (to_i32-small msg.x m.width p v.width_fits, to_i32-small msg.y m.height q v.height_fits);
  in_width = p;
  in_height = q;
}

add_player-IsPopulated :
    (msg : PlayerEnterMessage) (m : MapComponent)
    → IsPopulated m
    → msg.x < m.width
    → msg.y < m.height
    → IsPopulated (add_player (new_player msg) m)
unfolding add_player
add_player-IsPopulated msg m p a b = with_players m _ p (
    All-append (IsInside m) m.players (new_player msg ∷ []) p.inside
      (new_player-IsInside msg m p.layers a b, tt))

place-IsSafe :
    (msg : PlayerEnterMessage) (ms : Registry) → IsSafe ms → PlacedHas IsSafe (place msg ms)
unfolding place
place-IsSafe msg [] h = tt
place-IsSafe msg (m ∷ ms) h =
    place_rule IsSafe IsSafe msg m ms (λ ms' k. (h.0, k))
      (λ a b. (add_player-IsPopulated msg m h.0 a b, h.1)) (place-IsSafe msg ms h.1)

leave_all-IsSafe : (conn : ℕ) (ms : Registry) → IsSafe ms → IsSafe (leave_all conn ms)
unfolding leave_all leave_map
leave_all-IsSafe conn [] h = tt
leave_all-IsSafe conn (m ∷ ms) h = (
  with_players m _ h.0 (
      All-reject (IsInside m) (λ (pc : PcComponent). pc.connection_id == conn) m.players
        h.0.inside),
  leave_all-IsSafe conn ms h.1,
)

move_last-IsInside :
    (m : MapComponent) (conn i j : ℕ) (pcs : List PcComponent)
    → i < m.width
    → j < m.height
    → All (IsInside m) pcs
    → All (IsInside m) (move_last conn (ℤ.pos i, ℤ.pos j) pcs)
unfolding move_last
move_last-IsInside m conn i j [] p q h = tt
move_last-IsInside m conn i j (pc ∷ pcs) p q h =
    let rest = move_last-IsInside m conn i j pcs p q h.1 in
    let here : IsInside m (record pc { base = record (pc.base) { loc = (ℤ.pos i, ℤ.pos j) } }) =
      record { column = i; row = j; at = refl; in_width = p; in_height = q } in
    elim (Bool-cases (any_of (has_connection conn) pcs)) [
      | inl later ↦ rw later (h.0, rest)
      | inr last ↦ elim (Bool-cases (has_connection conn pc)) [
        | inl this ↦ rw (last, this) (here, h.1)
        | inr other ↦ rw (last, other) (h.0, rest)
      ]
    ]

can_move_to-bounds :
    (msg : PlayerMoveMessage) (m : MapComponent)
    → can_move_to msg m ≡ some true
    → (msg.x < m.width) × (msg.y < m.height)
unfolding can_move_to
can_move_to-bounds msg m e = (ground arith, ground arith)

can_move_to-total :
    (msg : PlayerMoveMessage) (m : MapComponent)
    → HasLayers m
    → (b : Bool) × (can_move_to msg m ≡ some b)
unfolding can_move_to
can_move_to-total msg m v = elim (Bool-cases (leb m.width msg.x || leb m.height msg.y)) [
  | inl off ↦ (false, rw off)
  | inr on ↦ rw on (tile_is_walkable-total m v (to_i32 msg.x) (to_i32 msg.y))
]

move_here-IsPopulated :
    (msg : PlayerMoveMessage) (m : MapComponent)
    → IsPopulated m
    → can_move_to msg m ≡ some true
    → IsPopulated (move_here msg m)
move_here-IsPopulated msg m p e =
    let b = can_move_to-bounds msg m e in
    rw
      (
        to_i32-small msg.x m.width b.0 p.layers.width_fits,
        to_i32-small msg.y m.height b.1 p.layers.height_fits,
      )
      (with_players m _ p
        (move_last-IsInside m msg.connection_id msg.x msg.y m.players b.0 b.1 p.inside))

move_player-IsSafe :
    (msg : PlayerMoveMessage) (ms : Registry) → IsSafe ms → MovedHas IsSafe (move_player msg ms)
unfolding move_player
move_player-IsSafe msg [] h = tt
move_player-IsSafe msg (m ∷ ms) h =
    move_rule IsSafe IsSafe msg m ms (λ ms' k. (h.0, k))
      (λ e. (move_here-IsPopulated msg m h.0 e, h.1)) (move_player-IsSafe msg ms h.1)

move_player-total :
    (msg : PlayerMoveMessage) (ms : Registry)
    → IsSafe ms
    → (r : Moved) × (move_player msg ms ≡ some r)
unfolding move_player
move_player-total msg [] h = (no_player, refl)
move_player-total msg (m ∷ ms) h =
    let (b, e) = can_move_to-total msg m h.0.layers in
    let (r, f) = move_player-total msg ms h.1 in
    elim (Bool-cases (any_of (has_connection msg.connection_id) m.players)) [
      | inl present ↦ rw (present, e) (_, refl)
      | inr absent ↦ rw (absent, f) (_, refl)
    ]

handle_player_move_lem :
    (msg : PlayerMoveMessage) (g : Game) (r : Moved)
    → move_player msg g.registry ≡ some r
    → handle_player_move msg g ≡ some (after_move msg g r)
unfolding handle_player_move
handle_player_move_lem msg g r e = rw e

-- On maps with their layers every message is handled without a read behind the end of a layer, and
-- every player is again inside its map.
pub route-IsSafe :
    (msg : QueueMessage) (g : Game)
    → IsSafe g.registry
    → (g' : Game) × (route msg g ≡ some g') × IsSafe g'.registry
unfolding route handle_player_enter_message handle_player_leave_message handle_player_move_message
route-IsSafe (player_enter msg) g h =
    (handle_player_enter msg g, refl, enter_rule IsSafe msg g h λ _. place-IsSafe msg g.registry h)
route-IsSafe (player_leave conn) g h =
    (record g { registry = leave_all conn g.registry }, refl, leave_all-IsSafe conn g.registry h)
route-IsSafe (player_move msg) g h =
    let (r, e) = move_player-total msg g.registry h in
    let returns = handle_player_move_lem msg g r e in
    (
      after_move msg g r,
      returns,
      move_game_rule IsSafe msg g _ returns h (move_player-IsSafe msg g.registry h),
    )
