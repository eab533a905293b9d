-- ===== src/GameQueue/Moving.antt =====
-- What commands/player_move_handler.cpp does, on every branch.
use core_cpp_archive.GameQueue.Handlers.{
  after_move, can_move_to, handle_player_move, handle_player_move_message, has_connection,
  move_after, move_last, move_player, moved, route, wrong_move,
}
use core_cpp_archive.GameQueue.Messages.{Game, PlayerMoveMessage, enqueue_error, player_move}
use core_cpp_archive.Prelude.{
  Bool, Bool-cases, List, Location, inl, inr, [], any_of, any_of-append, ap, arith, bytes_eq, false,
  if◌then◌else◌, int_eq, loc_eq, ltb, nat_eq, refl, some, text, true, ℕ, ◌&&◌, ◌++◌, ◌∙◌, ◌∷◌, ◌≡◌,
}
use core_cpp_archive.Tiles.{tile_is_walkable, to_i32}
use core_cpp_archive.World.{MapComponent, PcComponent, Registry}

-- No player of the connection is on one of the maps.
abbrev pub is_absent : ℕ → Registry → Bool
is_absent conn [] = true
is_absent conn (m ∷ ms) =
    if any_of (has_connection conn) m.players then false else is_absent conn ms

move_last_lem :
    (conn : ℕ) (loc : Location) (before behind : List PcComponent) (pc : PcComponent)
    → pc.connection_id ≡ conn
    → any_of (has_connection conn) behind ≡ false
    → move_last conn loc (before ++ pc ∷ behind)
      ≡ before ++ record pc { base = record (pc.base) { loc = loc } } ∷ behind
unfolding move_last
move_last_lem conn loc [] behind pc e none_behind = ground arith
move_last_lem conn loc (p ∷ before) behind pc e none_behind = ground (
  arith,
  move_last_lem conn loc before behind pc e none_behind,
  any_of-append (has_connection conn) before (pc ∷ behind),
)

is_on :
    (conn : ℕ) (front behind : List PcComponent) (pc : PcComponent)
    → pc.connection_id ≡ conn
    → any_of (has_connection conn) (front ++ pc ∷ behind) ≡ true
is_on conn front behind pc e =
    ground (arith, any_of-append (has_connection conn) front (pc ∷ behind))

move_after_if :
    (b : Bool) (n : MapComponent) (ms : Registry)
    → move_after n (if b then moved ms else wrong_move) ≡ (if b then moved (n ∷ ms) else wrong_move)
move_after_if true n ms = refl
move_after_if false n ms = refl

after_move_if :
    (b : Bool) (msg : PlayerMoveMessage) (g : Game) (ms : Registry)
    → after_move msg g (if b then moved ms else wrong_move) ≡ (
        if b
        then record g { registry = ms }
        else enqueue_error msg.connection_id (text "Wrong coordinates") g)
unfolding after_move
after_move_if true msg g ms = refl
after_move_if false msg g ms = refl

module _ (msg : PlayerMoveMessage) (front behind : List PcComponent) (pc : PcComponent)
    (m : MapComponent) (walkable : Bool) (owner : pc.connection_id ≡ msg.connection_id)
    (last : any_of (has_connection msg.connection_id) behind ≡ false)
    (players : m.players ≡ front ++ pc ∷ behind)
    (read : tile_is_walkable m (to_i32 msg.x) (to_i32 msg.y) ≡ some walkable) where
  can_move_to_lem : can_move_to msg m ≡ some (ltb msg.x m.width && ltb msg.y m.height && walkable)
  unfolding can_move_to
  can_move_to_lem = ground arith

  move_player_lem :
      (before beyond : Registry)
      → is_absent msg.connection_id before ≡ true
      → move_player msg (before ++ m ∷ beyond)
        ≡ some (
            if ltb msg.x m.width && ltb msg.y m.height && walkable
            then moved (
                before
                ++ record m {
                  players =
                      front
                      ++ record pc {
                        base = record (pc.base) { loc = (to_i32 msg.x, to_i32 msg.y) };
                      }
                        ∷ behind;
                }
                  ∷ beyond)
            else wrong_move)
  unfolding move_player
  move_player_lem [] beyond absent =
      rw
        (
          can_move_to_lem,
          players,
          is_on msg.connection_id front behind pc owner,
          move_last_lem msg.connection_id (to_i32 msg.x, to_i32 msg.y) front behind pc owner last,
        )
        refl
  move_player_lem (n ∷ before) beyond absent =
      elim (Bool-cases (any_of (has_connection msg.connection_id) n.players)) [
        | inl here ↦ absurd (ground (arith, here, absent))
        | inr away ↦
            rw (away, move_player_lem before beyond (ground (arith, away, absent)))
              (ap some (move_after_if _ n _))
      ]

  move_player_at :
      (before beyond ms : Registry)
      → is_absent msg.connection_id before ≡ true
      → ms ≡ before ++ m ∷ beyond
      → move_player msg ms
        ≡ some (
            if ltb msg.x m.width && ltb msg.y m.height && walkable
            then moved (
                before
                ++ record m {
                  players =
                      front
                      ++ record pc {
                        base = record (pc.base) { loc = (to_i32 msg.x, to_i32 msg.y) };
                      }
                        ∷ behind;
                }
                  ∷ beyond)
            else wrong_move)
  move_player_at before beyond ms absent maps =
      ap (move_player msg) maps ∙ move_player_lem before beyond absent

  -- A move message of a connection whose last player is on a map, while no map before that one has
  -- a player of the connection: inside this map and on a tile that can be walked on, this player
  -- gets the new location, and nothing else changes on any map and nothing is sent; otherwise the
  -- maps stay as they are and one error goes to the connection.
  pub move_lem :
      (before beyond : Registry) (g : Game)
      → is_absent msg.connection_id before ≡ true
      → g.registry ≡ before ++ m ∷ beyond
      → route (player_move msg) g
        ≡ some (
            if ltb msg.x m.width && ltb msg.y m.height && walkable
            then record g {
              registry =
                  before
                  ++ record m {
                    players =
                        front
                        ++ record pc {
                          base = record (pc.base) { loc = (to_i32 msg.x, to_i32 msg.y) };
                        }
                          ∷ behind;
                  }
                    ∷ beyond;
            }
            else enqueue_error msg.connection_id (text "Wrong coordinates") g)
  unfolding route handle_player_move_message handle_player_move
  move_lem before beyond g absent maps =
      rw (move_player_at before beyond g.registry absent maps) (ap some (after_move_if _ msg g _))
