-- ===== src/Server/Close.antt =====
-- What closing a connection does in src/uws_thread.cpp.
use core_cpp_archive.GameQueue.Messages.{QueueMessage, player_leave}
use core_cpp_archive.Prelude.{
  Bool, List, [], ap, arith, beq_refl, bytes_eq, erase, false, find, if◌then◌else◌, int_eq,
  is_empty, leb_ℤ, loc_eq, nat_eq, refl, some, sym, true, ℕ, ℤ, ◌++◌, ◌==◌, ◌||◌, ◌∙◌, ◌∷◌, ◌≡◌,
}
use core_cpp_archive.Rapidjson.{at}
use core_cpp_archive.Server.Connections.{
  close_connection, close_entry, close_id, forget_connection, forget_handle, has_user_id, on_close,
  say_user_left,
}
use core_cpp_archive.Server.State.{
  Action, PerSocketData, Server, Services, UserConnections, done, enqueue, pure, returned, thrown,
  ub, ◌>>=◌,
}
use mathlib.Core.List.{append-nil}

-- The search of `on_close` finds the connection that closes.
has_user_id-find :
    (id : ℕ) (u : PerSocketData) (uc : UserConnections)
    → find id uc ≡ some u
    → has_user_id u.user_id uc ≡ true
unfolding has_user_id find
has_user_id-find id u [] at = ground (arith, at)
has_user_id-find id u ((i, other) ∷ rest) at = by_test (i == id) at (has_user_id-find id u rest)
  where
    by_test :
        (b : Bool)
        → (if b then some other else find id rest) ≡ some u
        → (find id rest ≡ some u → has_user_id u.user_id rest ≡ true)
        → (other.user_id == u.user_id || has_user_id u.user_id rest) ≡ true
    by_test true at later = let same : other ≡ u = cc in rw (same, beq_refl u.user_id)
    by_test false at later =
        let r : has_user_id u.user_id rest ≡ true = later at in ground (arith, r)

-- What the game loop is told when the connection `u` closes.
abbrev pub leave_messages : PerSocketData → List QueueMessage
leave_messages u =
    if leb_ℤ (ℤ.pos 0) u.playing_character_slot then player_leave u.connection_id ∷ [] else []

module _ {v : Services} where
  abbrev queued : List QueueMessage → Server v → Server v
  queued msgs s = record s { game_loop_queue = s.game_loop_queue ++ msgs }

  bind_done :
      {A B : Type 0} (m : Action v A) (f : A → Action v B) (s : Server v) (a : A) (s' : Server v)
      → m s ≡ done a s'
      → (m >>= f) s ≡ f a s'
  unfolding ◌>>=◌
  bind_done m f s a s' e =
      ap
        (λ r. elim r [
          | done a s' ↦ f a s'
          | returned s' ↦ returned s'
          | thrown s' ↦ thrown s'
          | ub ↦ ub
        ])
        e

  enqueue_if :
      (b : Bool) (msg : QueueMessage) (s : Server v)
      → (if b then enqueue msg else pure tt) s ≡ done tt (queued (if b then msg ∷ [] else []) s)
  unfolding enqueue
  enqueue_if true msg s = refl
  enqueue_if false msg s =
      ap (λ q. done tt (record s { game_loop_queue = q })) (sym (append-nil s.game_loop_queue))

  say_user_left-nothing :
      (id : ℕ) (u : PerSocketData) (s : Server v)
      → find id s.user_connections ≡ some u
      → say_user_left v u s ≡ done tt s
  unfolding say_user_left ◌>>=◌
  say_user_left-nothing id u s at =
      decided _ (is_empty u.username) _ (has_user_id-find id u s.user_connections at)
    where
      decided :
          (m : Action v Unit) (a b : Bool)
          → b ≡ true
          → (if a || b then pure tt else m) s ≡ done tt s
      decided m true b e = refl
      decided m false true e = refl
      decided m false false e = ground (arith, e)

  pub close_connection_lem :
      (hdl id : ℕ) (u : PerSocketData) (s : Server v)
      → find id s.user_connections ≡ some u
      → close_connection v hdl id u s
        ≡ done tt (record s {
          user_connections = erase id s.user_connections;
          handle_to_connection_id_map = erase hdl s.handle_to_connection_id_map;
          game_loop_queue = s.game_loop_queue ++ leave_messages u;
        })
  unfolding close_connection forget_handle forget_connection
  close_connection_lem hdl id u s at_id =
      let told : Server v = queued (leave_messages u) s in
      bind_done _ _ s tt told (enqueue_if _ (player_leave u.connection_id) s)
      ∙ bind_done _ _ told tt told (say_user_left-nothing id u told at_id)
      ∙ bind_done _ _ told tt (record told { user_connections = erase id told.user_connections })
          refl

  -- If the handle that closes has a connection with an entry, both are forgotten, the game
  -- loop is told exactly if the connection was playing, and nothing is sent.
  pub on_close_lem :
      (hdl id : ℕ) (u : PerSocketData) (s : Server v)
      → find hdl s.handle_to_connection_id_map ≡ some id
      → find id s.user_connections ≡ some u
      → on_close v hdl s
        ≡ done tt (record s {
          user_connections = erase id s.user_connections;
          handle_to_connection_id_map = erase hdl s.handle_to_connection_id_map;
          game_loop_queue = s.game_loop_queue ++ leave_messages u;
        })
  unfolding on_close close_id close_entry
  on_close_lem hdl id u s at_hdl at_id = rw (at_hdl, at_id, close_connection_lem hdl id u s at_id)
