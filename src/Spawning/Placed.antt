-- ===== src/Spawning/Placed.antt =====
-- Where a new npc stands and what stats it has.
use core_cpp_archive.Prelude.{
  All, Bool, Dict, List, Location, Option, Text, [], assign, bytes_eq, false, find, find-assign,
  find-assign_self, if◌then◌else◌, int_eq, is_empty, loc_eq, ltb, nat_eq, none, refl, some, subst,
  suc, true, zero, ℕ, ℤ, ◌==◌, ◌∷◌, ◌≡◌,
}
use core_cpp_archive.Rapidjson.{at, is_some}
use core_cpp_archive.Spawning.{
  Drawn, Random, and_then, bad_draw, create_npc, draw_coordinate, draw_sprite, draw_stat,
  draw_stats, drawn, find_coord, npc_of, spawn_loc, still_drawing,
}
use core_cpp_archive.Tiles.{tile_is_walkable}
use core_cpp_archive.World.{MapComponent, NpcComponent, SpawnerNpcId, SpawnerScript, stat_names}

-- The run gives a result that is as `P` says, if it gives one.
abbrev pub Gives : {G A : Type 0} → (A → Type 0) → Drawn G A → Type 0
Gives P (drawn a g) = P a
Gives P bad_draw = Unit
Gives P still_drawing = Unit

pub Gives-then :
    {G A B : Type 0} (P : A → Type 0) (Q : B → Type 0) (r : Drawn G A) (f : A → G → Drawn G B)
    → Gives P r
    → ((a : A) (g : G) → P a → Gives Q (f a g))
    → Gives Q (and_then r f)
unfolding and_then
Gives-then P Q (drawn a g) f p q = q a g p
Gives-then P Q bad_draw f p q = tt
Gives-then P Q still_drawing f p q = tt

abbrev pub Any : {A : Type 0} → A → Type 0
Any a = Unit

pub any : {G A : Type 0} (r : Drawn G A) → Gives Any r
any (drawn a g) = tt
any bad_draw = tt
any still_drawing = tt

abbrev pub Walkable : MapComponent → Location → Type 0
Walkable m loc = tile_is_walkable m loc.0 loc.1 ≡ some true

-- A name that has a value.
abbrev pub HasStat : Dict Text ℕ → Text → Type 0
HasStat stats name = is_some (find name stats) ≡ true

module _ (rng : Random) where
  find_coord-Walkable :
      (m : MapComponent) (x y : ℤ) (spawn_radius fuel : ℕ) (g : rng.Gen)
      → Gives (Walkable m) (find_coord rng m (x, y) spawn_radius fuel g)
  unfolding find_coord
  find_coord-Walkable m x y spawn_radius zero g = tt
  find_coord-Walkable m x y spawn_radius (suc fuel) g =
      Gives-then Any _ (draw_coordinate rng x spawn_radius g) _ (any _) (λ a g _.
        Gives-then Any _ (draw_coordinate rng y spawn_radius g) _ (any _) (λ b g _.
          tried a b g (tile_is_walkable m a b) refl
            (λ g. find_coord-Walkable m x y spawn_radius fuel g)))
    where
      tried :
          (a b : ℤ) (g : rng.Gen) (o : Option Bool)
          → tile_is_walkable m a b ≡ o
          → ((g : rng.Gen) → Gives (Walkable m) (find_coord rng m (x, y) spawn_radius fuel g))
          → Gives (Walkable m) (elim o [
            | none ↦ bad_draw
            | some true ↦ drawn (a, b) g
            | some false ↦ find_coord rng m (x, y) spawn_radius fuel g
          ])
      tried a b g none at again = tt
      tried a b g (some true) at again = at
      tried a b g (some false) at again = again g

Gives-map :
    {G A : Type 0} (P Q : A → Type 0)
    → ((a : A) → P a → Q a)
    → (r : Drawn G A) → Gives P r
    → Gives Q r
Gives-map P Q f (drawn a g) p = f a p
Gives-map P Q f bad_draw p = tt
Gives-map P Q f still_drawing p = tt

-- All the names have a value, and no value of `stats` is lost.
abbrev Complete : List Text → Dict Text ℕ → Option (Dict Text ℕ) → Type 0
Complete names stats none = Unit
Complete names stats (some d) = All (HasStat d) names × ((k : Text) → HasStat stats k → HasStat d k)

assign-HasStat :
    (stat : Text) (n : ℕ) (stats : Dict Text ℕ) (k : Text)
    → HasStat stats k
    → HasStat (assign stat n stats) k
assign-HasStat stat n stats k h = rw (find-assign stat k n stats) (by_test (stat == k))
  where
    by_test : (b : Bool) → is_some (if b then some n else find k stats) ≡ true
    by_test true = refl
    by_test false = h

assign-Complete :
    (stat : Text) (n : ℕ) (names : List Text) (stats : Dict Text ℕ) (o : Option (Dict Text ℕ))
    → Complete names (assign stat n stats) o
    → Complete (stat ∷ names) stats o
assign-Complete stat n names stats none c = tt
assign-Complete stat n names stats (some d) (all, kept) = (
  (kept stat (rw (find-assign_self stat n stats)), all),
  λ k h. kept k (assign-HasStat stat n stats k h),
)

module _ (rng : Random) (id : SpawnerNpcId) where
  draw_stats-Complete :
      (names : List Text) (stats : Dict Text ℕ) (g : rng.Gen)
      → Gives (Complete names stats) (draw_stats rng id names stats g)
  unfolding draw_stats
  draw_stats-Complete [] stats g = (tt, λ k h. h)
  draw_stats-Complete (stat ∷ names) stats g =
      Gives-then Any _ (draw_stat rng id stat g) _ (any _)
        (λ value g _. given value g (λ n g. draw_stats-Complete names (assign stat n stats) g))
    where
      given :
          (o : Option ℕ) (g : rng.Gen)
          → ((n : ℕ) (g : rng.Gen)
              → Gives
                  (Complete names (assign stat n stats))
                  (draw_stats rng id names (assign stat n stats) g))
          → Gives (Complete (stat ∷ names) stats) (elim o [
            | none ↦ drawn none g
            | some n ↦ draw_stats rng id names (assign stat n stats) g
          ])
      given none g later = tt
      given (some n) g later = Gives-map _ _ (assign-Complete stat n names stats) _ (later n g)

-- A walkable tile, if the spawner has a radius, and its own place, if it has none.
abbrev pub StandsBy : Bool → MapComponent → SpawnerScript → Location → Type 0
StandsBy true m script loc = Walkable m loc
StandsBy false m script loc = loc ≡ script.loc

abbrev pub Stands : MapComponent → SpawnerScript → Location → Type 0
Stands m script loc = StandsBy (ltb 0 script.spawn_radius) m script loc

-- What holds of a new npc, if there is one.
abbrev Made : MapComponent → SpawnerScript → Option NpcComponent → Type 0
Made m script none = Unit
Made m script (some npc) = Stands m script npc.loc × All (HasStat npc.stats) stat_names

module _ (rng : Random) (id : SpawnerNpcId) (m : MapComponent) (script : SpawnerScript) where
  spawn_loc-Stands :
      (fuel : ℕ) (g : rng.Gen) → Gives (Stands m script) (spawn_loc rng m script fuel g)
  unfolding spawn_loc
  spawn_loc-Stands fuel g = by_radius (ltb 0 script.spawn_radius)
    where
      by_radius :
          (b : Bool)
          → Gives (StandsBy b m script) (
              if b
              then find_coord rng m script.loc script.spawn_radius fuel g
              else drawn script.loc g)
      by_radius true = find_coord-Walkable rng m _ _ script.spawn_radius fuel g
      by_radius false = refl

  create_npc-Made :
      (npc_id_counter fuel : ℕ) (g : rng.Gen)
      → Gives (Made m script) (create_npc rng npc_id_counter id m script fuel g)
  unfolding create_npc npc_of
  create_npc-Made npc_id_counter fuel g = by_sprites (is_empty id.sprite)
    where
      completed :
          (sprite : ℕ) (loc : Location) (g : rng.Gen) (o : Option (Dict Text ℕ))
          → Stands m script loc
          → Complete stat_names [] o
          → Gives (Made m script) (elim o [
            | none ↦ drawn none g
            | some stats ↦ drawn (some (npc_of npc_id_counter id script sprite loc stats)) g
          ])
      completed sprite loc g none stands c = tt
      completed sprite loc g (some stats) stands c = (stands, c.0)

      by_sprites :
          (b : Bool)
          → Gives (Made m script) (
              if b
              then drawn none g
              else and_then (draw_sprite rng id.sprite g) (λ sprite g.
                and_then (spawn_loc rng m script fuel g) (λ loc g.
                  and_then (draw_stats rng id stat_names [] g) (λ stats g. elim stats [
                    | none ↦ drawn none g
                    | some stats ↦ drawn (some (npc_of npc_id_counter id script sprite loc stats)) g
                  ]))))
      by_sprites true = tt
      by_sprites false =
          Gives-then Any (Made m script) (draw_sprite rng id.sprite g) _ (any _) (λ sprite g _.
            Gives-then (Stands m script) (Made m script) (spawn_loc rng m script fuel g) _
              (spawn_loc-Stands fuel g)
              (λ loc g stands.
                Gives-then (Complete stat_names []) (Made m script)
                  (draw_stats rng id stat_names [] g) _ (draw_stats-Complete rng id stat_names [] g)
                  (λ stats g c. completed sprite loc g stats stands c)))

  -- If an npc is made, it stands on a walkable tile if its spawner has a radius, and otherwise
  -- where its spawner is, and it has a value for each of the stats.
  pub create_npc_lem :
      (npc_id_counter fuel : ℕ) (g g' : rng.Gen) (npc : NpcComponent)
      → create_npc rng npc_id_counter id m script fuel g ≡ drawn (some npc) g'
      → Stands m script npc.loc × All (HasStat npc.stats) stat_names
  create_npc_lem npc_id_counter fuel g g' npc e =
      subst (Gives (Made m script)) e (create_npc-Made npc_id_counter fuel g)
