-- ===== src/Ai/Leash.antt =====
-- An npc without paths does not get away from its spawner.
use core_cpp_archive.Ai.Paths.{set_loc, set_npc_stats}
use core_cpp_archive.Ai.Turn.{
  AiServices, PlayerLocationMap, act, distance_between, heal, hostility_never, leash, leash_to,
  move_npc, run_ai_on, wander,
}
use core_cpp_archive.Prelude.{
  Bool, Option, arith, bytes_eq, false, if◌then◌else◌, inl, inr, int_eq, is_empty, leb_ℤ, loc_eq,
  ltb, nat_eq, negsuc, none, not, refl, some, subst, suc, sym, true, zero, ℕ, ℤ, ◌%◌, ◌&&◌, ◌+ℤ◌,
  ◌+◌, ◌-ℤ◌, ◌==◌, ◌^◌, ◌||◌, ◌∙◌, ◌≡◌, ◌≤◌, ◌⊎◌,
}
use core_cpp_archive.Server.Delivered.{leaves}
use core_cpp_archive.Spawning.{and_then, bad_draw, drawn, of_draw}
use core_cpp_archive.Spawning.Placed.{Any, Gives, Gives-then, any}
use core_cpp_archive.Tiles.{tile_is_walkable}
use core_cpp_archive.World.{MapComponent, NpcComponent, SpawnerScript}

module _ (ai : AiServices) (script : SpawnerScript) where
  -- At its spawner, or within its leash.
  abbrev pub OnLeash : NpcComponent → Type 0
  OnLeash npc =
      (npc.loc ≡ script.loc) ⊎ (distance_between ai npc.loc script.loc ≤ script.leash_radius)

  leash-OnLeash :
      (target : Bool) (npc : NpcComponent)
      → is_empty npc.paths ≡ true
      → OnLeash (leash ai target script npc)
  unfolding leash set_loc heal set_npc_stats
  leash-OnLeash target npc free = rw free (
      decided (not target && ltb script.random_walk_radius (distance_between ai npc.loc script.loc))
        (ltb script.leash_radius (distance_between ai npc.loc script.loc)) refl
        (ltb ((script.leash_radius + 4) % 2 ^ 32) (distance_between ai npc.loc script.loc)))
    where
      decided :
          (roams leaves : Bool)
          → ltb script.leash_radius (distance_between ai npc.loc script.loc) ≡ leaves
          → (far : Bool)
          → OnLeash (
              if roams || leaves
              then (if far then heal (set_loc script.loc npc) else set_loc script.loc npc)
              else npc)
      decided true leaves e true = inl refl
      decided true leaves e false = inl refl
      decided false true e true = inl refl
      decided false true e false = inl refl
      decided false false e far = inr (ground (arith, e))

  -- The spawner and the paths of an npc stay.
  abbrev Same : NpcComponent → Type 0
  Same npc = (npc.spawner ≡ some script) × (is_empty npc.paths ≡ true)

  wander-Same :
      (m : MapComponent) (fuel : ℕ) (num_steps : ℤ) (npc : NpcComponent) (g : ai.rng.Gen)
      → Same npc
      → Gives Same (wander ai m fuel num_steps npc g)
  unfolding wander set_loc
  wander-Same m zero num_steps npc g same = tt
  wander-Same m (suc fuel) num_steps npc g same =
      by_steps (leb_ℤ num_steps (ℤ.pos 0)) (λ num_steps npc g. wander-Same m fuel num_steps npc g)
    where
      Later : Type 0
      Later =
          (num_steps : ℤ) (npc : NpcComponent) (g : ai.rng.Gen)
          → Same npc
          → Gives Same (wander ai m fuel num_steps npc g)

      tried :
          (x y : ℤ) (g : ai.rng.Gen) (o : Option Bool)
          → Later
          → Gives Same (elim o [
            | none ↦ bad_draw
            | some true ↦
                wander ai m fuel
                  (num_steps -ℤ ℤ.pos 1)
                  (set_loc (npc.loc.0 +ℤ x, npc.loc.1 +ℤ y) npc)
                  g
            | some false ↦ wander ai m fuel num_steps npc g
          ])
      tried x y g none later = tt
      tried x y g (some true) later = later _ _ g same
      tried x y g (some false) later = later _ _ g same

      by_steps :
          (b : Bool)
          → Later
          → Gives Same (
              if b
              then drawn npc g
              else and_then (of_draw (ai.rng.uniform_i64 (negsuc 0) (ℤ.pos 1) g)) (λ x g.
                and_then (of_draw (ai.rng.uniform_i64 (negsuc 0) (ℤ.pos 1) g)) (λ y g.
                  elim (tile_is_walkable m (npc.loc.0 +ℤ x) (npc.loc.1 +ℤ y)) [
                    | none ↦ bad_draw
                    | some true ↦
                        wander ai m fuel
                          (num_steps -ℤ ℤ.pos 1)
                          (set_loc (npc.loc.0 +ℤ x, npc.loc.1 +ℤ y) npc)
                          g
                    | some false ↦ wander ai m fuel num_steps npc g
                  ])))
      by_steps true later = same
      by_steps false later = Gives-then Any Same _ _ (any _) (λ x g _.
          Gives-then Any Same _ _ (any _)
            (λ y g _. tried x y g (tile_is_walkable m (npc.loc.0 +ℤ x) (npc.loc.1 +ℤ y)) later))

  move_npc-Same :
      (m : MapComponent) (fuel : ℕ) (target : Bool) (num_steps : ℤ) (npc : NpcComponent)
      (g : ai.rng.Gen)
      → Same npc
      → Gives Same (move_npc ai m fuel target num_steps npc g)
  unfolding move_npc
  move_npc-Same m fuel true num_steps npc g same = same
  move_npc-Same m fuel false num_steps npc g same =
      rw same.1 (wander-Same m fuel num_steps npc g same)

  leash_to-OnLeash :
      (target : Bool) (o : Option SpawnerScript) (npc : NpcComponent) (g : ai.rng.Gen)
      → o ≡ some script
      → is_empty npc.paths ≡ true
      → Gives OnLeash (leash_to ai target o npc g)
  unfolding leash_to
  leash_to-OnLeash target o npc g e free = rw e (leash-OnLeash target npc free)

  act-OnLeash :
      (m : MapComponent) (fuel : ℕ) (locations : PlayerLocationMap) (npc : NpcComponent)
      (g : ai.rng.Gen)
      → Same npc
      → Gives OnLeash (act ai m fuel locations npc g)
  unfolding act set_npc_stats
  act-OnLeash m fuel locations npc g same = Gives-then Any OnLeash _ _ (any _) (λ target g _.
      Gives-then Any OnLeash _ _ (any _) (λ n g _. Gives-then Any OnLeash _ _ (any _) (λ k g _.
        Gives-then Same OnLeash _ _ (move_npc-Same m fuel target _ _ g same)
          (λ walked g still. leash_to-OnLeash target walked.spawner walked g still.0 still.1))))

  -- An npc that has a spawner, no paths, and does not have the hostility of those that never
  -- act, is after a turn that ends at its spawner or no further from it than its leash is
  -- long.
  pub run_ai_on-OnLeash :
      (npc : NpcComponent) (m : MapComponent) (fuel : ℕ) (locations : PlayerLocationMap)
      (g g' : ai.rng.Gen) (npc' : NpcComponent)
      → (npc.hostility == hostility_never) ≡ false
      → npc.spawner ≡ some script
      → is_empty npc.paths ≡ true
      → run_ai_on ai npc m fuel locations g ≡ drawn npc' g'
      → (npc'.loc ≡ script.loc) ⊎ (distance_between ai npc'.loc script.loc ≤ script.leash_radius)
  unfolding run_ai_on
  run_ai_on-OnLeash npc m fuel locations g g' npc' acts from free e =
      subst (Gives OnLeash) (sym (rw acts) ∙ e) (act-OnLeash m fuel locations npc g (from, free))
