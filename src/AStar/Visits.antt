-- ===== src/AStar/Visits.antt =====
-- One round of the loop of `a_star_path`: what visiting the neighbours of a location gives.
use core_cpp_archive.AStar.{Search, record_step, visit, visit_all}
use core_cpp_archive.AStar.Invariant.{Inv, IsSeen, next-IsSeen, record_step-Inv, IsSeen-assign}
use core_cpp_archive.AStar.Neighbours.{no_location}
use core_cpp_archive.AStar.Neighbours.Found.{IsNear}
use core_cpp_archive.AStar.Reachable.{grid, mem-grid, unseen, unseen-assign_lt}
use core_cpp_archive.Prelude.{
  List, Location, Option-cases, [], ap, arith, bytes_eq, false, find, inl, inr, int_eq, length,
  loc_eq, nat_eq, none, refl, replicate, some, subst, suc, sym, zero, ℕ, ℤ, ◌++◌, ◌+◌, ◌==◌, ◌∈◌,
  ◌∷◌, ◌≡◌, ◌≤◌,
}
use core_cpp_archive.Tiles.Laws.{IsFree}
use core_cpp_archive.World.{MapComponent}

module _ (m : MapComponent) (start goal : Location) where
  abbrev pub tiles_left : Search → ℕ
  tiles_left s = length s.frontier + unseen s.cost_so_far (grid m.width m.height)

  -- What visiting `ns` gives: they are all seen, at no more work than there was.
  pub record Visited (P : Location → Type 0) (ns : List Location) (s s' : Search) : Type 0 where
    pub inv : Inv m start goal P s'
    pub keeps : (q : Location) → IsSeen s q → IsSeen s' q
    pub all : (q : Location) → q ∈ ns → IsSeen s' q
    pub work : tiles_left s' ≤ tiles_left s

  IsFree-mem_grid : (q : Location) → IsFree m q → q ∈ grid m.width m.height
  IsFree-mem_grid q f =
      subst (λ p. p ∈ grid m.width m.height) (sym f.at)
        (mem-grid f.column f.row m.width m.height f.in_width f.in_height)

  visit-new :
      (current next : Location) (s : Search)
      → find next s.cost_so_far ≡ none
      → visit goal current next s ≡ record_step goal current next 1 s
  unfolding visit
  visit-new current next s e = rw (e, visit)

  -- No cost is above 1, so one more is never less.
  visit-old :
      (current next : Location) (s : Search) (c : ℕ)
      → find next s.cost_so_far ≡ some c
      → c ≤ 1
      → visit goal current next s ≡ s
  unfolding visit
  visit-old current next s c e h = rw (e, visit) (ground arith)

  step_work :
      (current next : Location) (s : Search)
      → find next s.cost_so_far ≡ none
      → IsFree m next
      → tiles_left (record_step goal current next 1 s) ≤ tiles_left s
  unfolding record_step
  step_work current next s e f = omega (
    arith,
    unseen-assign_lt next 1 s.cost_so_far (grid m.width m.height) (IsFree-mem_grid next f) e,
  )

  IsFree-ne-no_location : (q : Location) → IsFree m q → (q.0 == ℤ.negsuc 0) ≡ false
  IsFree-ne-no_location q f = rw (ap (λ (p : Location). p.0) f.at) (ground arith)

  module _ (P : Location → Type 0) (current : Location) where
    visit-Visited :
        (next : Location) (s : Search)
        → Inv m start goal P s
        → IsSeen s current
        → IsNear current next
        → IsFree m next
        → Visited P (next ∷ []) s (visit goal current next s)
    visit-Visited next s i seen near free = elim (Option-cases (find next s.cost_so_far)) [
      | inl new ↦ rw (visit-new current next s new) (record {
        inv = record_step-Inv m start goal P next current s i seen near free new;
        keeps = λ q h. IsSeen-assign m start goal next current q s h;
        all = λ q. elim [
          | inl e ↦ rw e (next-IsSeen m start goal next current s)
          | inr nowhere ↦ absurd nowhere
        ];
        work = step_work current next s new free;
      })
      | inr (c, old) ↦ rw (visit-old current next s c old (i.cost_le next c old)) (record {
        inv = i;
        keeps = λ q h. h;
        all = λ q. elim [ inl e ↦ rw e (c, old) | inr nowhere ↦ absurd nowhere ];
        work = omega arith;
      })
    ]

    visit_all_end : (k : ℕ) (s : Search) → visit_all goal current (replicate k no_location) s ≡ s
    unfolding visit_all
    visit_all_end zero s = refl
    visit_all_end (suc k) s = refl

    pub visit_all-Visited :
        (ns : List Location) (k : ℕ) (s : Search)
        → Inv m start goal P s
        → IsSeen s current
        → ((q : Location) → q ∈ ns → IsNear current q × IsFree m q)
        → Visited P ns s (visit_all goal current (ns ++ replicate k no_location) s)
    unfolding visit_all
    visit_all-Visited [] k s i seen near =
        rw (visit_all_end k s)
          (record { inv = i; keeps = λ q h. h; all = λ q h. elim h [ ]; work = omega arith })
    visit_all-Visited (next ∷ ns) k s i seen near =
        let first = near next (inl refl) in
        let one = visit-Visited next s i seen first.0 first.1 in
        let rest =
          visit_all-Visited ns k (visit goal current next s) one.inv (one.keeps current seen)
            (λ q h. near q (inr h)) in
        rw (IsFree-ne-no_location next first.1) (record {
          inv = rest.inv;
          keeps = λ q h. rest.keeps q (one.keeps q h);
          all = λ q. elim [ inl e ↦ rest.keeps q (one.all q (inl e)) | inr h ↦ rest.all q h ];
          work = omega (arith, one.work, rest.work);
        })
