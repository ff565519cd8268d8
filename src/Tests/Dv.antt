-- ===== src/Tests/Dv.antt =====
-- A destination with three hops, and a prefix that moves from one face to another.
use ndn_bier.Prelude.{ℕ, ◌≡◌, refl, inl, inr, true, false, List, [], ◌∷◌, arith, Occurs}
use ndn_bier.Prelude.Maps.{Map, lookup, insert, delete, Distinct}
use ndn_bier.Encoding.Name.{Name}
use ndn_bier.Dv.Rib.{
  Rib, no_lowest, lower, lowest_step, lowest_loop, same_lowest, refresh, entry_set, rib_set,
  remove_hop, remove_next_hop, prune_loop, prune, refresh_if_dirty, has,
}
use ndn_bier.Dv.Rib.Selection.{IsLowest, lowest_loop-IsLowest}
use ndn_bier.Dv.Rib.Invariant.{IsRib, IsPruned}
use ndn_bier.Dv.Rib.Runs.{Reach, here, next, set_cost, empty_rib, Reach-IsRib}
use ndn_bier.Dv.Fib.{
  FibEntry, Fib, register, unregister, absorb, merge_new, unregisters, final_entries, registers,
  merged, update_h,
}
use ndn_bier.Dv.Fib.Merge.{cost_at, lowest_at, FacesDistinct}
use ndn_bier.Dv.Fib.Replay.{run_command, run_commands}
use ndn_bier.Dv.Fib.Mirror.{Mirrors, IsUpdated, entries_of, update_h-IsUpdated}

dv_program : Unit {0}
unfolding lookup insert delete lower lowest_step lowest_loop same_lowest refresh entry_set rib_set
    remove_hop remove_next_hop prune_loop prune refresh_if_dirty has absorb merge_new unregisters
    final_entries registers merged update_h cost_at lowest_at run_command run_commands
dv_program = tt

abbrev costs : Map ℕ
costs = (7, 3) ∷ (4, 3) ∷ (9, 2) ∷ []

abbrev other_order : Map ℕ
other_order = (9, 2) ∷ (7, 3) ∷ (4, 3) ∷ []

two_best :
    lowest_loop no_lowest costs ≡ record { next_hop1 = 9; lowest1 = 2; next_hop2 = 4; lowest2 = 3 }
unfolding dv_program
two_best = refl

costs-Distinct : Distinct costs
costs-Distinct = ((ground arith, (ground arith, tt)), ((ground arith, tt), (tt, tt)))

other_order-Distinct : Distinct other_order
other_order-Distinct = ((ground arith, (ground arith, tt)), ((ground arith, tt), (tt, tt)))

lowest_loop-IsLowest_example : IsLowest costs (lowest_loop no_lowest costs)
lowest_loop-IsLowest_example = lowest_loop-IsLowest costs costs-Distinct

there : (e : ℕ × ℕ) → Occurs e other_order → Occurs e costs
there e (inl a) = inr (inr (inl a))
there e (inr (inl b)) = inl b
there e (inr (inr (inl c))) = inr (inl c)
there e (inr (inr (inr x))) = absurd x

back : (e : ℕ × ℕ) → Occurs e costs → Occurs e other_order
back e (inl b) = inr (inl b)
back e (inr (inl c)) = inr (inr (inl c))
back e (inr (inr (inl a))) = inl a
back e (inr (inr (inr x))) = absurd x

abbrev name_of : ℕ → Name
name_of n = record { typ = 8; val = n ∷ [] } ∷ []

abbrev hash_first : Name → ℕ
hash_first [] = 0
hash_first (c ∷ rest) = byte c.val
  where
    byte : List ℕ → ℕ
    byte [] = 0
    byte (b ∷ bs) = b

abbrev one_set : Rib
one_set = (rib_set hash_first (name_of 1) (name_of 9) 2 empty_rib).0

abbrev two_set : Rib
two_set = (rib_set hash_first (name_of 1) (name_of 4) 3 one_set).0

way : Reach hash_first empty_rib two_set
way =
    next (next here (set_cost empty_rib (name_of 1) (name_of 9) 2))
      (set_cost one_set (name_of 1) (name_of 4) 3)

has_test : has hash_first (name_of 1) two_set ≡ true
unfolding dv_program
has_test = refl

removed_test : has hash_first (name_of 1) (remove_next_hop hash_first (name_of 9) one_set).0 ≡ false
unfolding dv_program
removed_test = refl

Reach-IsRib_example : IsRib two_set × IsPruned (prune two_set).0
Reach-IsRib_example = Reach-IsRib way

-- Prefix 1 is on face 10 at cost 5.
abbrev fib : Fib
fib = record {
  names = (1, name_of 1) ∷ [];
  prefixes = (1, record { face_id = 10; cost = 5; prev_cost = 0 } ∷ []) ∷ [];
  mark = [];
}

abbrev moved : List FibEntry
moved =
    record { face_id = 20; cost = 8; prev_cost = 0 }
    ∷ record { face_id = 20; cost = 6; prev_cost = 0 }
    ∷ []

commands_test :
    (update_h 1 (name_of 1) moved fib).1
    ≡ unregister (name_of 1) 10 ∷ register (name_of 1) 20 6 ∷ []
unfolding dv_program
commands_test = refl

fib-FacesDistinct : FacesDistinct (entries_of 1 fib)
unfolding dv_program
fib-FacesDistinct = (tt, tt)

fib-Mirrors : Mirrors ((10, 5) ∷ []) (entries_of 1 fib)
unfolding dv_program
fib-Mirrors face = ground arith

update_h-IsUpdated_example :
    IsUpdated 1 moved fib
      (update_h 1 (name_of 1) moved fib).0
      (run_commands (update_h 1 (name_of 1) moved fib).1 ((10, 5) ∷ []))
update_h-IsUpdated_example =
    update_h-IsUpdated 1 (name_of 1) moved fib ((10, 5) ∷ []) fib-FacesDistinct fib-Mirrors
