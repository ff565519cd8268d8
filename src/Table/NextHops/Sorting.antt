-- ===== src/Table/NextHops/Sorting.antt =====
-- Sorting by cost keeps the next hops and puts them in order.
use ndn_bier.Prelude.{
  Occurs-self, ℕ, ◌≤◌, inl, inr, List, [], ◌∷◌, arith, ltb, Bool-cases, All, Pairs, Occurs,
  All-Occurs, All-map_imp,
}
use ndn_bier.Table.NextHops.{FibNextHopEntry, insert_by_cost, sort_onto, sort_by_cost}

abbrev pub CostLe : FibNextHopEntry → FibNextHopEntry → Type 0
CostLe a b = a.cost ≤ b.cost

All-insert {κ} :
    (P : FibNextHopEntry → Type κ) (nh : FibNextHopEntry) (xs : List FibNextHopEntry)
    → P nh
    → All P xs
    → All P (insert_by_cost nh xs)
unfolding insert_by_cost
All-insert P nh [] p h = (p, tt)
All-insert P nh (x ∷ xs) p h = elim (Bool-cases (ltb nh.cost x.cost)) [
  | inl less ↦ rw less (p, h)
  | inr more ↦ rw more (h.0, All-insert P nh xs p h.1)
]

insert-Pairs :
    (nh : FibNextHopEntry) (xs : List FibNextHopEntry)
    → Pairs CostLe xs
    → Pairs CostLe (insert_by_cost nh xs)
unfolding insert_by_cost
insert-Pairs nh [] s = (tt, tt)
insert-Pairs nh (x ∷ xs) s = elim (Bool-cases (ltb nh.cost x.cost)) [
  | inl less ↦
      let first : nh.cost ≤ x.cost = ground arith in
      rw less ((first, All-map_imp _ _ (λ y h. le_trans3 first h) xs s.0), s)
  | inr more ↦
      let first : x.cost ≤ nh.cost = ground arith in
      rw more (All-insert (CostLe x) nh xs first s.0, insert-Pairs nh xs s.1)
]
  where
    le_trans3 : {a b c : ℕ} → a ≤ b → b ≤ c → a ≤ c
    le_trans3 p q = omega arith

sort_onto-Pairs :
    (sorted rest : List FibNextHopEntry)
    → Pairs CostLe sorted
    → Pairs CostLe (sort_onto sorted rest)
unfolding sort_onto
sort_onto-Pairs sorted [] s = s
sort_onto-Pairs sorted (nh ∷ rest) s =
    sort_onto-Pairs (insert_by_cost nh sorted) rest (insert-Pairs nh sorted s)

pub sort_by_cost-Pairs : (l : List FibNextHopEntry) → Pairs CostLe (sort_by_cost l)
unfolding sort_by_cost
sort_by_cost-Pairs l = sort_onto-Pairs [] l tt

All-uninsert {κ} :
    (P : FibNextHopEntry → Type κ) (nh : FibNextHopEntry) (xs : List FibNextHopEntry)
    → All P (insert_by_cost nh xs)
    → P nh × All P xs
unfolding insert_by_cost
All-uninsert P nh [] h = h
All-uninsert P nh (x ∷ xs) h = elim (Bool-cases (ltb nh.cost x.cost)) [
  | inl less ↦ let h' = rw less at h in (h'.0, h'.1)
  | inr more ↦
      let h' = rw more at h in let (p, rest) = All-uninsert P nh xs h'.1 in (p, (h'.0, rest))
]

All-sort_onto {κ} :
    (P : FibNextHopEntry → Type κ) (sorted rest : List FibNextHopEntry)
    → All P sorted
    → All P rest
    → All P (sort_onto sorted rest)
unfolding sort_onto
All-sort_onto P sorted [] s h = s
All-sort_onto P sorted (nh ∷ rest) s h =
    All-sort_onto P (insert_by_cost nh sorted) rest (All-insert P nh sorted h.0 s) h.1

All-unsort_onto {κ} :
    (P : FibNextHopEntry → Type κ) (sorted rest : List FibNextHopEntry)
    → All P (sort_onto sorted rest)
    → All P sorted × All P rest
unfolding sort_onto
All-unsort_onto P sorted [] h = (h, tt)
All-unsort_onto P sorted (nh ∷ rest) h =
    let (s, r) = All-unsort_onto P (insert_by_cost nh sorted) rest h in
    let (p, s') = All-uninsert P nh sorted s in (s', (p, r))

-- Sorting keeps a property of all elements, both ways.
pub All-sort_by_cost {κ} :
    (P : FibNextHopEntry → Type κ) (l : List FibNextHopEntry)
    → (All P l → All P (sort_by_cost l)) × (All P (sort_by_cost l) → All P l)
unfolding sort_by_cost
All-sort_by_cost P l = (λ h. All-sort_onto P [] l tt h, λ h. (All-unsort_onto P [] l h).1)

-- What stands in the sorted list stands in the list.
pub Occurs-sort_by_cost :
    (l : List FibNextHopEntry) (nh : FibNextHopEntry) → Occurs nh (sort_by_cost l) → Occurs nh l
Occurs-sort_by_cost l nh o =
    All-Occurs (λ x. Occurs x l) (sort_by_cost l) nh
      ((All-sort_by_cost (λ x. Occurs x l) l).0 (Occurs-self l)) o
