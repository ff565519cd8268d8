-- ===== src/Table/NextHops.antt =====
-- Next hops of the FIB (ndnd/fw/table/fib-strategy.go) and their order by cost, as
-- ndnd/fw/fw/bestroute.go and ndnd/fw/fw/bier.go sort them. Go's `sort.Slice` is insertion sort up
-- to twelve elements, and leaves the order of equal costs open beyond that; here it is insertion
-- sort at every length.
pub mod Sorting
use ndn_bier.Prelude.{ℕ, List, [], ◌∷◌, ltb, if◌then◌else◌}

pub record FibNextHopEntry : Type 0 where
  pub nexthop : ℕ
  pub cost : ℕ

-- Before the first element that costs more.
unfoldable pub insert_by_cost : FibNextHopEntry → List FibNextHopEntry → List FibNextHopEntry
insert_by_cost nh [] = nh ∷ []
insert_by_cost nh (x ∷ xs) = if ltb nh.cost x.cost then nh ∷ x ∷ xs else x ∷ insert_by_cost nh xs

unfoldable pub sort_onto : List FibNextHopEntry → List FibNextHopEntry → List FibNextHopEntry
sort_onto sorted [] = sorted
sort_onto sorted (nh ∷ rest) = sort_onto (insert_by_cost nh sorted) rest

unfoldable pub sort_by_cost : List FibNextHopEntry → List FibNextHopEntry
unfolding insert_by_cost sort_onto
sort_by_cost nexthops = sort_onto [] nexthops
