-- ===== src/Table/FibTree.antt =====
-- The FIB-strategy table as a tree: ndnd/fw/table/fib-strategy-tree.go. Children are found by their
-- component. A name that may be nil in the code is an option here.
pub mod Lookups
use ndn_bier.Prelude.{
  ℕ, Bool, true, false, Option, none, some, List, [], ◌∷◌, length, if◌then◌else◌, map,
}
use ndn_bier.Encoding.Name.{Component, Name, component_equal}
use ndn_bier.Table.NextHops.{FibNextHopEntry}
use ndn_bier.Table.FibEntry.{
  FibValue, no_value, no_information, has_next_hops, has_strategy, put_value_hop, cut_value_hop,
  clear_value_hops, set_value_strategy, put_hop, cut_hop,
}
use ndn_bier.Table.NameTree.{
  Node, Shape, node, leaf, payload, first_up, find_path, fill_update, update_exact, prune_node,
}
use ndn_bier.Table.NameTree.Walk.{walk}

abbrev pub fib_shape : Shape Component FibValue
fib_shape = record {
  same = component_equal;
  key = λ c. c;
  fresh = no_value;
  is_empty = no_information;
}

abbrev pub FibTree : Type 0
FibTree = Node Component FibValue

abbrev pub new_fib_tree : Name → FibTree
new_fib_tree default_strategy =
    node [] (record { nexthops = []; strategy = some default_strategy }) leaf

-- From the deepest node up, to the first one with next hops, or with a strategy.
abbrev pub hops_of : Option FibValue → List FibNextHopEntry
hops_of none = []
hops_of (some v) = v.nexthops

abbrev pub strategy_of : Option FibValue → Option Name
strategy_of none = none
strategy_of (some v) = v.strategy

unfoldable pub find_next_hops : Name → FibTree → List FibNextHopEntry
unfolding find_path first_up
find_next_hops name root = hops_of (first_up has_next_hops (find_path fib_shape name [] root))

unfoldable pub find_strategy : Name → FibTree → Option Name
unfolding find_path first_up
find_strategy name root = strategy_of (first_up has_strategy (find_path fib_shape name [] root))

unfoldable pub insert_next_hop : Name → ℕ → ℕ → FibTree → FibTree
unfolding fill_update put_hop
insert_next_hop name nexthop cost root =
    fill_update fib_shape name (put_value_hop nexthop cost) root

-- `name == nil` stands for the root of the RIB, and clears nothing.
unfoldable pub clear_next_hops : Option Name → FibTree → FibTree
unfolding update_exact
clear_next_hops none root = root
clear_next_hops (some name) root = update_exact fib_shape name clear_value_hops root

unfoldable pub remove_next_hop : Name → ℕ → FibTree → FibTree
unfolding update_exact prune_node cut_hop
remove_next_hop name nexthop root =
    prune_node fib_shape name (update_exact fib_shape name (cut_value_hop nexthop) root)

unfoldable pub set_strategy : Name → Name → FibTree → FibTree
unfolding fill_update
set_strategy name strategy root =
    fill_update fib_shape name (set_value_strategy (some strategy)) root

unfoldable pub unset_strategy : Name → FibTree → FibTree
unfolding update_exact prune_node
unset_strategy name root =
    prune_node fib_shape name (update_exact fib_shape name (set_value_strategy none) root)

unfoldable pub get_num_fib_entries : FibTree → ℕ
unfolding walk
get_num_fib_entries root = length (walk root)

abbrev pub nodes_where : (FibValue → Bool) → List FibTree → List FibTree
nodes_where accepts [] = []
nodes_where accepts (n ∷ ns) =
    if accepts (payload n) then n ∷ nodes_where accepts ns else nodes_where accepts ns

unfoldable pub get_all_fib_entries : FibTree → List FibTree
unfolding walk
get_all_fib_entries root = nodes_where has_next_hops (walk root)

unfoldable pub get_all_forwarding_strategies : FibTree → List FibTree
unfolding walk
get_all_forwarding_strategies root = nodes_where has_strategy (walk root)
