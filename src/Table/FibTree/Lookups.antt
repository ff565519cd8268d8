-- ===== src/Table/FibTree/Lookups.antt =====
-- The tree is a map from names to values, whatever of it is pruned.
use ndn_bier.Prelude.{
  ℕ, ◌≡◌, refl, ◌∙◌, ap, subst, Bool, true, false, ◌&&◌, Option, none, some, List, [], ◌∷◌, map,
  if◌then◌else◌, arith,
}
use ndn_bier.Encoding.Name.{Name, component_equal}
use ndn_bier.Encoding.Name.Prefix.{component_equal_sound, component_equal_refl}
use ndn_bier.Table.FibEntry.{
  FibValue, no_value, no_information, has_next_hops, has_strategy, put_value_hop, cut_value_hop,
  clear_value_hops, set_value_strategy, put_hop, cut_hop,
}
use ndn_bier.Table.NameTree.{Laws, fill_update, update_exact, prune_node, first_up, find_path}
use ndn_bier.Table.NameTree.View.{
  view, keys_equal, view-fill_update, view-update_exact, view-prune_node,
}
use ndn_bier.Table.NameTree.Longest.{longest, longest-cong, first_up-find_path}
use ndn_bier.Table.FibTree.{
  FibTree, fib_shape, new_fib_tree, find_next_hops, find_strategy, insert_next_hop, clear_next_hops,
  remove_next_hop, set_strategy, unset_strategy, hops_of, strategy_of,
}

-- The calls that change a FIB-strategy table.
pub data FibOp : Type 0 where
  op_insert_next_hop : Name → ℕ → ℕ → FibOp
  op_clear_next_hops : Option Name → FibOp
  op_remove_next_hop : Name → ℕ → FibOp
  op_set_strategy : Name → Name → FibOp
  op_unset_strategy : Name → FibOp

-- The abstract table.
abbrev pub FibMap : Type 0
FibMap = Name → FibValue

abbrev pub new_fib_map : Name → FibMap
new_fib_map default_strategy [] = record { nexthops = []; strategy = some default_strategy }
new_fib_map default_strategy (c ∷ name) = no_value

abbrev pub same_name : Name → Name → Bool
same_name [] [] = true
same_name [] (d ∷ ds) = false
same_name (c ∷ cs) [] = false
same_name (c ∷ cs) (d ∷ ds) = component_equal c d && same_name cs ds

abbrev pub at_name : Name → (FibValue → FibValue) → FibMap → FibMap
at_name name f m other = if same_name name other then f (m other) else m other

unfoldable pub fib_map_step : FibOp → FibMap → FibMap
unfolding put_hop cut_hop
fib_map_step (op_insert_next_hop name nexthop cost) m = at_name name (put_value_hop nexthop cost) m
fib_map_step (op_clear_next_hops none) m = m
fib_map_step (op_clear_next_hops (some name)) m = at_name name clear_value_hops m
fib_map_step (op_remove_next_hop name nexthop) m = at_name name (cut_value_hop nexthop) m
fib_map_step (op_set_strategy name strategy) m = at_name name (set_value_strategy (some strategy)) m
fib_map_step (op_unset_strategy name) m = at_name name (set_value_strategy none) m

unfoldable pub fib_tree_step : FibOp → FibTree → FibTree
unfolding insert_next_hop clear_next_hops remove_next_hop set_strategy unset_strategy
fib_tree_step (op_insert_next_hop name nexthop cost) root = insert_next_hop name nexthop cost root
fib_tree_step (op_clear_next_hops name) root = clear_next_hops name root
fib_tree_step (op_remove_next_hop name nexthop) root = remove_next_hop name nexthop root
fib_tree_step (op_set_strategy name strategy) root = set_strategy name strategy root
fib_tree_step (op_unset_strategy name) root = unset_strategy name root

pub no_information_sound : (v : FibValue) → no_information v ≡ true → v ≡ no_value
no_information_sound v h = ground arith

fib_laws : Laws fib_shape
fib_laws = record {
  same_iff = λ a b. (
    component_equal_sound a b,
    λ e. subst (λ x. component_equal a x ≡ true) e (component_equal_refl a),
  );
  empty_fresh = no_information_sound;
}

abbrev view_fib : FibTree → FibMap
view_fib root name = view fib_shape name root

map_self : (name : Name) → map (λ c. c) name ≡ name
map_self [] = refl
map_self (c ∷ name) = ap (λ cs. c ∷ cs) (map_self name)

keys-same_name :
    (name other : Name) → keys_equal fib_shape (map (λ c. c) name) other ≡ same_name name other
keys-same_name [] [] = refl
keys-same_name [] (d ∷ ds) = refl
keys-same_name (c ∷ cs) [] = refl
keys-same_name (c ∷ cs) (d ∷ ds) = ap (λ b. component_equal c d && b) (keys-same_name cs ds)

view-fill :
    (name : Name) (f : FibValue → FibValue) (root : FibTree) (other : Name)
    → view_fib (fill_update fib_shape name f root) other ≡ at_name name f (view_fib root) other
view-fill name f root other =
    view-fill_update fib_shape fib_laws root other name f ∙ rw (keys-same_name name other) refl

view-exact :
    (name : Name) (f : FibValue → FibValue) (root : FibTree) (other : Name)
    → f no_value ≡ no_value
    → view_fib (update_exact fib_shape name f root) other ≡ at_name name f (view_fib root) other
view-exact name f root other e =
    view-update_exact fib_shape fib_laws root other name f e ∙ rw (keys-same_name name other) refl

view-cut :
    (name : Name) (f : FibValue → FibValue) (root : FibTree) (other : Name)
    → f no_value ≡ no_value
    → view_fib (prune_node fib_shape name (update_exact fib_shape name f root)) other
      ≡ at_name name f (view_fib root) other
view-cut name f root other e =
    view-prune_node fib_shape fib_laws _ other name ∙ view-exact name f root other e

view-fib_tree_step :
    (op : FibOp) (root : FibTree) (other : Name)
    → view_fib (fib_tree_step op root) other ≡ fib_map_step op (view_fib root) other
unfolding fib_tree_step fib_map_step
view-fib_tree_step (op_insert_next_hop name nexthop cost) root other = view-fill name _ root other
view-fib_tree_step (op_clear_next_hops none) root other = refl
view-fib_tree_step (op_clear_next_hops (some name)) root other =
    view-exact name clear_value_hops root other refl
view-fib_tree_step (op_remove_next_hop name nexthop) root other =
    view-cut name (cut_value_hop nexthop) root other refl
view-fib_tree_step (op_set_strategy name strategy) root other = view-fill name _ root other
view-fib_tree_step (op_unset_strategy name) root other =
    view-cut name (set_value_strategy none) root other refl

pub fib_map_step-cong :
    (op : FibOp) (m m' : FibMap) (other : Name)
    → m other ≡ m' other
    → fib_map_step op m other ≡ fib_map_step op m' other
unfolding fib_map_step
fib_map_step-cong (op_insert_next_hop name nexthop cost) m m' other e = rw e refl
fib_map_step-cong (op_clear_next_hops none) m m' other e = e
fib_map_step-cong (op_clear_next_hops (some name)) m m' other e = rw e refl
fib_map_step-cong (op_remove_next_hop name nexthop) m m' other e = rw e refl
fib_map_step-cong (op_set_strategy name strategy) m m' other e = rw e refl
fib_map_step-cong (op_unset_strategy name) m m' other e = rw e refl

-- The calls in the order of the list, the last one at its head.
unfoldable pub run_fib_tree : Name → List FibOp → FibTree
unfolding fib_tree_step
run_fib_tree default_strategy [] = new_fib_tree default_strategy
run_fib_tree default_strategy (op ∷ ops) = fib_tree_step op (run_fib_tree default_strategy ops)

unfoldable pub run_fib_map : Name → List FibOp → FibMap
unfolding fib_map_step
run_fib_map default_strategy [] = new_fib_map default_strategy
run_fib_map default_strategy (op ∷ ops) = fib_map_step op (run_fib_map default_strategy ops)

new_fib_tree-view :
    (default_strategy other : Name)
    → view_fib (new_fib_tree default_strategy) other ≡ new_fib_map default_strategy other
unfolding view
new_fib_tree-view default_strategy [] = refl
new_fib_tree-view default_strategy (c ∷ cs) = refl

run_fib_tree-view :
    (default_strategy : Name) (ops : List FibOp) (other : Name)
    → view_fib (run_fib_tree default_strategy ops) other ≡ run_fib_map default_strategy ops other
unfolding run_fib_tree run_fib_map
run_fib_tree-view default_strategy [] other = new_fib_tree-view default_strategy other
run_fib_tree-view default_strategy (op ∷ ops) other =
    view-fib_tree_step op (run_fib_tree default_strategy ops) other
    ∙ fib_map_step-cong op _ (run_fib_map default_strategy ops) other
        (run_fib_tree-view default_strategy ops other)

tree_longest :
    (accepts : FibValue → Bool) (h : accepts no_value ≡ false) (default_strategy : Name)
    (ops : List FibOp) (name : Name)
    → first_up accepts (find_path fib_shape name [] (run_fib_tree default_strategy ops))
      ≡ longest accepts (run_fib_map default_strategy ops) name none
unfolding first_up
tree_longest accepts h default_strategy ops name =
    first_up-find_path accepts fib_shape h (run_fib_tree default_strategy ops) name []
    ∙ rw (map_self name)
        (longest-cong accepts _ _ name none (run_fib_tree-view default_strategy ops))

-- After any sequence of calls on a new table, the next hops of a name are those that the same calls on
-- a map from names to values leave under the longest prefix of it that has next hops, and its strategy
-- is the one under the longest prefix that has a strategy.
pub run_fib_tree-lookups :
    (default_strategy : Name) (ops : List FibOp) (name : Name)
    → (find_next_hops name (run_fib_tree default_strategy ops)
        ≡ hops_of (longest has_next_hops (run_fib_map default_strategy ops) name none))
      × (find_strategy name (run_fib_tree default_strategy ops)
          ≡ strategy_of (longest has_strategy (run_fib_map default_strategy ops) name none))
unfolding find_next_hops find_strategy
run_fib_tree-lookups default_strategy ops name = (
  ap hops_of (tree_longest has_next_hops refl default_strategy ops name),
  ap strategy_of (tree_longest has_strategy refl default_strategy ops name),
)
