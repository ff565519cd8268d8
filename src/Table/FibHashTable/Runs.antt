-- ===== src/Table/FibHashTable/Runs.antt =====
-- Calls on the hash table, one after the other, and what they change of a map from names.
use ndn_bier.Prelude.{ℕ, ◌≡◌, refl, true, none, some, List, [], ◌∷◌, arith}
use ndn_bier.Prelude.Maps.{lookup}
use ndn_bier.Encoding.Name.{Name}
use ndn_bier.Encoding.Name.Prefix.{component_equal_sound, component_equal_refl}
use ndn_bier.Table.FibEntry.{
  put_value_hop, swap_out_value_hop, clear_value_hops, set_value_strategy, put_hop, swap_out_hop,
}
use ndn_bier.Table.FibTree.Lookups.{
  FibOp, op_insert_next_hop, op_clear_next_hops, op_remove_next_hop, op_set_strategy,
  op_unset_strategy, FibMap, same_name, at_name,
}
use ndn_bier.Table.FibHashTable.{
  FibHashTable, new_fib_hash_table, insert_next_hop, clear_next_hops, remove_next_hop, set_strategy,
  unset_strategy,
}
use ndn_bier.Table.FibHashTable.Lookups.{value_or}

pub same_name_sound : (a b : Name) → same_name a b ≡ true → a ≡ b
same_name_sound [] [] h = refl
same_name_sound [] (d ∷ b) h = cc
same_name_sound (c ∷ a) [] h = cc
same_name_sound (c ∷ a) (d ∷ b) h = ground (arith, component_equal_sound c d, same_name_sound a b)

pub same_name_refl : (a : Name) → same_name a a ≡ true
same_name_refl [] = refl
same_name_refl (c ∷ a) = ground (arith, component_equal_refl c, same_name_refl a)

-- What a call changes at the name, where the last next hop takes the place of a removed one.
unfoldable pub swap_map_step : FibOp → FibMap → FibMap
unfolding put_hop swap_out_hop
swap_map_step (op_insert_next_hop name nexthop cost) m = at_name name (put_value_hop nexthop cost) m
swap_map_step (op_clear_next_hops none) m = at_name [] clear_value_hops m
swap_map_step (op_clear_next_hops (some name)) m = at_name name clear_value_hops m
swap_map_step (op_remove_next_hop name nexthop) m = at_name name (swap_out_value_hop nexthop) m
swap_map_step (op_set_strategy name strategy) m =
    at_name name (set_value_strategy (some strategy)) m
swap_map_step (op_unset_strategy name) m = at_name name (set_value_strategy none) m

-- The name of a call is in use.
abbrev pub IsAbout : (Name → Type 0) → FibOp → Type 0
IsAbout Used (op_insert_next_hop name nexthop cost) = Used name
IsAbout Used (op_clear_next_hops none) = Used []
IsAbout Used (op_clear_next_hops (some name)) = Used name
IsAbout Used (op_remove_next_hop name nexthop) = Used name
IsAbout Used (op_set_strategy name strategy) = Used name
IsAbout Used (op_unset_strategy name) = Used name

module _ (hash : Name → ℕ) (m : ℕ) where
  -- A name that is nil has the hash of the empty name.
  unfoldable pub fib_hash_step : FibOp → FibHashTable → FibHashTable
  unfolding insert_next_hop clear_next_hops remove_next_hop set_strategy unset_strategy
  fib_hash_step (op_insert_next_hop name nexthop cost) t =
      insert_next_hop hash m name nexthop cost t
  fib_hash_step (op_clear_next_hops none) t = clear_next_hops hash m [] t
  fib_hash_step (op_clear_next_hops (some name)) t = clear_next_hops hash m name t
  fib_hash_step (op_remove_next_hop name nexthop) t = remove_next_hop hash m name nexthop t
  fib_hash_step (op_set_strategy name strategy) t = set_strategy hash m name strategy t
  fib_hash_step (op_unset_strategy name) t = unset_strategy hash m name t

  abbrev pub view_hash : FibHashTable → FibMap
  view_hash t n = value_or (lookup (hash n) t.real_table)

  -- The calls in the order of the list, the last one at its head.
  unfoldable pub run_fib_hash : Name → List FibOp → FibHashTable
  unfolding fib_hash_step new_fib_hash_table
  run_fib_hash default_strategy [] = new_fib_hash_table hash m default_strategy
  run_fib_hash default_strategy (op ∷ ops) = fib_hash_step op (run_fib_hash default_strategy ops)
