-- ===== src/Tests/Trees.antt =====
-- The tables that are kept in name trees, with small names.
use ndn_bier.Prelude.{
  sym, ◌∙◌, ◌%◌, ◌^◌, inl, inr, take, Occurs, All-Occurs, ℕ, zero, suc, ◌≡◌, refl, ap, Bool, true,
  false, none, some, List, [], ◌∷◌, map, length, All, arith, ltb,
}
use ndn_bier.Prelude.Maps.{insert, delete}
use ndn_bier.Encoding.Name.{Component, Name, bytes_equal, component_equal}
use ndn_bier.Table.FibEntry.{has_next_hops, has_strategy, put_hop, cut_hop}
use ndn_bier.Table.NameTree.{
  node, leaf, child, find_path, find_exact, chain, fill_update, update_exact, prune, prune_node,
  delete_child, node_name,
}
use ndn_bier.Table.NameTree.Exact.{HasDepths}
use ndn_bier.Table.NameTree.Longest.{longest}
use ndn_bier.Table.NameTree.Walk.{walk, walk_loop, push_children, size, preorder, walk-preorder}
use ndn_bier.Table.Pet.{
  has_entry, snapshot_of, join, add_egress, remove_egress, find_exact_entry,
  find_longest_prefix_entry,
}
use ndn_bier.Table.Pet.Refinement.{
  PetOp, op_add_egress, op_remove_egress, op_add_next_hop, op_remove_next_hop, op_clean_up_face,
  pet_step,
}
use ndn_bier.Table.Pet.Invariant.{IsPet}
use ndn_bier.Table.Pet.Runs.{run_pet, run_map, run_pet-IsPet, run_pet-lookups}
use ndn_bier.Table.FibTree.{hops_of, strategy_of}
use ndn_bier.Table.FibTree as Tree
use ndn_bier.Table.FibTree.Lookups.{
  FibOp, new_fib_map, op_insert_next_hop, op_clear_next_hops, op_remove_next_hop, op_set_strategy,
  run_fib_tree, run_fib_map, run_fib_tree-lookups, fib_tree_step,
}
use ndn_bier.Table.FibHashTable as Hash
use ndn_bier.Table.FibHashTable.Runs.{run_fib_hash, IsAbout}
use ndn_bier.Table.FibHashTable.Hops.{cost_to}
use ndn_bier.Table.FibHashTable.Agreement.{is_named, tables_agree}
use ndn_bier.Table.Rib.{
  Route, RibTree, rib_shape, put_route, cut_route, cut_face, update_next_hops, has_capture_route,
  inherited_of, inherited, effective_routes, min_costs_onto, first_to_face, update_path, withdrawn,
}
use ndn_bier.Table.Rib as Rib
use ndn_bier.Table.Rib.Routes.{routes_under, is_under, add_and_remove-routes, clean_up_face-routes}
use ndn_bier.Table.Rib.Changes.{IsOf, IsTo, IsPut, IsCut, ChangedIf}
use ndn_bier.Table.Rib.Updates.{apply_calls, update_next_hops-cheapest}
use ndn_bier.Table.Rib.Least.{IsSetCost}

-- Components and names of one byte each, and a hash that reads the byte.
abbrev comp : ℕ → Component
comp b = record { typ = 8; val = b ∷ [] }

abbrev a : Name
a = comp b'a' ∷ []

abbrev a_b : Name
a_b = comp b'a' ∷ comp b'b' ∷ []

abbrev a_b_c : Name
a_b_c = comp b'a' ∷ comp b'b' ∷ comp b'c' ∷ []

abbrev first_byte : List ℕ → ℕ
first_byte [] = 0
first_byte (b ∷ bs) = b

abbrev byte_hash : Component → ℕ
byte_hash c = first_byte c.val

abbrev name_byte : Name → ℕ
name_byte [] = 0
name_byte (c ∷ rest) = byte_hash c

abbrev shorter : Name → Name → Bool
shorter x y = ltb (length x) (length y)

abbrev pet_ops : List PetOp
pet_ops =
    op_clean_up_face 9
    ∷ op_add_next_hop a 7 1
    ∷ op_remove_egress a_b a
    ∷ op_add_egress a_b_c a true
    ∷ op_add_egress a_b a false
    ∷ []

run_pet-IsPet_example : IsPet byte_hash (run_pet byte_hash name_byte pet_ops)
run_pet-IsPet_example = run_pet-IsPet byte_hash name_byte pet_ops

run_pet-lookups_example :
    (find_exact_entry byte_hash name_byte shorter a_b (run_pet byte_hash name_byte pet_ops)
      ≡ snapshot_of byte_hash name_byte shorter
          (run_map byte_hash name_byte pet_ops (map byte_hash a_b)))
    × (find_longest_prefix_entry byte_hash name_byte shorter a_b
          (run_pet byte_hash name_byte pet_ops)
        ≡ snapshot_of byte_hash name_byte shorter (
            join byte_hash name_byte shorter
              (longest has_entry (run_map byte_hash name_byte pet_ops) (map byte_hash a_b) none)))
run_pet-lookups_example = run_pet-lookups byte_hash name_byte shorter pet_ops a_b

-- Nothing is left of an entry that was removed.
pet_pruned :
    run_pet byte_hash name_byte (op_remove_egress a_b a ∷ op_add_egress a_b a false ∷ [])
    ≡ node [] none leaf
unfolding run_pet pet_step add_egress remove_egress fill_update chain find_exact find_path
    update_exact prune delete_child insert delete
pet_pruned = refl

walk-preorder_example :
    walk (run_pet byte_hash name_byte pet_ops) ≡ preorder (run_pet byte_hash name_byte pet_ops)
walk-preorder_example = walk-preorder (run_pet byte_hash name_byte pet_ops)

abbrev fib_ops : List FibOp
fib_ops =
    op_remove_next_hop a 4
    ∷ op_insert_next_hop a 6 2
    ∷ op_insert_next_hop a 5 2
    ∷ op_insert_next_hop a 4 9
    ∷ op_set_strategy a_b a
    ∷ op_clear_next_hops (some a_b)
    ∷ []

run_fib_tree-lookups_example :
    (Tree.find_next_hops a_b_c (run_fib_tree a fib_ops)
      ≡ hops_of (longest has_next_hops (run_fib_map a fib_ops) a_b_c none))
    × (Tree.find_strategy a_b_c (run_fib_tree a fib_ops)
        ≡ strategy_of (longest has_strategy (run_fib_map a fib_ops) a_b_c none))
run_fib_tree-lookups_example = run_fib_tree-lookups a fib_ops a_b_c

-- The parent of a removed node stays, though it holds nothing.
fib_leak :
    Tree.get_num_fib_entries
      (run_fib_tree a (op_remove_next_hop a_b 5 ∷ op_insert_next_hop a_b 5 1 ∷ []))
    ≡ 2
unfolding Tree.get_num_fib_entries run_fib_tree fib_tree_step Tree.insert_next_hop
    Tree.remove_next_hop fill_update chain update_exact prune_node delete_child put_hop cut_hop walk
    walk_loop push_children size bytes_equal component_equal
fib_leak = refl

-- A hash that tells the names in use apart.
abbrev short_hash : Name → ℕ
short_hash n = length n % 2 ^ 64

abbrev by_length : ℕ → Name
by_length zero = []
by_length (suc zero) = a
by_length (suc (suc zero)) = a_b
by_length other = a_b_c

abbrev used_names : List Name
used_names = [] ∷ a ∷ a_b ∷ a_b_c ∷ []

by_length-short_hash : All (λ n. by_length (short_hash n) ≡ n) used_names
by_length-short_hash = (refl, (refl, (refl, (refl, tt))))

short_hash_injective :
    (x y : Name) → Occurs x used_names → Occurs y used_names → short_hash x ≡ short_hash y → x ≡ y
short_hash_injective x y o u h =
    sym (All-Occurs (λ n. by_length (short_hash n) ≡ n) used_names x by_length-short_hash o)
    ∙ ap by_length h
    ∙ All-Occurs (λ n. by_length (short_hash n) ≡ n) used_names y by_length-short_hash u

a_b_c-prefixes : (i : ℕ) → Occurs (take i a_b_c) used_names
a_b_c-prefixes zero = inl refl
a_b_c-prefixes (suc zero) = inr (inl refl)
a_b_c-prefixes (suc (suc zero)) = inr (inr (inl refl))
a_b_c-prefixes (suc (suc (suc i))) = inr (inr (inr (inl refl)))

fib_ops-IsAbout : All (IsAbout (λ n. Occurs n used_names)) fib_ops
fib_ops-IsAbout =
    let at_a : Occurs a used_names = inr (inl refl) in
    let at_a_b : Occurs a_b used_names = inr (inr (inl refl)) in
    (at_a, (at_a, (at_a, (at_a, (at_a_b, (at_a_b, tt))))))

fib_ops-named : All (λ op. is_named op ≡ true) fib_ops
fib_ops-named = (refl, (refl, (refl, (refl, (refl, (refl, tt))))))

tables_agree_example :
    (Tree.find_strategy a_b_c (run_fib_tree a fib_ops)
      ≡ Hash.find_strategy short_hash 2 a_b_c (run_fib_hash short_hash 2 a fib_ops))
    × ((face : ℕ)
        → cost_to face (Tree.find_next_hops a_b_c (run_fib_tree a fib_ops))
          ≡ cost_to face
              (Hash.find_next_hops short_hash 2 a_b_c (run_fib_hash short_hash 2 a fib_ops)))
tables_agree_example =
    tables_agree short_hash 2 used_names short_hash_injective (inl refl) (omega arith) a fib_ops
      a_b_c a_b_c-prefixes fib_ops-IsAbout fib_ops-named

abbrev route : ℕ → ℕ → ℕ → ℕ → Route
route face_id origin cost flags = record {
  face_id = face_id;
  origin = origin;
  cost = cost;
  flags = flags;
  expiration_period = none;
}

-- Two routes to face 7 at /a, and one that children inherit at the root.
abbrev two_routes : List Route
two_routes = route 7 0 5 0 ∷ route 7 255 3 0 ∷ []

abbrev at_a : RibTree
at_a = node a two_routes leaf

abbrev rib : RibTree
rib = node [] (route 8 0 1 1 ∷ []) (child b'a' at_a leaf)

at_a-HasDepths : HasDepths (rib_shape byte_hash) 1 at_a
unfolding HasDepths
at_a-HasDepths = (refl, tt)

rib-HasDepths : HasDepths (rib_shape byte_hash) 0 rib
unfolding HasDepths
rib-HasDepths = (refl, ((refl, tt), tt))

update_next_hops-cheapest_example : IsSetCost 7 two_routes ((route 8 0 1 1 ∷ []) ∷ []) (
    cost_to 7
      (apply_calls
        (update_next_hops ((route 8 0 1 1 ∷ []) ∷ []) at_a)
        (new_fib_map a)
        (node_name at_a)).nexthops)
update_next_hops-cheapest_example =
    update_next_hops-cheapest byte_hash 0 at_a ((route 8 0 1 1 ∷ []) ∷ []) (new_fib_map a) 7
      at_a-HasDepths

add_and_remove-routes_example :
    ChangedIf
      (is_under byte_hash a (b'a' ∷ []))
      (IsPut (route 7 0 5 0))
      (routes_under byte_hash rib (b'a' ∷ []))
      (routes_under byte_hash (Rib.add_route byte_hash a (route 7 0 5 0) rib).rib (b'a' ∷ []))
    × ChangedIf
        (is_under byte_hash a (b'a' ∷ []))
        (IsCut (IsOf 7 0))
        (routes_under byte_hash rib (b'a' ∷ []))
        (routes_under byte_hash (Rib.remove_route byte_hash a 7 0 rib).rib (b'a' ∷ []))
add_and_remove-routes_example =
    add_and_remove-routes byte_hash a (route 7 0 5 0) rib (b'a' ∷ []) rib-HasDepths

clean_up_face-routes_example :
    IsCut
      (IsTo 7)
      (routes_under byte_hash rib (b'a' ∷ []))
      (routes_under byte_hash (Rib.clean_up_face byte_hash 7 rib).rib (b'a' ∷ []))
clean_up_face-routes_example = clean_up_face-routes byte_hash 7 rib (b'a' ∷ [])

-- The second route to the face is left.
face_left : cut_face 7 two_routes ≡ route 7 255 3 0 ∷ []
unfolding cut_face
face_left = refl

-- The next hop of a route of the root stays in the tree when the route goes.
root_calls : update_next_hops [] (node [] [] leaf) ≡ op_clear_next_hops none ∷ []
unfolding update_next_hops effective_routes min_costs_onto has_capture_route inherited inherited_of
root_calls = refl

-- An ancestor above one that captures still hands its routes down.
above_capture :
    effective_routes (route 1 0 1 0 ∷ []) ((route 2 0 1 3 ∷ []) ∷ (route 3 0 1 1 ∷ []) ∷ [])
    ≡ route 1 0 1 0 ∷ route 2 0 1 3 ∷ route 3 0 1 1 ∷ []
unfolding effective_routes has_capture_route inherited inherited_of
above_capture = refl
