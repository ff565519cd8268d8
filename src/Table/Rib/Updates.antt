-- ===== src/Table/Rib/Updates.antt =====
-- The FIB next hops that an update of an entry leaves for its name.
use ndn_bier.Prelude.{
  ℕ, suc, ◌<◌, ◌≡◌, refl, sym, ◌∙◌, ap, subst, Bool, true, false, Option, none, some, List, [], ◌∷◌,
  ◌++◌, length, ltb, ◌==◌, if◌then◌else◌, arith, All, All-append,
}
use ndn_bier.Prelude.Maps.{Map, Distinct, lookup, lookup-absent}
use ndn_bier.Encoding.Name.{Component, Name}
use ndn_bier.Table.NextHops.{FibNextHopEntry}
use ndn_bier.Table.FibTree.Lookups.{
  FibOp, FibMap, op_insert_next_hop, op_clear_next_hops, op_remove_next_hop, op_set_strategy,
  op_unset_strategy, fib_map_step, same_name,
}
use ndn_bier.Table.FibHashTable.Runs.{same_name_refl}
use ndn_bier.Table.FibHashTable.Hops.{cost_to, cost_to-put_hop}
use ndn_bier.Table.NameTree.{Children, node, leaf, child, node_name, payload}
use ndn_bier.Table.NameTree.Exact.{HasDepths, AllDepths}
use ndn_bier.Table.Rib.{
  Route, RibTree, rib_shape, min_costs_onto, effective_routes, insert_calls, name_or_nil,
  update_next_hops, update_children,
}
use ndn_bier.Table.Rib.Costs.{
  cheapest, lower, same_lookup, min_costs_onto-cheapest, min_costs_onto-Distinct,
}
use ndn_bier.Table.Rib.Least.{IsSetCost, cheapest-IsSetCost}

-- The calls, one after another, on a map from names to values.
unfoldable pub apply_calls : List FibOp → FibMap → FibMap
unfolding fib_map_step
apply_calls [] m = m
apply_calls (op ∷ calls) m = apply_calls calls (fib_map_step op m)

apply_calls-append :
    (xs ys : List FibOp) (m : FibMap) → apply_calls (xs ++ ys) m ≡ apply_calls ys (apply_calls xs m)
unfolding apply_calls
apply_calls-append [] ys m = refl
apply_calls-append (x ∷ xs) ys m = apply_calls-append xs ys (fib_map_step x m)

-- Calls about names of another length say nothing of a name.
abbrev pub is_about_longer : ℕ → FibOp → Bool
is_about_longer d (op_insert_next_hop name nexthop cost) = ltb d (length name)
is_about_longer d (op_clear_next_hops none) = true
is_about_longer d (op_clear_next_hops (some name)) = ltb d (length name)
is_about_longer d (op_remove_next_hop name nexthop) = ltb d (length name)
is_about_longer d (op_set_strategy name strategy) = ltb d (length name)
is_about_longer d (op_unset_strategy name) = ltb d (length name)

longer_differs : (a b : Name) → ltb (length b) (length a) ≡ true → same_name a b ≡ false
longer_differs [] b h = absurd (ground arith)
longer_differs (c ∷ a) [] h = refl
longer_differs (c ∷ a) (d ∷ b) h = ground (arith, longer_differs a b)

step_longer :
    (op : FibOp) (m : FibMap) (n : Name)
    → is_about_longer (length n) op ≡ true
    → fib_map_step op m n ≡ m n
unfolding fib_map_step
step_longer (op_insert_next_hop name nexthop cost) m n h = rw (longer_differs name n h) refl
step_longer (op_clear_next_hops none) m n h = refl
step_longer (op_clear_next_hops (some name)) m n h = rw (longer_differs name n h) refl
step_longer (op_remove_next_hop name nexthop) m n h = rw (longer_differs name n h) refl
step_longer (op_set_strategy name strategy) m n h = rw (longer_differs name n h) refl
step_longer (op_unset_strategy name) m n h = rw (longer_differs name n h) refl

apply_calls-longer :
    (calls : List FibOp) (m : FibMap) (n : Name)
    → All (λ op. is_about_longer (length n) op ≡ true) calls
    → apply_calls calls m n ≡ m n
unfolding apply_calls
apply_calls-longer [] m n h = refl
apply_calls-longer (op ∷ calls) m n h =
    apply_calls-longer calls (fib_map_step op m) n h.1 ∙ step_longer op m n h.0

insert_calls-longer :
    (d : ℕ) (name : Name) (costs : Map ℕ)
    → d < length name
    → All (λ op. is_about_longer d op ≡ true) (insert_calls name costs)
insert_calls-longer d name [] h = tt
insert_calls-longer d name (e ∷ costs) h = (ground (arith, h), insert_calls-longer d name costs h)

clear-longer :
    (d : ℕ) (name : Name)
    → d < length name
    → is_about_longer d (op_clear_next_hops (name_or_nil name)) ≡ true
clear-longer d [] h = refl
clear-longer d (c ∷ name) h = ground (arith, h)

sets-longer :
    (d : ℕ) (name : Name) (costs : Map ℕ) (b : Bool)
    → d < length name
    → All (λ op. is_about_longer d op ≡ true) (if b then insert_calls name costs else [])
sets-longer d name costs true h = insert_calls-longer d name costs h
sets-longer d name costs false h = tt

module _ (hash : Component → ℕ) where
  mutual
    unfolding update_next_hops HasDepths

    updates-longer :
        (n : RibTree) (d e : ℕ) (up : List (List Route))
        → d < e
        → HasDepths (rib_shape hash) e n
        → All (λ op. is_about_longer d op ≡ true) (update_next_hops up n)
    updates-longer (node name routes cs) d e up less h = (
      clear-longer d name (omega (arith, h.0, less)),
      All-append _ _ _ (sets-longer d name _ (ltb 0 (length routes)) (omega (arith, h.0, less)))
          (children-longer cs d (suc e) (routes ∷ up) (omega (arith, less)) h.1),
    )

    children-longer :
        (cs : Children ℕ (List Route)) (d e : ℕ) (up : List (List Route))
        → d < e
        → AllDepths (rib_shape hash) e cs
        → All (λ op. is_about_longer d op ≡ true) (update_children up cs)
    children-longer leaf d e up less h = tt
    children-longer (child k n cs) d e up less h =
        All-append _ _ _ (updates-longer n d e up less h.0) (children-longer cs d e up less h.1)

abbrev first_of : Option ℕ → Option ℕ → Option ℕ
first_of none o = o
first_of (some c) o = some c

put_step :
    (face k c : ℕ) (name : Name) (m : FibMap)
    → cost_to face (fib_map_step (op_insert_next_hop name k c) m name).nexthops
      ≡ (if k == face then some c else cost_to face (m name).nexthops)
unfolding fib_map_step
put_step face k c name m = rw (same_name_refl name) (cost_to-put_hop face k c (m name).nexthops)

apply_calls-insert :
    (face : ℕ) (name : Name) (costs : Map ℕ) (m : FibMap)
    → Distinct costs
    → cost_to face (apply_calls (insert_calls name costs) m name).nexthops
      ≡ first_of (lookup face costs) (cost_to face (m name).nexthops)
unfolding apply_calls lookup
apply_calls-insert face name [] m d = refl
apply_calls-insert face name (e ∷ costs) m d =
    apply_calls-insert face name costs (fib_map_step (op_insert_next_hop name e.0 e.1) m) d.1
    ∙ ap (first_of (lookup face costs)) (put_step face e.0 e.1 name m)
    ∙ ground (arith, lookup-absent e.0 costs d.0, same_lookup e.0 face costs)

abbrev expected_cost : ℕ → List Route → List (List Route) → Option ℕ
expected_cost face routes up =
    if ltb 0 (length routes) then cheapest face (effective_routes routes up) else none

nothing_before :
    (face : ℕ) (o : Option ℕ) → first_of (lower (lookup face []) o) (cost_to face []) ≡ o
unfolding lookup cost_to
nothing_before face none = refl
nothing_before face (some c) = refl

no_hops : (face : ℕ) (nhs : List FibNextHopEntry) → nhs ≡ [] → cost_to face nhs ≡ none
no_hops face nhs h = ap (cost_to face) h ∙ (unfold cost_to in refl)

sets-cost :
    (face : ℕ) (name : Name) (routes effective : List Route) (m : FibMap) (b : Bool)
    → (m name).nexthops ≡ []
    → cost_to face
        (apply_calls
          (if b then insert_calls name (min_costs_onto [] effective) else [])
          m
          name).nexthops
      ≡ (if b then cheapest face effective else none)
sets-cost face name routes effective m true h =
    apply_calls-insert face name (min_costs_onto [] effective) m
      (min_costs_onto-Distinct [] effective tt)
    ∙ rw (h, min_costs_onto-cheapest face [] effective)
        (nothing_before face (cheapest face effective))
sets-cost face name routes effective m false h =
    no_hops face (apply_calls [] m name).nexthops (unfold apply_calls in h)

cleared :
    (c : Component) (name : Name) (m : FibMap)
    → (fib_map_step (op_clear_next_hops (some (c ∷ name))) m (c ∷ name)).nexthops ≡ []
unfolding fib_map_step
cleared c name m = rw (same_name_refl (c ∷ name)) refl

updated_cost :
    (hash : Component → ℕ) (d : ℕ) (n : RibTree) (up : List (List Route)) (m : FibMap) (face : ℕ)
    → HasDepths (rib_shape hash) (suc d) n
    → cost_to face (apply_calls (update_next_hops up n) m (node_name n)).nexthops
      ≡ expected_cost face (payload n) up
unfolding update_next_hops HasDepths apply_calls
updated_cost hash d (node [] routes cs) up m face h = absurd (omega (arith, h.0))
updated_cost hash d (node (c ∷ name) routes cs) up m face h =
    let m1 = fib_map_step (op_clear_next_hops (some (c ∷ name))) m in
    let sets =
      if ltb 0 (length routes)
      then insert_calls (c ∷ name) (min_costs_onto [] (effective_routes routes up))
      else [] in
    let below = update_children (routes ∷ up) cs in
    ap (λ k. cost_to face (k (c ∷ name)).nexthops) (apply_calls-append sets below m1)
    ∙ ap (λ v. cost_to face v.nexthops)
        (apply_calls-longer below (apply_calls sets m1) (c ∷ name) (
          children-longer hash cs (length (c ∷ name)) (suc (suc d)) (routes ∷ up)
            (omega (arith, h.0)) h.1))
    ∙ sets-cost face (c ∷ name) routes (effective_routes routes up) m1 (ltb 0 (length routes))
        (cleared c name m)

-- After an update of an entry that is not the root, in a tree whose names are as long as their nodes are
-- deep and with any routes at its ancestors, the cost of the next hop of its name to each face is the
-- least one among the routes to the face that count for the entry, and there is no such next hop when no
-- such route counts or the entry has no routes. The routes of the entry count; if none of these has the
-- capture flag, so does a route with the child-inherit flag, of the entry or of an ancestor, before
-- which no route there has the capture flag.
pub update_next_hops-cheapest :
    (hash : Component → ℕ) (d : ℕ) (n : RibTree) (up : List (List Route)) (m : FibMap) (face : ℕ)
    → HasDepths (rib_shape hash) (suc d) n
    → IsSetCost face
        (payload n)
        up
        (cost_to face (apply_calls (update_next_hops up n) m (node_name n)).nexthops)
update_next_hops-cheapest hash d n up m face h =
    subst (IsSetCost face (payload n) up) (sym (updated_cost hash d n up m face h))
      (cheapest-IsSetCost face (payload n) up)
