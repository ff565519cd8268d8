-- ===== src/Table/Rib.antt =====
-- The RIB of the forwarder: ndnd/fw/table/rib.go. An operation gives the table after it, the calls that
-- it makes of the FIB-strategy table, and what it tells the readvertisers, each in order. The name of
-- the root is nil; no other name in the tree is empty.
pub mod Changes
pub mod Costs
pub mod Counting
pub mod Least
pub mod Updates
pub mod Routes
use ndn_bier.Prelude.{
  ℕ, Bool, true, false, ◌&&◌, not, Option, none, some, List, [], ◌∷◌, ◌++◌, length, ltb, ◌==◌,
  bit_and, if◌then◌else◌, map,
}
use ndn_bier.Prelude.Maps.{Map, lookup, insert}
use ndn_bier.Encoding.Name.{Component, Name}
use ndn_bier.Table.FibTree.Lookups.{FibOp, op_insert_next_hop, op_clear_next_hops}
use ndn_bier.Table.NameTree.{
  Node, Children, Shape, node, leaf, child, payload, is_bare, find_path, find_exact, fill_update,
  update_exact, prune_node, delete_child,
}
use ndn_bier.Table.NameTree.Walk.{walk}

pub record Route : Type 0 where
  pub face_id : ℕ
  pub origin : ℕ
  pub cost : ℕ
  pub flags : ℕ
  pub expiration_period : Option ℕ

pub data Readvertise : Type 0 where
  announce : Name → Route → Readvertise
  withdraw : Name → Route → Readvertise

abbrev pub rib_shape : (Component → ℕ) → Shape ℕ (List Route)
rib_shape hash = record {
  same = λ a b. a == b;
  key = hash;
  fresh = [];
  is_empty = λ routes. length routes == 0;
}

abbrev pub RibTree : Type 0
RibTree = Node ℕ (List Route)

abbrev pub new_rib : RibTree
new_rib = node [] [] leaf

pub record RibResult : Type 0 where
  pub rib : RibTree
  pub fib_calls : List FibOp
  pub readvertised : List Readvertise

-- `RouteFlagChildInherit` is 1 and `RouteFlagCapture` is 2.
abbrev pub has_child_inherit_flag : Route → Bool
has_child_inherit_flag r = not (bit_and r.flags 1 == 0)

abbrev pub has_capture_flag : Route → Bool
has_capture_flag r = not (bit_and r.flags 2 == 0)

unfoldable pub has_capture_route : List Route → Bool
has_capture_route [] = false
has_capture_route (r ∷ routes) = if has_capture_flag r then true else has_capture_route routes

-- The routes that one entry hands down: up to the first one that captures.
unfoldable pub inherited_of : List Route → List Route
inherited_of [] = []
inherited_of (r ∷ routes) =
    let rest = if has_capture_flag r then [] else inherited_of routes in
    if has_child_inherit_flag r then r ∷ rest else rest

-- The same of an entry and of all its ancestors.
unfoldable pub inherited : List (List Route) → List Route
unfolding inherited_of
inherited [] = []
inherited (routes ∷ up) = inherited_of routes ++ inherited up

-- The routes that count for an entry, whose ancestors have the routes `up`.
unfoldable pub effective_routes : List Route → List (List Route) → List Route
unfolding has_capture_route inherited
effective_routes routes up =
    if has_capture_route routes then routes else routes ++ inherited (routes ∷ up)

abbrev pub is_cheaper : ℕ → Option ℕ → Bool
is_cheaper cost none = true
is_cheaper cost (some old) = ltb cost old

-- The minimum cost for each face.
unfoldable pub min_costs_onto : Map ℕ → List Route → Map ℕ
unfolding lookup insert
min_costs_onto costs [] = costs
min_costs_onto costs (r ∷ routes) =
    min_costs_onto
      (if is_cheaper r.cost (lookup r.face_id costs) then insert r.face_id r.cost costs else costs)
      routes

abbrev pub name_or_nil : Name → Option Name
name_or_nil [] = none
name_or_nil (c ∷ name) = some (c ∷ name)

abbrev pub insert_calls : Name → Map ℕ → List FibOp
insert_calls name costs = map (λ e. op_insert_next_hop name e.0 e.1) costs

-- Clears the next hops of an entry, sets them when it has routes, and goes on to its children.
unfoldable mutual
  unfolding effective_routes min_costs_onto

  pub update_next_hops : List (List Route) → RibTree → List FibOp
  update_next_hops up (node name routes cs) =
      let set = insert_calls name (min_costs_onto [] (effective_routes routes up)) in
      op_clear_next_hops (name_or_nil name)
      ∷ ((if ltb 0 (length routes) then set else []) ++ update_children (routes ∷ up) cs)

  pub update_children : List (List Route) → Children ℕ (List Route) → List FibOp
  update_children up leaf = []
  update_children up (child k n cs) = update_next_hops up n ++ update_children up cs

-- An entry with its ancestors.
unfoldable pub update_path : List RibTree → List FibOp
unfolding update_next_hops
update_path [] = []
update_path (n ∷ up) = update_next_hops (map (λ a. payload a) up) n

-- Replaces the route of the same face and origin, or appends.
unfoldable pub put_route : Route → List Route → List Route
put_route route [] = route ∷ []
put_route route (r ∷ routes) =
    let rest = put_route route routes in
    if r.face_id == route.face_id && r.origin == route.origin
    then record r {
      cost = route.cost;
      flags = route.flags;
      expiration_period = route.expiration_period;
    }
      ∷ routes
    else r ∷ rest

unfoldable pub cut_route : ℕ → ℕ → List Route → List Route
cut_route face_id origin [] = []
cut_route face_id origin (r ∷ routes) =
    let rest = cut_route face_id origin routes in
    if r.face_id == face_id && r.origin == origin then routes else r ∷ rest

unfoldable pub withdrawn : Name → ℕ → ℕ → List Route → List Readvertise
withdrawn name face_id origin [] = []
withdrawn name face_id origin (r ∷ routes) =
    let rest = withdrawn name face_id origin routes in
    if r.face_id == face_id && r.origin == origin then withdraw name r ∷ [] else rest

-- The first route to a face.
unfoldable pub cut_face : ℕ → List Route → List Route
cut_face face_id [] = []
cut_face face_id (r ∷ routes) =
    let rest = cut_face face_id routes in if r.face_id == face_id then routes else r ∷ rest

unfoldable pub first_to_face : ℕ → List Route → Option Route
first_to_face face_id [] = none
first_to_face face_id (r ∷ routes) =
    let rest = first_to_face face_id routes in if r.face_id == face_id then some r else rest

-- A subtree without the face: the subtree, the calls, the withdrawals, and whether its own entry changed.
pub record Cleaned : Type 0 where
  pub tree : RibTree
  pub calls : List FibOp
  pub log : List Readvertise
  pub changed : Bool

pub record CleanedChildren : Type 0 where
  pub children : Children ℕ (List Route)
  pub calls : List FibOp
  pub log : List Readvertise

abbrev pub clean_entry :
    ℕ → List (List Route) → Name → List Route → CleanedChildren → Option Route → Cleaned
clean_entry face_id up name routes below none = record {
  tree = node name routes below.children;
  calls = below.calls;
  log = below.log;
  changed = false;
}
clean_entry face_id up name routes below (some r) =
    let after = node name (cut_face face_id routes) below.children in
    record {
      tree = after;
      calls = below.calls ++ update_next_hops up after;
      log = below.log ++ withdraw name r ∷ [];
      changed = true;
    }

module _ (hash : Component → ℕ) where
  -- The children of the entry go first, the entry after them. An entry that changed is pruned.
  abbrev pub keep_child : ℕ → Cleaned → CleanedChildren → CleanedChildren
  keep_child k c rest = record {
    children =
        if c.changed && is_bare (rib_shape hash) c.tree
        then delete_child (rib_shape hash) k rest.children
        else child k c.tree rest.children;
    calls = c.calls ++ rest.calls;
    log = c.log ++ rest.log;
  }

  unfoldable mutual
    unfolding cut_face first_to_face update_next_hops delete_child

    pub clean_node : ℕ → List (List Route) → RibTree → Cleaned
    clean_node face_id up (node name routes cs) =
        clean_entry face_id up name routes (clean_below face_id (routes ∷ up) cs)
          (first_to_face face_id routes)

    pub clean_below : ℕ → List (List Route) → Children ℕ (List Route) → CleanedChildren
    clean_below face_id up leaf = record { children = leaf; calls = []; log = [] }
    clean_below face_id up (child k n cs) =
        keep_child k (clean_node face_id up n) (clean_below face_id up cs)

  unfoldable pub clean_up_face : ℕ → RibTree → RibResult
  unfolding clean_node
  clean_up_face face_id root =
      let c = clean_node face_id [] root in
      record { rib = c.tree; fib_calls = c.calls; readvertised = c.log }

  unfoldable pub add_route : Name → Route → RibTree → RibResult
  unfolding fill_update put_route find_path update_path
  add_route name route root =
      let after = fill_update (rib_shape hash) name (put_route route) root in
      record {
        rib = after;
        fib_calls = update_path (find_path (rib_shape hash) name [] after);
        readvertised = announce name route ∷ [];
      }

  -- A pruned entry has neither routes nor children, and its update is the same wherever it hangs.
  abbrev pub remove_found : Name → ℕ → ℕ → Option RibTree → RibTree → RibResult
  remove_found name face_id origin none root = record {
    rib = root;
    fib_calls = [];
    readvertised = [];
  }
  remove_found name face_id origin (some n) root =
      let after = update_exact (rib_shape hash) name (cut_route face_id origin) root in
      record {
        rib = prune_node (rib_shape hash) name after;
        fib_calls = update_path (find_path (rib_shape hash) name [] after);
        readvertised = withdrawn name face_id origin (payload n);
      }

  unfoldable pub remove_route : Name → ℕ → ℕ → RibTree → RibResult
  unfolding find_exact update_exact cut_route prune_node find_path update_path withdrawn
  remove_route name face_id origin root =
      remove_found name face_id origin (find_exact (rib_shape hash) name root) root

abbrev pub with_routes : List RibTree → List RibTree
with_routes [] = []
with_routes (n ∷ ns) = if ltb 0 (length (payload n)) then n ∷ with_routes ns else with_routes ns

unfoldable pub get_all_entries : RibTree → List RibTree
unfolding walk
get_all_entries root = with_routes (walk root)
