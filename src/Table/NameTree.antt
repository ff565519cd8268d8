-- ===== src/Table/NameTree.antt =====
-- The name tree under which ndnd/fw/table keeps its tables (pet.go, rib.go, fib-strategy-tree.go and
-- pit-cs-tree.go repeat its code, with another payload each). A node is what it is for and what hangs
-- below it: `parent` is the path by which it was reached, and its depth is the length of its name.
-- A function descends along the components that its node does not have yet, and `rest` is those.
pub mod View
pub mod Longest
pub mod Walk
pub mod Exact
pub mod Tidy
use ndn_bier.Prelude.{
  ℕ, zero, suc, ◌+◌, Bool, true, false, ◌&&◌, Option, none, some, List, [], ◌∷◌, ◌++◌, map, length,
  ◌==◌, if◌then◌else◌, ◌↔◌, ◌≡◌,
}
use ndn_bier.Encoding.Name.{Component, Name}

mutual
  pub data Node (K P : Type 0) : Type 0 where
    node : Name → P → Children K P → Node K P

  pub data Children (K P : Type 0) : Type 0 where
    leaf : Children K P
    child : K → Node K P → Children K P → Children K P

-- How a table uses the tree: the key of a component among the children, the payload of a new node,
-- and which payload holds nothing.
pub record Shape (K P : Type 0) : Type 0 where
  pub same : K → K → Bool
  pub key : Component → K
  pub fresh : P
  pub is_empty : P → Bool

pub record Laws {K P : Type 0} (s : Shape K P) : Type 0 where
  pub same_iff : (a b : K) → (s.same a b ≡ true) ↔ (a ≡ b)
  pub empty_fresh : (p : P) → s.is_empty p ≡ true → p ≡ s.fresh

module _ {K P : Type 0} where
  abbrev pub node_name : Node K P → Name
  node_name (node name p cs) = name

  abbrev pub payload : Node K P → P
  payload (node name p cs) = p

  abbrev pub children : Node K P → Children K P
  children (node name p cs) = cs

  abbrev pub is_leaf : Children K P → Bool
  is_leaf leaf = true
  is_leaf (child k n cs) = false

  -- The first payload that a test accepts, from a node up to the root.
  unfoldable pub first_up : (P → Bool) → List (Node K P) → Option P
  first_up accepts [] = none
  first_up accepts (n ∷ up) = if accepts (payload n) then some (payload n) else first_up accepts up

  abbrev pub match_if_exact : Name → List (Node K P) → Option (Node K P)
  match_if_exact name [] = none
  match_if_exact name (n ∷ up) = if length name == length (node_name n) then some n else none

module _ {K P : Type 0} (s : Shape K P) where
  -- The deepest node along a name, and its ancestors after it.
  unfoldable mutual
    pub find_path : Name → List (Node K P) → Node K P → List (Node K P)
    find_path [] up n = n ∷ up
    find_path (c ∷ rest) up (node name p cs) = find_child c rest (node name p cs ∷ up) cs

    pub find_child : Component → Name → List (Node K P) → Children K P → List (Node K P)
    find_child c rest here leaf = here
    find_child c rest here (child k n cs) =
        let below = find_path rest here n in
        let beside = find_child c rest here cs in if s.same k (s.key c) then below else beside

  unfoldable pub find_exact : Name → Node K P → Option (Node K P)
  unfolding find_path
  find_exact name root = match_if_exact name (find_path name [] root)

  -- New nodes along the rest of a name, the last one with a change of the new payload.
  unfoldable pub chain : Name → Name → (P → P) → Node K P
  chain name [] f = node name (f s.fresh) leaf
  chain name (c ∷ rest) f = node name s.fresh (child (s.key c) (chain (name ++ c ∷ []) rest f) leaf)

  -- Fills the tree to a name, and changes the payload of the node there.
  unfoldable mutual
    unfolding chain

    pub fill_update : Name → (P → P) → Node K P → Node K P
    fill_update [] f (node name p cs) = node name (f p) cs
    fill_update (c ∷ rest) f (node name p cs) = node name p (fill_child c rest name f cs)

    pub fill_child : Component → Name → Name → (P → P) → Children K P → Children K P
    fill_child c rest name f leaf = child (s.key c) (chain (name ++ c ∷ []) rest f) leaf
    fill_child c rest name f (child k n cs) =
        let below = fill_update rest f n in
        let beside = fill_child c rest name f cs in
        if s.same k (s.key c) then child k below cs else child k n beside

  -- Changes the payload of the node of exactly that name, when there is one.
  unfoldable mutual
    pub update_exact : Name → (P → P) → Node K P → Node K P
    update_exact [] f (node name p cs) = node name (f p) cs
    update_exact (c ∷ rest) f (node name p cs) = node name p (update_child c rest f cs)

    pub update_child : Component → Name → (P → P) → Children K P → Children K P
    update_child c rest f leaf = leaf
    update_child c rest f (child k n cs) =
        let below = update_exact rest f n in
        let beside = update_child c rest f cs in
        if s.same k (s.key c) then child k below cs else child k n beside

  -- `delete(children, key)`
  unfoldable pub delete_child : K → Children K P → Children K P
  delete_child k leaf = leaf
  delete_child k (child j n cs) =
      let rest = delete_child k cs in if s.same j k then rest else child j n rest

  abbrev pub is_bare : Node K P → Bool
  is_bare n = s.is_empty (payload n) && is_leaf (children n)

  abbrev pub keep_unless_bare : K → Node K P → Children K P → Children K P
  keep_unless_bare k n cs = if is_bare n then delete_child k cs else child k n cs

  -- From the node of that name up, as long as a node holds nothing and has no children. The root stays.
  unfoldable mutual
    unfolding delete_child

    pub prune : Name → Node K P → Node K P
    prune [] n = n
    prune (c ∷ rest) (node name p cs) = node name p (prune_child c rest cs)

    pub prune_child : Component → Name → Children K P → Children K P
    prune_child c rest leaf = leaf
    prune_child c rest (child k n cs) =
        let below = prune rest n in
        let beside = prune_child c rest cs in
        if s.same k (s.key c) then keep_unless_bare k below cs else child k n beside

  -- Only the node of that name itself, as fib-strategy-tree.go and rib.go prune: the loop of the one goes
  -- on to the parent, but looks for the first node among the children there; that of the other has cut
  -- the link to the parent.
  abbrev pub prune_last : Name → K → Node K P → Children K P → Children K P
  prune_last [] k n cs = keep_unless_bare k n cs
  prune_last (c ∷ rest) k n cs = child k n cs

  unfoldable mutual
    unfolding delete_child

    pub prune_node : Name → Node K P → Node K P
    prune_node [] n = n
    prune_node (c ∷ rest) (node name p cs) = node name p (prune_node_child c rest cs)

    pub prune_node_child : Component → Name → Children K P → Children K P
    prune_node_child c rest leaf = leaf
    prune_node_child c rest (child k n cs) =
        let below = prune_node rest n in
        let beside = prune_node_child c rest cs in
        if s.same k (s.key c) then prune_last rest k below cs else child k n beside

  -- Changes every payload, and deletes the children that then hold nothing and have no children.
  unfoldable mutual
    unfolding delete_child

    pub clean : (P → P) → Node K P → Node K P
    clean f (node name p cs) = node name (f p) (clean_children f cs)

    pub clean_children : (P → P) → Children K P → Children K P
    clean_children f leaf = leaf
    clean_children f (child k n cs) = keep_unless_bare k (clean f n) (clean_children f cs)
