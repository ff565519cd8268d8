-- ===== src/Table/NameTree/View.antt =====
-- The tree as a map: what it holds under a sequence of keys.
use ndn_bier.Prelude.{
  ◌≡◌, refl, sym, ap, Bool, true, false, ◌&&◌, List, [], ◌∷◌, ◌++◌, map, if◌then◌else◌, arith,
  Bool-cases, inl, inr,
}
use ndn_bier.Encoding.Name.{Component, Name}
use ndn_bier.Table.NameTree.{
  Node, Children, node, leaf, child, Shape, Laws, chain, fill_update, fill_child, update_exact,
  update_child, delete_child, is_bare, keep_unless_bare, prune, prune_child, prune_last, prune_node,
  prune_node_child, clean, clean_children, is_leaf,
}

module _ {K P : Type 0} (s : Shape K P) where
  -- Nothing where there is no node.
  unfoldable mutual
    pub view : List K → Node K P → P
    view [] (node name p cs) = p
    view (k ∷ ks) (node name p cs) = view_child k ks cs

    pub view_child : K → List K → Children K P → P
    view_child k ks leaf = s.fresh
    view_child k ks (child j n cs) =
        let below = view ks n in
        let beside = view_child k ks cs in if s.same j k then below else beside

  abbrev pub keys_equal : List K → List K → Bool
  keys_equal [] [] = true
  keys_equal [] (k ∷ ks) = false
  keys_equal (j ∷ js) [] = false
  keys_equal (j ∷ js) (k ∷ ks) = s.same j k && keys_equal js ks

module _ {K P : Type 0} (s : Shape K P) (laws : Laws s) where
  pub same_left : (j c k : K) → s.same j c ≡ true → s.same j k ≡ s.same c k
  same_left j c k h = rw ((laws.same_iff j c).0 h) refl

  pub same_right : (j c k : K) → s.same c k ≡ true → s.same j c ≡ s.same j k
  same_right j c k h = rw ((laws.same_iff c k).0 h) refl

  pub keys_equal_sound : (js ks : List K) → keys_equal s js ks ≡ true → js ≡ ks
  keys_equal_sound [] [] h = refl
  keys_equal_sound [] (k ∷ ks) h = cc
  keys_equal_sound (j ∷ js) [] h = cc
  keys_equal_sound (j ∷ js) (k ∷ ks) h = ground (arith, laws.same_iff j k, keys_equal_sound js ks)

  pub keys_equal_refl : (js : List K) → keys_equal s js js ≡ true
  keys_equal_refl [] = refl
  keys_equal_refl (j ∷ js) = ground (arith, (laws.same_iff j j).1 refl, keys_equal_refl js)

  view-chain :
      (ks : List K) (name rest : Name) (f : P → P)
      → view s ks (chain s name rest f)
        ≡ (if keys_equal s (map s.key rest) ks then f s.fresh else s.fresh)
  unfolding view chain
  view-chain [] name [] f = refl
  view-chain [] name (c ∷ rest) f = refl
  view-chain (k ∷ ks) name [] f = refl
  view-chain (k ∷ ks) name (c ∷ rest) f = ground (arith, view-chain ks (name ++ c ∷ []) rest f)

  mutual
    unfolding view fill_update

    view-fill_update_lem :
        (n : Node K P) (ks : List K) (rest : Name) (f : P → P)
        → view s ks (fill_update s rest f n)
          ≡ (if keys_equal s (map s.key rest) ks then f (view s ks n) else view s ks n)
    view-fill_update_lem (node name p cs) [] [] f = refl
    view-fill_update_lem (node name p cs) (k ∷ ks) [] f = refl
    view-fill_update_lem (node name p cs) [] (c ∷ rest) f = refl
    view-fill_update_lem (node name p cs) (k ∷ ks) (c ∷ rest) f =
        view-fill_child cs k ks c rest name f

    view-fill_child :
        (cs : Children K P) (k : K) (ks : List K) (c : Component) (rest name : Name) (f : P → P)
        → view_child s k ks (fill_child s c rest name f cs) ≡ (
            if keys_equal s (map s.key (c ∷ rest)) (k ∷ ks)
            then f (view_child s k ks cs)
            else view_child s k ks cs)
    view-fill_child leaf k ks c rest name f = ground (arith, view-chain ks (name ++ c ∷ []) rest f)
    view-fill_child (child j n cs) k ks c rest name f = ground (
      arith,
      same_left j (s.key c) k,
      same_right j (s.key c) k,
      view-fill_update_lem n ks rest f,
      view-fill_child cs k ks c rest name f,
    )

  -- A change that leaves nothing as it is may skip what is not there.
  mutual
    unfolding view update_exact

    view-update_exact_lem :
        (n : Node K P) (ks : List K) (rest : Name) (f : P → P)
        → f s.fresh ≡ s.fresh
        → view s ks (update_exact s rest f n)
          ≡ (if keys_equal s (map s.key rest) ks then f (view s ks n) else view s ks n)
    view-update_exact_lem (node name p cs) [] [] f e = refl
    view-update_exact_lem (node name p cs) (k ∷ ks) [] f e = refl
    view-update_exact_lem (node name p cs) [] (c ∷ rest) f e = refl
    view-update_exact_lem (node name p cs) (k ∷ ks) (c ∷ rest) f e =
        view-update_child cs k ks c rest f e

    view-update_child :
        (cs : Children K P) (k : K) (ks : List K) (c : Component) (rest : Name) (f : P → P)
        → f s.fresh ≡ s.fresh
        → view_child s k ks (update_child s c rest f cs) ≡ (
            if keys_equal s (map s.key (c ∷ rest)) (k ∷ ks)
            then f (view_child s k ks cs)
            else view_child s k ks cs)
    view-update_child leaf k ks c rest f e = ground arith
    view-update_child (child j n cs) k ks c rest f e = ground (
      arith,
      same_left j (s.key c) k,
      same_right j (s.key c) k,
      view-update_exact_lem n ks rest f e,
      view-update_child cs k ks c rest f e,
    )

  view-delete_child :
      (cs : Children K P) (j k : K) (ks : List K)
      → view_child s k ks (delete_child s j cs)
        ≡ (if s.same j k then s.fresh else view_child s k ks cs)
  unfolding view delete_child
  view-delete_child leaf j k ks = ground arith
  view-delete_child (child i n cs) j k ks =
      ground (arith, same_left i j k, same_right i j k, view-delete_child cs j k ks)

  view-bare : (n : Node K P) (ks : List K) → is_bare s n ≡ true → view s ks n ≡ s.fresh
  unfolding view
  view-bare (node name p leaf) [] h = laws.empty_fresh p (ground arith)
  view-bare (node name p leaf) (k ∷ ks) h = refl
  view-bare (node name p (child j n cs)) ks h = absurd (ground arith)

  pub view-keep_unless_bare :
      (n : Node K P) (cs : Children K P) (j k : K) (ks : List K)
      → view_child s k ks (keep_unless_bare s j n cs)
        ≡ (if s.same j k then view s ks n else view_child s k ks cs)
  unfolding view
  view-keep_unless_bare n cs j k ks = elim (Bool-cases (is_bare s n)) [
    | inl h ↦ rw (h, view-bare n ks h) (view-delete_child cs j k ks)
    | inr h ↦ rw h refl
  ]

  mutual
    unfolding view prune

    view-prune_lem :
        (n : Node K P) (ks : List K) (rest : Name) → view s ks (prune s rest n) ≡ view s ks n
    view-prune_lem (node name p cs) ks [] = refl
    view-prune_lem (node name p cs) [] (c ∷ rest) = refl
    view-prune_lem (node name p cs) (k ∷ ks) (c ∷ rest) = view-prune_child cs k ks c rest

    view-prune_child :
        (cs : Children K P) (k : K) (ks : List K) (c : Component) (rest : Name)
        → view_child s k ks (prune_child s c rest cs) ≡ view_child s k ks cs
    view-prune_child leaf k ks c rest = refl
    view-prune_child (child j n cs) k ks c rest = ground (
      arith,
      view-keep_unless_bare (prune s rest n) cs j k ks,
      view-prune_lem n ks rest,
      view-prune_child cs k ks c rest,
    )

  view-prune_last :
      (n : Node K P) (cs : Children K P) (rest : Name) (j k : K) (ks : List K)
      → view_child s k ks (prune_last s rest j n cs)
        ≡ (if s.same j k then view s ks n else view_child s k ks cs)
  unfolding view
  view-prune_last n cs [] j k ks = view-keep_unless_bare n cs j k ks
  view-prune_last n cs (c ∷ rest) j k ks = refl

  mutual
    unfolding view prune_node

    view-prune_node_lem :
        (n : Node K P) (ks : List K) (rest : Name) → view s ks (prune_node s rest n) ≡ view s ks n
    view-prune_node_lem (node name p cs) ks [] = refl
    view-prune_node_lem (node name p cs) [] (c ∷ rest) = refl
    view-prune_node_lem (node name p cs) (k ∷ ks) (c ∷ rest) = view-prune_node_child cs k ks c rest

    view-prune_node_child :
        (cs : Children K P) (k : K) (ks : List K) (c : Component) (rest : Name)
        → view_child s k ks (prune_node_child s c rest cs) ≡ view_child s k ks cs
    view-prune_node_child leaf k ks c rest = refl
    view-prune_node_child (child j n cs) k ks c rest = ground (
      arith,
      view-prune_last (prune_node s rest n) cs rest j k ks,
      view-prune_node_lem n ks rest,
      view-prune_node_child cs k ks c rest,
    )

  -- Nothing is pruned above a payload that holds something.
  mutual
    unfolding view prune

    full_prune :
        (n : Node K P) (rest : Name)
        → s.is_empty s.fresh ≡ true
        → s.is_empty (view s (map s.key rest) n) ≡ false
        → (prune s rest n ≡ n) × (is_bare s n ≡ false)
    full_prune (node name p cs) [] e h = (refl, ground arith)
    full_prune (node name p cs) (c ∷ rest) e h =
        let below = full_prune_child cs c rest e h in
        (ap (node name p) below.0, ground (arith, below.1))

    full_prune_child :
        (cs : Children K P) (c : Component) (rest : Name)
        → s.is_empty s.fresh ≡ true
        → s.is_empty (view_child s (s.key c) (map s.key rest) cs) ≡ false
        → (prune_child s c rest cs ≡ cs) × (is_leaf cs ≡ false)
    full_prune_child leaf c rest e h = absurd (ground (arith, e, h))
    full_prune_child (child j n cs) c rest e h =
        ground (arith, full_prune n rest e, full_prune_child cs c rest e)

  mutual
    unfolding view clean

    view-clean_lem :
        (n : Node K P) (ks : List K) (f : P → P)
        → f s.fresh ≡ s.fresh
        → view s ks (clean s f n) ≡ f (view s ks n)
    view-clean_lem (node name p cs) [] f e = refl
    view-clean_lem (node name p cs) (k ∷ ks) f e = view-clean_children cs k ks f e

    view-clean_children :
        (cs : Children K P) (k : K) (ks : List K) (f : P → P)
        → f s.fresh ≡ s.fresh
        → view_child s k ks (clean_children s f cs) ≡ f (view_child s k ks cs)
    view-clean_children leaf k ks f e = sym e
    view-clean_children (child j n cs) k ks f e = ground (
      arith,
      view-keep_unless_bare (clean s f n) (clean_children s f cs) j k ks,
      view-clean_lem n ks f e,
      view-clean_children cs k ks f e,
    )

  -- The names without the block, for other modules.
  pub view-fill_update :
      (n : Node K P) (ks : List K) (rest : Name) (f : P → P)
      → view s ks (fill_update s rest f n)
        ≡ (if keys_equal s (map s.key rest) ks then f (view s ks n) else view s ks n)
  view-fill_update n ks rest f = view-fill_update_lem n ks rest f

  pub view-update_exact :
      (n : Node K P) (ks : List K) (rest : Name) (f : P → P)
      → f s.fresh ≡ s.fresh
      → view s ks (update_exact s rest f n)
        ≡ (if keys_equal s (map s.key rest) ks then f (view s ks n) else view s ks n)
  view-update_exact n ks rest f e = view-update_exact_lem n ks rest f e

  pub view-prune :
      (n : Node K P) (ks : List K) (rest : Name) → view s ks (prune s rest n) ≡ view s ks n
  view-prune n ks rest = view-prune_lem n ks rest

  pub view-clean :
      (n : Node K P) (ks : List K) (f : P → P)
      → f s.fresh ≡ s.fresh
      → view s ks (clean s f n) ≡ f (view s ks n)
  view-clean n ks f e = view-clean_lem n ks f e

  pub prune_full :
      (n : Node K P) (rest : Name)
      → s.is_empty s.fresh ≡ true
      → s.is_empty (view s (map s.key rest) n) ≡ false
      → prune s rest n ≡ n
  prune_full n rest e h = (full_prune n rest e h).0

  pub view-prune_node :
      (n : Node K P) (ks : List K) (rest : Name) → view s ks (prune_node s rest n) ≡ view s ks n
  view-prune_node n ks rest = view-prune_node_lem n ks rest
