-- ===== src/Table/NameTree/Tidy.antt =====
-- No node but the root is bare: what the code keeps when every change that may empty a node prunes.
use ndn_bier.Prelude.{◌≡◌, refl, false, [], ◌∷◌, ◌++◌, arith, Bool-cases, inl, inr}
use ndn_bier.Encoding.Name.{Component, Name}
use ndn_bier.Table.NameTree.{
  Node, Children, node, leaf, child, Shape, chain, fill_update, fill_child, update_exact,
  update_child, delete_child, is_bare, keep_unless_bare, prune, prune_child, clean, clean_children,
  is_leaf,
}

module _ {K P : Type 0} (s : Shape K P) where
  unfoldable mutual
    pub IsTidy : Node K P → Type 0
    IsTidy (node name p cs) = AreTidy cs

    pub AreTidy : Children K P → Type 0
    AreTidy leaf = Unit
    AreTidy (child k n cs) = (is_bare s n ≡ false) × IsTidy n × AreTidy cs

  delete_child-AreTidy : (k : K) (cs : Children K P) → AreTidy cs → AreTidy (delete_child s k cs)
  unfolding IsTidy delete_child
  delete_child-AreTidy k leaf t = tt
  delete_child-AreTidy k (child j n cs) t = elim (Bool-cases (s.same j k)) [
    | inl h ↦ rw h (delete_child-AreTidy k cs t.2)
    | inr h ↦ rw h (t.0, t.1, delete_child-AreTidy k cs t.2)
  ]

  keep_unless_bare-AreTidy :
      (k : K) (n : Node K P) (cs : Children K P)
      → IsTidy n
      → AreTidy cs
      → AreTidy (keep_unless_bare s k n cs)
  unfolding IsTidy
  keep_unless_bare-AreTidy k n cs t ts = elim (Bool-cases (is_bare s n)) [
    | inl h ↦ rw h (delete_child-AreTidy k cs ts)
    | inr h ↦ rw h (h, t, ts)
  ]

  mutual
    unfolding IsTidy prune update_exact

    pruned-IsTidy :
        (n : Node K P) (rest : Name) (f : P → P)
        → IsTidy n
        → IsTidy (prune s rest (update_exact s rest f n))
    pruned-IsTidy (node name p cs) [] f t = t
    pruned-IsTidy (node name p cs) (c ∷ rest) f t = pruned-AreTidy cs c rest f t

    pruned-AreTidy :
        (cs : Children K P) (c : Component) (rest : Name) (f : P → P)
        → AreTidy cs
        → AreTidy (prune_child s c rest (update_child s c rest f cs))
    pruned-AreTidy leaf c rest f t = tt
    pruned-AreTidy (child k n cs) c rest f t = elim (Bool-cases (s.same k (s.key c))) [
      | inl h ↦ rw (h, h) (keep_unless_bare-AreTidy k _ cs (pruned-IsTidy n rest f t.1) t.2)
      | inr h ↦ rw (h, h) (t.0, t.1, pruned-AreTidy cs c rest f t.2)
    ]

  mutual
    unfolding IsTidy clean

    cleaned-IsTidy : (n : Node K P) (f : P → P) → IsTidy n → IsTidy (clean s f n)
    cleaned-IsTidy (node name p cs) f t = cleaned-AreTidy cs f t

    cleaned-AreTidy : (cs : Children K P) (f : P → P) → AreTidy cs → AreTidy (clean_children s f cs)
    cleaned-AreTidy leaf f t = tt
    cleaned-AreTidy (child k n cs) f t =
        keep_unless_bare-AreTidy k (clean s f n) (clean_children s f cs) (cleaned-IsTidy n f t.1)
          (cleaned-AreTidy cs f t.2)

  -- A new payload that is never empty.
  module _ (f : P → P) (full : (p : P) → s.is_empty (f p) ≡ false) where
    chain-is_bare : (name rest : Name) → is_bare s (chain s name rest f) ≡ false
    unfolding chain
    chain-is_bare name [] = ground (arith, full s.fresh)
    chain-is_bare name (c ∷ rest) = ground arith

    chain-IsTidy : (name rest : Name) → IsTidy (chain s name rest f)
    unfolding IsTidy chain
    chain-IsTidy name [] = tt
    chain-IsTidy name (c ∷ rest) =
        (chain-is_bare (name ++ c ∷ []) rest, chain-IsTidy (name ++ c ∷ []) rest, tt)

    fill_child-is_leaf :
        (c : Component) (rest name : Name) (cs : Children K P)
        → is_leaf (fill_child s c rest name f cs) ≡ false
    unfolding fill_update
    fill_child-is_leaf c rest name leaf = refl
    fill_child-is_leaf c rest name (child k n cs) = ground arith

    fill_update-is_bare : (n : Node K P) (rest : Name) → is_bare s (fill_update s rest f n) ≡ false
    unfolding fill_update
    fill_update-is_bare (node name p cs) [] = ground (arith, full p)
    fill_update-is_bare (node name p cs) (c ∷ rest) =
        ground (arith, fill_child-is_leaf c rest name cs)

    mutual
      unfolding IsTidy fill_update

      filled-IsTidy : (n : Node K P) (rest : Name) → IsTidy n → IsTidy (fill_update s rest f n)
      filled-IsTidy (node name p cs) [] t = t
      filled-IsTidy (node name p cs) (c ∷ rest) t = filled-AreTidy cs c rest name t

      filled-AreTidy :
          (cs : Children K P) (c : Component) (rest name : Name)
          → AreTidy cs
          → AreTidy (fill_child s c rest name f cs)
      filled-AreTidy leaf c rest name t =
          (chain-is_bare (name ++ c ∷ []) rest, chain-IsTidy (name ++ c ∷ []) rest, tt)
      filled-AreTidy (child k n cs) c rest name t = elim (Bool-cases (s.same k (s.key c))) [
        | inl h ↦ rw h (fill_update-is_bare n rest, filled-IsTidy n rest t.1, t.2)
        | inr h ↦ rw h (t.0, t.1, filled-AreTidy cs c rest name t.2)
      ]

  -- The operations, for the tables.
  pub prune-update_exact-IsTidy :
      (n : Node K P) (rest : Name) (f : P → P)
      → IsTidy n
      → IsTidy (prune s rest (update_exact s rest f n))
  prune-update_exact-IsTidy n rest f t = pruned-IsTidy n rest f t

  pub clean-IsTidy : (n : Node K P) (f : P → P) → IsTidy n → IsTidy (clean s f n)
  clean-IsTidy n f t = cleaned-IsTidy n f t

  pub fill_update-IsTidy :
      (f : P → P) (full : (p : P) → s.is_empty (f p) ≡ false) (n : Node K P) (rest : Name)
      → IsTidy n
      → IsTidy (fill_update s rest f n)
  fill_update-IsTidy f full n rest t = filled-IsTidy f full n rest t
