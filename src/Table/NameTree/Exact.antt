-- ===== src/Table/NameTree/Exact.antt =====
-- Names of the nodes are as long as the nodes are deep, and so `find_exact` answers the node under
-- exactly the keys of the name.
use ndn_bier.Prelude.{
  ℕ, suc, ◌+◌, ◌≡◌, Option, none, some, List, [], ◌∷◌, ◌++◌, map, length, length-append, arith,
  Bool-cases, inl, inr,
}
use ndn_bier.Encoding.Name.{Component, Name}
use ndn_bier.Table.NameTree.{
  Node, Children, node, leaf, child, Shape, chain, fill_update, fill_child, update_exact,
  update_child, delete_child, is_bare, keep_unless_bare, prune, prune_child, clean, clean_children,
  payload, find_path, find_child, match_if_exact, find_exact,
}
use ndn_bier.Table.NameTree.View.{view, view_child}

abbrev pub payload_or : {K P : Type 0} → P → Option (Node K P) → P
payload_or p none = p
payload_or p (some n) = payload n

module _ {K P : Type 0} (s : Shape K P) where
  unfoldable mutual
    pub HasDepths : ℕ → Node K P → Type 0
    HasDepths d (node name p cs) = (length name ≡ d) × AllDepths (suc d) cs

    pub AllDepths : ℕ → Children K P → Type 0
    AllDepths d leaf = Unit
    AllDepths d (child k n cs) = HasDepths d n × AllDepths d cs

  mutual
    unfolding HasDepths view find_path

    exact_below :
        (n : Node K P) (d : ℕ) (name rest : Name) (up : List (Node K P))
        → HasDepths d n
        → length name ≡ d + length rest
        → payload_or s.fresh (match_if_exact name (find_path s rest up n))
          ≡ view s (map s.key rest) n
    exact_below (node nm p cs) d name [] up h e = ground (arith, h.0, e)
    exact_below (node nm p cs) d name (c ∷ rest) up h e =
        exact_among cs d name c rest nm p cs up h.0 h.1 e

    exact_among :
        (cs : Children K P) (d : ℕ) (name : Name) (c : Component) (rest nm : Name) (p : P)
        (all : Children K P) (up : List (Node K P))
        → length nm ≡ d
        → AllDepths (suc d) cs
        → length name ≡ d + suc (length rest)
        → payload_or s.fresh (match_if_exact name (find_child s c rest (node nm p all ∷ up) cs))
          ≡ view_child s (s.key c) (map s.key rest) cs
    exact_among leaf d name c rest nm p all up hn h e = ground (arith, hn, e)
    exact_among (child j n cs) d name c rest nm p all up hn h e =
        elim (Bool-cases (s.same j (s.key c))) [
          | inl t ↦ rw t (exact_below n (suc d) name rest (node nm p all ∷ up) h.0 (omega arith))
          | inr t ↦ rw t (exact_among cs d name c rest nm p all up hn h.1 e)
        ]

  pub find_exact-view :
      (root : Node K P) (name : Name)
      → HasDepths 0 root
      → payload_or s.fresh (find_exact s name root) ≡ view s (map s.key name) root
  unfolding find_exact
  find_exact-view root name h = exact_below root 0 name name [] h (omega arith)

  chain-HasDepths :
      (d : ℕ) (name rest : Name) (f : P → P) → length name ≡ d → HasDepths d (chain s name rest f)
  unfolding HasDepths chain
  chain-HasDepths d name [] f h = (h, tt)
  chain-HasDepths d name (c ∷ rest) f h = (
    h,
    (
      chain-HasDepths (suc d) (name ++ c ∷ []) rest f (omega (arith, length-append name (c ∷ []))),
      tt,
    ),
  )

  mutual
    unfolding HasDepths fill_update

    filled-HasDepths :
        (n : Node K P) (d : ℕ) (rest : Name) (f : P → P)
        → HasDepths d n
        → HasDepths d (fill_update s rest f n)
    filled-HasDepths (node name p cs) d [] f h = h
    filled-HasDepths (node name p cs) d (c ∷ rest) f h =
        (h.0, filled-AllDepths cs d c rest name f h.0 h.1)

    filled-AllDepths :
        (cs : Children K P) (d : ℕ) (c : Component) (rest name : Name) (f : P → P)
        → length name ≡ d
        → AllDepths (suc d) cs
        → AllDepths (suc d) (fill_child s c rest name f cs)
    filled-AllDepths leaf d c rest name f e h = (
      chain-HasDepths (suc d) (name ++ c ∷ []) rest f (omega (arith, length-append name (c ∷ []))),
      tt,
    )
    filled-AllDepths (child k n cs) d c rest name f e h = elim (Bool-cases (s.same k (s.key c))) [
      | inl t ↦ rw t (filled-HasDepths n (suc d) rest f h.0, h.1)
      | inr t ↦ rw t (h.0, filled-AllDepths cs d c rest name f e h.1)
    ]

  mutual
    unfolding HasDepths update_exact

    updated-HasDepths :
        (n : Node K P) (d : ℕ) (rest : Name) (f : P → P)
        → HasDepths d n
        → HasDepths d (update_exact s rest f n)
    updated-HasDepths (node name p cs) d [] f h = h
    updated-HasDepths (node name p cs) d (c ∷ rest) f h =
        (h.0, updated-AllDepths cs (suc d) c rest f h.1)

    updated-AllDepths :
        (cs : Children K P) (d : ℕ) (c : Component) (rest : Name) (f : P → P)
        → AllDepths d cs
        → AllDepths d (update_child s c rest f cs)
    updated-AllDepths leaf d c rest f h = tt
    updated-AllDepths (child k n cs) d c rest f h = elim (Bool-cases (s.same k (s.key c))) [
      | inl t ↦ rw t (updated-HasDepths n d rest f h.0, h.1)
      | inr t ↦ rw t (h.0, updated-AllDepths cs d c rest f h.1)
    ]

  delete_child-AllDepths :
      (d : ℕ) (k : K) (cs : Children K P) → AllDepths d cs → AllDepths d (delete_child s k cs)
  unfolding HasDepths delete_child
  delete_child-AllDepths d k leaf h = tt
  delete_child-AllDepths d k (child j n cs) h = elim (Bool-cases (s.same j k)) [
    | inl t ↦ rw t (delete_child-AllDepths d k cs h.1)
    | inr t ↦ rw t (h.0, delete_child-AllDepths d k cs h.1)
  ]

  keep_unless_bare-AllDepths :
      (d : ℕ) (k : K) (n : Node K P) (cs : Children K P)
      → HasDepths d n
      → AllDepths d cs
      → AllDepths d (keep_unless_bare s k n cs)
  unfolding HasDepths
  keep_unless_bare-AllDepths d k n cs h hs = elim (Bool-cases (is_bare s n)) [
    | inl t ↦ rw t (delete_child-AllDepths d k cs hs)
    | inr t ↦ rw t (h, hs)
  ]

  mutual
    unfolding HasDepths prune

    pruned-HasDepths :
        (n : Node K P) (d : ℕ) (rest : Name) → HasDepths d n → HasDepths d (prune s rest n)
    pruned-HasDepths (node name p cs) d [] h = h
    pruned-HasDepths (node name p cs) d (c ∷ rest) h = (h.0, pruned-AllDepths cs (suc d) c rest h.1)

    pruned-AllDepths :
        (cs : Children K P) (d : ℕ) (c : Component) (rest : Name)
        → AllDepths d cs
        → AllDepths d (prune_child s c rest cs)
    pruned-AllDepths leaf d c rest h = tt
    pruned-AllDepths (child k n cs) d c rest h = elim (Bool-cases (s.same k (s.key c))) [
      | inl t ↦
          rw t
            (keep_unless_bare-AllDepths d k (prune s rest n) cs (pruned-HasDepths n d rest h.0) h.1)
      | inr t ↦ rw t (h.0, pruned-AllDepths cs d c rest h.1)
    ]

  mutual
    unfolding HasDepths clean

    cleaned-HasDepths :
        (n : Node K P) (d : ℕ) (f : P → P) → HasDepths d n → HasDepths d (clean s f n)
    cleaned-HasDepths (node name p cs) d f h = (h.0, cleaned-AllDepths cs (suc d) f h.1)

    cleaned-AllDepths :
        (cs : Children K P) (d : ℕ) (f : P → P)
        → AllDepths d cs
        → AllDepths d (clean_children s f cs)
    cleaned-AllDepths leaf d f h = tt
    cleaned-AllDepths (child k n cs) d f h =
        keep_unless_bare-AllDepths d k (clean s f n) (clean_children s f cs)
          (cleaned-HasDepths n d f h.0) (cleaned-AllDepths cs d f h.1)

  -- The operations, for the tables.
  pub fill_update-HasDepths :
      (n : Node K P) (d : ℕ) (rest : Name) (f : P → P)
      → HasDepths d n
      → HasDepths d (fill_update s rest f n)
  fill_update-HasDepths n d rest f h = filled-HasDepths n d rest f h

  pub update_exact-HasDepths :
      (n : Node K P) (d : ℕ) (rest : Name) (f : P → P)
      → HasDepths d n
      → HasDepths d (update_exact s rest f n)
  update_exact-HasDepths n d rest f h = updated-HasDepths n d rest f h

  pub prune-HasDepths :
      (n : Node K P) (d : ℕ) (rest : Name) → HasDepths d n → HasDepths d (prune s rest n)
  prune-HasDepths n d rest h = pruned-HasDepths n d rest h

  pub clean-HasDepths :
      (n : Node K P) (d : ℕ) (f : P → P) → HasDepths d n → HasDepths d (clean s f n)
  clean-HasDepths n d f h = cleaned-HasDepths n d f h
