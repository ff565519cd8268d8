-- ===== src/Table/NameTree/Longest.antt =====
-- The walk from the deepest node up finds what the map holds under the longest prefix.
use ndn_bier.Prelude.{
  ◌≡◌, refl, sym, Bool, false, Option, some, List, [], ◌∷◌, map, if◌then◌else◌, Bool-cases, inl,
  inr,
}
use ndn_bier.Encoding.Name.{Component, Name}
use ndn_bier.Table.NameTree.{
  Node, Children, node, leaf, child, Shape, first_up, find_path, find_child,
}
use ndn_bier.Table.NameTree.View.{view, view_child}

-- The reference: the value at the longest prefix whose value the test accepts, or else a fallback.
unfoldable pub longest : {K P : Type 0} → (P → Bool) → (List K → P) → List K → Option P → Option P
longest accepts m [] fallback = if accepts (m []) then some (m []) else fallback
longest accepts m (k ∷ ks) fallback =
    longest accepts (λ js. m (k ∷ js)) ks (if accepts (m []) then some (m []) else fallback)

module _ {K P : Type 0} (accepts : P → Bool) where
  pub longest-cong :
      (m m' : List K → P) (ks : List K) (fallback : Option P)
      → ((js : List K) → m js ≡ m' js)
      → longest accepts m ks fallback ≡ longest accepts m' ks fallback
  unfolding longest
  longest-cong m m' [] fallback e = rw (e []) refl
  longest-cong m m' (k ∷ ks) fallback e =
      rw (← e []) (longest-cong (λ js. m (k ∷ js)) (λ js. m' (k ∷ js)) ks _ (λ js. e (k ∷ js)))

  longest-none :
      (p : P) (ks : List K) (fallback : Option P)
      → accepts p ≡ false
      → longest accepts (λ js. p) ks fallback ≡ fallback
  unfolding longest
  longest-none p [] fallback h = rw h refl
  longest-none p (k ∷ ks) fallback h = rw (longest-none p ks _ h, h) refl

  module _ (s : Shape K P) (h : accepts s.fresh ≡ false) where
    mutual
      unfolding view find_path first_up longest

      first_up-find_path_lem :
          (n : Node K P) (rest : Name) (up : List (Node K P))
          → first_up accepts (find_path s rest up n)
            ≡ longest accepts (λ ks. view s ks n) (map s.key rest) (first_up accepts up)
      first_up-find_path_lem (node name p cs) [] up = refl
      first_up-find_path_lem (node name p cs) (c ∷ rest) up =
          first_up-find_child cs c rest (node name p cs ∷ up)

      first_up-find_child :
          (cs : Children K P) (c : Component) (rest : Name) (here : List (Node K P))
          → first_up accepts (find_child s c rest here cs)
            ≡ longest accepts
                (λ ks. view_child s (s.key c) ks cs)
                (map s.key rest)
                (first_up accepts here)
      first_up-find_child leaf c rest here = sym (longest-none s.fresh (map s.key rest) _ h)
      first_up-find_child (child j n cs) c rest here = elim (Bool-cases (s.same j (s.key c))) [
        | inl e ↦ rw e (first_up-find_path_lem n rest here)
        | inr e ↦ rw e (first_up-find_child cs c rest here)
      ]

    pub first_up-find_path :
        (n : Node K P) (rest : Name) (up : List (Node K P))
        → first_up accepts (find_path s rest up n)
          ≡ longest accepts (λ ks. view s ks n) (map s.key rest) (first_up accepts up)
    first_up-find_path n rest up = first_up-find_path_lem n rest up
