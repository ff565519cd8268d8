-- ===== src/Table/PitCs/Matches.antt =====
-- Which PIT entries a Data name matches.
use ndn_bier.Prelude.{
  ℕ, suc, ◌≡◌, refl, sym, ◌∙◌, ap, none, List, [], ◌∷◌, ◌++◌, length, ◌==◌, map, Bool-cases, inl,
  inr,
}
use mathlib.Core.List.{append_assoc, append-nil}
use ndn_bier.Encoding.Name.{Component, Name}
use ndn_bier.Table.PitEntry.{PitEntry}
use ndn_bier.Table.NameTree.{Children, node, leaf, child, find_path, find_child}
use ndn_bier.Table.NameTree.View.{view, view_child}
use ndn_bier.Table.NameTree.Exact.{HasDepths, AllDepths}
use ndn_bier.Table.PitCs.{PitCsValue, PitCsNode, PitCsTree, pit_cs_shape}
use ndn_bier.Table.PitCs.Pit.{matching, gather_up, find_interest_prefix_match_by_name}

module _ (hash : Component → ℕ) where
  -- The entries that the table holds under a sequence of hashes.
  abbrev pub held : PitCsNode → List ℕ → PitCsValue
  held root ks = view (pit_cs_shape hash) ks root

  -- The reference: what matches under each prefix of some keys, the longest prefix first, where the
  -- first of the prefixes has `depth` components.
  unfoldable pub matches_along : ℕ → (List ℕ → PitCsValue) → ℕ → List ℕ → List PitEntry
  matches_along len m depth [] = matching hash len depth (m [])
  matches_along len m depth (k ∷ ks) =
      matches_along len (λ js. m (k ∷ js)) (suc depth) ks ++ matching hash len depth (m [])

  matches_along-cong :
      (len : ℕ) (m m' : List ℕ → PitCsValue) (depth : ℕ) (ks : List ℕ)
      → ((js : List ℕ) → m js ≡ m' js)
      → matches_along len m depth ks ≡ matches_along len m' depth ks
  unfolding matches_along
  matches_along-cong len m m' depth [] e = rw (e []) refl
  matches_along-cong len m m' depth (k ∷ ks) e =
      rw
        (
          ← e [],
          matches_along-cong len (λ js. m (k ∷ js)) (λ js. m' (k ∷ js)) (suc depth) ks
              (λ js. e (k ∷ js)),
        )
        refl

  matches_along-none :
      (len depth : ℕ) (ks : List ℕ)
      → matches_along len (λ js. record { pit_entries = []; cs_entry = none }) depth ks ≡ []
  unfolding matches_along
  matches_along-none len depth [] = refl
  matches_along-none len depth (k ∷ ks) = rw (matches_along-none len (suc depth) ks) refl

  mutual
    unfolding view find_path gather_up matches_along HasDepths

    gather-find_path :
        (n : PitCsNode) (len depth : ℕ) (rest : Name) (up : List PitCsNode)
        → HasDepths (pit_cs_shape hash) depth n
        → gather_up hash len (find_path (pit_cs_shape hash) rest up n)
          ≡ matches_along len (held n) depth (map hash rest) ++ gather_up hash len up
    gather-find_path (node name v cs) len depth [] up h = rw h.0 refl
    gather-find_path (node name v cs) len depth (c ∷ rest) up h =
        gather-find_child cs len depth c rest (node name v cs ∷ up) h.1
        ∙ rw h.0 (
            sym (
              append_assoc
                (matches_along len (λ ks. view_child (pit_cs_shape hash) (hash c) ks cs) (suc depth)
                  (map hash rest))
                (matching hash len depth v) (gather_up hash len up)))

    gather-find_child :
        (cs : Children ℕ PitCsValue) (len depth : ℕ) (c : Component) (rest : Name)
        (here : List PitCsNode)
        → AllDepths (pit_cs_shape hash) (suc depth) cs
        → gather_up hash len (find_child (pit_cs_shape hash) c rest here cs)
          ≡ matches_along len
              (λ ks. view_child (pit_cs_shape hash) (hash c) ks cs)
              (suc depth)
              (map hash rest)
            ++ gather_up hash len here
    gather-find_child leaf len depth c rest here h =
        ap (λ es. es ++ gather_up hash len here)
          (sym (matches_along-none len (suc depth) (map hash rest)))
    gather-find_child (child j n cs) len depth c rest here h = elim (Bool-cases (j == hash c)) [
      | inl e ↦ rw e (gather-find_path n len (suc depth) rest here h.0)
      | inr e ↦ rw e (gather-find_child cs len depth c rest here h.1)
    ]

  -- When the names in the tree are as long as their nodes are deep, the entries that a name matches are,
  -- for each of its prefixes from the longest to the shortest, those held there that may be prefixes,
  -- and at the full name all that are held there.
  pub find_interest_prefix_match_by_name-along :
      (name : Name) (p : PitCsTree)
      → HasDepths (pit_cs_shape hash) 0 p.root
      → find_interest_prefix_match_by_name hash name p
        ≡ matches_along (length name) (held p.root) 0 (map hash name)
  unfolding find_interest_prefix_match_by_name gather_up
  find_interest_prefix_match_by_name-along name p h =
      gather-find_path p.root (length name) 0 name [] h
      ∙ (append-nil (matches_along (length name) (held p.root) 0 (map hash name)))
