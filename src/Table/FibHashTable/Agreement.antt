-- ===== src/Table/FibHashTable/Agreement.antt =====
-- Both FIB-strategy tables answer the same, but for the order of next hops.
use ndn_bier.Prelude.{
  ℕ, ◌<◌, ◌≡◌, refl, sym, ◌∙◌, ap, subst, Bool, true, false, Option, none, some, List, [], ◌∷◌,
  ◌==◌, ==_iff, if◌then◌else◌, arith, All, Bool-cases, inl, inr, Occurs, take, suc,
}
use mathlib.Core.List.{nil≢cons}
use ndn_bier.Prelude.Maps.{lookup}
use ndn_bier.Encoding.Name.{Name}
use ndn_bier.Table.FibEntry.{
  FibValue, no_value, has_next_hops, has_strategy, is_set, put_value_hop, cut_value_hop,
  swap_out_value_hop, clear_value_hops, set_value_strategy,
}
use ndn_bier.Table.NameTree.Longest.{longest}
use ndn_bier.Table.FibTree.{hops_of, strategy_of}
use ndn_bier.Table.FibTree as Tree
use ndn_bier.Table.FibTree.Lookups.{
  FibOp, op_insert_next_hop, op_clear_next_hops, op_remove_next_hop, op_set_strategy,
  op_unset_strategy, FibMap, new_fib_map, same_name, at_name, fib_map_step, run_fib_map,
  run_fib_tree, run_fib_tree-lookups,
}
use ndn_bier.Table.FibHashTable.{find_next_hops, find_strategy, new_fib_hash_table}
use ndn_bier.Table.FibHashTable.Lookups.{find-longest}
use ndn_bier.Table.FibHashTable.Runs.{swap_map_step, view_hash, run_fib_hash, IsAbout}
use ndn_bier.Table.FibHashTable.Refinement.{run_fib_hash-IsFib, view-fib_hash_step}
use ndn_bier.Table.FibHashTable.Hops.{
  cost_to, AreDistinct, cost_to-put_hop, put_hop-AreDistinct, cost_to-cut_hop, cut_hop-AreDistinct,
  cost_to-swap_out_hop, swap_out_hop-AreDistinct, same_costs_empty,
}

-- The same strategy, and the same faces with the same costs.
abbrev pub IsAlike : FibValue → FibValue → Type 0
IsAlike v w =
    (v.strategy ≡ w.strategy)
    × ((face : ℕ) → cost_to face v.nexthops ≡ cost_to face w.nexthops)
    × AreDistinct v.nexthops
    × AreDistinct w.nexthops

-- The RIB gives the name of its root, which is nil, for its root alone; to the one table that is no
-- name, and to the other one the empty name.
abbrev pub is_named : FibOp → Bool
is_named (op_clear_next_hops none) = false
is_named op = true

no_value-IsAlike : IsAlike no_value no_value
no_value-IsAlike = (refl, (λ face. refl), tt, tt)

-- Changes of both values that keep them alike.
put-IsAlike :
    (nexthop cost : ℕ) (v w : FibValue)
    → IsAlike v w
    → IsAlike (put_value_hop nexthop cost v) (put_value_hop nexthop cost w)
put-IsAlike nexthop cost v w h = (
  h.0,
  λ face.
      cost_to-put_hop face nexthop cost v.nexthops
      ∙ ap (λ o. if nexthop == face then some cost else o) (h.1 face)
      ∙ sym (cost_to-put_hop face nexthop cost w.nexthops),
  put_hop-AreDistinct nexthop cost v.nexthops h.2,
  put_hop-AreDistinct nexthop cost w.nexthops h.3,
)

cut-IsAlike :
    (nexthop : ℕ) (v w : FibValue)
    → IsAlike v w
    → IsAlike (cut_value_hop nexthop v) (swap_out_value_hop nexthop w)
cut-IsAlike nexthop v w h = (
  h.0,
  λ face.
      cost_to-cut_hop face nexthop v.nexthops h.2
      ∙ ap (λ o. if nexthop == face then none else o) (h.1 face)
      ∙ sym (cost_to-swap_out_hop face nexthop w.nexthops h.3),
  cut_hop-AreDistinct nexthop v.nexthops h.2,
  swap_out_hop-AreDistinct nexthop w.nexthops h.3,
)

at_name-IsAlike :
    (name : Name) (f g : FibValue → FibValue) (m k : FibMap) (n : Name)
    → ((v w : FibValue) → IsAlike v w → IsAlike (f v) (g w))
    → IsAlike (m n) (k n)
    → IsAlike (at_name name f m n) (at_name name g k n)
at_name-IsAlike name f g m k n both h = elim (Bool-cases (same_name name n)) [
  | inl s ↦ rw s (both (m n) (k n) h)
  | inr d ↦ rw d h
]

step-IsAlike :
    (op : FibOp) (m k : FibMap) (n : Name)
    → is_named op ≡ true
    → IsAlike (m n) (k n)
    → IsAlike (fib_map_step op m n) (swap_map_step op k n)
unfolding fib_map_step swap_map_step
step-IsAlike (op_insert_next_hop name nexthop cost) m k n named h =
    at_name-IsAlike name _ _ m k n (put-IsAlike nexthop cost) h
step-IsAlike (op_clear_next_hops none) m k n named h = absurd (ground (arith, named))
step-IsAlike (op_clear_next_hops (some name)) m k n named h =
    at_name-IsAlike name clear_value_hops clear_value_hops m k n
      (λ v w a. (a.0, (λ face. refl), tt, tt)) h
step-IsAlike (op_remove_next_hop name nexthop) m k n named h =
    at_name-IsAlike name _ _ m k n (cut-IsAlike nexthop) h
step-IsAlike (op_set_strategy name strategy) m k n named h =
    at_name-IsAlike name (set_value_strategy (some strategy)) (set_value_strategy (some strategy)) m
      k n (λ v w a. (refl, a.1, a.2, a.3)) h
step-IsAlike (op_unset_strategy name) m k n named h =
    at_name-IsAlike name (set_value_strategy none) (set_value_strategy none) m k n
      (λ v w a. (refl, a.1, a.2, a.3)) h

-- What two lookups find.
abbrev pub AreBoth : Option FibValue → Option FibValue → Type 0
AreBoth none none = Unit
AreBoth none (some w) = ⊥
AreBoth (some v) none = ⊥
AreBoth (some v) (some w) = IsAlike v w

tested-AreBoth :
    (accepts : FibValue → Bool) (v w : FibValue) (o u : Option FibValue)
    → IsAlike v w
    → accepts v ≡ accepts w
    → AreBoth o u
    → AreBoth (if accepts v then some v else o) (if accepts w then some w else u)
tested-AreBoth accepts v w o u a e h = elim (Bool-cases (accepts w)) [
  | inl t ↦ rw (e, t) a
  | inr t ↦ rw (e, t) h
]

longest-AreBoth :
    (accepts : FibValue → Bool) (same : (v w : FibValue) → IsAlike v w → accepts v ≡ accepts w)
    (m k : FibMap) (name : Name) (o u : Option FibValue)
    → ((i : ℕ) → IsAlike (m (take i name)) (k (take i name)))
    → AreBoth o u
    → AreBoth (longest accepts m name o) (longest accepts k name u)
unfolding longest
longest-AreBoth accepts same m k [] o u h b =
    tested-AreBoth accepts (m []) (k []) o u (h 0) (same _ _ (h 0)) b
longest-AreBoth accepts same m k (c ∷ name) o u h b =
    longest-AreBoth accepts same (λ js. m (c ∷ js)) (λ js. k (c ∷ js)) name _ _ (λ i. h (suc i))
      (tested-AreBoth accepts (m []) (k []) o u (h 0) (same _ _ (h 0)) b)

same_strategy : (o u : Option FibValue) → AreBoth o u → strategy_of o ≡ strategy_of u
same_strategy none none b = refl
same_strategy none (some w) b = absurd b
same_strategy (some v) none b = absurd b
same_strategy (some v) (some w) b = b.0

same_cost :
    (face : ℕ) (o u : Option FibValue)
    → AreBoth o u
    → cost_to face (hops_of o) ≡ cost_to face (hops_of u)
same_cost face none none b = refl
same_cost face none (some w) b = absurd b
same_cost face (some v) none b = absurd b
same_cost face (some v) (some w) b = b.1 face

abbrev IsIn : List Name → Name → Type 0
IsIn names n = Occurs n names

module _ (hash : Name → ℕ) (m : ℕ) (names : List Name)
    (injective : (a b : Name) → Occurs a names → Occurs b names → hash a ≡ hash b → a ≡ b)
    (root_used : Occurs [] names) (positive : 0 < m) (default_strategy : Name) where
  new-IsAlike :
      (n : Name)
      → Occurs n names
      → IsAlike
          (new_fib_map default_strategy n)
          (view_hash hash m (new_fib_hash_table hash m default_strategy) n)
  unfolding new_fib_hash_table lookup
  new-IsAlike [] w = rw ((==_iff (hash []) (hash [])).1 refl) (refl, (λ face. refl), tt, tt)
  new-IsAlike (c ∷ n) w = elim (Bool-cases (hash [] == hash (c ∷ n))) [
    | inl s ↦
        absurd (nil≢cons (injective [] (c ∷ n) root_used w ((==_iff (hash []) (hash (c ∷ n))).0 s)))
    | inr d ↦ rw d no_value-IsAlike
  ]

  run-IsAlike :
      (ops : List FibOp) (n : Name)
      → Occurs n names
      → All (IsAbout (IsIn names)) ops
      → All (λ op. is_named op ≡ true) ops
      → IsAlike
          (run_fib_map default_strategy ops n)
          (view_hash hash m (run_fib_hash hash m default_strategy ops) n)
  unfolding run_fib_map run_fib_hash
  run-IsAlike [] n w about named = new-IsAlike n w
  run-IsAlike (op ∷ ops) n w about named =
      subst (IsAlike (fib_map_step op (run_fib_map default_strategy ops) n))
        (sym (
          view-fib_hash_step hash m (IsIn names) injective op
            (run_fib_hash hash m default_strategy ops) n about.0 w
            (run_fib_hash-IsFib hash m (IsIn names) injective default_strategy ops root_used about.1
              positive)))
        (step-IsAlike op (run_fib_map default_strategy ops) _ n named.0
          (run-IsAlike ops n w about.1 named.1))

  -- When the hash tells the names of a list apart, among which are the empty name, the names of the calls
  -- and the prefixes of a name, and virtual names are not empty, then after those calls, none of which
  -- clears the name nil, the tree and the hash table answer the same strategy for that name, and next
  -- hops to the same faces at the same costs.
  pub tables_agree :
      (ops : List FibOp) (name : Name)
      → ((i : ℕ) → Occurs (take i name) names)
      → All (IsAbout (IsIn names)) ops
      → All (λ op. is_named op ≡ true) ops
      → (Tree.find_strategy name (run_fib_tree default_strategy ops)
          ≡ find_strategy hash m name (run_fib_hash hash m default_strategy ops))
        × ((face : ℕ)
            → cost_to face (Tree.find_next_hops name (run_fib_tree default_strategy ops))
              ≡ cost_to face
                  (find_next_hops hash m name (run_fib_hash hash m default_strategy ops)))
  unfolding find_strategy find_next_hops
  tables_agree ops name prefixes about named =
      let t = run_fib_hash hash m default_strategy ops in
      let fib =
        run_fib_hash-IsFib hash m (IsIn names) injective default_strategy ops root_used about
          positive in
      let tree = run_fib_tree-lookups default_strategy ops name in
      let alike = λ (i : ℕ). run-IsAlike ops (take i name) (prefixes i) about named in
      (
        tree.1
            ∙ same_strategy _ _ (
                longest-AreBoth has_strategy (λ v w a. ap is_set a.0) _ (view_hash hash m t) name
                  none none alike tt)
            ∙ ap strategy_of
                (sym (find-longest has_strategy hash m refl (IsIn names) t fib name prefixes)),
        λ face.
            ap (cost_to face) tree.0
            ∙ same_cost face _ _ (
                longest-AreBoth has_next_hops (λ v w a. same_costs_empty v.nexthops w.nexthops a.1)
                  _ (view_hash hash m t) name none none alike tt)
            ∙ ap (λ o. cost_to face (hops_of o))
                (sym (find-longest has_next_hops hash m refl (IsIn names) t fib name prefixes)),
      )
