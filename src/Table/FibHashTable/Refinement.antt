-- ===== src/Table/FibHashTable/Refinement.antt =====
-- The hash table is a map from names to values too.
use ndn_bier.Prelude.{
  ℕ, ◌<◌, ◌≡◌, ◌⊎◌, refl, sym, ◌∙◌, ap, subst, true, false, Option, none, some, List, [], ◌∷◌,
  length, ltb, leb, ◌==◌, ==_iff, if◌then◌else◌, arith, Bool-cases, inl, inr, All,
}
use ndn_bier.Prelude.Maps.{Map, lookup, insert, delete, lookup-insert, lookup-delete}
use ndn_bier.Encoding.Name.{Name}
use ndn_bier.Table.NextHops.{FibNextHopEntry}
use ndn_bier.Table.FibEntry.{
  FibValue, no_value, no_information, put_value_hop, swap_out_value_hop, clear_value_hops,
  set_value_strategy, swap_out_hop,
}
use ndn_bier.Table.FibTree.Lookups.{
  FibOp, op_insert_next_hop, op_clear_next_hops, op_remove_next_hop, op_set_strategy,
  op_unset_strategy, same_name, at_name, no_information_sound,
}
use ndn_bier.Table.FibHashTable.{
  RealEntry, FibHashTable, new_fib_hash_table, entry_or_new, insert_entry, prune_tables,
  change_entry, has_hop, remove_from_entry,
}
use ndn_bier.Table.FibHashTable.Invariant.{IsFib, insert_entry-IsFib, change_entry-IsFib}
use ndn_bier.Table.FibHashTable.Lookups.{value_or}
use ndn_bier.Table.FibHashTable.Runs.{
  same_name_sound, same_name_refl, swap_map_step, fib_hash_step, view_hash, run_fib_hash, IsAbout,
}

swap_out_hop-absent :
    (hash : Name → ℕ) (m nexthop : ℕ) (nhs : List FibNextHopEntry)
    → has_hop hash m nexthop nhs ≡ false
    → swap_out_hop nexthop nhs ≡ nhs
unfolding swap_out_hop
swap_out_hop-absent hash m nexthop [] h = refl
swap_out_hop-absent hash m nexthop (nh ∷ nhs) h =
    ground (arith, swap_out_hop-absent hash m nexthop nhs)

module _ (hash : Name → ℕ) (m : ℕ) where
  module _ (Used : Name → Type 0)
      (injective : (a b : Name) → Used a → Used b → hash a ≡ hash b → a ≡ b) where
    same_hash : (a b : Name) → Used a → Used b → (hash a == hash b) ≡ same_name a b
    same_hash a b u w = elim (Bool-cases (same_name a b)) [
      | inl s ↦ (==_iff (hash a) (hash b)).1 (ap hash (same_name_sound a b s)) ∙ sym s
      | inr d ↦ apart d (Bool-cases (hash a == hash b)) ∙ sym d
    ]
      where
        clash : false ≡ true → ⊥
        clash f = cc

        apart :
            same_name a b ≡ false
            → ((hash a == hash b) ≡ true) ⊎ ((hash a == hash b) ≡ false)
            → (hash a == hash b) ≡ false
        apart d (inl s) = absurd (
            clash (
              sym d
              ∙ subst (λ x. same_name a x ≡ true)
                  (injective a b u w ((==_iff (hash a) (hash b)).0 s)) (same_name_refl a)))
        apart d (inr s) = s

    view-write :
        (name n : Name) (v : RealEntry) (real : Map RealEntry)
        → Used name
        → Used n
        → value_or (lookup (hash n) (insert (hash name) v real))
          ≡ (if same_name name n then v.value else value_or (lookup (hash n) real))
    view-write name n v real u w =
        rw (lookup-insert (hash name) (hash n) v real, same_hash name n u w)
          (elim (Bool-cases (same_name name n)) [ inl s ↦ rw s refl | inr d ↦ rw d refl ])

    view-erase :
        (name n : Name) (real : Map RealEntry)
        → Used name
        → Used n
        → value_or (lookup (hash n) (delete (hash name) real))
          ≡ (if same_name name n then no_value else value_or (lookup (hash n) real))
    view-erase name n real u w =
        rw (lookup-delete (hash name) (hash n) real, same_hash name n u w)
          (elim (Bool-cases (same_name name n)) [ inl s ↦ rw s refl | inr d ↦ rw d refl ])

    entry-value :
        (name : Name) (o : Option RealEntry) → (entry_or_new hash m name o).value ≡ value_or o
    entry-value name none = refl
    entry-value name (some e) = refl

    at_here :
        (name n : Name) (f : FibValue → FibValue) (v : FibValue) (t : FibHashTable)
        → v ≡ f (view_hash hash m t name)
        → (if same_name name n then v else view_hash hash m t n)
          ≡ at_name name f (view_hash hash m t) n
    at_here name n f v t e = elim (Bool-cases (same_name name n)) [
      | inl s ↦ rw s (e ∙ ap (λ x. f (view_hash hash m t x)) (same_name_sound name n s))
      | inr d ↦ rw d refl
    ]

    view-insert_entry :
        (name n : Name) (f : FibValue → FibValue) (t : FibHashTable)
        → Used name
        → Used n
        → view_hash hash m (insert_entry hash m name f t) n ≡ at_name name f (view_hash hash m t) n
    unfolding insert_entry
    view-insert_entry name n f t u w =
        let e = entry_or_new hash m name (lookup (hash name) t.real_table) in
        let both =
          view-write name n (record e { value = f e.value }) t.real_table u w
          ∙ at_here name n f (f e.value) t
              (ap f (entry-value name (lookup (hash name) t.real_table))) in
        elim (Bool-cases (leb m (length name))) [ inl h ↦ rw h both | inr h ↦ rw h both ]

    erase_same :
        (name n : Name) (v : FibValue) (rest : FibValue)
        → no_information v ≡ true
        → (if same_name name n then no_value else (if same_name name n then v else rest))
          ≡ (if same_name name n then v else rest)
    erase_same name n v rest h = elim (Bool-cases (same_name name n)) [
      | inl s ↦ rw s (sym (no_information_sound v h))
      | inr d ↦ rw d refl
    ]

    -- Pruning an entry that holds nothing does not change what the table says.
    view-prune_written :
        (name n : Name) (v : RealEntry) (t : FibHashTable)
        → Used name
        → Used n
        → v.name ≡ name
        → view_hash hash m
            (prune_tables hash m v (record t { real_table = insert (hash name) v t.real_table }))
            n
          ≡ (if same_name name n then v.value else view_hash hash m t n)
    unfolding prune_tables
    view-prune_written name n v t u w e = elim (Bool-cases (no_information v.value)) [
      | inl gone ↦
          let erased =
            ap
              (λ x.
                value_or (lookup (hash n) (delete (hash x) (insert (hash name) v t.real_table))))
              e
            ∙ view-erase name n (insert (hash name) v t.real_table) u w
            ∙ ap (λ x. if same_name name n then no_value else x)
                (view-write name n v t.real_table u w)
            ∙ erase_same name n v.value (view_hash hash m t n) gone in
          elim (Bool-cases (leb m (length v.name))) [
            | inl h ↦ rw (gone, h) erased
            | inr h ↦ rw (gone, h) erased
          ]
      | inr kept ↦ rw kept (view-write name n v t.real_table u w)
    ]

    at_absent :
        (name n : Name) (f : FibValue → FibValue) (t : FibHashTable)
        → lookup (hash name) t.real_table ≡ none
        → f no_value ≡ no_value
        → view_hash hash m t n ≡ at_name name f (view_hash hash m t) n
    at_absent name n f t missing e = elim (Bool-cases (same_name name n)) [
      | inl s ↦
          let here : view_hash hash m t n ≡ no_value =
            ap (λ x. view_hash hash m t x) (sym (same_name_sound name n s)) ∙ ap value_or missing in
          rw (s, here) (sym e)
      | inr d ↦ rw d refl
    ]

    view-change_entry :
        (name n : Name) (f : FibValue → FibValue) (o : Option RealEntry) (t : FibHashTable)
        → Used name
        → Used n
        → IsFib hash m Used t
        → lookup (hash name) t.real_table ≡ o
        → f no_value ≡ no_value
        → view_hash hash m (change_entry hash m name f o t) n
          ≡ at_name name f (view_hash hash m t) n
    view-change_entry name n f none t u w h found e = at_absent name n f t found e
    view-change_entry name n f (some r) t u w h found e =
        view-prune_written name n (record r { value = f r.value }) t u w (h name r u found).0
        ∙ at_here name n f (f r.value) t (ap f (ap value_or (sym found)))

    view-remove_from_entry :
        (name n : Name) (nexthop : ℕ) (o : Option RealEntry) (t : FibHashTable)
        → Used name
        → Used n
        → IsFib hash m Used t
        → lookup (hash name) t.real_table ≡ o
        → view_hash hash m (remove_from_entry hash m name nexthop o t) n
          ≡ at_name name (swap_out_value_hop nexthop) (view_hash hash m t) n
    view-remove_from_entry name n nexthop none t u w h found =
        at_absent name n (swap_out_value_hop nexthop) t found (unfold swap_out_hop in refl)
    view-remove_from_entry name n nexthop (some r) t u w h found =
        elim (Bool-cases (has_hop hash m nexthop r.value.nexthops)) [
          | inl there ↦ rw there (
              view-change_entry name n (swap_out_value_hop nexthop) (some r) t u w h found
                (unfold swap_out_hop in refl))
          | inr not_there ↦
              let same : r.value ≡ swap_out_value_hop nexthop r.value =
                ap (λ nhs. record r.value { nexthops = nhs })
                  (sym (swap_out_hop-absent hash m nexthop r.value.nexthops not_there)) in
              rw not_there (sym (same_here r.value (ap value_or found) same))
        ]
      where
        same_here :
            (v : FibValue)
            → view_hash hash m t name ≡ v
            → v ≡ swap_out_value_hop nexthop v
            → at_name name (swap_out_value_hop nexthop) (view_hash hash m t) n
              ≡ view_hash hash m t n
        same_here v here same = elim (Bool-cases (same_name name n)) [
          | inl s ↦
              let at_n : view_hash hash m t n ≡ v =
                ap (λ x. view_hash hash m t x) (sym (same_name_sound name n s)) ∙ here in
              rw (s, at_n) (sym same)
          | inr d ↦ rw d refl
        ]

    pub view-fib_hash_step :
        (op : FibOp) (t : FibHashTable) (n : Name)
        → IsAbout Used op
        → Used n
        → IsFib hash m Used t
        → view_hash hash m (fib_hash_step hash m op t) n ≡ swap_map_step op (view_hash hash m t) n
    unfolding fib_hash_step swap_map_step
    view-fib_hash_step (op_insert_next_hop name nexthop cost) t n u w h =
        view-insert_entry name n (put_value_hop nexthop cost) t u w
    view-fib_hash_step (op_clear_next_hops none) t n u w h =
        view-change_entry [] n clear_value_hops _ t u w h refl refl
    view-fib_hash_step (op_clear_next_hops (some name)) t n u w h =
        view-change_entry name n clear_value_hops _ t u w h refl refl
    view-fib_hash_step (op_remove_next_hop name nexthop) t n u w h =
        view-remove_from_entry name n nexthop _ t u w h refl
    view-fib_hash_step (op_set_strategy name strategy) t n u w h =
        view-insert_entry name n (set_value_strategy (some strategy)) t u w
    view-fib_hash_step (op_unset_strategy name) t n u w h =
        view-change_entry name n (set_value_strategy none) _ t u w h refl refl

    remove_from_entry-IsFib :
        (name : Name) (nexthop : ℕ) (o : Option RealEntry) (t : FibHashTable)
        → Used name
        → lookup (hash name) t.real_table ≡ o
        → IsFib hash m Used t
        → IsFib hash m Used (remove_from_entry hash m name nexthop o t)
    remove_from_entry-IsFib name nexthop none t u found h = h
    remove_from_entry-IsFib name nexthop (some r) t u found h =
        elim (Bool-cases (has_hop hash m nexthop r.value.nexthops)) [
          | inl there ↦ rw there (
              change_entry-IsFib hash m Used injective name (swap_out_value_hop nexthop) (some r) t
                u found h)
          | inr not_there ↦ rw not_there h
        ]

    fib_hash_step-IsFib :
        (op : FibOp) (t : FibHashTable)
        → IsAbout Used op
        → IsFib hash m Used t
        → IsFib hash m Used (fib_hash_step hash m op t)
    unfolding fib_hash_step
    fib_hash_step-IsFib (op_insert_next_hop name nexthop cost) t u h =
        insert_entry-IsFib hash m Used injective name (put_value_hop nexthop cost) t u h
    fib_hash_step-IsFib (op_clear_next_hops none) t u h =
        change_entry-IsFib hash m Used injective [] clear_value_hops _ t u refl h
    fib_hash_step-IsFib (op_clear_next_hops (some name)) t u h =
        change_entry-IsFib hash m Used injective name clear_value_hops _ t u refl h
    fib_hash_step-IsFib (op_remove_next_hop name nexthop) t u h =
        remove_from_entry-IsFib name nexthop _ t u refl h
    fib_hash_step-IsFib (op_set_strategy name strategy) t u h =
        insert_entry-IsFib hash m Used injective name (set_value_strategy (some strategy)) t u h
    fib_hash_step-IsFib (op_unset_strategy name) t u h =
        change_entry-IsFib hash m Used injective name (set_value_strategy none) _ t u refl h

    new_fib_hash_table-IsFib :
        (default_strategy : Name)
        → Used []
        → 0 < m
        → IsFib hash m Used (new_fib_hash_table hash m default_strategy)
    unfolding new_fib_hash_table lookup
    new_fib_hash_table-IsFib default_strategy root_used positive n e w found =
        elim (Bool-cases (hash [] == hash n)) [
          | inl s ↦
              let root = injective [] n root_used w ((==_iff (hash []) (hash n)).0 s) in
              (
                cc (root, rw s at found),
                inl (subst (λ x. ltb (length x) m ≡ true) root (ground (arith, positive))),
              )
          | inr d ↦ absurd (nothing (rw d at found))
        ]
      where
        nothing : none ≡ some e → ⊥
        nothing f = cc

    pub run_fib_hash-IsFib :
        (default_strategy : Name) (ops : List FibOp)
        → Used []
        → All (IsAbout Used) ops
        → 0 < m
        → IsFib hash m Used (run_fib_hash hash m default_strategy ops)
    unfolding run_fib_hash
    run_fib_hash-IsFib default_strategy [] root_used about positive =
        new_fib_hash_table-IsFib default_strategy root_used positive
    run_fib_hash-IsFib default_strategy (op ∷ ops) root_used about positive =
        fib_hash_step-IsFib op (run_fib_hash hash m default_strategy ops) about.0
          (run_fib_hash-IsFib default_strategy ops root_used about.1 positive)
