-- ===== src/Table/FibHashTable/Invariant.antt =====
-- Every real entry stands under its own name, and a name as long as a virtual name or longer is one of
-- the names of its virtual name, whose longest length is not less than the name's.
use ndn_bier.Prelude.{
  ℕ, ◌≡◌, ◌⊎◌, refl, sym, ◌∙◌, ap, subst, true, false, Option, none, some, List, length, take, leb,
  ltb, ◌==◌, ==_iff, arith, Bool-cases, Option-cases, inl, inr,
}
use ndn_bier.Prelude.Maps.{Map, lookup, insert, delete, lookup-insert, lookup-delete}
use ndn_bier.Encoding.Name.{Name, equal}
use ndn_bier.Encoding.Name.Prefix.{equal_iff}
use ndn_bier.Table.FibEntry.{FibValue, no_information}
use ndn_bier.Table.FibHashTable.{
  RealEntry, FibHashTable, has_name, delete_name, put_name, set_or_empty, longer, longest_of,
  entry_or_new, insert_entry, drop_virtual_name, drop_virtual, prune_tables, change_entry,
}
use ndn_bier.Table.FibHashTable.NameSets.{
  covers, covers-longer, covers-longer_self, has_name-delete_name, has_name-put_name,
  has_name-put_self, has_name-set_or_empty, lists_name, longest_of_ge, not_empty, some_same,
}

module _ (hash : Name → ℕ) (m : ℕ) where
  abbrev pub IsListed : Map ℕ → Map (List (Name × ℕ)) → Name → Type 0
  IsListed virt names n =
      (covers (length n) (lookup (hash (take m n)) virt) ≡ true)
      × (lists_name n (lookup (hash (take m n)) names) ≡ true)

  abbrev pub IsPlaced : FibHashTable → Name → RealEntry → Type 0
  IsPlaced t n e =
      (e.name ≡ n) × ((ltb (length n) m ≡ true) ⊎ IsListed t.virt_table t.virt_table_names n)

  -- Of the names in use: the table has an entry at its own name and, if the name is long, under its
  -- virtual name.
  abbrev pub IsFib : (Name → Type 0) → FibHashTable → Type 0
  IsFib Used t =
      (n : Name) (e : RealEntry) → Used n → lookup (hash n) t.real_table ≡ some e → IsPlaced t n e

  abbrev pub virt_after : Name → Map ℕ → Map ℕ
  virt_after name virt =
      insert (hash (take m name)) (longer (length name) (lookup (hash (take m name)) virt)) virt

  abbrev pub names_after : Name → Map (List (Name × ℕ)) → Map (List (Name × ℕ))
  names_after name names =
      insert (hash (take m name)) (put_name name (set_or_empty (lookup (hash (take m name)) names)))
        names

  insert-covers :
      (name n : Name) (virt : Map ℕ)
      → covers (length n) (lookup (hash (take m n)) virt) ≡ true
      → covers (length n) (lookup (hash (take m n)) (virt_after name virt)) ≡ true
  insert-covers name n virt h = elim (Bool-cases (hash (take m name) == hash (take m n))) [
    | inl e ↦
        let same = (==_iff (hash (take m name)) (hash (take m n))).0 e in
        rw (lookup-insert (hash (take m name)) (hash (take m n)), e, same)
          (covers-longer n name (lookup (hash (take m n)) virt) h)
    | inr e ↦ rw (lookup-insert (hash (take m name)) (hash (take m n)), e) h
  ]

  insert-lists_name :
      (name n : Name) (names : Map (List (Name × ℕ)))
      → lists_name n (lookup (hash (take m n)) names) ≡ true
      → lists_name n (lookup (hash (take m n)) (names_after name names)) ≡ true
  insert-lists_name name n names h = elim (Bool-cases (hash (take m name) == hash (take m n))) [
    | inl e ↦
        let same = (==_iff (hash (take m name)) (hash (take m n))).0 e in
        rw (lookup-insert (hash (take m name)) (hash (take m n)), e, same)
          (has_name-put_name name n _ (has_name-set_or_empty n (lookup (hash (take m n)) names) h))
    | inr e ↦ rw (lookup-insert (hash (take m name)) (hash (take m n)), e) h
  ]

  insert-IsListed_self :
      (name : Name) (virt : Map ℕ) (names : Map (List (Name × ℕ)))
      → IsListed (virt_after name virt) (names_after name names) name
  insert-IsListed_self name virt names =
      let self : (hash (take m name) == hash (take m name)) ≡ true = (==_iff _ _).1 refl in
      (
        rw (lookup-insert (hash (take m name)) (hash (take m name)), self)
            (covers-longer_self name (lookup (hash (take m name)) virt)),
        rw (lookup-insert (hash (take m name)) (hash (take m name)), self)
            (has_name-put_self name _),
      )

  drop-lists_name :
      (name n : Name) (md : Option ℕ) (o : Option (List (Name × ℕ))) (names : Map (List (Name × ℕ)))
      → lookup (hash (take m name)) names ≡ o
      → equal name n ≡ false
      → lists_name n (lookup (hash (take m n)) names) ≡ true
      → lists_name n (lookup (hash (take m n)) (drop_virtual_name hash m name md o names)) ≡ true
  drop-lists_name name n none o names e d h = h
  drop-lists_name name n (some md) none names e d h = h
  drop-lists_name name n (some md) (some set) names e d h =
      elim (Bool-cases (hash (take m name) == hash (take m n))) [
        | inl v ↦
            let same = (==_iff (hash (take m name)) (hash (take m n))).0 v in
            let here : has_name n set ≡ true =
              subst (λ x. lists_name n x ≡ true) (ap (λ k. lookup k names) (sym same) ∙ e) h in
            let left : has_name n (delete_name name set) ≡ true =
              has_name-delete_name name n set ∙ ground (arith, d, here) in
            ground (
              arith,
              not_empty n (delete_name name set) left,
              left,
              h,
              v,
              lookup-insert (hash (take m name)) (hash (take m n)) (delete_name name set) names,
            )
        | inr v ↦ ground (
          arith,
          h,
          v,
          lookup-insert (hash (take m name)) (hash (take m n)) (delete_name name set) names,
          lookup-delete (hash (take m name)) (hash (take m n)) names,
        )
      ]

  drop-covers :
      (name n : Name) (md : Option ℕ) (o : Option (List (Name × ℕ))) (virt : Map ℕ)
      (names : Map (List (Name × ℕ)))
      → lookup (hash (take m name)) virt ≡ md
      → lookup (hash (take m name)) names ≡ o
      → lists_name n (lookup (hash (take m n)) names) ≡ true
      → covers (length n) (lookup (hash (take m n)) virt) ≡ true
      → covers (length n) (lookup (hash (take m n)) (drop_virtual hash m name md o virt)) ≡ true
  drop-covers name n none o virt names e e' l h = h
  drop-covers name n (some md) none virt names e e' l h =
      elim (Bool-cases (hash (take m name) == hash (take m n))) [
        | inl v ↦
            let same = (==_iff (hash (take m name)) (hash (take m n))).0 v in
            absurd (
              false_true
                (subst (λ x. lists_name n x ≡ true) (ap (λ k. lookup k names) (sym same) ∙ e') l))
        | inr v ↦ ground (arith, h, v, lookup-delete (hash (take m name)) (hash (take m n)) virt)
      ]
    where
      false_true : false ≡ true → ⊥
      false_true f = cc
  drop-covers name n (some md) (some set) virt names e e' l h =
      elim (Bool-cases (hash (take m name) == hash (take m n))) [
        | inl v ↦
            let same = (==_iff (hash (take m name)) (hash (take m n))).0 v in
            let here : leb (length n) md ≡ true =
              subst (λ x. covers (length n) x ≡ true) (ap (λ k. lookup k virt) (sym same) ∙ e) h in
            ground (
              arith,
              here,
              h,
              v,
              longest_of_ge md set,
              lookup-insert (hash (take m name)) (hash (take m n)) (longest_of md set) virt,
            )
        | inr v ↦ ground (
          arith,
          h,
          v,
          lookup-insert (hash (take m name)) (hash (take m n)) (longest_of md set) virt,
        )
      ]

  module _ (Used : Name → Type 0)
      (injective : (a b : Name) → Used a → Used b → hash a ≡ hash b → a ≡ b) where
    -- What stands under the hash of a name after a write under the hash of another.
    insert_cases :
        (name n : Name) (v e : RealEntry) (real : Map RealEntry)
        → Used name
        → Used n
        → lookup (hash n) (insert (hash name) v real) ≡ some e
        → ((name ≡ n) × (v ≡ e)) ⊎ (lookup (hash n) real ≡ some e)
    insert_cases name n v e real u w h = elim (Bool-cases (hash name == hash n)) [
      | inl s ↦ inl (
        injective name n u w ((==_iff (hash name) (hash n)).0 s),
        some_same v e (rw s at (sym (lookup-insert (hash name) (hash n) v real) ∙ h)),
      )
      | inr d ↦ inr (rw d at (sym (lookup-insert (hash name) (hash n) v real) ∙ h))
    ]

    entry-name :
        (name : Name) (t : FibHashTable)
        → Used name
        → IsFib Used t
        → (entry_or_new hash m name (lookup (hash name) t.real_table)).name ≡ name
    entry-name name t u h = elim (Option-cases (lookup (hash name) t.real_table)) [
      | inl missing ↦ rw missing refl
      | inr (e, found) ↦ rw found (h name e u found).0
    ]

    pub insert_entry-IsFib :
        (name : Name) (f : FibValue → FibValue) (t : FibHashTable)
        → Used name
        → IsFib Used t
        → IsFib Used (insert_entry hash m name f t)
    unfolding insert_entry
    insert_entry-IsFib name f t u h n e w found = elim (Bool-cases (leb m (length name))) [
      | inl long ↦ rw long (elim (insert_cases name n _ e t.real_table u w (rw long at found)) [
        | inl (same, it) ↦ (
          ap (λ x. x.name) (sym it) ∙ entry-name name t u h ∙ same,
          inr (
              subst (IsListed (virt_after name t.virt_table) (names_after name t.virt_table_names))
                same (insert-IsListed_self name t.virt_table t.virt_table_names)),
        )
        | inr old ↦ (
          (h n e w old).0,
          elim (h n e w old).1 [
            | inl short ↦ inl short
            | inr listed ↦ inr (
              insert-covers name n t.virt_table listed.0,
              insert-lists_name name n t.virt_table_names listed.1,
            )
          ],
        )
      ])
      | inr short ↦ rw short (elim (insert_cases name n _ e t.real_table u w (rw short at found)) [
        | inl (same, it) ↦ (
          ap (λ x. x.name) (sym it) ∙ entry-name name t u h ∙ same,
          inl (subst (λ x. ltb (length x) m ≡ true) same (ground arith)),
        )
        | inr old ↦ h n e w old
      ])
    ]

    delete_cases :
        (name n : Name) (e : RealEntry) (real : Map RealEntry)
        → lookup (hash n) (delete (hash name) real) ≡ some e
        → (equal name n ≡ false) × (lookup (hash n) real ≡ some e)
    delete_cases name n e real h = elim (Bool-cases (hash name == hash n)) [
      | inl s ↦ absurd (none_some (rw s at (sym (lookup-delete (hash name) (hash n) real) ∙ h)))
      | inr d ↦ (
        different d (Bool-cases (equal name n)),
        rw d at (sym (lookup-delete (hash name) (hash n) real) ∙ h),
      )
    ]
      where
        none_some : none ≡ some e → ⊥
        none_some f = cc

        different :
            (hash name == hash n) ≡ false
            → (equal name n ≡ true) ⊎ (equal name n ≡ false)
            → equal name n ≡ false
        different d (inl s) =
            absurd
              (clash (sym ((==_iff (hash name) (hash n)).1 (ap hash ((equal_iff name n).0 s))) ∙ d))
          where
            clash : true ≡ false → ⊥
            clash f = cc
        different d (inr s) = s

    prune_tables-IsFib :
        (p : RealEntry) (t : FibHashTable) → IsFib Used t → IsFib Used (prune_tables hash m p t)
    unfolding prune_tables
    prune_tables-IsFib p t h n e w found = elim (Bool-cases (no_information p.value)) [
      | inl gone ↦ elim (Bool-cases (leb m (length p.name))) [
        | inl long ↦
            let old = delete_cases p.name n e t.real_table (rw (gone, long) at found) in
            let virt = hash (take m p.name) in
            rw (gone, long)
              (
                (h n e w old.1).0,
                elim (h n e w old.1).1 [
                  | inl short ↦ inl short
                  | inr listed ↦
                      let still =
                        drop-lists_name p.name n (lookup virt t.virt_table)
                          (lookup virt t.virt_table_names) t.virt_table_names refl old.0 listed.1 in
                      inr (
                        drop-covers p.name n (lookup virt t.virt_table) _ t.virt_table _ refl refl
                            still listed.0,
                        still,
                      )
                ],
              )
        | inr short ↦
            let old = delete_cases p.name n e t.real_table (rw (gone, short) at found) in
            rw (gone, short) (h n e w old.1)
      ]
      | inr kept ↦ rw kept (h n e w (rw kept at found))
    ]

    rewrite-IsFib :
        (name : Name) (f : FibValue → FibValue) (e : RealEntry) (t : FibHashTable)
        → Used name
        → lookup (hash name) t.real_table ≡ some e
        → IsFib Used t
        → IsFib Used (record t {
          real_table = insert (hash name) (record e { value = f e.value }) t.real_table;
        })
    rewrite-IsFib name f e t u here h n x w found =
        elim (insert_cases name n (record e { value = f e.value }) x t.real_table u w found) [
          | inl (same, it) ↦ (
            ap (λ y. y.name) (sym it) ∙ (h name e u here).0 ∙ same,
            subst (λ y. (ltb (length y) m ≡ true) ⊎ IsListed t.virt_table t.virt_table_names y) same
                (h name e u here).1,
          )
          | inr old ↦ h n x w old
        ]

    pub change_entry-IsFib :
        (name : Name) (f : FibValue → FibValue) (o : Option RealEntry) (t : FibHashTable)
        → Used name
        → lookup (hash name) t.real_table ≡ o
        → IsFib Used t
        → IsFib Used (change_entry hash m name f o t)
    change_entry-IsFib name f none t u here h = h
    change_entry-IsFib name f (some e) t u here h =
        prune_tables-IsFib _ _ (rewrite-IsFib name f e t u here h)
