-- ===== src/Table/FibHashTable/Lookups.antt =====
-- The two scans of a lookup find what a scan over every prefix of the name would.
use ndn_bier.Prelude.{
  ℕ, zero, suc, ◌≤◌, ◌<◌, ◌≡◌, refl, sym, ◌∙◌, ap, Bool, false, Option, none, some, List, [], ◌∷◌,
  length, take, leb, ltb, ◌==◌, ==_iff, max, min, if◌then◌else◌, arith, Bool-cases, Option-cases,
  inl, inr,
}
use ndn_bier.Prelude.Maps.{Map, lookup}
use ndn_bier.Encoding.Name.{Name}
use ndn_bier.Table.FibEntry.{FibValue, no_value}
use ndn_bier.Table.NameTree.Longest.{longest}
use ndn_bier.Table.FibHashTable.{
  RealEntry, FibHashTable, or_else, scan_real, scan_above, find_longest_prefix_match, accepted,
  scan_value, scan_from,
}
use ndn_bier.Table.FibHashTable.Invariant.{IsFib}
use ndn_bier.Table.FibHashTable.NameSets.{covers}

module _ {A : Type 0} where
  length-take : (n : ℕ) (xs : List A) → n ≤ length xs → length (take n xs) ≡ n
  length-take zero [] h = refl
  length-take (suc n) [] h = absurd (omega arith)
  length-take zero (x ∷ xs) h = refl
  length-take (suc n) (x ∷ xs) h = ap suc (length-take n xs (omega arith))

  take-take : (m n : ℕ) (xs : List A) → m ≤ n → take m (take n xs) ≡ take m xs
  take-take m n [] h = refl
  take-take zero zero (x ∷ xs) h = refl
  take-take zero (suc n) (x ∷ xs) h = refl
  take-take (suc m) zero (x ∷ xs) h = absurd (omega arith)
  take-take (suc m) (suc n) (x ∷ xs) h = ap (λ ys. x ∷ ys) (take-take m n xs (omega arith))

  take_zero : (xs : List A) → take 0 xs ≡ []
  take_zero [] = refl
  take_zero (x ∷ xs) = refl

  or_else_assoc : (a b c : Option A) → or_else (or_else a b) c ≡ or_else a (or_else b c)
  or_else_assoc none b c = refl
  or_else_assoc (some x) b c = refl

abbrev pub value_or : Option RealEntry → FibValue
value_or none = no_value
value_or (some e) = e.value

module _ (accepts : FibValue → Bool) where
  abbrev tested : FibValue → Option FibValue
  tested v = if accepts v then some v else none

  -- The reference scan over a map of values.
  unfoldable scan_down : (Name → FibValue) → Name → ℕ → Option FibValue
  scan_down m name zero = tested (m (take 0 name))
  scan_down m name (suc pfx) = or_else (tested (m (take (suc pfx) name))) (scan_down m name pfx)

  scan_down-cons :
      (m : Name → FibValue) (c : _) (name : Name) (pfx : ℕ)
      → scan_down m (c ∷ name) (suc pfx)
        ≡ or_else (scan_down (λ js. m (c ∷ js)) name pfx) (tested (m []))
  unfolding scan_down
  scan_down-cons m c name zero = refl
  scan_down-cons m c name (suc pfx) =
      ap (or_else (tested (m (c ∷ take (suc pfx) name)))) (scan_down-cons m c name pfx)
      ∙ sym (or_else_assoc (tested (m (c ∷ take (suc pfx) name))) _ (tested (m [])))

  tested_else :
      (v : FibValue) (fallback : Option FibValue)
      → (if accepts v then some v else fallback) ≡ or_else (tested v) fallback
  tested_else v fallback = elim (Bool-cases (accepts v)) [ inl h ↦ rw h refl | inr h ↦ rw h refl ]

  longest-scan_down :
      (m : Name → FibValue) (name : Name) (fallback : Option FibValue)
      → longest accepts m name fallback ≡ or_else (scan_down m name (length name)) fallback
  unfolding longest scan_down
  longest-scan_down m [] fallback = tested_else (m []) fallback
  longest-scan_down m (c ∷ name) fallback =
      longest-scan_down (λ js. m (c ∷ js)) name _
      ∙ ap (or_else (scan_down (λ js. m (c ∷ js)) name (length name))) (tested_else (m []) fallback)
      ∙ sym
          (or_else_assoc (scan_down (λ js. m (c ∷ js)) name (length name)) (tested (m [])) fallback)
      ∙ ap (λ o. or_else o fallback) (sym (scan_down-cons m c name (length name)))

  module _ (hash : Name → ℕ) (m : ℕ) (reject : accepts no_value ≡ false) where
    accepted-tested : (o : Option RealEntry) → accepted hash m accepts o ≡ tested (value_or o)
    accepted-tested none = rw reject refl
    accepted-tested (some e) = refl

    scan_value-scan_down :
        (real : Map RealEntry) (name : Name) (pfx : ℕ)
        → scan_value hash m accepts real name pfx
          ≡ scan_down (λ n. value_or (lookup (hash n) real)) name pfx
    unfolding scan_value scan_down
    scan_value-scan_down real name zero = accepted-tested (lookup (hash (take 0 name)) real)
    scan_value-scan_down real name (suc pfx) = rw (scan_value-scan_down real name pfx) (
        ap (λ o. or_else o (scan_down (λ n. value_or (lookup (hash n) real)) name pfx))
          (accepted-tested (lookup (hash (take (suc pfx) name)) real)))

    or_else-none : {A : Type 0} (o : Option A) → or_else o none ≡ o
    or_else-none none = refl
    or_else-none (some a) = refl

    pub scan_value-longest :
        (real : Map RealEntry) (name : Name)
        → scan_value hash m accepts real name (length name)
          ≡ longest accepts (λ n. value_or (lookup (hash n) real)) name none
    scan_value-longest real name =
        scan_value-scan_down real name (length name)
        ∙ sym (longest-scan_down _ name none ∙ or_else-none _)

    module _ (Used : Name → Type 0) (t : FibHashTable) (h : IsFib hash m Used t) (name : Name)
        (prefixes : (i : ℕ) → Used (take i name)) where
      abbrev found : ℕ → Option RealEntry
      found pfx = lookup (hash (take pfx name)) t.real_table

      -- An entry that is found under a prefix has its length.
      from-hit :
          (pfx : ℕ) (e : RealEntry)
          → pfx ≤ length name
          → found pfx ≡ some e
          → scan_from hash m accepts t.real_table name (some e)
            ≡ scan_value hash m accepts t.real_table name pfx
      from-hit pfx e le here =
          ap (scan_value hash m accepts t.real_table name)
            (ap length (h (take pfx name) e (prefixes pfx) here).0 ∙ length-take pfx name le)

      scan_real-from :
          (pfx : ℕ)
          → pfx ≤ length name
          → scan_from hash m accepts t.real_table name (scan_real hash m t.real_table name pfx)
            ≡ scan_value hash m accepts t.real_table name pfx
      unfolding scan_real scan_value
      scan_real-from zero le = elim (Option-cases (found 0)) [
        | inl absent ↦ rw absent refl
        | inr (e, here) ↦
            ap (scan_from hash m accepts t.real_table name) here ∙ from-hit 0 e le here
      ]
      scan_real-from (suc pfx) le = elim (Option-cases (found (suc pfx))) [
        | inl absent ↦ rw absent (scan_real-from pfx (omega arith))
        | inr (e, here) ↦
            ap
              (λ o.
                scan_from hash m accepts t.real_table name
                  (or_else o (scan_real hash m t.real_table name pfx)))
              here
            ∙ from-hit (suc pfx) e le here
      ]

      scan_value_absent :
          (pfx : ℕ)
          → found (suc pfx) ≡ none
          → scan_value hash m accepts t.real_table name (suc pfx)
            ≡ scan_value hash m accepts t.real_table name pfx
      unfolding scan_value
      scan_value_absent pfx absent = rw absent refl

      -- Both scans, when the first one starts at some length.
      scan_above-from :
          (pfx : ℕ)
          → max m pfx ≤ length name
          → scan_from hash m accepts t.real_table name (
              or_else
                (scan_above hash m t.real_table name pfx)
                (scan_real hash m t.real_table name m))
            ≡ scan_value hash m accepts t.real_table name (max m pfx)
      unfolding scan_above
      scan_above-from zero le =
          let top : max m 0 ≡ m = omega arith in rw top (scan_real-from m (omega arith))
      scan_above-from (suc pfx) le = elim (Bool-cases (ltb m (suc pfx))) [
        | inl above ↦
            let top : max m (suc pfx) ≡ suc pfx = ground (arith, above) in
            let below : max m pfx ≡ pfx = ground (arith, above) in
            rw (above, top)
              (elim (Option-cases (found (suc pfx))) [
                | inl absent ↦ rw absent (
                    scan_above-from pfx (omega (arith, top, below, le))
                    ∙ ap (scan_value hash m accepts t.real_table name) below
                    ∙ sym (scan_value_absent pfx absent))
                | inr (e, here) ↦ rw here (from-hit (suc pfx) e (omega (arith, top, le)) here)
              ])
        | inr inside ↦
            let top : max m (suc pfx) ≡ m = ground (arith, inside) in
            rw (inside, top) (scan_real-from m (omega (arith, top, le)))
      ]

      -- No entry stands under a prefix that is longer than a virtual name and than its longest length.
      no_entry_beyond :
          (pfx : ℕ)
          → pfx ≤ length name
          → m < pfx
          → covers pfx (lookup (hash (take m name)) t.virt_table) ≡ false
          → found pfx ≡ none
      no_entry_beyond pfx le above uncovered = elim (Option-cases (found pfx)) [
        | inl absent ↦ absent
        | inr (e, here) ↦ absurd (elim (h (take pfx name) e (prefixes pfx) here).1 [
          | inl short ↦ ground (arith, short, length-take pfx name le, above)
          | inr listed ↦ ground (
            arith,
            listed.0,
            uncovered,
            length-take pfx name le,
            take-take m pfx name (omega arith),
          )
        ])
      ]

      -- A scan that starts above every entry may start lower.
      scan_value-skip :
          (hi lo : ℕ)
          → lo ≤ hi
          → ((pfx : ℕ) → lo < pfx → pfx ≤ hi → found pfx ≡ none)
          → scan_value hash m accepts t.real_table name hi
            ≡ scan_value hash m accepts t.real_table name lo
      unfolding scan_value
      scan_value-skip zero lo le absent = let bottom : lo ≡ 0 = omega arith in rw bottom refl
      scan_value-skip (suc hi) lo le absent = elim (Bool-cases (lo == suc hi)) [
        | inl e ↦ let top : lo ≡ suc hi = (==_iff lo (suc hi)).0 e in rw top refl
        | inr d ↦
            rw (absent (suc hi) (ground (arith, d)) (omega arith))
              (scan_value-skip hi lo (ground (arith, d)) (λ pfx a b. absent pfx a (omega arith)))
      ]

      bound_covered :
          (pfx md : ℕ) → max m (min md (length name)) < pfx → pfx ≤ length name → leb pfx md ≡ false
      bound_covered pfx md a b = ground arith

      find-scan_value :
          scan_from hash m accepts t.real_table name (find_longest_prefix_match hash m name t)
          ≡ scan_value hash m accepts t.real_table name (length name)
      unfolding find_longest_prefix_match
      find-scan_value = elim (Bool-cases (leb (length name) m)) [
        | inl short ↦ rw short (scan_real-from (length name) (omega arith))
        | inr long ↦
            let above : m < length name = ground (arith, long) in
            rw long (elim (Option-cases (lookup (hash (take m name)) t.virt_table)) [
              | inl absent ↦ rw absent (
                  scan_real-from m (omega (arith, above))
                  ∙ sym (
                      scan_value-skip (length name) m (omega (arith, above))
                        (λ pfx a b. no_entry_beyond pfx b a (rw absent refl))))
              | inr (md, here) ↦
                  let fits : max m (min md (length name)) ≤ length name = omega (arith, above) in
                  rw here (
                    scan_above-from (min md (length name)) fits
                    ∙ sym (
                        scan_value-skip (length name) (max m (min md (length name))) fits
                          (λ pfx a b.
                            no_entry_beyond pfx b (omega arith)
                              (rw here (bound_covered pfx md a b)))))
            ])
      ]

      -- A lookup is the longest prefix whose value the test accepts.
      pub find-longest :
          scan_from hash m accepts t.real_table name (find_longest_prefix_match hash m name t)
          ≡ longest accepts (λ n. value_or (lookup (hash n) t.real_table)) name none
      find-longest = find-scan_value ∙ scan_value-longest t.real_table name
