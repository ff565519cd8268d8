-- ===== src/Table/PitCs/Found.antt =====
-- Which PIT entries a Data name finds, one by one: ndnd/fw/table/pit-cs-tree.go.
use ndn_bier.Prelude.{
  ℕ, suc, ◌+◌, ◌≡◌, ◌≢◌, ◌⊎◌, ◌↔◌, refl, sym, ap, subst, Bool, true, false, ◌||◌, ◌&&◌, Option,
  none, some, List, [], ◌∷◌, ◌++◌, length, map, ◌==◌, ==_iff, if◌then◌else◌, arith, find_first,
  Bool-cases, inl, inr,
}
use ndn_bier.Prelude.Lists.{Occurs, swap_out}
use ndn_bier.Prelude.Occurrences.{Occurs-append, Occurs-filter, Occurs-swap_out}
use ndn_bier.Encoding.Name.{Component}
use ndn_bier.Table.PitEntry.{PitEntry}
use ndn_bier.Table.NameTree.{Laws}
use ndn_bier.Table.NameTree.View.{keys_equal, view-update_exact, view-prune}
use ndn_bier.Table.PitCs.{
  CsEntry, PitCsValue, is_nil_entry, PitCsTree, pit_cs_shape, with_pit_entries,
}
use ndn_bier.Table.PitCs.Pit.{matching, has_token, is_some, pit_entries_at, remove_interest}
use ndn_bier.Table.PitCs.Matches.{held, matches_along}

-- An entry that is held under some first keys, and under all of them unless it may be a prefix.
pub record IsMatch (m : List ℕ → PitCsValue) (ks : List ℕ) (e : PitEntry) : Type 0 where
  pub before : List ℕ
  pub after : List ℕ
  pub split : ks ≡ before ++ after
  pub here : Occurs e (m before).pit_entries
  pub fits : (e.can_be_prefix ≡ true) ⊎ (after ≡ [])

empty_value :
    (v : PitCsValue)
    → (length v.pit_entries == 0 && is_nil_entry v.cs_entry) ≡ true
    → v ≡ record { pit_entries = []; cs_entry = none }
empty_value v h =
    let entries = no_entries v.pit_entries (ground (arith, h)) in
    let cached = nil v.cs_entry (ground (arith, h)) in cc (entries, cached)
  where
    no_entries : (es : List PitEntry) → (length es == 0) ≡ true → es ≡ []
    no_entries [] h = refl
    no_entries (e ∷ es) h = absurd (ground (arith, h))

    nil : (c : Option CsEntry) → is_nil_entry c ≡ true → c ≡ none
    nil none h = refl
    nil (some e) h = cc

pit_cs_laws : (hash : Component → ℕ) → Laws (pit_cs_shape hash)
pit_cs_laws hash = record { same_iff = ==_iff; empty_fresh = empty_value }

fits_at :
    (e : PitEntry) (len depth : ℕ) (ks : List ℕ)
    → depth + length ks ≡ len
    → ((e.can_be_prefix || depth == len) ≡ true) ↔ ((e.can_be_prefix ≡ true) ⊎ (ks ≡ []))
fits_at e len depth [] h =
    (λ t. inr refl, λ f. let same = (==_iff depth len).1 (omega (arith, h)) in ground (arith, same))
fits_at e len depth (k ∷ ks) h = (
  λ t. elim (Bool-cases e.can_be_prefix) [
    | inl c ↦ inl c
    | inr c ↦
        let same = (==_iff depth len).0 (ground (arith, t, c)) in absurd (omega (arith, h, same))
  ],
  λ f. elim f [ inl c ↦ ground (arith, c) | inr e ↦ absurd (ground (arith, e)) ],
)

module _ (hash : Component → ℕ) where
  matches_here :
      (e : PitEntry) (len depth : ℕ) (v : PitCsValue) (ks : List ℕ)
      → depth + length ks ≡ len
      → Occurs e (matching hash len depth v)
        ↔ (Occurs e v.pit_entries × ((e.can_be_prefix ≡ true) ⊎ (ks ≡ [])))
  matches_here e len depth v ks h =
      let both = Occurs-filter (λ x. x.can_be_prefix || depth == len) e v.pit_entries in
      let fits = fits_at e len depth ks h in
      (λ o. let p = both.0 o in (p.0, fits.0 p.1), λ p. both.1 (p.0, fits.1 p.1))

  pub matches_along-IsMatch :
      (e : PitEntry) (len depth : ℕ) (m : List ℕ → PitCsValue) (ks : List ℕ)
      → depth + length ks ≡ len
      → Occurs e (matches_along hash len m depth ks) ↔ IsMatch m ks e
  unfolding matches_along
  matches_along-IsMatch e len depth m [] h =
      let here = matches_here e len depth (m []) [] h in
      (
        λ o.
            let p = here.0 o in
            record { before = []; after = []; split = refl; here = p.0; fits = p.1 },
        λ i. here.1 (at_end i.before i.after i.split i.here, inr refl),
      )
    where
      at_end :
          (before after : List ℕ)
          → [] ≡ before ++ after
          → Occurs e (m before).pit_entries
          → Occurs e (m []).pit_entries
      at_end [] after s o = o
      at_end (k ∷ before) after s o = absurd (ground (arith, s))
  matches_along-IsMatch e len depth m (k ∷ ks) h =
      let here = matches_here e len depth (m []) (k ∷ ks) h in
      let below =
        matches_along-IsMatch e len (suc depth) (λ js. m (k ∷ js)) ks (omega (arith, h)) in
      let both =
        Occurs-append e (matches_along hash len (λ js. m (k ∷ js)) (suc depth) ks)
          (matching hash len depth (m [])) in
      (
        λ o. elim (both.0 o) [
          | inl b ↦
              let i = below.0 b in
              record {
                before = k ∷ i.before;
                after = i.after;
                split = ap (λ l. k ∷ l) i.split;
                here = i.here;
                fits = i.fits;
              }
          | inr n ↦
              let p = here.0 n in
              record { before = []; after = k ∷ ks; split = refl; here = p.0; fits = p.1 }
        ],
        λ i. both.1 (at_node i.before i.after i.split i.here i.fits here.1 below.1),
      )
    where
      at_node :
          (before after : List ℕ)
          → k ∷ ks ≡ before ++ after
          → Occurs e (m before).pit_entries
          → (e.can_be_prefix ≡ true) ⊎ (after ≡ [])
          → (Occurs e (m []).pit_entries × ((e.can_be_prefix ≡ true) ⊎ (k ∷ ks ≡ []))
              → Occurs e (matching hash len depth (m [])))
          → (IsMatch (λ js. m (k ∷ js)) ks e
              → Occurs e (matches_along hash len (λ js. m (k ∷ js)) (suc depth) ks))
          → Occurs e (matches_along hash len (λ js. m (k ∷ js)) (suc depth) ks)
            ⊎ Occurs e (matching hash len depth (m []))
      at_node [] after s o fits here below =
          inr (here (o, subst (λ l. (e.can_be_prefix ≡ true) ⊎ (l ≡ [])) (sym s) fits))
      at_node (j ∷ before) after s o fits here below =
          let same : j ≡ k = cc in
          inl (
            below (record {
              before = before;
              after = after;
              split = cc;
              here = subst (λ i. Occurs e (m (i ∷ before)).pit_entries) same o;
              fits = fits;
            }))

  -- A removal leaves the entries with other tokens where they are.
  pub remove_interest-keeps :
      (gone e : PitEntry) (p : PitCsTree) (ks : List ℕ)
      → e.token ≢ gone.token
      → Occurs e (held hash (remove_interest hash gone p).0.root ks).pit_entries
        ↔ Occurs e (held hash p.root ks).pit_entries
  unfolding remove_interest
  remove_interest-keeps gone e p ks other =
      elim (Bool-cases (
        is_some hash
          (find_first (has_token gone.token) (pit_entries_at hash gone.encname p.root)))) [
            | inl there ↦
                rw
                  (
                    there,
                    view-prune (pit_cs_shape hash) (pit_cs_laws hash) _ ks gone.encname,
                    view-update_exact (pit_cs_shape hash) (pit_cs_laws hash) p.root ks gone.encname
                        (with_pit_entries (swap_out (has_token gone.token)))
                        (unfold swap_out in refl),
                  )
                  (at_keys (keys_equal (pit_cs_shape hash) (map hash gone.encname) ks))
            | inr absent ↦ rw absent (λ o. o, λ o. o)
          ]
    where
      another : has_token gone.token e ≡ false
      another = elim (Bool-cases (has_token gone.token e)) [
        | inl t ↦ absurd (other ((==_iff e.token gone.token).0 t))
        | inr f ↦ f
      ]

      at_keys :
          (b : Bool)
          → Occurs e
              (if b
                then with_pit_entries (swap_out (has_token gone.token)) (held hash p.root ks)
                else held hash p.root ks).pit_entries
            ↔ Occurs e (held hash p.root ks).pit_entries
      at_keys true =
          Occurs-swap_out (has_token gone.token) e (held hash p.root ks).pit_entries another
      at_keys false = (λ o. o, λ o. o)
