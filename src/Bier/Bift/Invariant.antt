-- ===== src/Bier/Bift/Invariant.antt =====
-- Well-formed tables, and what the operations of the table keep and change.
use ndn_bier.Prelude.{
  ℕ, ◌<◌, ◌≡◌, refl, ◌≢◌, inl, inr, true, false, [], ◌∷◌, map, Option, none, some, arith, ◌==◌,
  Bool-cases, Option-cases, All,
}
use ndn_bier.Prelude.Maps.{Map, lookup, Distinct, insert-Distinct, All-insert}
use ndn_bier.Encoding.Name.{Name}
use ndn_bier.Bier.Bits.{Bytes}
use ndn_bier.Bier.Bift.{
  BiftEntry, BiftState, register_router, update_next_hop, assign_fbm, rebuild_fbm,
}
use ndn_bier.Bier.Bift.Groups.{reaches}

-- The face of a BFR-ID, 0 if it has none.
abbrev pub hop_or_zero : Option BiftEntry → ℕ
hop_or_zero none = 0
hop_or_zero (some e) = e.next_hop

abbrev pub hop : Map BiftEntry → ℕ → ℕ
hop es q = hop_or_zero (lookup q es)

-- An entry stands under its own BFR-ID.
abbrev pub IsKeyed : ℕ × BiftEntry → Type 0
IsKeyed e = e.1.bfr_id ≡ e.0

-- One entry for a BFR-ID, under that number.
pub record IsValid (b : BiftState) : Type 0 where
  pub distinct : Distinct b.entries
  pub keyed : All IsKeyed b.entries

reaches_absent :
    (es : Map BiftEntry) (face k q : ℕ)
    → All (λ f. f.0 ≢ k) es
    → (k == q) ≡ true
    → reaches es face q ≡ false
unfolding reaches
reaches_absent [] face k q h e = refl
reaches_absent (x ∷ es) face k q h e = ground (arith, reaches_absent es face k q h.1)

-- In a table with one entry for a BFR-ID the face that it uses is the entry's.
pub reaches-hop :
    (es : Map BiftEntry) (face q : ℕ)
    → Distinct es
    → 0 < face
    → reaches es face q ≡ (hop es q == face)
unfolding reaches lookup
reaches-hop [] face q d pos = ground arith
reaches-hop (e ∷ es) face q d pos = elim (Bool-cases (e.0 == q)) [
  | inl same ↦ rw (same, reaches_absent es face e.0 q d.0 same) (ground arith)
  | inr other ↦ rw (other, reaches-hop es face q d.1 pos)
]

pub register_router-IsValid :
    (hash : Name → ℕ) (name : Name) (id : ℕ) (b : BiftState)
    → IsValid b
    → IsValid (register_router hash name id b)
unfolding register_router
register_router-IsValid hash name id b v = record {
  distinct = insert-Distinct id _ b.entries v.distinct;
  keyed = All-insert IsKeyed id _ b.entries refl v.keyed;
}

lookup-IsKeyed :
    (q : ℕ) (es : Map BiftEntry) (e : BiftEntry)
    → All IsKeyed es
    → lookup q es ≡ some e
    → e.bfr_id ≡ q
unfolding lookup
lookup-IsKeyed q [] e h l = cc
lookup-IsKeyed q (x ∷ es) e h l = ground (arith, lookup-IsKeyed q es e h.1)

pub update_next_hop-IsValid :
    (id face : ℕ) (b : BiftState) → IsValid b → IsValid (update_next_hop id face b)
unfolding update_next_hop
update_next_hop-IsValid id face b v = elim (Option-cases (lookup id b.entries)) [
  | inl absent ↦ rw (absent, update_next_hop) v
  | inr (e, there) ↦
      rw (there, update_next_hop)
        (record {
          distinct = insert-Distinct id _ b.entries v.distinct;
          keyed =
              All-insert IsKeyed id _ b.entries (lookup-IsKeyed id b.entries e v.keyed there)
                v.keyed;
        })
]

module _ (fbms : Map Bytes) where
  assign-key : (e : ℕ × BiftEntry) → (assign_fbm fbms e).0 ≡ e.0
  unfolding assign_fbm
  assign-key e = ground arith

  assign-IsKeyed : (e : ℕ × BiftEntry) → IsKeyed e → IsKeyed (assign_fbm fbms e)
  unfolding assign_fbm
  assign-IsKeyed e h = ground arith

  assign-next_hop : (e : ℕ × BiftEntry) → (assign_fbm fbms e).1.next_hop ≡ e.1.next_hop
  unfolding assign_fbm
  assign-next_hop e = ground arith

  All-ne_map :
      (k : ℕ) (es : Map BiftEntry)
      → All (λ f. f.0 ≢ k) es
      → All (λ f. f.0 ≢ k) (map (assign_fbm fbms) es)
  All-ne_map k [] h = tt
  All-ne_map k (e ∷ es) h = (rw (assign-key e) h.0, All-ne_map k es h.1)

  map_assign-Distinct : (es : Map BiftEntry) → Distinct es → Distinct (map (assign_fbm fbms) es)
  map_assign-Distinct [] d = tt
  map_assign-Distinct (e ∷ es) d =
      (rw (assign-key e) (All-ne_map e.0 es d.0), map_assign-Distinct es d.1)

  map_assign-IsKeyed :
      (es : Map BiftEntry) → All IsKeyed es → All IsKeyed (map (assign_fbm fbms) es)
  map_assign-IsKeyed [] h = tt
  map_assign-IsKeyed (e ∷ es) h = (assign-IsKeyed e h.0, map_assign-IsKeyed es h.1)

  hop-map_assign : (q : ℕ) (es : Map BiftEntry) → hop (map (assign_fbm fbms) es) q ≡ hop es q
  unfolding lookup
  hop-map_assign q [] = refl
  hop-map_assign q (e ∷ es) = rw (assign-key e) (elim (Bool-cases (e.0 == q)) [
    | inl same ↦ rw (same, assign-next_hop e)
    | inr other ↦ rw (other, hop-map_assign q es)
  ])

pub rebuild_fbm-IsValid : (b : BiftState) → IsValid b → IsValid (rebuild_fbm b)
unfolding rebuild_fbm
rebuild_fbm-IsValid b v = record {
  distinct = map_assign-Distinct _ b.entries v.distinct;
  keyed = map_assign-IsKeyed _ b.entries v.keyed;
}

-- `RebuildFbm` changes masks only.
pub hop-rebuild_fbm : (q : ℕ) (b : BiftState) → hop (rebuild_fbm b).entries q ≡ hop b.entries q
unfolding rebuild_fbm
hop-rebuild_fbm q b = hop-map_assign _ q b.entries
