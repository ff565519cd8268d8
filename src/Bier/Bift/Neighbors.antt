-- ===== src/Bier/Bift/Neighbors.antt =====
-- What `GetNeighborEntries` returns: each face once, with its mask, and every face that is used.
use ndn_bier.Prelude.{
  ℕ, ◌<◌, ◌≡◌, refl, sym, subst, ◌∙◌, inl, inr, true, false, Option, none, some, [], ◌∷◌, arith,
  ◌==◌, ==_iff, if◌then◌else◌, Bool-cases, All,
}
use ndn_bier.Prelude.Maps.{
  Map, lookup, insert, Distinct, lookup-insert, insert-Distinct, All-insert,
}
use ndn_bier.Bier.Bits.{Bytes}
use ndn_bier.Bier.Bift.{BiftEntry, BiftState, neighbor_loop}
use ndn_bier.Bier.Bift.Groups.{reaches}
use ndn_bier.Bier.Bift.Masks.{IsMask, HasMask, HasMasks}

-- The body of the loop, at the mask of the entry and at what the map holds for its face.
abbrev keep_first : Map Bytes → ℕ → Option Bytes → Option Bytes → Map Bytes
keep_first faces face none known = faces
keep_first faces face (some fbm) none = insert face fbm faces
keep_first faces face (some fbm) (some known) = faces

abbrev visit : BiftEntry → Map Bytes → Map Bytes
visit e faces =
    if e.next_hop == 0 then faces else keep_first faces e.next_hop e.fbm (lookup e.next_hop faces)

neighbor_loop-visit :
    (e : ℕ × BiftEntry) (es : Map BiftEntry) (faces : Map Bytes)
    → neighbor_loop (e ∷ es) faces ≡ neighbor_loop es (visit e.1 faces)
unfolding neighbor_loop
neighbor_loop-visit e es faces = ground arith

-- A list of faces with their masks, each once.
pub record IsTable (all : Map BiftEntry) (faces : Map Bytes) : Type 0 where
  pub distinct : Distinct faces
  pub masks : All (λ f. (0 < f.0) × IsMask all f.0 f.1) faces

abbrev pub Found : ℕ → Map Bytes → Type 0
Found face faces = (fbm : Bytes) × (lookup face faces ≡ some fbm)

module _ (faces : Map Bytes) (face : ℕ) (fbm : Bytes) where
  keep_first-IsTable :
      (all : Map BiftEntry) (known : Option Bytes)
      → 0 < face
      → IsMask all face fbm
      → IsTable all faces
      → IsTable all (keep_first faces face (some fbm) known)
  keep_first-IsTable all (some known) pos m t = t
  keep_first-IsTable all none pos m t = record {
    distinct = insert-Distinct face fbm faces t.distinct;
    masks = All-insert _ face fbm faces (pos, m) t.masks;
  }

  keep_first-Found :
      (known : Option Bytes)
      → lookup face faces ≡ known
      → Found face (keep_first faces face (some fbm) known)
  keep_first-Found (some known) h = (known, h)
  keep_first-Found none h = (fbm, lookup-insert face face fbm faces ∙ ground arith)

keep_first-keeps :
    (faces : Map Bytes) (face other : ℕ) (fbm known : Option Bytes)
    → lookup face faces ≡ known
    → Found other faces
    → Found other (keep_first faces face fbm known)
keep_first-keeps faces face other none known e f = f
keep_first-keeps faces face other (some fbm) (some known) e f = f
keep_first-keeps faces face other (some fbm) none e (old, h) = elim (Bool-cases (face == other)) [
  | inl same ↦ (fbm, lookup-insert face other fbm faces ∙ rw same)
  | inr differ ↦ (old, lookup-insert face other fbm faces ∙ (rw differ h))
]

visit-IsTable :
    (all : Map BiftEntry) (e : BiftEntry) (faces : Map Bytes)
    → HasMask all e
    → IsTable all faces
    → IsTable all (visit e faces)
visit-IsTable all e faces h t = elim (Bool-cases (e.next_hop == 0)) [
  | inl down ↦ rw down t
  | inr up ↦
      let pos : 0 < e.next_hop = ground arith in
      let (fbm, has, m) = h pos in
      rw up (
        subst (λ o. IsTable all (keep_first faces e.next_hop o (lookup e.next_hop faces))) (sym has)
          (keep_first-IsTable faces e.next_hop fbm all _ pos m t))
]

visit-Found :
    (all : Map BiftEntry) (e : BiftEntry) (faces : Map Bytes)
    → HasMask all e
    → 0 < e.next_hop
    → Found e.next_hop (visit e faces)
visit-Found all e faces h pos =
    let (fbm, has, m) = h pos in
    let up : (e.next_hop == 0) ≡ false = ground arith in
    rw up (
      subst (λ o. Found e.next_hop (keep_first faces e.next_hop o (lookup e.next_hop faces)))
        (sym has) (keep_first-Found faces e.next_hop fbm _ refl))

visit-keeps :
    (e : BiftEntry) (face : ℕ) (faces : Map Bytes) → Found face faces → Found face (visit e faces)
visit-keeps e face faces f = elim (Bool-cases (e.next_hop == 0)) [
  | inl down ↦ rw down f
  | inr up ↦ rw up (keep_first-keeps faces e.next_hop face e.fbm _ refl f)
]

neighbor_loop-IsTable :
    (all es : Map BiftEntry) (faces : Map Bytes)
    → All (λ e. HasMask all e.1) es
    → IsTable all faces
    → IsTable all (neighbor_loop es faces)
neighbor_loop-IsTable all [] faces h t = unfold neighbor_loop in t
neighbor_loop-IsTable all (e ∷ es) faces h t =
    rw (neighbor_loop-visit e es faces)
      (neighbor_loop-IsTable all es _ h.1 (visit-IsTable all e.1 faces h.0 t))

neighbor_loop-keeps :
    (es : Map BiftEntry) (face : ℕ) (faces : Map Bytes)
    → Found face faces
    → Found face (neighbor_loop es faces)
neighbor_loop-keeps [] face faces h = unfold neighbor_loop in h
neighbor_loop-keeps (e ∷ es) face faces h =
    rw (neighbor_loop-visit e es faces)
      (neighbor_loop-keeps es face _ (visit-keeps e.1 face faces h))

neighbor_loop-Found :
    (all es : Map BiftEntry) (face q : ℕ) (faces : Map Bytes)
    → All (λ e. HasMask all e.1) es
    → 0 < face
    → reaches es face q ≡ true
    → Found face (neighbor_loop es faces)
unfolding reaches
neighbor_loop-Found all [] face q faces h pos r = cc
neighbor_loop-Found all (e ∷ es) face q faces h pos r =
    rw (neighbor_loop-visit e es faces) (elim (Bool-cases (e.1.next_hop == face)) [
      | inl same ↦
          let eq = (==_iff e.1.next_hop face).0 same in
          neighbor_loop-keeps es face _
            (subst (λ f. Found f (visit e.1 faces)) eq (visit-Found all e.1 faces h.0 (rw eq pos)))
      | inr other ↦ neighbor_loop-Found all es face q _ h.1 pos (ground arith)
    ])

-- In a table whose entries have the masks of their next hops, the neighbors are each face once,
-- with the mask of exactly the BFR-IDs that the table sends there.
pub get_neighbor_entries-IsTable :
    (b : BiftState) → HasMasks b → IsTable b.entries (neighbor_loop b.entries [])
get_neighbor_entries-IsTable b h =
    neighbor_loop-IsTable b.entries b.entries [] h (record { distinct = tt; masks = tt })

-- Every face that the table uses is among them.
pub get_neighbor_entries-Found :
    (b : BiftState) (face q : ℕ)
    → HasMasks b
    → 0 < face
    → reaches b.entries face q ≡ true
    → Found face (neighbor_loop b.entries [])
get_neighbor_entries-Found b face q h = neighbor_loop-Found b.entries b.entries face q [] h
