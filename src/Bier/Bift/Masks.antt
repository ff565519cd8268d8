-- ===== src/Bier/Bift/Masks.antt =====
-- What `RebuildFbm` and `GetNeighborEntries` compute, in terms of which face the table uses for
-- which BFR-ID.
use ndn_bier.Prelude.{
  ℕ, ◌+◌, ◌/◌, ◌<◌, ◌≡◌, refl, sym, ap, ◌∙◌, Bool, true, false, ◌||◌, Option, none, some, List, [],
  ◌∷◌, map, arith, replicate, All, All-map_imp,
}
use ndn_bier.Prelude.Maps.{Map, lookup}
use ndn_bier.Bier.Bits.{Bytes, IsBytes}
use ndn_bier.Bier.Bits.Sets.{member}
use ndn_bier.Bier.Bift.{
  BiftEntry, BiftState, face_groups, set_all, face_fbms, assign_fbm, max_bit, rebuild_fbm,
}
use ndn_bier.Bier.Bift.Groups.{
  contains, reaches, contains-face_groups, face_groups-Distinct, lookup-face_fbms, mask_of,
  set_all-IsBytes, member-set_all, replicate-IsBytes, member-replicate,
}

-- The mask of a face: exactly the BFR-IDs that the table sends there.
pub record IsMask (es : Map BiftEntry) (face : ℕ) (fbm : Bytes) : Type 0 where
  pub bytes : IsBytes fbm
  pub exact : (q : ℕ) → member fbm q ≡ reaches es face q

-- The entry has a next hop only with the right mask.
abbrev pub HasMask : Map BiftEntry → BiftEntry → Type 0
HasMask es e = 0 < e.next_hop → (fbm : Bytes) × (e.fbm ≡ some fbm) × IsMask es e.next_hop fbm

-- Every entry that has a next hop has the mask of its face.
abbrev pub HasMasks : BiftState → Type 0
HasMasks b = All (λ e. HasMask b.entries e.1) b.entries

pub reaches_self : (es : Map BiftEntry) → All (λ e. reaches es e.1.next_hop e.0 ≡ true) es
unfolding reaches
reaches_self [] = tt
reaches_self (e ∷ es) = (ground arith, All-map_imp _ _ (λ x h. ground arith) es (reaches_self es))

contains-group_some :
    (o : Option (List ℕ)) (q : ℕ)
    → contains (elim o [ some ids ↦ ids | none ↦ [] ]) q ≡ true
    → (ids : List ℕ) × (o ≡ some ids)
unfolding contains
contains-group_some none q h = cc
contains-group_some (some ids) q h = (ids, refl)

or_false : (b : Bool) → (b || false) ≡ b
or_false b = ground arith

abbrev fbms : ℕ → Map BiftEntry → Map Bytes
fbms bs_len es = face_fbms bs_len (face_groups es []) []

module _ (bs_len : ℕ) (es : Map BiftEntry) (face : ℕ) (pos : 0 < face) where
  built :
      (ids : List ℕ)
      → lookup face (face_groups es []) ≡ some ids
      → IsMask es face (set_all ids (replicate bs_len 0))
  unfolding lookup contains
  built ids e = record {
    bytes = set_all-IsBytes ids _ (replicate-IsBytes bs_len);
    exact = λ q.
        rw (member-set_all ids _ q (replicate-IsBytes bs_len), member-replicate bs_len q)
          (or_false _ ∙ (rw (e, contains) at (contains-face_groups es [] face q pos)));
  }

  -- The mask of a face that the table uses.
  pub IsMask-reached :
      (q : ℕ)
      → reaches es face q ≡ true
      → (fbm : Bytes) × (lookup face (fbms bs_len es) ≡ some fbm) × IsMask es face fbm
  unfolding lookup contains
  IsMask-reached q h =
      let (ids, e) =
        contains-group_some (lookup face (face_groups es [])) q
          (contains-face_groups es [] face q pos ∙ h) in
      (
        set_all ids (replicate bs_len 0),
        lookup-face_fbms bs_len face (face_groups es []) [] (face_groups-Distinct es [] tt)
            ∙ ap (λ o. mask_of bs_len o none) e,
        built ids e,
      )

module _ (masks : Map Bytes) (e : ℕ × BiftEntry) where
  assign-key : (assign_fbm masks e).0 ≡ e.0
  unfolding assign_fbm
  assign-key = ground arith

  assign-next_hop : (assign_fbm masks e).1.next_hop ≡ e.1.next_hop
  unfolding assign_fbm
  assign-next_hop = ground arith

  assign-fbm_hit :
      (fbm : Bytes) → lookup e.1.next_hop masks ≡ some fbm → (assign_fbm masks e).1.fbm ≡ some fbm
  unfolding assign_fbm
  assign-fbm_hit fbm h = rw (h, assign_fbm)

reaches-map_assign :
    (masks : Map Bytes) (es : Map BiftEntry) (face q : ℕ)
    → reaches (map (assign_fbm masks) es) face q ≡ reaches es face q
unfolding reaches
reaches-map_assign masks [] face q = refl
reaches-map_assign masks (e ∷ es) face q =
    rw (assign-key masks e, assign-next_hop masks e, reaches-map_assign masks es face q)

All-map_assign {κ} :
    (P : ℕ × BiftEntry → Type κ) (fbms : Map Bytes) (es : Map BiftEntry)
    → All (λ e. P (assign_fbm fbms e)) es
    → All P (map (assign_fbm fbms) es)
All-map_assign P fbms [] h = tt
All-map_assign P fbms (e ∷ es) h = (h.0, All-map_assign P fbms es h.1)

IsMask-assign :
    (masks : Map Bytes) (es : Map BiftEntry) (face : ℕ) (fbm : Bytes)
    → IsMask es face fbm
    → IsMask (map (assign_fbm masks) es) face fbm
IsMask-assign masks es face fbm m = record {
  bytes = m.bytes;
  exact = λ q. m.exact q ∙ sym (reaches-map_assign masks es face q);
}

assigned :
    (bs_len : ℕ) (es : Map BiftEntry) (e : ℕ × BiftEntry)
    → reaches es e.1.next_hop e.0 ≡ true
    → HasMask (map (assign_fbm (fbms bs_len es)) es) (assign_fbm (fbms bs_len es) e).1
assigned bs_len es e h pos =
    let same = assign-next_hop (fbms bs_len es) e in
    let (fbm, hit, m) = IsMask-reached bs_len es e.1.next_hop (rw same at pos) e.0 h in
    (
      fbm,
      assign-fbm_hit (fbms bs_len es) e fbm hit,
      rw same (IsMask-assign (fbms bs_len es) es e.1.next_hop fbm m),
    )

-- After `RebuildFbm` every entry with a next hop has the mask of its face.
pub rebuild_fbm-HasMasks : (b : BiftState) → HasMasks (rebuild_fbm b)
unfolding rebuild_fbm
rebuild_fbm-HasMasks b = All-map_assign _ _ b.entries (
    All-map_imp _ _ (assigned (max_bit 0 b.entries / 8 + 1) b.entries) b.entries
      (reaches_self b.entries))
