-- ===== src/Fw/Replication/Served.antt =====
-- The neighbors of a table and the local bit, as replication sees them.
use ndn_bier.Prelude.{
  ℕ, ◌<◌, ◌≡◌, refl, sym, subst, ◌∙◌, ◌≢◌, inl, inr, Bool, true, false, not, ◌&&◌, ◌||◌, List, [],
  ◌∷◌, map, some, arith, ltb, ◌==◌, ==_iff, Bool-cases, All, Occurs,
}
use ndn_bier.Prelude.Int.{ℤ, pos, negsuc}
use ndn_bier.Prelude.Maps.{Map, lookup}
use ndn_bier.Bier.Bits.{Bytes, IsBytes, bier_get_bit}
use ndn_bier.Bier.Bits.Sets.{member, member-clear_bit, clear_bit-IsBytes, get_bit-member}
use ndn_bier.Bier.Bift.{BiftEntry, BiftState, BiftNeighborEntry, to_neighbor}
use ndn_bier.Bier.Bift.Masks.{IsMask}
use ndn_bier.Bier.Bift.Invariant.{hop}
use ndn_bier.Fw.Replication.{clear_local}
use ndn_bier.Fw.Replication.Delivery.{serves}

-- The two lists have the same elements, in any order and as often as they like.
pub record SameElements (xs ys : List BiftNeighborEntry) : Type 0 where
  pub sound : (n : BiftNeighborEntry) → Occurs n xs → Occurs n ys
  pub complete : (n : BiftNeighborEntry) → Occurs n ys → Occurs n xs

-- The table has a next hop for the BFR-ID, and it is not the incoming face.
abbrev pub routed : BiftState → ℕ → ℕ → Bool
routed b in_face q = ltb 0 (hop b.entries q) && not (hop b.entries q == in_face)

abbrev pub is_local : ℤ → ℕ → Bool
is_local (pos id) q = id == q
is_local (negsuc n) q = false

pub clear_local-IsBytes : (index : ℤ) (bs : Bytes) → IsBytes bs → IsBytes (clear_local index bs)
unfolding clear_local
clear_local-IsBytes (negsuc n) bs h = h
clear_local-IsBytes (pos id) bs h = elim (Bool-cases (bier_get_bit bs id)) [
  | inl set ↦ rw set (clear_bit-IsBytes bs id h)
  | inr unset ↦ rw unset h
]

pub member-clear_local :
    (index : ℤ) (bs : Bytes) (q : ℕ)
    → IsBytes bs
    → member (clear_local index bs) q ≡ (not (is_local index q) && member bs q)
unfolding clear_local
member-clear_local (negsuc n) bs q h = refl
member-clear_local (pos id) bs q h = elim (Bool-cases (bier_get_bit bs id)) [
  | inl set ↦ rw set (member-clear_bit bs id q h)
  | inr unset ↦ rw unset (elim (Bool-cases (id == q)) [
    | inl same ↦ rw same (
        subst (λ x. member bs x ≡ false) ((==_iff id q).0 same)
          (sym (get_bit-member bs id h) ∙ unset))
    | inr other ↦ rw other
  ])
]

pub serves-Occurs :
    (in_face : ℕ) (ns : List BiftNeighborEntry) (n : BiftNeighborEntry) (q : ℕ)
    → Occurs n ns
    → n.face_id ≢ in_face
    → member n.fbm q ≡ true
    → serves in_face ns q ≡ true
unfolding serves
serves-Occurs in_face [] n q o h m = absurd o
serves-Occurs in_face (x ∷ ns) n q (inl e) h m =
    subst (λ y. ((not (y.face_id == in_face) && member y.fbm q) || serves in_face ns q) ≡ true)
      (sym e) (rw m (ground arith))
serves-Occurs in_face (x ∷ ns) n q (inr o) h m =
    rw (serves-Occurs in_face ns n q o h m) (ground arith)

pub serves-witness :
    (in_face : ℕ) (ns : List BiftNeighborEntry) (q : ℕ)
    → serves in_face ns q ≡ true
    → (n : BiftNeighborEntry) × Occurs n ns × (n.face_id ≢ in_face) × (member n.fbm q ≡ true)
unfolding serves
serves-witness in_face [] q h = cc
serves-witness in_face (x ∷ ns) q h =
    elim (Bool-cases (not (x.face_id == in_face) && member x.fbm q)) [
      | inl here ↦ (x, inl refl, ground arith, ground arith)
      | inr there ↦
          let (n, o, away, m) = serves-witness in_face ns q (rw there at h) in (n, inr o, away, m)
    ]

pub Occurs-neighbor :
    (m : Map Bytes) (face : ℕ) (fbm : Bytes)
    → lookup face m ≡ some fbm
    → Occurs (to_neighbor (face, fbm)) (map to_neighbor m)
unfolding lookup
Occurs-neighbor [] face fbm h = cc
Occurs-neighbor (f ∷ m) face fbm h = elim (Bool-cases (f.0 == face)) [
  | inl same ↦
      let e = (==_iff f.0 face).0 same in
      let v : f.1 ≡ fbm = ground arith in inl (λ i. record { face_id = e i; fbm = v i })
  | inr other ↦ inr (Occurs-neighbor m face fbm (ground arith))
]

abbrev pub IsNeighbor : Map BiftEntry → BiftNeighborEntry → Type 0
IsNeighbor es n = (0 < n.face_id) × IsMask es n.face_id n.fbm

pub All-neighbors :
    (es : Map BiftEntry) (m : Map Bytes)
    → All (λ f. (0 < f.0) × IsMask es f.0 f.1) m
    → All (IsNeighbor es) (map to_neighbor m)
All-neighbors es [] h = tt
All-neighbors es (f ∷ m) h = (h.0, All-neighbors es m h.1)

pub All-of_Occurs {κ} :
    (P : BiftNeighborEntry → Type κ) (ns : List BiftNeighborEntry)
    → ((n : BiftNeighborEntry) → Occurs n ns → P n)
    → All P ns
All-of_Occurs P [] f = tt
All-of_Occurs P (n ∷ ns) f = (f n (inl refl), All-of_Occurs P ns (λ x o. f x (inr o)))

pub Bool-ext : (a b : Bool) → (a ≡ true → b ≡ true) → (b ≡ true → a ≡ true) → a ≡ b
Bool-ext true b f g = sym (f refl)
Bool-ext false true f g = g refl
Bool-ext false false f g = refl
