-- ===== src/Fw/Replication/Delivery.antt =====
-- Where the copies go: every destination bit of an incoming bit-string is sent once, to the face
-- that the table has for it, and nothing else is sent.
use ndn_bier.Prelude.{
  ℕ, ◌+◌, ◌≡◌, refl, sym, ◌∙◌, ◌≢◌, inl, inr, Bool, true, false, not, ◌&&◌, ◌||◌, List, [], ◌∷◌,
  arith, ◌==◌, Bool-cases, All, Occurs,
}
use ndn_bier.Bier.Bits.{Bytes, IsBytes, bier_and, bier_and_not}
use ndn_bier.Bier.Bits.Sets.{
  member, member-and, member-and_not, and-IsBytes, and_not-IsBytes, is_zero-member,
}
use ndn_bier.Bier.Bift.{BiftNeighborEntry}
use ndn_bier.Fw.Replication.Plan.{skips, plan}

abbrev pub to_nat : Bool → ℕ
to_nat true = 1
to_nat false = 0

-- How many copies carry the bit.
unfoldable pub copies : ℕ → List (ℕ × Bytes) → ℕ
copies q [] = 0
copies q (c ∷ cs) = to_nat (member c.1 q) + copies q cs

-- Some neighbor other than the incoming face has the bit in its mask.
unfoldable pub serves : ℕ → List BiftNeighborEntry → ℕ → Bool
serves in_face [] q = false
serves in_face (n ∷ ns) q = (not (n.face_id == in_face) && member n.fbm q) || serves in_face ns q

abbrev pub MasksAreBytes : List BiftNeighborEntry → Type 0
MasksAreBytes ns = All (λ n. IsBytes n.fbm) ns

-- A bit of the working mask is carried by one copy if some neighbor serves it, and by none if not.
pub copies-plan :
    (in_face : ℕ) (ns : List BiftNeighborEntry) (bs : Bytes) (q : ℕ)
    → MasksAreBytes ns
    → copies q (plan in_face ns bs) ≡ to_nat (member bs q && serves in_face ns q)
unfolding plan copies serves
copies-plan in_face [] bs q h = ground arith
copies-plan in_face (n ∷ ns) bs q h = elim (Bool-cases (skips in_face bs n)) [
  | inl skip ↦
      rw (skip, copies-plan in_face ns bs q h.1)
        (elim (Bool-cases (n.face_id == in_face)) [
          | inl back ↦ rw back
          | inr onward ↦ rw onward (
              let z = is_zero-member (bier_and bs n.fbm) q (ground arith) in
              ground (arith, member-and bs n.fbm q))
        ])
  | inr sends ↦
      rw
        (
          sends,
          copies-plan in_face ns (bier_and_not bs n.fbm) q h.1,
          member-and_not bs n.fbm q h.0,
          member-and bs n.fbm q,
        )
        (ground arith)
]

-- A copy to a face that is not the incoming one, of bits of the working mask that are in the
-- mask of a neighbor on that face.
pub record IsCopy (in_face : ℕ) (ns : List BiftNeighborEntry) (bs : Bytes) (c : ℕ × Bytes)
    : Type 0 where
  pub onward : c.0 ≢ in_face
  pub bytes : IsBytes c.1
  pub subset : (q : ℕ) → member c.1 q ≡ true → member bs q ≡ true
  pub neighbor : BiftNeighborEntry
  pub known : Occurs neighbor ns
  pub face : neighbor.face_id ≡ c.0
  pub served : (q : ℕ) → member c.1 q ≡ true → member neighbor.fbm q ≡ true

IsCopy-later :
    (in_face : ℕ) (n : BiftNeighborEntry) (ns : List BiftNeighborEntry) (bs bs' : Bytes)
    (c : ℕ × Bytes)
    → ((q : ℕ) → member bs' q ≡ true → member bs q ≡ true)
    → IsCopy in_face ns bs' c
    → IsCopy in_face (n ∷ ns) bs c
IsCopy-later in_face n ns bs bs' c sub i = record {
  onward = i.onward;
  bytes = i.bytes;
  subset = λ q m. sub q (i.subset q m);
  neighbor = i.neighbor;
  known = inr i.known;
  face = i.face;
  served = i.served;
}

All-later :
    (in_face : ℕ) (n : BiftNeighborEntry) (ns : List BiftNeighborEntry) (bs bs' : Bytes)
    (cs : List (ℕ × Bytes))
    → ((q : ℕ) → member bs' q ≡ true → member bs q ≡ true)
    → All (IsCopy in_face ns bs') cs
    → All (IsCopy in_face (n ∷ ns) bs) cs
All-later in_face n ns bs bs' [] sub h = tt
All-later in_face n ns bs bs' (c ∷ cs) sub h =
    (IsCopy-later in_face n ns bs bs' c sub h.0, All-later in_face n ns bs bs' cs sub h.1)

and_left : (a b : Bool) → (a && b) ≡ true → a ≡ true
and_left a b h = ground arith

and_right : (a b : Bool) → (a && b) ≡ true → b ≡ true
and_right a b h = ground arith

pub plan-IsCopy :
    (in_face : ℕ) (ns : List BiftNeighborEntry) (bs : Bytes)
    → MasksAreBytes ns
    → IsBytes bs
    → All (IsCopy in_face ns bs) (plan in_face ns bs)
unfolding plan
plan-IsCopy in_face [] bs h hb = tt
plan-IsCopy in_face (n ∷ ns) bs h hb = elim (Bool-cases (skips in_face bs n)) [
  | inl skip ↦
      rw skip (All-later in_face n ns bs bs _ (λ q m. m) (plan-IsCopy in_face ns bs h.1 hb))
  | inr sends ↦ rw sends (
    record {
      onward = ground arith;
      bytes = and-IsBytes bs n.fbm hb;
      subset = λ q m. and_left _ _ (sym (member-and bs n.fbm q) ∙ m);
      neighbor = n;
      known = inl refl;
      face = refl;
      served = λ q m. and_right (member bs q) _ (sym (member-and bs n.fbm q) ∙ m);
    },
    All-later in_face n ns bs (bier_and_not bs n.fbm) _
        (λ q m. and_left _ _ (sym (member-and_not bs n.fbm q h.0) ∙ m))
        (plan-IsCopy in_face ns (bier_and_not bs n.fbm) h.1 (and_not-IsBytes bs n.fbm hb)),
  )
]
