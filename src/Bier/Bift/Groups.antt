-- ===== src/Bier/Bift/Groups.antt =====
-- The groups of BFR-IDs by next-hop face, and the masks built from them, as sets.
use ndn_bier.Prelude.{
  ℕ, zero, suc, ◌/◌, ◌%◌, ◌<◌, ◌≡◌, refl, ◌≢◌, inl, inr, Bool, true, false, ◌&&◌, ◌||◌, Option,
  none, some, List, [], ◌∷◌, ◌++◌, arith, ltb, ◌==◌, ==_iff, if◌then◌else◌, Bool-cases, get_or,
  replicate, All,
}
use ndn_bier.Prelude.Bits.{bit, bit-zero}
use ndn_bier.Prelude.Maps.{
  Map, lookup, insert, Distinct, lookup-insert, lookup-absent, insert-Distinct,
}
use ndn_bier.Bier.Bits.{Bytes, IsBytes, bier_set_bit}
use ndn_bier.Bier.Bits.Sets.{member, set_bit-IsBytes, member-set_bit}
use ndn_bier.Bier.Bift.{BiftEntry, group, face_groups, set_all, face_fbms}

unfoldable pub contains : List ℕ → ℕ → Bool
contains [] q = false
contains (x ∷ xs) q = x == q || contains xs q

-- The table sends what is for BFR-ID q to the face.
unfoldable pub reaches : Map BiftEntry → ℕ → ℕ → Bool
reaches [] face q = false
reaches (e ∷ es) face q = (e.0 == q && e.1.next_hop == face) || reaches es face q

contains-append :
    (xs ys : List ℕ) (q : ℕ) → contains (xs ++ ys) q ≡ (contains xs q || contains ys q)
unfolding contains
contains-append [] ys q = refl
contains-append (x ∷ xs) ys q = ground (arith, contains-append xs ys q)

group-insert :
    (nh face id q : ℕ) (groups : Map (List ℕ))
    → contains (group face (insert nh (group nh groups ++ id ∷ []) groups)) q
      ≡ (contains (group face groups) q || (id == q && nh == face))
unfolding contains
group-insert nh face id q groups =
    rw (lookup-insert nh face (group nh groups ++ id ∷ []) groups, contains)
      (elim (Bool-cases (nh == face)) [
        | inl same ↦
            rw (same, ← (==_iff nh face).0 same, contains-append (group nh groups) (id ∷ []) q)
              (ground arith)
        | inr other ↦ rw other (ground arith)
      ])

pub contains-face_groups :
    (es : Map BiftEntry) (groups : Map (List ℕ)) (face q : ℕ)
    → 0 < face
    → contains (group face (face_groups es groups)) q
      ≡ (contains (group face groups) q || reaches es face q)
unfolding face_groups reaches
contains-face_groups [] groups face q pos = ground arith
contains-face_groups (e ∷ es) groups face q pos = elim (Bool-cases (ltb 0 e.1.next_hop)) [
  | inl up ↦
      rw
        (
          up,
          contains-face_groups es
              (insert e.1.next_hop (group e.1.next_hop groups ++ e.0 ∷ []) groups) face q pos,
          group-insert e.1.next_hop face e.0 q groups,
        )
        (ground arith)
  | inr down ↦ rw (down, contains-face_groups es groups face q pos) (ground arith)
]

pub face_groups-Distinct :
    (es : Map BiftEntry) (groups : Map (List ℕ))
    → Distinct groups
    → Distinct (face_groups es groups)
unfolding face_groups
face_groups-Distinct [] groups d = d
face_groups-Distinct (e ∷ es) groups d = face_groups-Distinct es _ (step (ltb 0 e.1.next_hop))
  where
    step :
        (up : Bool)
        → Distinct (
            if up
            then insert e.1.next_hop (group e.1.next_hop groups ++ e.0 ∷ []) groups
            else groups)
    step true = insert-Distinct _ _ groups d
    step false = d

abbrev pub mask_of : ℕ → Option (List ℕ) → Option Bytes → Option Bytes
mask_of bs_len none other = other
mask_of bs_len (some ids) other = some (set_all ids (replicate bs_len 0))

pub lookup-face_fbms :
    (bs_len face : ℕ) (groups : Map (List ℕ)) (fbms : Map Bytes)
    → Distinct groups
    → lookup face (face_fbms bs_len groups fbms)
      ≡ mask_of bs_len (lookup face groups) (lookup face fbms)
unfolding face_fbms lookup
lookup-face_fbms bs_len face [] fbms d = refl
lookup-face_fbms bs_len face (g ∷ groups) fbms d =
    rw
      (
        lookup-face_fbms bs_len face groups (insert g.0 (set_all g.1 (replicate bs_len 0)) fbms)
            d.1,
        lookup-insert g.0 face (set_all g.1 (replicate bs_len 0)) fbms,
      )
      (elim (Bool-cases (g.0 == face)) [
        | inl same ↦ rw (same, lookup-absent face groups (subst_key ((==_iff g.0 face).0 same) d.0))
        | inr other ↦ rw other
      ])
  where
    subst_key : g.0 ≡ face → All (λ f. f.0 ≢ g.0) groups → All (λ f. f.0 ≢ face) groups
    subst_key e h = rw (← e) h

pub replicate-IsBytes : (n : ℕ) → IsBytes (replicate n 0)
replicate-IsBytes zero = tt
replicate-IsBytes (suc n) = (omega arith, replicate-IsBytes n)

bit-replicate : (n i k : ℕ) → bit (get_or (replicate n 0) i 0) k ≡ false
bit-replicate zero i k = bit-zero k
bit-replicate (suc n) zero k = bit-zero k
bit-replicate (suc n) (suc i) k = bit-replicate n i k

pub member-replicate : (n p : ℕ) → member (replicate n 0) p ≡ false
member-replicate n p = bit-replicate n (p / 8) (p % 8)

pub set_all-IsBytes : (ids : List ℕ) (bs : Bytes) → IsBytes bs → IsBytes (set_all ids bs)
unfolding set_all
set_all-IsBytes [] bs h = h
set_all-IsBytes (id ∷ ids) bs h = set_all-IsBytes ids _ (set_bit-IsBytes bs id h)

pub member-set_all :
    (ids : List ℕ) (bs : Bytes) (q : ℕ)
    → IsBytes bs
    → member (set_all ids bs) q ≡ (contains ids q || member bs q)
unfolding set_all contains
member-set_all [] bs q h = refl
member-set_all (id ∷ ids) bs q h =
    rw
      (
        member-set_all ids (bier_set_bit bs id) q (set_bit-IsBytes bs id h),
        member-set_bit bs id q h,
      )
      (ground arith)
