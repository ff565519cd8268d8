-- ===== src/Bier/Bits/Sets.antt =====
-- The bit-string operations as operations on sets of positions.
use ndn_bier.Prelude.{
  ℕ, zero, suc, ◌+◌, ◌-◌, ◌*◌, ◌/◌, ◌%◌, ◌^◌, ◌<◌, ◌≡◌, refl, sym, inl, inr, Bool, true, false, not,
  ◌&&◌, ◌||◌, [], ◌∷◌, arith, leb, ◌==◌, ==_iff, Bool-cases, length, get_or, set, replicate,
  length-append, length-replicate, get_or-set_self, get_or-set_ne, get_or-append_zeros,
  get_or-beyond, All-append,
}
use ndn_bier.Prelude.Bits.{
  bit, power-lt, test-bit, bit-bit_or, bit_or-lt, bit-complement, bit-power, bit-bit_and,
  bit_and-le, bit-zero, nonzero-bit,
}
use ndn_bier.Bier.Bits.{
  Bytes, IsBytes, bier_get_bit, grow, bier_set_bit, bier_clear_bit, bier_and, bier_and_not,
  bier_is_zero,
}

-- The set that a bit-string stands for: position p is bit p % 8 of byte p / 8.
abbrev pub member : Bytes → ℕ → Bool
member bs p = bit (get_or bs (p / 8) 0) (p % 8)

get_or-lt : (bs : Bytes) (i : ℕ) → IsBytes bs → get_or bs i 0 < 256
get_or-lt [] i h = omega arith
get_or-lt (b ∷ bs) zero h = h.0
get_or-lt (b ∷ bs) (suc i) h = get_or-lt bs i h.1

-- Testing a bit of a bit-string of bytes is membership.
pub get_bit-member : (bs : Bytes) (p : ℕ) → IsBytes bs → bier_get_bit bs p ≡ member bs p
unfolding bier_get_bit
get_bit-member bs p h = elim (Bool-cases (leb (length bs) (p / 8))) [
  | inl out ↦ rw (out, get_or-beyond bs (p / 8) 0 (ground arith)) (sym (bit-zero (p % 8)))
  | inr in_range ↦ rw in_range (test-bit _ _ (get_or-lt bs (p / 8) h) (omega arith))
]

replicate-IsBytes : (n : ℕ) → IsBytes (replicate n 0)
replicate-IsBytes zero = tt
replicate-IsBytes (suc n) = (omega arith, replicate-IsBytes n)

set-IsBytes : (bs : Bytes) (i v : ℕ) → IsBytes bs → v < 256 → IsBytes (set bs i v)
set-IsBytes [] i v h lt = tt
set-IsBytes (b ∷ bs) zero v h lt = (lt, h.1)
set-IsBytes (b ∷ bs) (suc i) v h lt = (h.0, set-IsBytes bs i v h.1 lt)

grow-IsBytes : (bs : Bytes) (i : ℕ) → IsBytes bs → IsBytes (grow bs i)
unfolding grow
grow-IsBytes bs i h = All-append _ bs _ h (replicate-IsBytes _)

length-grow : (bs : Bytes) (i : ℕ) → i < length (grow bs i)
unfolding grow
length-grow bs i = rw (length-append, length-replicate) (omega arith)

get_or-grow : (bs : Bytes) (i j : ℕ) → get_or (grow bs i) j 0 ≡ get_or bs j 0
unfolding grow
get_or-grow bs i j = get_or-append_zeros bs _ j 0

pub set_bit-IsBytes : (bs : Bytes) (p : ℕ) → IsBytes bs → IsBytes (bier_set_bit bs p)
unfolding bier_set_bit
set_bit-IsBytes bs p h =
    let g = grow-IsBytes bs (p / 8) h in
    set-IsBytes _ _ _ g (bit_or-lt _ _ (get_or-lt _ _ g) (omega arith))

pub clear_bit-IsBytes : (bs : Bytes) (p : ℕ) → IsBytes bs → IsBytes (bier_clear_bit bs p)
unfolding bier_clear_bit
clear_bit-IsBytes bs p h = elim (Bool-cases (leb (length bs) (p / 8))) [
  | inl out ↦ rw out h
  | inr in_range ↦ rw in_range (
      set-IsBytes _ _ _ h (
        omega
          (arith, bit_and-le (get_or bs (p / 8) 0) (255 - 2 ^ (p % 8)), get_or-lt bs (p / 8) h)))
]

pub and-IsBytes : (a b : Bytes) → IsBytes a → IsBytes (bier_and a b)
unfolding bier_and
and-IsBytes [] b h = tt
and-IsBytes (x ∷ a) [] h = tt
and-IsBytes (x ∷ a) (y ∷ b) h = (omega (arith, bit_and-le x y), and-IsBytes a b h.1)

pub and_not-IsBytes : (a b : Bytes) → IsBytes a → IsBytes (bier_and_not a b)
unfolding bier_and_not
and_not-IsBytes [] b h = tt
and_not-IsBytes (x ∷ a) [] h = h
and_not-IsBytes (x ∷ a) (y ∷ b) h =
    (omega (arith, bit_and-le x (255 - y), h.0), and_not-IsBytes a b h.1)

same_place : (p q : ℕ) → p / 8 ≡ q / 8 → (p % 8 == q % 8) ≡ (p == q)
same_place p q e = ground arith

-- In a bit-string of bytes, setting a bit adds its position to the set, and no other one.
pub member-set_bit :
    (bs : Bytes) (p q : ℕ) → IsBytes bs → member (bier_set_bit bs p) q ≡ (p == q || member bs q)
unfolding bier_set_bit
member-set_bit bs p q h = elim (Bool-cases (p / 8 == q / 8)) [
  | inl same ↦
      let e = (==_iff (p / 8) (q / 8)).0 same in
      rw (
        ← e,
        get_or-set_self (grow bs (p / 8)) (p / 8) _ 0 (length-grow bs (p / 8)),
        get_or-grow bs (p / 8) (p / 8),
        bit-bit_or _ (p % 8) (q % 8) (get_or-lt bs (p / 8) h) (omega arith) (omega arith),
        same_place p q e,
      )
  | inr other ↦
      rw
        (
          get_or-set_ne (grow bs (p / 8)) (p / 8) (q / 8) _ 0 (ground arith),
          get_or-grow bs (p / 8) (q / 8),
        )
        (ground arith)
]

-- In a bit-string of bytes, clearing a bit removes its position from the set, and no other one.
pub member-clear_bit :
    (bs : Bytes) (p q : ℕ)
    → IsBytes bs
    → member (bier_clear_bit bs p) q ≡ (not (p == q) && member bs q)
unfolding bier_clear_bit
member-clear_bit bs p q h = elim (Bool-cases (leb (length bs) (p / 8))) [
  | inl out ↦ rw out (elim (Bool-cases (p == q)) [
    | inl same ↦
        rw (same, ← (==_iff p q).0 same, get_or-beyond bs (p / 8) 0 (ground arith))
          (bit-zero (p % 8))
    | inr other ↦ rw other
  ])
  | inr in_range ↦ rw in_range (elim (Bool-cases (p / 8 == q / 8)) [
    | inl same ↦
        let e = (==_iff (p / 8) (q / 8)).0 same in
        rw
          (
            ← e,
            get_or-set_self bs (p / 8) _ 0 (ground arith),
            bit-bit_and (get_or bs (p / 8) 0) (255 - 2 ^ (p % 8)) (q % 8),
            bit-complement (2 ^ (p % 8)) (q % 8) (power-lt (p % 8) (omega arith)) (omega arith),
            bit-power (p % 8) (q % 8) (omega arith) (omega arith),
            same_place p q e,
          )
          (ground arith)
    | inr other ↦ rw (get_or-set_ne bs (p / 8) (q / 8) _ 0 (ground arith)) (ground arith)
  ])
]

bit-get_or-and :
    (a b : Bytes) (i k : ℕ)
    → bit (get_or (bier_and a b) i 0) k ≡ (bit (get_or a i 0) k && bit (get_or b i 0) k)
unfolding bier_and
bit-get_or-and [] b i k = rw bit-zero
bit-get_or-and (x ∷ a) [] i k = rw bit-zero (ground arith)
bit-get_or-and (x ∷ a) (y ∷ b) zero k = bit-bit_and x y k
bit-get_or-and (x ∷ a) (y ∷ b) (suc i) k = bit-get_or-and a b i k

-- The AND of two bit-strings stands for the intersection of their sets.
pub member-and : (a b : Bytes) (p : ℕ) → member (bier_and a b) p ≡ (member a p && member b p)
member-and a b p = bit-get_or-and a b (p / 8) (p % 8)

bit-get_or-and_not :
    (a b : Bytes) (i k : ℕ)
    → IsBytes b
    → k < 8
    → bit (get_or (bier_and_not a b) i 0) k ≡ (bit (get_or a i 0) k && not (bit (get_or b i 0) k))
unfolding bier_and_not
bit-get_or-and_not [] b i k h lt = rw bit-zero
bit-get_or-and_not (x ∷ a) [] i k h lt = rw bit-zero (ground arith)
bit-get_or-and_not (x ∷ a) (y ∷ b) zero k h lt =
    rw (bit-bit_and x (255 - y) k, bit-complement y k h.0 lt)
bit-get_or-and_not (x ∷ a) (y ∷ b) (suc i) k h lt = bit-get_or-and_not a b i k h.1 lt

-- AND NOT with a bit-string of bytes stands for the difference of the sets.
pub member-and_not :
    (a b : Bytes) (p : ℕ)
    → IsBytes b
    → member (bier_and_not a b) p ≡ (member a p && not (member b p))
member-and_not a b p h = bit-get_or-and_not a b (p / 8) (p % 8) h (omega arith)

get_or-is_zero : (bs : Bytes) (i : ℕ) → bier_is_zero bs ≡ true → get_or bs i 0 ≡ 0
unfolding bier_is_zero
get_or-is_zero [] i h = refl
get_or-is_zero (b ∷ bs) zero h = ground arith
get_or-is_zero (b ∷ bs) (suc i) h = ground (arith, get_or-is_zero bs i)

not_zero-bit :
    (bs : Bytes)
    → IsBytes bs
    → bier_is_zero bs ≡ false
    → (i : ℕ) × (k : ℕ) × (k < 8) × (bit (get_or bs i 0) k ≡ true)
unfolding bier_is_zero
not_zero-bit [] h z = cc
not_zero-bit (b ∷ bs) h z = elim (Bool-cases (b == 0)) [
  | inl e ↦ let (i, k, lt, p) = not_zero-bit bs h.1 (rw e at z) in (suc i, k, lt, p)
  | inr e ↦ let (k, lt, p) = nonzero-bit b h.0 e in (0, k, lt, p)
]

-- A bit-string of bytes that is not zero has a position in its set.
pub not_zero-member :
    (bs : Bytes) → IsBytes bs → bier_is_zero bs ≡ false → (p : ℕ) × (member bs p ≡ true)
not_zero-member bs h z =
    let (i, k, lt, p) = not_zero-bit bs h z in
    let high : (i * 8 + k) / 8 ≡ i = omega arith in
    let low : (i * 8 + k) % 8 ≡ k = omega arith in (i * 8 + k, rw (high, low) p)

-- A bit-string of zeros stands for the empty set.
pub is_zero-member : (bs : Bytes) (p : ℕ) → bier_is_zero bs ≡ true → member bs p ≡ false
is_zero-member bs p z = rw (get_or-is_zero bs (p / 8) z) (bit-zero (p % 8))
