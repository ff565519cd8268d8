-- ===== src/Prelude/Bits.antt =====
-- The bits of a number, and what `bit_and`, `bit_or` and the byte complement do to them.
use Prim.Native.Nat.{
  ℕ, zero, suc, ◌+◌, ◌-◌, ◌*◌, ◌/◌, ◌%◌, ◌^◌, ◌≤◌, ◌<◌, min, bit_and, bit_or, digits,
  bit_and-bitwise,
}
use mathlib.Core.Path.{◌≡◌, refl}
use mathlib.Core.Bool.{Bool, true, false, ◌&&◌, ◌||◌, not}
use mathlib.Core.Logic.{inl, inr}
use native.Mathlib.Omega.{arith}
use ndn_bier.Prelude.Tests.{◌==◌, ==_iff, Bool-cases, ltb, if◌then◌else◌}

-- Bit k of a number, bit 0 the least.
abbrev pub bit : ℕ → ℕ → Bool
bit x zero = x % 2 == 1
bit x (suc k) = bit (x / 2) k

-- A test that holds for all numbers under a bound, by evaluation.
passes : (ℕ → Bool) → ℕ → Bool
passes test zero = true
passes test (suc bound) = if test bound then passes test bound else false

passes_at :
    (test : ℕ → Bool) (bound : ℕ) → passes test bound ≡ true → (i : ℕ) → i < bound → test i ≡ true
unfolding passes
passes_at test (suc bound) all i less =
    let rest = passes_at test bound (ground arith) i in
    let last : test bound ≡ true = ground arith in
    elim (Bool-cases (i == bound)) [
      | inl same ↦ rw ((==_iff i bound).0 same) last
      | inr earlier ↦ rest (ground arith)
    ]
passes_at test zero all i less = absurd (omega arith)

beq : Bool → Bool → Bool
beq true b = b
beq false b = not b

beq_sound : (a b : Bool) → beq a b ≡ true → a ≡ b
unfolding beq
beq_sound a b h = ground arith

pub bit-zero : (k : ℕ) → bit 0 k ≡ false
bit-zero zero = refl
bit-zero (suc k) = bit-zero k

-- The digits that both numbers have, as the native operation is defined, with enough fuel.
abbrev meet : ℕ → ℕ → ℕ → ℕ
meet fuel = digits (λ y. 0) min fuel

module _ (v a b : ℕ) where
  above_digit : (v * 2 + min (a % 2) (b % 2)) / 2 ≡ v
  above_digit = omega arith

  last_digit : ((v * 2 + min (a % 2) (b % 2)) % 2 == 1) ≡ (a % 2 == 1 && b % 2 == 1)
  last_digit =
      let e : (v * 2 + min (a % 2) (b % 2)) % 2 ≡ min (a % 2) (b % 2) = omega arith in
      rw e (ground arith)

bit-meet : (fuel a b k : ℕ) → a ≤ fuel → bit (meet fuel a b) k ≡ (bit a k && bit b k)
bit-meet zero zero b k enough = rw bit-zero
bit-meet (suc fuel) zero b k enough = rw bit-zero
bit-meet zero (suc a) b k enough = absurd (omega arith)
bit-meet (suc fuel) (suc a) b zero enough = last_digit (meet fuel (suc a / 2) (b / 2)) (suc a) b
bit-meet (suc fuel) (suc a) b (suc k) enough =
    rw (above_digit (meet fuel (suc a / 2) (b / 2)) (suc a) b)
      (bit-meet fuel (suc a / 2) (b / 2) k (omega arith))

meet-le : (fuel a b : ℕ) → a ≤ fuel → meet fuel a b ≤ a
meet-le zero zero b enough = omega arith
meet-le (suc fuel) zero b enough = omega arith
meet-le zero (suc a) b enough = absurd (omega arith)
meet-le (suc fuel) (suc a) b enough = omega (arith, meet-le fuel (suc a / 2) (b / 2) (omega arith))

pub bit-bit_and : (a b k : ℕ) → bit (bit_and a b) k ≡ (bit a k && bit b k)
bit-bit_and a b k = rw (bit_and-bitwise a b) (bit-meet a a b k (omega arith))

pub bit_and-le : (a b : ℕ) → bit_and a b ≤ a
bit_and-le a b = rw (bit_and-bitwise a b) (meet-le a a b (omega arith))

-- `x & (1 << k)` is not zero exactly when bit k of the byte x is set.
test_table : passes (λ x. passes (λ k. beq (not (bit_and x (2 ^ k) == 0)) (bit x k)) 8) 256 ≡ true
unfolding passes beq
test_table = refl

pub test-bit : (x k : ℕ) → x < 256 → k < 8 → not (bit_and x (2 ^ k) == 0) ≡ bit x k
test-bit x k hx hk = beq_sound _ _ (passes_at _ 8 (passes_at _ 256 test_table x hx) k hk)

-- `x | (1 << k)` sets bit k and leaves the other bits.
set_table :
    passes
      (λ x. passes (λ k. passes (λ j. beq (bit (bit_or x (2 ^ k)) j) (k == j || bit x j)) 8) 8)
      256
    ≡ true
unfolding passes beq
set_table = refl

pub bit-bit_or :
    (x k j : ℕ) → x < 256 → k < 8 → j < 8 → bit (bit_or x (2 ^ k)) j ≡ (k == j || bit x j)
bit-bit_or x k j hx hk hj =
    beq_sound _ _ (passes_at _ 8 (passes_at _ 8 (passes_at _ 256 set_table x hx) k hk) j hj)

or_table : passes (λ x. passes (λ k. ltb (bit_or x (2 ^ k)) 256) 8) 256 ≡ true
unfolding passes
or_table = refl

pub bit_or-lt : (x k : ℕ) → x < 256 → k < 8 → bit_or x (2 ^ k) < 256
bit_or-lt x k hx hk = let h = passes_at _ 8 (passes_at _ 256 or_table x hx) k hk in ground arith

not_table : passes (λ x. passes (λ k. beq (bit (255 - x) k) (not (bit x k))) 8) 256 ≡ true
unfolding passes beq
not_table = refl

-- The complement of a byte flips every bit.
pub bit-complement : (x k : ℕ) → x < 256 → k < 8 → bit (255 - x) k ≡ not (bit x k)
bit-complement x k hx hk = beq_sound _ _ (passes_at _ 8 (passes_at _ 256 not_table x hx) k hk)

one_table : passes (λ k. passes (λ j. beq (bit (2 ^ k) j) (k == j)) 8) 8 ≡ true
unfolding passes beq
one_table = refl

pub bit-power : (k j : ℕ) → k < 8 → j < 8 → bit (2 ^ k) j ≡ (k == j)
bit-power k j hk hj = beq_sound _ _ (passes_at _ 8 (passes_at _ 8 one_table k hk) j hj)

power_table : passes (λ k. ltb (2 ^ k) 256) 8 ≡ true
unfolding passes
power_table = refl

pub power-lt : (k : ℕ) → k < 8 → 2 ^ k < 256
power-lt k h = let t = passes_at _ 8 power_table k h in ground arith

first_bit : ℕ → ℕ
first_bit x =
    if bit x 0
    then 0
    else if bit x 1
    then 1
    else if bit x 2
    then 2
    else if bit x 3
    then 3
    else if bit x 4
    then 4
    else if bit x 5
    then 5
    else if bit x 6
    then 6
    else 7

first_table : passes (λ x. x == 0 || (bit x (first_bit x) && ltb (first_bit x) 8)) 256 ≡ true
unfolding passes first_bit
first_table = refl

-- A byte that is not zero has a bit.
pub nonzero-bit : (x : ℕ) → x < 256 → (x == 0) ≡ false → (k : ℕ) × (k < 8) × (bit x k ≡ true)
nonzero-bit x hx hn =
    let h = passes_at _ 256 first_table x hx in (first_bit x, ground arith, ground arith)
