-- ===== src/Encoding/BigEndian.antt =====
-- Go's `binary.BigEndian`: the bytes of an unsigned integer, the highest first.
use ndn_bier.Prelude.{
  ℕ, zero, suc, ◌+◌, ◌*◌, ◌/◌, ◌%◌, ◌^◌, ◌<◌, ◌≡◌, Option, none, some, List, [], ◌∷◌, ◌++◌, arith,
}

-- `PutUint16`, `PutUint32` and `PutUint64`; a value is cut to its width.
abbrev pub put_uint16 : ℕ → List ℕ
put_uint16 v = v / 256 % 256 ∷ v % 256 ∷ []

abbrev pub put_uint32 : ℕ → List ℕ
put_uint32 v = v / 2 ^ 24 % 256 ∷ v / 2 ^ 16 % 256 ∷ put_uint16 v

abbrev pub put_uint64 : ℕ → List ℕ
put_uint64 v =
    v / 2 ^ 56 % 256 ∷ v / 2 ^ 48 % 256 ∷ v / 2 ^ 40 % 256 ∷ v / 2 ^ 32 % 256 ∷ put_uint32 v

-- The next `n` bytes as a number, after the bytes that stand for `acc`; `none` if they are not
-- there. `Uint16`, `Uint32` and `Uint64` take 2, 4 and 8 bytes from 0.
abbrev pub get_uint : ℕ → ℕ → List ℕ → Option (ℕ × List ℕ)
get_uint zero acc bs = some (acc, bs)
get_uint (suc n) acc [] = none
get_uint (suc n) acc (b ∷ bs) = get_uint n (acc * 256 + b) bs

pub get_uint-put_uint16 :
    (v : ℕ) (rest : List ℕ) → v < 2 ^ 16 → get_uint 2 0 (put_uint16 v ++ rest) ≡ some (v, rest)
get_uint-put_uint16 v rest h =
    let e : (0 * 256 + v / 256 % 256) * 256 + v % 256 ≡ v = omega arith in rw e

pub get_uint-put_uint32 :
    (v : ℕ) (rest : List ℕ) → v < 2 ^ 32 → get_uint 4 0 (put_uint32 v ++ rest) ≡ some (v, rest)
get_uint-put_uint32 v rest h =
    let e : (((0 * 256 + v / 2 ^ 24 % 256) * 256 + v / 2 ^ 16 % 256) * 256 + v / 256 % 256) * 256
          + v % 256
        ≡ v =
      omega arith in
    rw e

-- The low half of a 64-bit value, after its high half.
get_uint-low :
    (acc v : ℕ) (rest : List ℕ)
    → get_uint 4 acc (put_uint32 v ++ rest) ≡ some (acc * 2 ^ 32 + v % 2 ^ 32, rest)
get_uint-low acc v rest =
    let e : (((acc * 256 + v / 2 ^ 24 % 256) * 256 + v / 2 ^ 16 % 256) * 256 + v / 256 % 256) * 256
          + v % 256
        ≡ acc * 2 ^ 32 + v % 2 ^ 32 =
      omega arith in
    rw e

pub get_uint-put_uint64 :
    (v : ℕ) (rest : List ℕ) → v < 2 ^ 64 → get_uint 8 0 (put_uint64 v ++ rest) ≡ some (v, rest)
get_uint-put_uint64 v rest h =
    let hi : (((0 * 256 + v / 2 ^ 56 % 256) * 256 + v / 2 ^ 48 % 256) * 256 + v / 2 ^ 40 % 256)
            * 256
          + v / 2 ^ 32 % 256
        ≡ v / 2 ^ 32 =
      omega arith in
    let e : v / 2 ^ 32 * 2 ^ 32 + v % 2 ^ 32 ≡ v = omega arith in
    rw hi (rw (get_uint-low (v / 2 ^ 32) v rest, e))
