-- ===== src/Encoding/Numbers/RoundTrip.antt =====
-- Numbers come back from their encodings.
use ndn_bier.Prelude.{
  ℕ, ◌+◌, ◌*◌, ◌^◌, ◌<◌, ◌≡◌, refl, sym, ◌∙◌, inl, inr, some, List, [], ◌∷◌, ◌++◌, leb, length,
  arith, Bool-cases, ap,
}
use ndn_bier.Encoding.BigEndian.{get_uint-put_uint16, get_uint-put_uint32, get_uint-put_uint64}
use ndn_bier.Encoding.Numbers.{
  Buffer, overwrite, tl_num_encoding_length, tl_num_bytes, tl_num_encode_into, tl_num_more, sized,
  parse_tl_num, nat_encoding_length, nat_bytes, nat_encode_into, parse_nat,
}

overwrite-append :
    (bs old rest : List ℕ) → length bs ≡ length old → overwrite bs (old ++ rest) ≡ some (bs ++ rest)
unfolding overwrite
overwrite-append [] [] rest h = refl
overwrite-append [] (x ∷ old) rest h = absurd (omega arith)
overwrite-append (b ∷ bs) [] rest h = absurd (omega arith)
overwrite-append (b ∷ bs) (x ∷ old) rest h = rw (overwrite-append bs old rest (omega arith))

pub length-tl_num_bytes : (x : ℕ) → length (tl_num_bytes x) ≡ tl_num_encoding_length x
unfolding tl_num_bytes tl_num_encoding_length
length-tl_num_bytes x = elim (Bool-cases (leb x 0xfc)) [
  | inl a ↦ rw a
  | inr a ↦ elim (Bool-cases (leb x 0xffff)) [
    | inl b ↦ rw (a, b)
    | inr b ↦ elim (Bool-cases (leb x 0xffff_ffff)) [ inl c ↦ rw (a, b, c) | inr c ↦ rw (a, b, c) ]
  ]
]

pub parse_tl_num-bytes :
    (x : ℕ) (rest : List ℕ)
    → x < 2 ^ 64
    → parse_tl_num (tl_num_bytes x ++ rest) ≡ some (x, tl_num_encoding_length x)
unfolding parse_tl_num tl_num_bytes tl_num_encoding_length tl_num_more
parse_tl_num-bytes x rest h = elim (Bool-cases (leb x 0xfc)) [
  | inl a ↦ rw (a, a)
  | inr a ↦ elim (Bool-cases (leb x 0xffff)) [
    | inl b ↦ rw (a, b) (ap (sized 3) (get_uint-put_uint16 x rest (ground arith)))
    | inr b ↦ elim (Bool-cases (leb x 0xffff_ffff)) [
      | inl c ↦ rw (a, b, c) (ap (sized 5) (get_uint-put_uint32 x rest (ground arith)))
      | inr c ↦ rw (a, b, c) (ap (sized 9) (get_uint-put_uint64 x rest h))
    ]
  ]
]

-- A number below 2 ^ 64 that is encoded over a buffer with room for it is parsed back, with its
-- length, and the rest of the buffer is untouched.
pub tl_num_round_trip :
    (x : ℕ) (old rest : Buffer)
    → x < 2 ^ 64
    → length old ≡ tl_num_encoding_length x
    → (buf : Buffer) × (tl_num_encode_into x (old ++ rest) ≡ some (buf ++ rest, length buf))
      × (parse_tl_num (buf ++ rest) ≡ some (x, length buf))
unfolding tl_num_encode_into
tl_num_round_trip x old rest h room =
    let n = length-tl_num_bytes x in
    (
      tl_num_bytes x,
      rw (overwrite-append (tl_num_bytes x) old rest (n ∙ sym room), n),
      rw n (parse_tl_num-bytes x rest h),
    )

length-nat_bytes : (x : ℕ) → length (nat_bytes x) ≡ nat_encoding_length x
unfolding nat_bytes nat_encoding_length
length-nat_bytes x = elim (Bool-cases (leb x 0xff)) [
  | inl a ↦ rw a
  | inr a ↦ elim (Bool-cases (leb x 0xffff)) [
    | inl b ↦ rw (a, b)
    | inr b ↦ elim (Bool-cases (leb x 0xffff_ffff)) [ inl c ↦ rw (a, b, c) | inr c ↦ rw (a, b, c) ]
  ]
]

parse_nat-bytes : (x : ℕ) → x < 2 ^ 64 → parse_nat (nat_bytes x) ≡ some (x, nat_encoding_length x)
unfolding parse_nat nat_bytes nat_encoding_length
parse_nat-bytes x h = elim (Bool-cases (leb x 0xff)) [
  | inl a ↦ let e : 0 * 256 + x ≡ x = omega arith in rw a (ap (λ v. some (v, 1)) e)
  | inr a ↦ elim (Bool-cases (leb x 0xffff)) [
    | inl b ↦ rw (a, b) (ap (sized 2) (get_uint-put_uint16 x [] (ground arith)))
    | inr b ↦ elim (Bool-cases (leb x 0xffff_ffff)) [
      | inl c ↦ rw (a, b, c) (ap (sized 4) (get_uint-put_uint32 x [] (ground arith)))
      | inr c ↦ rw (a, b, c) (ap (sized 8) (get_uint-put_uint64 x [] h))
    ]
  ]
]

overwrite-whole : (bs old : List ℕ) → length bs ≡ length old → overwrite bs old ≡ some bs
unfolding overwrite
overwrite-whole [] [] h = refl
overwrite-whole [] (x ∷ old) h = absurd (omega arith)
overwrite-whole (b ∷ bs) [] h = absurd (omega arith)
overwrite-whole (b ∷ bs) (x ∷ old) h = rw (overwrite-whole bs old (omega arith))

-- A number below 2 ^ 64 that is encoded over a buffer of the length of its encoding is parsed
-- back, with that length.
pub nat_round_trip :
    (x : ℕ) (old : Buffer)
    → x < 2 ^ 64
    → length old ≡ nat_encoding_length x
    → (buf : Buffer) × (nat_encode_into x old ≡ some (buf, length buf))
      × (parse_nat buf ≡ some (x, length buf))
unfolding nat_encode_into
nat_round_trip x old h room =
    let n = length-nat_bytes x in
    (
      nat_bytes x,
      rw (overwrite-whole (nat_bytes x) old (n ∙ sym room), n),
      rw n (parse_nat-bytes x h),
    )
