-- ===== src/Encoding/Numbers.antt =====
-- The variable-length numbers of TLV: ndnd/std/encoding/primitives.go. A value is below 2 ^ 64.
pub mod RoundTrip
use ndn_bier.Prelude.{
  ℕ, zero, suc, ◌+◌, ◌-◌, ◌^◌, Bool, true, false, Option, none, some, List, [], ◌∷◌, ◌++◌, leb,
  ◌==◌, if◌then◌else◌, length,
}
use ndn_bier.Encoding.BigEndian.{put_uint16, put_uint32, put_uint64, get_uint}

abbrev pub Buffer : Type 0
Buffer = List ℕ

-- The bytes overwrite the start of the buffer; `none` is the panic of a buffer that is too short.
unfoldable pub overwrite : List ℕ → Buffer → Option Buffer
overwrite [] buf = some buf
overwrite (b ∷ bs) [] = none
overwrite (b ∷ bs) (x ∷ buf) = elim (overwrite bs buf) [ some buf' ↦ some (b ∷ buf') | none ↦ none ]

abbrev pub written : ℕ → Option Buffer → Option (Buffer × ℕ)
written n none = none
written n (some buf) = some (buf, n)

unfoldable pub tl_num_encoding_length : ℕ → ℕ
tl_num_encoding_length x =
    if leb x 0xfc then 1 else if leb x 0xffff then 3 else if leb x 0xffff_ffff then 5 else 9

-- The bytes that `TLNum.EncodeInto` writes.
unfoldable pub tl_num_bytes : ℕ → List ℕ
tl_num_bytes x =
    if leb x 0xfc
    then x ∷ []
    else if leb x 0xffff
    then 0xfd ∷ put_uint16 x
    else if leb x 0xffff_ffff
    then 0xfe ∷ put_uint32 x
    else 0xff ∷ put_uint64 x

-- The buffer and the number of bytes written.
unfoldable pub tl_num_encode_into : ℕ → Buffer → Option (Buffer × ℕ)
tl_num_encode_into x buf = written (tl_num_encoding_length x) (overwrite (tl_num_bytes x) buf)

-- How many bytes follow the first byte, which is a byte.
unfoldable pub tl_num_more : ℕ → ℕ
tl_num_more x = if leb x 0xfc then 0 else if x == 0xfd then 2 else if x == 0xfe then 4 else 8

abbrev pub sized : ℕ → Option (ℕ × List ℕ) → Option (ℕ × ℕ)
sized n none = none
sized n (some (v, rest)) = some (v, n)

-- `ParseTLNum`: the value and the number of bytes; `none` is the panic of a short buffer.
unfoldable pub parse_tl_num : Buffer → Option (ℕ × ℕ)
parse_tl_num [] = none
parse_tl_num (x ∷ buf) =
    if leb x 0xfc then some (x, 1) else sized (tl_num_more x + 1) (get_uint (tl_num_more x) 0 buf)

unfoldable pub nat_encoding_length : ℕ → ℕ
nat_encoding_length x =
    if leb x 0xff then 1 else if leb x 0xffff then 2 else if leb x 0xffff_ffff then 4 else 8

-- The bytes that `Nat.EncodeInto` writes.
unfoldable pub nat_bytes : ℕ → List ℕ
nat_bytes x =
    if leb x 0xff
    then x ∷ []
    else if leb x 0xffff
    then put_uint16 x
    else if leb x 0xffff_ffff
    then put_uint32 x
    else put_uint64 x

unfoldable pub nat_encode_into : ℕ → Buffer → Option (Buffer × ℕ)
nat_encode_into x buf = written (nat_encoding_length x) (overwrite (nat_bytes x) buf)

-- `ParseNat`: the value and the length, or the error about the length.
unfoldable pub parse_nat : Buffer → Option (ℕ × ℕ)
parse_nat buf =
    let n = length buf in
    if n == 1
    then sized 1 (get_uint 1 0 buf)
    else if n == 2
    then sized 2 (get_uint 2 0 buf)
    else if n == 4
    then sized 4 (get_uint 4 0 buf)
    else if n == 8
    then sized 8 (get_uint 8 0 buf)
    else none
