-- ===== src/Encoding/Components.antt =====
-- Components and names as bytes: ndnd/std/encoding/component.go and name_pattern.go, read from a
-- WireView of ndnd/std/encoding/wire_view.go over one buffer. The state of the view is the list of
-- the bytes that are left; a type and a length are numbers below 2 ^ 64, and `int` has 64 bits.
pub mod RoundTrip
pub mod Fuel
use ndn_bier.Prelude.{
  ℕ, zero, suc, ◌+◌, ◌-◌, ◌^◌, Bool, true, false, List, [], ◌∷◌, ◌++◌, Option, none, some, ltb, leb,
  ◌==◌, not, if◌then◌else◌, length,
}
use ndn_bier.Encoding.Name.{Component, Name}
use ndn_bier.Encoding.BigEndian.{get_uint}
use ndn_bier.Encoding.Numbers.{
  tl_num_encoding_length, tl_num_bytes, tl_num_more, nat_encoding_length, nat_bytes,
}

-- What a read returns: a value and the bytes that are left, an error, or a panic. `out_of_fuel`
-- stands for a loop that is cut off.
pub data Read {ℓ} (A : Type ℓ) : Type ℓ where
  done : A → List ℕ → Read A
  eof unexpected_eof overflow bad_format panic out_of_fuel : Read A

unfoldable pub take : ℕ → List ℕ → List ℕ
take zero bs = []
take (suc n) [] = []
take (suc n) (b ∷ bs) = b ∷ take n bs

unfoldable pub drop : ℕ → List ℕ → List ℕ
drop zero bs = bs
drop (suc n) [] = []
drop (suc n) (b ∷ bs) = drop n bs

abbrev pub number_read : Option (ℕ × List ℕ) → Read ℕ
number_read none = unexpected_eof
number_read (some (v, rest)) = done v rest

unfoldable pub read_tl_num : List ℕ → Read ℕ
read_tl_num [] = eof
read_tl_num (x ∷ bs) = if leb x 0xfc then done x bs else number_read (get_uint (tl_num_more x) 0 bs)

abbrev pub is_empty : List ℕ → Bool
is_empty [] = true
is_empty (b ∷ bs) = false

-- `ReadBuf(int(l))`: from 2 ^ 63 on the size is negative, which passes the check for the bytes that
-- are left and panics in the slice.
unfoldable pub read_buf : ℕ → List ℕ → Read (List ℕ)
read_buf l bs =
    if leb (2 ^ 63) l
    then (if is_empty bs then eof else panic)
    else if ltb (length bs) l
    then overflow
    else done (take l bs) (drop l bs)

abbrev pub no_eof {ℓ} : {A : Type ℓ} → Read A → Read A
no_eof (done a rest) = done a rest
no_eof eof = unexpected_eof
no_eof unexpected_eof = unexpected_eof
no_eof overflow = overflow
no_eof bad_format = bad_format
no_eof panic = panic
no_eof out_of_fuel = out_of_fuel

-- Go on with the value and the bytes that are left.
abbrev pub after {ℓ κ} : {A : Type ℓ} {B : Type κ} → Read A → (A → List ℕ → Read B) → Read B
after (done a rest) f = f a rest
after eof f = eof
after unexpected_eof f = unexpected_eof
after overflow f = overflow
after bad_format f = bad_format
after panic f = panic
after out_of_fuel f = out_of_fuel

unfoldable pub read_component : List ℕ → Read Component
read_component bs = after (read_tl_num bs) (λ typ rest.
    after (no_eof (read_tl_num rest)) (λ l rest'.
      after (read_buf l rest') (λ val rest''. done (record { typ = typ; val = val }) rest'')))

-- The loop of `ReadName` ends at the end of the view.
unfoldable pub read_name_loop : ℕ → List ℕ → Read Name
read_name_loop zero bs = out_of_fuel
read_name_loop (suc fuel) bs = elim (read_component bs) [
  | done c rest ↦ after (read_name_loop fuel rest) (λ n rest'. done (c ∷ n) rest')
  | eof ↦ done [] []
  | unexpected_eof ↦ unexpected_eof
  | overflow ↦ overflow
  | bad_format ↦ bad_format
  | panic ↦ panic
  | out_of_fuel ↦ out_of_fuel
]

unfoldable pub read_name : List ℕ → Read Name
read_name bs = read_name_loop (suc (length bs)) bs

abbrev pub type_name : ℕ
type_name = 0x07

unfoldable pub name_from_bytes : List ℕ → Read Name
name_from_bytes buf = after (read_tl_num buf) (λ t rest.
    if not (t == type_name)
    then bad_format
    else after (read_tl_num rest) (λ l rest'.
      after (read_name rest')
        (λ n rest''. if l == length rest' then done n rest'' else bad_format)))

unfoldable pub component_encoding_length : Component → ℕ
component_encoding_length c =
    let l = length c.val in tl_num_encoding_length c.typ + nat_encoding_length l + l

-- `Bytes`, which writes into a buffer of the encoding's length.
unfoldable pub component_bytes : Component → List ℕ
component_bytes c = tl_num_bytes c.typ ++ nat_bytes (length c.val) ++ c.val

unfoldable pub name_bytes_inner : Name → List ℕ
name_bytes_inner [] = []
name_bytes_inner (c ∷ n) = component_bytes c ++ name_bytes_inner n

unfoldable pub name_bytes : Name → List ℕ
name_bytes n =
    tl_num_bytes type_name ++ nat_bytes (length (name_bytes_inner n)) ++ name_bytes_inner n
