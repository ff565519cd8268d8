-- ===== src/Encoding/Components/RoundTrip.antt =====
-- Which components and names are read back from their bytes.
use ndn_bier.Prelude.{
  ℕ, zero, suc, ◌*◌, ◌/◌, ◌%◌, ◌^◌, ◌<◌, ◌≤◌, ◌≡◌, refl, ◌∙◌, ap, inl, inr, true, false, List, [],
  ◌∷◌, ◌++◌, ltb, leb, ◌==◌, length, length-append, arith, All, Bool-cases,
}
use mathlib.Core.List.{append_assoc}
use ndn_bier.Encoding.Name.{Component, Name}
use ndn_bier.Encoding.BigEndian.{
  put_uint16, get_uint-put_uint16, get_uint-put_uint32, get_uint-put_uint64,
}
use ndn_bier.Encoding.Numbers.{tl_num_bytes, tl_num_more, nat_bytes}
use ndn_bier.Encoding.Components.{
  done, panic, take, drop, number_read, read_tl_num, read_buf, read_component, read_name_loop,
  read_name, type_name, name_from_bytes, component_bytes, name_bytes_inner, name_bytes,
}

pub read_tl_num-bytes :
    (x : ℕ) (rest : List ℕ) → x < 2 ^ 64 → read_tl_num (tl_num_bytes x ++ rest) ≡ done x rest
unfolding read_tl_num tl_num_bytes tl_num_more
read_tl_num-bytes x rest h = elim (Bool-cases (leb x 0xfc)) [
  | inl a ↦ rw (a, a)
  | inr a ↦ elim (Bool-cases (leb x 0xffff)) [
    | inl b ↦ rw (a, b) (ap number_read (get_uint-put_uint16 x rest (ground arith)))
    | inr b ↦ elim (Bool-cases (leb x 0xffff_ffff)) [
      | inl c ↦ rw (a, b, c) (ap number_read (get_uint-put_uint32 x rest (ground arith)))
      | inr c ↦ rw (a, b, c) (ap number_read (get_uint-put_uint64 x rest h))
    ]
  ]
]

take-append : (xs ys : List ℕ) → take (length xs) (xs ++ ys) ≡ xs
unfolding take
take-append [] ys = refl
take-append (x ∷ xs) ys = rw (take-append xs ys)

drop-append : (xs ys : List ℕ) → drop (length xs) (xs ++ ys) ≡ ys
unfolding drop
drop-append [] ys = refl
drop-append (x ∷ xs) ys = drop-append xs ys

read_buf-append :
    (val rest : List ℕ) → length val < 2 ^ 63 → read_buf (length val) (val ++ rest) ≡ done val rest
unfolding read_buf
read_buf-append val rest h =
    let small : leb (2 ^ 63) (length val) ≡ false = ground arith in
    let fits : ltb (length (val ++ rest)) (length val) ≡ false =
      ground (arith, length-append val rest) in
    rw (small, fits, take-append val rest, drop-append val rest)

-- The length of a value of at most 252 bytes is written as one byte, in either encoding.
short_nat_bytes : (l : ℕ) → l ≤ 252 → nat_bytes l ≡ tl_num_bytes l
unfolding nat_bytes tl_num_bytes
short_nat_bytes l h =
    let a : leb l 0xff ≡ true = ground arith in
    let b : leb l 0xfc ≡ true = ground arith in rw (a, b)

-- A type that is a TLV number, and a value of at most 252 bytes.
pub record IsShort (c : Component) : Type 0 where
  pub typ_fits : c.typ < 2 ^ 64
  pub val_fits : length c.val ≤ 252

-- A component whose type is below 2 ^ 64 and whose value has at most 252 bytes is read back, and
-- what follows it is left.
pub component_round_trip :
    (c : Component) (rest : List ℕ)
    → IsShort c
    → read_component (component_bytes c ++ rest) ≡ done c rest
unfolding read_component component_bytes
component_round_trip c rest h =
    let l = length c.val in
    let shape : (tl_num_bytes c.typ ++ nat_bytes l ++ c.val) ++ rest
        ≡ tl_num_bytes c.typ ++ (tl_num_bytes l ++ (c.val ++ rest)) =
      append_assoc (tl_num_bytes c.typ ++ nat_bytes l) c.val rest
      ∙ append_assoc (tl_num_bytes c.typ) (nat_bytes l) (c.val ++ rest)
      ∙ ap (λ b. tl_num_bytes c.typ ++ (b ++ (c.val ++ rest))) (short_nat_bytes l h.val_fits) in
    rw (
      shape,
      read_tl_num-bytes c.typ (tl_num_bytes l ++ (c.val ++ rest)) h.typ_fits,
      read_tl_num-bytes l (c.val ++ rest) (let v = h.val_fits in omega arith),
      read_buf-append c.val rest (let v = h.val_fits in omega arith),
    )

tl_num_bytes-nonempty : (x : ℕ) → 0 < length (tl_num_bytes x)
unfolding tl_num_bytes
tl_num_bytes-nonempty x = ground arith

component_bytes-nonempty :
    (c : Component) (rest : List ℕ) → length rest < length (component_bytes c ++ rest)
unfolding component_bytes
component_bytes-nonempty c rest =
    let a = length-append (tl_num_bytes c.typ ++ nat_bytes (length c.val) ++ c.val) rest in
    let b = length-append (tl_num_bytes c.typ ++ nat_bytes (length c.val)) c.val in
    let d = length-append (tl_num_bytes c.typ) (nat_bytes (length c.val)) in
    let t = tl_num_bytes-nonempty c.typ in omega arith

read_name_loop-round_trip :
    (n : Name) (fuel : ℕ)
    → All IsShort n
    → length (name_bytes_inner n) < fuel
    → read_name_loop fuel (name_bytes_inner n) ≡ done n []
unfolding name_bytes_inner read_name_loop
read_name_loop-round_trip n zero h enough = absurd (omega arith)
read_name_loop-round_trip [] (suc fuel) h enough = unfold read_component read_tl_num in refl
read_name_loop-round_trip (c ∷ n) (suc fuel) h enough =
    let less = component_bytes-nonempty c (name_bytes_inner n) in
    rw (
      component_round_trip c (name_bytes_inner n) h.0,
      read_name_loop,
      read_name_loop-round_trip n fuel h.1 (omega arith),
    )

-- A name of such components is read back from its bytes, to the end of the view.
pub read_name_round_trip : (n : Name) → All IsShort n → read_name (name_bytes_inner n) ≡ done n []
unfolding read_name
read_name_round_trip n h =
    read_name_loop-round_trip n (suc (length (name_bytes_inner n))) h (omega arith)

-- A name of components whose types are below 2 ^ 64 and whose values have at most 252 bytes, with
-- at most 252 bytes of components in all, is read back from its full encoding.
pub name_from_bytes_round_trip :
    (n : Name)
    → All IsShort n
    → length (name_bytes_inner n) ≤ 252
    → name_from_bytes (name_bytes n) ≡ done n []
unfolding name_from_bytes name_bytes
name_from_bytes_round_trip n h short =
    let inner = name_bytes_inner n in
    let l = length inner in
    let shape : tl_num_bytes type_name ++ nat_bytes l ++ inner
        ≡ tl_num_bytes type_name ++ (tl_num_bytes l ++ inner) =
      append_assoc (tl_num_bytes type_name) (nat_bytes l) inner
      ∙ ap (λ b. tl_num_bytes type_name ++ (b ++ inner)) (short_nat_bytes l short) in
    let same : (l == l) ≡ true = ground arith in
    rw (
      shape,
      read_tl_num-bytes type_name (tl_num_bytes l ++ inner) (omega arith),
      read_tl_num-bytes l inner (omega arith),
      read_name_round_trip n h,
      same,
    )

-- For a type below 2 ^ 64 and a value of 256 to 64767 bytes, the length is written as two bytes,
-- of which the reader takes the first for the length: it reads a value that is too short, and
-- leaves the rest in the view.
pub long_component_misread :
    (c : Component)
    → c.typ < 2 ^ 64
    → 256 ≤ length c.val
    → length c.val < 253 * 256
    → read_component (component_bytes c)
      ≡ done
          (record { typ = c.typ; val = take (length c.val / 256) (length c.val % 256 ∷ c.val) })
          (drop (length c.val / 256) (length c.val % 256 ∷ c.val))
unfolding read_component component_bytes
long_component_misread c fits long short =
    let l = length c.val in
    let two : nat_bytes l ≡ put_uint16 l =
      unfold nat_bytes in
      let a : leb l 0xff ≡ false = ground arith in
      let b : leb l 0xffff ≡ true = ground arith in rw (a, b) in
    let high : l / 256 % 256 ≡ l / 256 = omega arith in
    let shape : tl_num_bytes c.typ ++ nat_bytes l ++ c.val
        ≡ tl_num_bytes c.typ ++ (l / 256 ∷ l % 256 ∷ c.val) =
      append_assoc (tl_num_bytes c.typ) (nat_bytes l) c.val
      ∙ ap (λ b. tl_num_bytes c.typ ++ (b ++ c.val)) two
      ∙ ap (λ x. tl_num_bytes c.typ ++ (x ∷ l % 256 ∷ c.val)) high in
    let one : read_tl_num (l / 256 ∷ l % 256 ∷ c.val) ≡ done (l / 256) (l % 256 ∷ c.val) =
      unfold read_tl_num in let small : leb (l / 256) 0xfc ≡ true = ground arith in rw small in
    let part : read_buf (l / 256) (l % 256 ∷ c.val)
        ≡ done (take (l / 256) (l % 256 ∷ c.val)) (drop (l / 256) (l % 256 ∷ c.val)) =
      unfold read_buf in
      let positive : leb (2 ^ 63) (l / 256) ≡ false = ground arith in
      let enough : ltb (length (l % 256 ∷ c.val)) (l / 256) ≡ false = ground arith in
      rw (positive, enough) in
    rw (shape, read_tl_num-bytes c.typ (l / 256 ∷ l % 256 ∷ c.val) fits, one, part)

-- After a type, a length from 2 ^ 63 up to what 64 bits hold, with a byte behind it, makes the
-- reader of a component panic.
pub huge_length_panics :
    (typ l b : ℕ) (rest : List ℕ)
    → typ < 2 ^ 64
    → l < 2 ^ 64
    → 2 ^ 63 ≤ l
    → read_component (tl_num_bytes typ ++ (tl_num_bytes l ++ (b ∷ rest))) ≡ panic
unfolding read_component
huge_length_panics typ l b rest typ_fits l_fits huge =
    let over : read_buf l (b ∷ rest) ≡ panic =
      unfold read_buf in let negative : leb (2 ^ 63) l ≡ true = ground arith in rw negative in
    rw (
      read_tl_num-bytes typ (tl_num_bytes l ++ (b ∷ rest)) typ_fits,
      read_tl_num-bytes l (b ∷ rest) l_fits,
      over,
    )
