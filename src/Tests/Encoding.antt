-- ===== src/Tests/Encoding.antt =====
-- Numbers encoded and parsed.
use Prim.Native.Nat.{lt}
use ndn_bier.Prelude.{
  ◌^◌, ◌≤◌, ◌/◌, ◌%◌, replicate, true, ℕ, ◌≡◌, refl, none, some, [], ◌∷◌, ◌++◌, arith, length,
}
use ndn_bier.Encoding.Numbers.{
  Buffer, overwrite, tl_num_encoding_length, tl_num_bytes, tl_num_encode_into, tl_num_more,
  parse_tl_num, nat_encoding_length, nat_bytes, nat_encode_into, parse_nat,
}
use ndn_bier.Encoding.Numbers.RoundTrip.{tl_num_round_trip, nat_round_trip}
use ndn_bier.Encoding.Name.{
  Component, Name, bytes_equal, component_equal, components_equal, equal, is_prefix, compare_bytes,
  compare_component, compare_name,
}
use ndn_bier.Encoding.Components.{
  done, overflow, bad_format, panic, take, drop, read_tl_num, read_buf, read_component,
  read_name_loop, read_name, name_from_bytes, component_bytes, name_bytes_inner, name_bytes,
}
use ndn_bier.Encoding.Components.RoundTrip.{
  IsShort, component_round_trip, read_name_round_trip, name_from_bytes_round_trip,
  long_component_misread, huge_length_panics,
}
use ndn_bier.Encoding.Components.Fuel.{IsWithin, read_name-IsWithin}

program : Unit {0}
unfolding overwrite tl_num_encoding_length tl_num_bytes tl_num_encode_into tl_num_more parse_tl_num
    nat_encoding_length nat_bytes nat_encode_into parse_nat bytes_equal component_equal
    components_equal equal is_prefix compare_bytes compare_component compare_name
program = tt

encode_test : tl_num_encode_into 1000 (1 ∷ 2 ∷ 3 ∷ 4 ∷ []) ≡ some (0xfd ∷ 3 ∷ 232 ∷ 4 ∷ [], 3)
unfolding program
encode_test = refl

parse_test : parse_tl_num (0xfd ∷ 3 ∷ 232 ∷ 4 ∷ []) ≡ some (1000, 3)
unfolding program
parse_test = refl

short_test : parse_tl_num (0xfe ∷ 3 ∷ 232 ∷ []) ≡ none
unfolding program
short_test = refl

parse_nat_test : parse_nat (3 ∷ 232 ∷ 0 ∷ []) ≡ none
unfolding program
parse_nat_test = refl

room : length {A = ℕ} (1 ∷ 2 ∷ 3 ∷ []) ≡ tl_num_encoding_length 1000
unfolding program
room = refl

tl_num_round_trip_example :
    (buf : Buffer) × (tl_num_encode_into 1000 ((1 ∷ 2 ∷ 3 ∷ []) ++ (4 ∷ []))
      ≡ some (buf ++ (4 ∷ []), length buf))
    × (parse_tl_num (buf ++ (4 ∷ [])) ≡ some (1000, length buf))
tl_num_round_trip_example = tl_num_round_trip 1000 (1 ∷ 2 ∷ 3 ∷ []) (4 ∷ []) (omega arith) room

nat_room : length {A = ℕ} (1 ∷ 2 ∷ []) ≡ nat_encoding_length 1000
unfolding program
nat_room = refl

nat_round_trip_example :
    (buf : Buffer) × (nat_encode_into 1000 (1 ∷ 2 ∷ []) ≡ some (buf, length buf))
    × (parse_nat buf ≡ some (1000, length buf))
nat_round_trip_example = nat_round_trip 1000 (1 ∷ 2 ∷ []) (omega arith) nat_room

abbrev a_b : Name
a_b = record { typ = 8; val = b'a' ∷ [] } ∷ record { typ = 8; val = b'b' ∷ b'c' ∷ [] } ∷ []

abbrev a_b_d : Name
a_b_d = a_b ++ record { typ = 8; val = b'd' ∷ [] } ∷ []

prefix_test : is_prefix a_b a_b_d ≡ true
unfolding program
prefix_test = refl

order_test : compare_name a_b a_b_d ≡ lt
unfolding program
order_test = refl

comp_program : Unit {0}
unfolding program take drop read_tl_num read_buf read_component read_name_loop read_name
    name_from_bytes component_bytes name_bytes_inner name_bytes
comp_program = tt

name_bytes_test : name_bytes a_b ≡ 7 ∷ 7 ∷ 8 ∷ 1 ∷ b'a' ∷ 8 ∷ 2 ∷ b'b' ∷ b'c' ∷ []
unfolding comp_program
name_bytes_test = refl

cut_test : read_name (8 ∷ 5 ∷ b'a' ∷ []) ≡ overflow
unfolding comp_program
cut_test = refl

other_type_test : name_from_bytes (5 ∷ 0 ∷ []) ≡ bad_format
unfolding comp_program
other_type_test = refl

abbrev comp : Component
comp = record { typ = 8; val = b'b' ∷ b'c' ∷ [] }

comp-IsShort : IsShort comp
comp-IsShort = record { typ_fits = omega arith; val_fits = omega arith }

component_round_trip_example :
    read_component (component_bytes comp ++ (1 ∷ [])) ≡ done comp (1 ∷ [])
component_round_trip_example = component_round_trip comp (1 ∷ []) comp-IsShort

abbrev one_comp : Name
one_comp = comp ∷ []

one_comp-length : length (name_bytes_inner one_comp) ≤ 252
unfolding comp_program
one_comp-length = omega arith

read_name_round_trip_example : read_name (name_bytes_inner one_comp) ≡ done one_comp []
read_name_round_trip_example = read_name_round_trip one_comp (comp-IsShort, tt)

name_from_bytes_round_trip_example : name_from_bytes (name_bytes one_comp) ≡ done one_comp []
name_from_bytes_round_trip_example =
    name_from_bytes_round_trip one_comp (comp-IsShort, tt) one_comp-length

-- 256 zeros.
abbrev long_comp : Component
long_comp = record { typ = 8; val = replicate 256 0 }

long_component_misread_example :
    read_component (component_bytes long_comp)
    ≡ done
        (record {
          typ = 8;
          val = take (length long_comp.val / 256) (length long_comp.val % 256 ∷ long_comp.val);
        })
        (drop (length long_comp.val / 256) (length long_comp.val % 256 ∷ long_comp.val))
long_component_misread_example =
    long_component_misread long_comp (omega arith) (omega arith) (omega arith)

huge_length_panics_example :
    read_component (tl_num_bytes 8 ++ (tl_num_bytes (2 ^ 63) ++ (1 ∷ []))) ≡ panic
huge_length_panics_example =
    huge_length_panics 8 (2 ^ 63) 1 [] (omega arith) (omega arith) (omega arith)

read_name-IsWithin_example : IsWithin 3 (read_name (8 ∷ 5 ∷ b'a' ∷ []))
read_name-IsWithin_example = read_name-IsWithin (8 ∷ 5 ∷ b'a' ∷ [])
