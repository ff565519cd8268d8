-- ===== src/Bier/Bits.antt =====
-- The bit-strings of ndnd/fw/fw/bier.go: a slice of bytes, each a number below 256, that stands
-- for the set of positions whose bit is 1. Positions are numbers from 0 (a BFR-ID is one).
pub mod Sets
use ndn_bier.Prelude.{
  ℕ, zero, suc, ◌+◌, ◌-◌, ◌/◌, ◌%◌, ◌^◌, ◌<◌, bit_and, bit_or, Bool, true, false, not, List, [],
  ◌∷◌, ◌++◌, leb, ltb, ◌==◌, if◌then◌else◌, length, get_or, set, replicate, All,
}

abbrev pub Bytes : Type 0
Bytes = List ℕ

-- Every element is a byte.
abbrev pub IsBytes : Bytes → Type 0
IsBytes bs = All (λ b. b < 256) bs

-- `x &^ y` on bytes.
abbrev pub and_not : ℕ → ℕ → ℕ
and_not x y = bit_and x (255 - y)

unfoldable pub bier_get_bit : Bytes → ℕ → Bool
bier_get_bit bs pos =
    let byte_idx = pos / 8 in
    if leb (length bs) byte_idx
    then false
    else not (bit_and (get_or bs byte_idx 0) (2 ^ (pos % 8)) == 0)

-- `for byteIdx >= len(bs) { bs = append(bs, 0) }` appends `byteIdx + 1 - len(bs)` zeros.
unfoldable pub grow : Bytes → ℕ → Bytes
grow bs byte_idx = bs ++ replicate (byte_idx + 1 - length bs) 0

unfoldable pub bier_set_bit : Bytes → ℕ → Bytes
bier_set_bit bs pos =
    let byte_idx = pos / 8 in
    let grown = grow bs byte_idx in
    set grown byte_idx (bit_or (get_or grown byte_idx 0) (2 ^ (pos % 8)))

unfoldable pub bier_clear_bit : Bytes → ℕ → Bytes
bier_clear_bit bs pos =
    let byte_idx = pos / 8 in
    if leb (length bs) byte_idx
    then bs
    else set bs byte_idx (and_not (get_or bs byte_idx 0) (2 ^ (pos % 8)))

-- The result is as long as the shorter argument.
unfoldable pub bier_and : Bytes → Bytes → Bytes
bier_and [] bs = []
bier_and (a ∷ as') [] = []
bier_and (a ∷ as') (b ∷ bs) = bit_and a b ∷ bier_and as' bs

-- The result is as long as the first argument; bytes past the second are copied.
unfoldable pub bier_and_not : Bytes → Bytes → Bytes
bier_and_not [] bs = []
bier_and_not (a ∷ as') [] = a ∷ as'
bier_and_not (a ∷ as') (b ∷ bs) = and_not a b ∷ bier_and_not as' bs

unfoldable pub bier_is_zero : Bytes → Bool
bier_is_zero [] = true
bier_is_zero (b ∷ bs) = if b == 0 then bier_is_zero bs else false
