-- ===== src/Encoding/Name.antt =====
-- Names as sequences of typed components: ndnd/std/encoding/component.go and name_pattern.go.
pub mod Prefix
pub mod Order
use Prim.Native.Nat.{compare, Ordering, lt, eq, gt}
use ndn_bier.Prelude.{
  ℕ, ◌≡◌, refl, Bool, true, false, ◌&&◌, List, [], ◌∷◌, ◌++◌, arith, ◌==◌, if◌then◌else◌, length,
  ltb, not,
}

pub record Component : Type 0 where
  pub typ : ℕ
  pub val : List ℕ

abbrev pub Name : Type 0
Name = List Component

-- `bytes.Equal`
unfoldable pub bytes_equal : List ℕ → List ℕ → Bool
bytes_equal [] [] = true
bytes_equal [] (b ∷ bs) = false
bytes_equal (a ∷ as') [] = false
bytes_equal (a ∷ as') (b ∷ bs) = a == b && bytes_equal as' bs

-- `Equal` of two components.
unfoldable pub component_equal : Component → Component → Bool
component_equal c rc =
    if not (c.typ == rc.typ)
    then false
    else if not (length c.val == length rc.val)
    then false
    else bytes_equal c.val rc.val

-- The loop over the positions of `n`, each compared with the same position of `rhs`.
unfoldable pub components_equal : Name → Name → Bool
components_equal [] rhs = true
components_equal (c ∷ n) [] = false
components_equal (c ∷ n) (d ∷ rhs) = component_equal c d && components_equal n rhs

-- `equal` and `is_prefix` of a name.
unfoldable pub equal : Name → Name → Bool
equal n rhs = if not (length n == length rhs) then false else components_equal n rhs

unfoldable pub is_prefix : Name → Name → Bool
is_prefix n rhs = if ltb (length rhs) (length n) then false else components_equal n rhs

-- `Compare` answers -1, 0 or 1, which are `lt`, `eq` and `gt` here. On bytes it is
-- `bytes.Compare`.
abbrev pub compare_then : Ordering → Ordering → Ordering
compare_then lt rest = lt
compare_then eq rest = rest
compare_then gt rest = gt

unfoldable pub compare_bytes : List ℕ → List ℕ → Ordering
compare_bytes [] [] = eq
compare_bytes [] (b ∷ bs) = lt
compare_bytes (a ∷ as') [] = gt
compare_bytes (a ∷ as') (b ∷ bs) = compare_then (compare a b) (compare_bytes as' bs)

-- By type, then by length, then by bytes.
unfoldable pub compare_component : Component → Component → Ordering
compare_component c rc =
    compare_then (compare c.typ rc.typ)
      (compare_then (compare (length c.val) (length rc.val)) (compare_bytes c.val rc.val))

-- The first component that differs decides, and else the length.
unfoldable pub compare_name : Name → Name → Ordering
compare_name [] [] = eq
compare_name [] (d ∷ rhs) = lt
compare_name (c ∷ n) [] = gt
compare_name (c ∷ n) (d ∷ rhs) = compare_then (compare_component c d) (compare_name n rhs)
