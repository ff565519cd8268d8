-- ===== src/Table/FibHashTable/NameSets.antt =====
-- The names of a virtual name, and its longest length: ndnd/fw/table/fib-strategy-hashtable.go.
use ndn_bier.Prelude.{
  ℕ, ◌≤◌, ◌≡◌, refl, ap, Bool, true, false, ◌&&◌, not, Option, none, some, List, [], ◌∷◌, length,
  leb, ◌==◌, max, arith,
}
use ndn_bier.Encoding.Name.{Name, equal}
use ndn_bier.Encoding.Name.Prefix.{equal_iff}
use ndn_bier.Table.FibHashTable.{has_name, delete_name, put_name, set_or_empty, longer, longest_of}

pub equal-left : (a b c : Name) → equal a b ≡ true → equal a c ≡ equal b c
equal-left a b c h = ap (λ x. equal x c) ((equal_iff a b).0 h)

pub equal-right : (a b c : Name) → equal b c ≡ true → equal a b ≡ equal a c
equal-right a b c h = ap (equal a) ((equal_iff b c).0 h)

pub has_name-delete_name :
    (name n : Name) (set : List (Name × ℕ))
    → has_name n (delete_name name set) ≡ (not (equal name n) && has_name n set)
unfolding has_name delete_name
has_name-delete_name name n [] = ground arith
has_name-delete_name name n (e ∷ set) =
    ground (arith, equal-left e.0 name n, equal-right e.0 name n, has_name-delete_name name n set)

pub has_name-put_name :
    (name n : Name) (set : List (Name × ℕ))
    → has_name n set ≡ true
    → has_name n (put_name name set) ≡ true
unfolding has_name put_name
has_name-put_name name n set h = ground arith

pub equal_refl : (n : Name) → equal n n ≡ true
equal_refl n = (equal_iff n n).1 refl

pub has_name-put_self :
    (name : Name) (set : List (Name × ℕ)) → has_name name (put_name name set) ≡ true
unfolding has_name put_name
has_name-put_self name set = ground (arith, equal_refl name)

pub longest_of_ge : (md : ℕ) (set : List (Name × ℕ)) → md ≤ longest_of md set
unfolding longest_of
longest_of_ge md [] = omega arith
longest_of_ge md (e ∷ set) = omega (arith, longest_of_ge (max md e.1) set)

pub not_empty :
    (n : Name) (set : List (Name × ℕ)) → has_name n set ≡ true → (length set == 0) ≡ false
unfolding has_name
not_empty n [] h = cc
not_empty n (e ∷ set) h = ground arith

abbrev pub covers : ℕ → Option ℕ → Bool
covers n none = false
covers n (some md) = leb n md

abbrev pub lists_name : Name → Option (List (Name × ℕ)) → Bool
lists_name n none = false
lists_name n (some set) = has_name n set

pub covers-longer :
    (n name : Name) (o : Option ℕ)
    → covers (length n) o ≡ true
    → leb (length n) (longer (length name) o) ≡ true
covers-longer n name none h = cc
covers-longer n name (some md) h = ground arith

pub covers-longer_self :
    (name : Name) (o : Option ℕ) → leb (length name) (longer (length name) o) ≡ true
covers-longer_self name none = ground arith
covers-longer_self name (some md) = ground arith

pub has_name-set_or_empty :
    (n : Name) (o : Option (List (Name × ℕ)))
    → lists_name n o ≡ true
    → has_name n (set_or_empty o) ≡ true
has_name-set_or_empty n none h = cc
has_name-set_or_empty n (some set) h = h

pub some_same : {A : Type 0} (a b : A) → some a ≡ some b → a ≡ b
some_same a b h = cc
