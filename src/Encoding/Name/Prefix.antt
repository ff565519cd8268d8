-- ===== src/Encoding/Name/Prefix.antt =====
-- Equality and the prefix test of names decide what they say.
use ndn_bier.Prelude.{
  ℕ, ◌≡◌, ◌↔◌, refl, sym, subst, ◌∙◌, Bool, true, false, ◌&&◌, List, [], ◌∷◌, ◌++◌, arith, length,
  ltb, length-append, ap,
}
use mathlib.Core.List.{append-nil}
use ndn_bier.Encoding.Name.{
  Component, Name, bytes_equal, component_equal, components_equal, equal, is_prefix,
}

bytes_equal_sound : (a b : List ℕ) → bytes_equal a b ≡ true → a ≡ b
unfolding bytes_equal
bytes_equal_sound [] [] h = refl
bytes_equal_sound [] (b ∷ bs) h = cc
bytes_equal_sound (a ∷ as') [] h = cc
bytes_equal_sound (a ∷ as') (b ∷ bs) h = ground (arith, bytes_equal_sound as' bs)

bytes_equal_refl : (a : List ℕ) → bytes_equal a a ≡ true
unfolding bytes_equal
bytes_equal_refl [] = refl
bytes_equal_refl (a ∷ as') = ground (arith, bytes_equal_refl as')

pub component_equal_sound : (c d : Component) → component_equal c d ≡ true → c ≡ d
unfolding component_equal
component_equal_sound c d h = ground (arith, bytes_equal_sound c.val d.val)

pub component_equal_refl : (c : Component) → component_equal c c ≡ true
unfolding component_equal
component_equal_refl c = ground (arith, bytes_equal_refl c.val)

components_equal-append :
    (n rhs : Name) → components_equal n rhs ≡ true → (rest : Name) × (rhs ≡ n ++ rest)
unfolding components_equal
components_equal-append [] rhs h = (rhs, refl)
components_equal-append (c ∷ n) [] h = cc
components_equal-append (c ∷ n) (d ∷ rhs) h =
    let both = split (component_equal c d) (components_equal n rhs) h in
    let (rest, e) = components_equal-append n rhs both.1 in
    (rest, cc (component_equal_sound c d both.0, e))
  where
    split : (a b : Bool) → (a && b) ≡ true → (a ≡ true) × (b ≡ true)
    split a b h = ground arith

append-components_equal : (n rest : Name) → components_equal n (n ++ rest) ≡ true
unfolding components_equal
append-components_equal [] rest = refl
append-components_equal (c ∷ n) rest = rw (component_equal_refl c) (append-components_equal n rest)

-- A name is a prefix of another one exactly when the other one is it and some rest.
pub is_prefix_iff : (n rhs : Name) → (is_prefix n rhs ≡ true) ↔ ((rest : Name) × (rhs ≡ n ++ rest))
unfolding is_prefix
is_prefix_iff n rhs = (forth, back)
  where
    forth : is_prefix n rhs ≡ true → (rest : Name) × (rhs ≡ n ++ rest)
    forth h = unfold is_prefix in components_equal-append n rhs (ground arith)

    back : (rest : Name) × (rhs ≡ n ++ rest) → is_prefix n rhs ≡ true
    back (rest, e) =
        unfold is_prefix in
        let fits : ltb (length (n ++ rest)) (length n) ≡ false =
          ground (arith, length-append n rest) in
        rw (e, fits) (append-components_equal n rest)

length_zero : (rest : Name) → length rest ≡ 0 → rest ≡ []
length_zero [] h = refl
length_zero (c ∷ rest) h = absurd (omega arith)

-- Two names are equal for the code exactly when they are the same sequence.
pub equal_iff : (n rhs : Name) → (equal n rhs ≡ true) ↔ (n ≡ rhs)
equal_iff n rhs = (forth, back)
  where
    forth : equal n rhs ≡ true → n ≡ rhs
    forth h =
        unfold equal in
        let same_length : length n ≡ length rhs = ground arith in
        let (rest, e) = components_equal-append n rhs (ground arith) in
        let none_left =
          length_zero rest (omega (arith, same_length, ap length e, length-append n rest)) in
        sym (append-nil n) ∙ ap (λ r. n ++ r) (sym none_left) ∙ sym e

    back : n ≡ rhs → equal n rhs ≡ true
    back e =
        unfold equal in
        let self =
          subst (λ x. components_equal n x ≡ true) (append-nil n) (append-components_equal n []) in
        rw (← e, self) (ground arith)
