-- ===== src/Encoding/Name/Order.antt =====
-- The canonical order of names.
use Prim.Native.Nat.{compare, Ordering, lt, eq, gt}
use ndn_bier.Prelude.{ℕ, ◌≡◌, ◌↔◌, refl, sym, ◌∙◌, ap, List, [], ◌∷◌, arith, length, subst}
use ndn_bier.Encoding.Name.{
  Component, Name, compare_then, compare_bytes, compare_component, compare_name,
}

abbrev pub flip : Ordering → Ordering
flip lt = gt
flip eq = eq
flip gt = lt

flip-then : (a b : Ordering) → flip (compare_then a b) ≡ compare_then (flip a) (flip b)
flip-then lt b = refl
flip-then eq b = refl
flip-then gt b = refl

compare-flip : (a b : ℕ) → compare b a ≡ flip (compare a b)
compare-flip a b = ground arith

compare_bytes-flip : (a b : List ℕ) → compare_bytes b a ≡ flip (compare_bytes a b)
unfolding compare_bytes
compare_bytes-flip [] [] = refl
compare_bytes-flip [] (b ∷ bs) = refl
compare_bytes-flip (a ∷ as') [] = refl
compare_bytes-flip (a ∷ as') (b ∷ bs) =
    rw (compare-flip a b, compare_bytes-flip as' bs) (sym (flip-then _ _))

compare_component-flip : (c d : Component) → compare_component d c ≡ flip (compare_component c d)
unfolding compare_component
compare_component-flip c d =
    rw
      (
        compare-flip c.typ d.typ,
        compare-flip (length c.val) (length d.val),
        compare_bytes-flip c.val d.val,
      )
      (sym (
        flip-then (compare c.typ d.typ) _
        ∙ ap (compare_then (flip (compare c.typ d.typ)))
            (flip-then (compare (length c.val) (length d.val)) (compare_bytes c.val d.val))))

-- Swapping the arguments turns the answer around.
pub compare_name-flip : (n rhs : Name) → compare_name rhs n ≡ flip (compare_name n rhs)
unfolding compare_name
compare_name-flip [] [] = refl
compare_name-flip [] (d ∷ rhs) = refl
compare_name-flip (c ∷ n) [] = refl
compare_name-flip (c ∷ n) (d ∷ rhs) =
    rw (compare_component-flip c d, compare_name-flip n rhs) (sym (flip-then _ _))

then-eq : (a b : Ordering) → compare_then a b ≡ eq → (a ≡ eq) × (b ≡ eq)
then-eq lt b h = cc
then-eq eq b h = (refl, h)
then-eq gt b h = cc

compare-eq : (a b : ℕ) → compare a b ≡ eq → a ≡ b
compare-eq a b h = ground arith

compare_self : (a : ℕ) → compare a a ≡ eq
compare_self a = ground arith

compare_bytes_sound : (a b : List ℕ) → compare_bytes a b ≡ eq → a ≡ b
unfolding compare_bytes
compare_bytes_sound [] [] h = refl
compare_bytes_sound [] (b ∷ bs) h = cc
compare_bytes_sound (a ∷ as') [] h = cc
compare_bytes_sound (a ∷ as') (b ∷ bs) h =
    let (x, y) = then-eq (compare a b) (compare_bytes as' bs) h in
    cc (compare-eq a b x, compare_bytes_sound as' bs y)

compare_bytes_self : (a : List ℕ) → compare_bytes a a ≡ eq
unfolding compare_bytes
compare_bytes_self [] = refl
compare_bytes_self (a ∷ as') = rw (compare_self a, compare_bytes_self as')

compare_component_sound : (c d : Component) → compare_component c d ≡ eq → c ≡ d
unfolding compare_component
compare_component_sound c d h =
    let (t, rest) = then-eq (compare c.typ d.typ) _ h in
    let (l, bytes) =
      then-eq (compare (length c.val) (length d.val)) (compare_bytes c.val d.val) rest in
    let same_typ = compare-eq c.typ d.typ t in
    let same_val = compare_bytes_sound c.val d.val bytes in
    λ i. record { typ = same_typ i; val = same_val i }

compare_component_self : (c : Component) → compare_component c c ≡ eq
unfolding compare_component
compare_component_self c =
    rw (compare_self c.typ, compare_self (length c.val), compare_bytes_self c.val)

compare_name_self : (n : Name) → compare_name n n ≡ eq
unfolding compare_name
compare_name_self [] = refl
compare_name_self (c ∷ n) = rw (compare_component_self c, compare_name_self n)

compare_name_sound : (n rhs : Name) → compare_name n rhs ≡ eq → n ≡ rhs
unfolding compare_name
compare_name_sound [] [] h = refl
compare_name_sound [] (d ∷ rhs) h = cc
compare_name_sound (c ∷ n) [] h = cc
compare_name_sound (c ∷ n) (d ∷ rhs) h =
    let (x, y) = then-eq (compare_component c d) (compare_name n rhs) h in
    cc (compare_component_sound c d x, compare_name_sound n rhs y)

-- Two names compare as equal exactly when they are the same sequence.
pub compare_name-eq : (n rhs : Name) → (compare_name n rhs ≡ eq) ↔ (n ≡ rhs)
compare_name-eq n rhs =
    (compare_name_sound n rhs, λ e. subst (λ x. compare_name n x ≡ eq) e (compare_name_self n))
