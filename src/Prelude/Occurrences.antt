-- ===== src/Prelude/Occurrences.antt =====
-- What occurs in a list after an operation on it.
use mathlib.Core.Path.{◌≡◌, sym, ◌∙◌, ap}
use mathlib.Core.Logic.{◌⊎◌, ◌↔◌, inl, inr}
use mathlib.Core.List.{List, [], ◌∷◌, ◌++◌}
use mathlib.Core.Bool.{Bool, true, false}
use ndn_bier.Prelude.Tests.{Bool-cases}
use ndn_bier.Prelude.Lists.{Occurs, filter, last_of, all_but_last, last_in_front, swap_out}

apart : true ≡ false → ⊥
apart e = cc

pub Occurs-append :
    {A : Type 0} (a : A) (xs ys : List A) → Occurs a (xs ++ ys) ↔ (Occurs a xs ⊎ Occurs a ys)
Occurs-append a [] ys = (λ o. inr o, λ o. elim o [ inl x ↦ absurd x | inr b ↦ b ])
Occurs-append a (x ∷ xs) ys =
    let rest = Occurs-append a xs ys in
    (
      λ o. elim o [
        | inl e ↦ inl (inl e)
        | inr n ↦ elim (rest.0 n) [ inl b ↦ inl (inr b) | inr c ↦ inr c ]
      ],
      λ o. elim o [
        | inl n ↦ elim n [ inl e ↦ inl e | inr b ↦ inr (rest.1 (inl b)) ]
        | inr c ↦ inr (rest.1 (inr c))
      ],
    )

pub Occurs-filter :
    {A : Type 0} (test : A → Bool) (a : A) (xs : List A)
    → Occurs a (filter test xs) ↔ (Occurs a xs × (test a ≡ true))
Occurs-filter test a [] = (λ o. absurd o, λ h. absurd h.0)
Occurs-filter test a (x ∷ xs) =
    let rest = Occurs-filter test a xs in
    elim (Bool-cases (test x)) [
      | inl t ↦ rw t (
        λ o. elim o [
          | inl e ↦ (inl e, ap test (sym e) ∙ t)
          | inr n ↦ let h = rest.0 n in (inr h.0, h.1)
        ],
        λ h. elim h.0 [ inl e ↦ inl e | inr n ↦ inr (rest.1 (n, h.1)) ],
      )
      | inr f ↦ rw f (
        λ o. let h = rest.0 o in (inr h.0, h.1),
        λ h. elim h.0 [
          | inl e ↦ absurd (apart (sym h.1 ∙ ap test (sym e) ∙ f))
          | inr n ↦ rest.1 (n, h.1)
        ],
      )
    ]

Occurs-all_but_last :
    {A : Type 0} (a x : A) (xs : List A)
    → Occurs a (x ∷ xs) ↔ ((last_of x xs ≡ a) ⊎ Occurs a (all_but_last (x ∷ xs)))
Occurs-all_but_last a x [] = (
  λ o. elim o [ inl e ↦ inl e | inr n ↦ absurd n ],
  λ o. elim o [ inl e ↦ inl e | inr n ↦ absurd n ],
)
Occurs-all_but_last a x (y ∷ xs) =
    let rest = Occurs-all_but_last a y xs in
    (
      λ o. elim o [
        | inl e ↦ inr (inl e)
        | inr n ↦ elim (rest.0 n) [ inl l ↦ inl l | inr m ↦ inr (inr m) ]
      ],
      λ o. elim o [
        | inl l ↦ inr (rest.1 (inl l))
        | inr m ↦ elim m [ inl e ↦ inl e | inr n ↦ inr (rest.1 (inr n)) ]
      ],
    )

Occurs-last_in_front :
    {A : Type 0} (a : A) (xs : List A) → Occurs a (last_in_front xs) ↔ Occurs a xs
Occurs-last_in_front a [] = (λ o. o, λ o. o)
Occurs-last_in_front a (x ∷ xs) = let both = Occurs-all_but_last a x xs in (both.1, both.0)

-- What the test does not accept stays.
pub Occurs-swap_out :
    {A : Type 0} (test : A → Bool) (a : A) (xs : List A)
    → test a ≡ false
    → Occurs a (swap_out test xs) ↔ Occurs a xs
unfolding swap_out
Occurs-swap_out test a [] f = (λ o. o, λ o. o)
Occurs-swap_out test a (x ∷ xs) f = elim (Bool-cases (test x)) [
  | inl t ↦
      let both = Occurs-last_in_front a xs in
      rw t (
        λ o. inr (both.0 o),
        λ o. elim o [ inl e ↦ absurd (apart (sym t ∙ ap test e ∙ f)) | inr n ↦ both.1 n ],
      )
  | inr g ↦
      let rest = Occurs-swap_out test a xs f in
      rw g (
        λ o. elim o [ inl e ↦ inl e | inr n ↦ inr (rest.0 n) ],
        λ o. elim o [ inl e ↦ inl e | inr n ↦ inr (rest.1 n) ],
      )
]
