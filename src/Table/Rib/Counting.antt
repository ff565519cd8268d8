-- ===== src/Table/Rib/Counting.antt =====
-- Which routes count for an entry of the RIB, said by their places and flags: ndnd/fw/table/rib.go.
use ndn_bier.Prelude.{
  ℕ, zero, suc, ◌≡◌, ◌≢◌, ◌⊎◌, ◌↔◌, refl, sym, ◌∙◌, ap, subst, Bool, true, false, List, [], ◌∷◌,
  ◌++◌, not, ◌==◌, if◌then◌else◌, bit_and, arith, All, Bool-cases, inl, inr,
}
use ndn_bier.Prelude.Lists.{Occurs}
use ndn_bier.Prelude.Occurrences.{Occurs-append}
use ndn_bier.Table.Rib.{
  Route, has_child_inherit_flag, has_capture_flag, has_capture_route, inherited_of, inherited,
  effective_routes,
}

abbrev pub Captures : Route → Type 0
Captures r = bit_and r.flags 2 ≢ 0

abbrev pub IsForChildren : Route → Type 0
IsForChildren r = bit_and r.flags 1 ≢ 0

-- A route that an entry hands down: it is for children, and no route before it captures.
pub record IsHandedDown (routes : List Route) (r : Route) : Type 0 where
  pub before : List Route
  pub after : List Route
  pub split : routes ≡ before ++ r ∷ after
  pub none_captures : All (λ q. ¬ Captures q) before
  pub for_children : IsForChildren r

abbrev pub IsInherited : List (List Route) → Route → Type 0
IsInherited up r = (routes : List Route) × Occurs routes up × IsHandedDown routes r

-- The routes that count for an entry with some routes, below ancestors with the routes `up`: its own,
-- and if none of these captures, what it and its ancestors hand down.
abbrev pub Counts : List Route → List (List Route) → Route → Type 0
Counts routes up r =
    Occurs r routes ⊎ (All (λ q. ¬ Captures q) routes × IsInherited (routes ∷ up) r)

nonzero_iff : (n : ℕ) → (not (n == 0) ≡ true) ↔ (n ≢ 0)
nonzero_iff zero = (λ h. absurd (ground (arith, h)), λ h. absurd (h refl))
nonzero_iff (suc n) = (λ h e. ground (arith, e), λ h. ground arith)

captures : (r : Route) → has_capture_flag r ≡ true → Captures r
captures r = (nonzero_iff (bit_and r.flags 2)).0

Captures-not : (r : Route) → has_capture_flag r ≡ false → ¬ Captures r
Captures-not r f c = let t = (nonzero_iff (bit_and r.flags 2)).1 c in ground (arith, t, f)

no_capture : (r : Route) → ¬ Captures r → has_capture_flag r ≡ false
no_capture r n = elim (Bool-cases (has_capture_flag r)) [
  | inl t ↦ absurd (n (captures r t))
  | inr f ↦ f
]

IsForChildren-iff : (r : Route) → (has_child_inherit_flag r ≡ true) ↔ IsForChildren r
IsForChildren-iff r = nonzero_iff (bit_and r.flags 1)

behind :
    (q r : Route) (routes : List Route)
    → ¬ Captures q
    → IsHandedDown routes r
    → IsHandedDown (q ∷ routes) r
behind q r routes n h = record {
  before = q ∷ h.before;
  after = h.after;
  split = ap (λ l. q ∷ l) h.split;
  none_captures = (n, h.none_captures);
  for_children = h.for_children;
}

in_front :
    (q r : Route) (routes : List Route) → q ≡ r → IsForChildren q → IsHandedDown (q ∷ routes) r
in_front q r routes e c = record {
  before = [];
  after = routes;
  split = ap (λ x. x ∷ routes) e;
  none_captures = tt;
  for_children = subst IsForChildren e c;
}

Occurs-if :
    (b : Bool) (q r : Route) (rest : List Route)
    → Occurs r (if b then q ∷ rest else rest)
    → ((b ≡ true) × (q ≡ r)) ⊎ Occurs r rest
Occurs-if true q r rest (inl e) = inl (refl, e)
Occurs-if true q r rest (inr o) = inr o
Occurs-if false q r rest o = inr o

Occurs-unless :
    (b : Bool) (r : Route) (rest : List Route)
    → Occurs r (if b then [] else rest)
    → (b ≡ false) × Occurs r rest
Occurs-unless true r rest o = absurd o
Occurs-unless false r rest o = (refl, o)

inherited_of-IsHandedDown :
    (r : Route) (routes : List Route) → Occurs r (inherited_of routes) → IsHandedDown routes r
unfolding inherited_of
inherited_of-IsHandedDown r [] o = absurd o
inherited_of-IsHandedDown r (q ∷ routes) o =
    elim (Occurs-if (has_child_inherit_flag q) q r
      (if has_capture_flag q then [] else inherited_of routes) o) [
        | inl (c, e) ↦ in_front q r routes e ((IsForChildren-iff q).0 c)
        | inr rest ↦
            let below = Occurs-unless (has_capture_flag q) r (inherited_of routes) rest in
            behind q r routes (Captures-not q below.0) (inherited_of-IsHandedDown r routes below.1)
      ]

handed_down-inherited_of :
    (r : Route) (before after : List Route)
    → All (λ q. ¬ Captures q) before
    → IsForChildren r
    → Occurs r (inherited_of (before ++ r ∷ after))
unfolding inherited_of
handed_down-inherited_of r [] after n c = rw ((IsForChildren-iff r).1 c) (inl refl)
handed_down-inherited_of r (q ∷ before) after n c =
    rw (no_capture q n.0)
      (put _ (has_child_inherit_flag q) (handed_down-inherited_of r before after n.1 c))
  where
    put : (rest : List Route) (b : Bool) → Occurs r rest → Occurs r (if b then q ∷ rest else rest)
    put rest true o = inr o
    put rest false o = o

inherited-IsInherited :
    (r : Route) (up : List (List Route)) → Occurs r (inherited up) ↔ IsInherited up r
unfolding inherited
inherited-IsInherited r [] = (λ o. absurd o, λ h. h.1)
inherited-IsInherited r (routes ∷ up) =
    let split = Occurs-append r (inherited_of routes) (inherited up) in
    let rest = inherited-IsInherited r up in
    (
      λ o. elim (split.0 o) [
        | inl a ↦ (routes, inl refl, inherited_of-IsHandedDown r routes a)
        | inr b ↦ let h = rest.0 b in (h.0, inr h.1, h.2)
      ],
      λ h. elim h.1 [
        | inl e ↦ split.1 (
            inl (
              subst (λ l. Occurs r (inherited_of l)) (sym h.2.split ∙ sym e)
                (handed_down-inherited_of r h.2.before h.2.after h.2.none_captures
                  h.2.for_children)))
        | inr o ↦ split.1 (inr (rest.1 (h.0, o, h.2)))
      ],
    )

has_capture_route-All :
    (routes : List Route) → (has_capture_route routes ≡ false) ↔ All (λ q. ¬ Captures q) routes
unfolding has_capture_route
has_capture_route-All [] = (λ h. tt, λ h. refl)
has_capture_route-All (q ∷ routes) =
    let rest = has_capture_route-All routes in
    (
      λ h. elim (Bool-cases (has_capture_flag q)) [
        | inl t ↦ absurd (ground (arith, h, t))
        | inr f ↦ (Captures-not q f, rest.0 (ground (arith, h, f)))
      ],
      λ h. rw (no_capture q h.0) (rest.1 h.1),
    )

-- The routes of the list are those that count.
pub effective_routes-Counts :
    (r : Route) (routes : List Route) (up : List (List Route))
    → Occurs r (effective_routes routes up) ↔ Counts routes up r
unfolding effective_routes
effective_routes-Counts r routes up =
    let split = Occurs-append r routes (inherited (routes ∷ up)) in
    let down = inherited-IsInherited r (routes ∷ up) in
    let none_of = has_capture_route-All routes in
    elim (Bool-cases (has_capture_route routes)) [
      | inl t ↦ rw t (
        λ o. inl o,
        λ c. elim c [
          | inl o ↦ o
          | inr (n, i) ↦ let f = none_of.1 n in absurd (ground (arith, t, f))
        ],
      )
      | inr f ↦ rw f (
        λ o. elim (split.0 o) [ inl a ↦ inl a | inr b ↦ inr (none_of.0 f, down.0 b) ],
        λ c. elim c [ inl a ↦ split.1 (inl a) | inr (n, i) ↦ split.1 (inr (down.1 i)) ],
      )
    ]
