-- ===== src/Table/Rib/Changes.antt =====
-- What an operation does to a list of routes, said by the place of the route: ndnd/fw/table/rib.go.
use ndn_bier.Prelude.{
  ℕ, ◌≡◌, ◌⊎◌, ◌↔◌, refl, sym, ap, subst, Bool, true, false, List, [], ◌∷◌, ◌++◌, ◌&&◌, ◌==◌,
  ==_iff, if◌then◌else◌, arith, All, Bool-cases, inl, inr,
}
use ndn_bier.Table.Rib.{Route, put_route, cut_route, cut_face}

abbrev pub IsOf : ℕ → ℕ → Route → Type 0
IsOf face_id origin r = (r.face_id ≡ face_id) × (r.origin ≡ origin)

abbrev pub IsTo : ℕ → Route → Type 0
IsTo face_id r = r.face_id ≡ face_id

-- The place of the first route of some kind.
pub record FirstAt (P : Route → Type 0) (routes : List Route) : Type 0 where
  pub before : List Route
  pub first : Route
  pub after : List Route
  pub split : routes ≡ before ++ first ∷ after
  pub others : All (λ r. ¬ P r) before
  pub kind : P first

-- The first route of a kind goes out of the list, if there is one.
abbrev pub IsCut : (Route → Type 0) → List Route → List Route → Type 0
IsCut P old new =
    (All (λ r. ¬ P r) old × (new ≡ old)) ⊎ ((at : FirstAt P old) × (new ≡ at.before ++ at.after))

-- A route takes the place of the first one of its face and origin, or comes last if there is none.
abbrev pub IsPut : Route → List Route → List Route → Type 0
IsPut route old new =
    (All (λ r. ¬ IsOf route.face_id route.origin r) old × (new ≡ old ++ route ∷ []))
    ⊎ ((at : FirstAt (IsOf route.face_id route.origin) old) × (new ≡ at.before ++ route ∷ at.after))

-- A change where a test holds, and none elsewhere.
abbrev pub ChangedIf : Bool → (List Route → List Route → Type 0) → List Route → List Route → Type 0
ChangedIf true Change old new = Change old new
ChangedIf false Change old new = new ≡ old

later :
    {P : Route → Type 0} (r : Route) (routes : List Route)
    → ¬ P r
    → FirstAt P routes
    → FirstAt P (r ∷ routes)
later r routes other at = record {
  before = r ∷ at.before;
  first = at.first;
  after = at.after;
  split = ap (λ l. r ∷ l) at.split;
  others = (other, at.others);
  kind = at.kind;
}

IsOf-iff :
    (face_id origin : ℕ) (r : Route)
    → ((r.face_id == face_id && r.origin == origin) ≡ true) ↔ IsOf face_id origin r
IsOf-iff face_id origin r =
    let face = ==_iff r.face_id face_id in
    let from = ==_iff r.origin origin in
    (
      λ h. (face.0 (ground (arith, h)), from.0 (ground (arith, h))),
      λ h. let a = face.1 h.0 in let b = from.1 h.1 in ground (arith, a, b),
    )

apart : {b : Bool} → b ≡ true → b ≡ false → ⊥
apart t f = cc

same_route :
    (route r : Route)
    → IsOf route.face_id route.origin r
    → record r {
      cost = route.cost;
      flags = route.flags;
      expiration_period = route.expiration_period;
    }
      ≡ route
same_route route r h = cc (h.0, h.1)

pub put_route-IsPut :
    (route : Route) (routes : List Route) → IsPut route routes (put_route route routes)
unfolding put_route later
put_route-IsPut route [] = inl (tt, refl)
put_route-IsPut route (r ∷ routes) =
    elim (Bool-cases (r.face_id == route.face_id && r.origin == route.origin)) [
      | inl t ↦
          let of = (IsOf-iff route.face_id route.origin r).0 t in
          rw t (
            inr (
              record {
                before = [];
                first = r;
                after = routes;
                split = refl;
                others = tt;
                kind = of;
              },
              ap (λ x. x ∷ routes) (same_route route r of),
            ))
      | inr f ↦
          let other : ¬ IsOf route.face_id route.origin r =
            λ of. apart ((IsOf-iff route.face_id route.origin r).1 of) f in
          rw f (elim (put_route-IsPut route routes) [
            | inl (none_of, e) ↦ inl ((other, none_of), ap (λ l. r ∷ l) e)
            | inr (at, e) ↦ inr (later r routes other at, ap (λ l. r ∷ l) e)
          ])
    ]

pub cut_route-IsCut :
    (face_id origin : ℕ) (routes : List Route)
    → IsCut (IsOf face_id origin) routes (cut_route face_id origin routes)
unfolding cut_route later
cut_route-IsCut face_id origin [] = inl (tt, refl)
cut_route-IsCut face_id origin (r ∷ routes) =
    elim (Bool-cases (r.face_id == face_id && r.origin == origin)) [
      | inl t ↦
          let of = (IsOf-iff face_id origin r).0 t in
          rw t (
            inr (
              record {
                before = [];
                first = r;
                after = routes;
                split = refl;
                others = tt;
                kind = of;
              },
              refl,
            ))
      | inr f ↦
          let other : ¬ IsOf face_id origin r = λ of. apart ((IsOf-iff face_id origin r).1 of) f in
          rw f (elim (cut_route-IsCut face_id origin routes) [
            | inl (none_of, e) ↦ inl ((other, none_of), ap (λ l. r ∷ l) e)
            | inr (at, e) ↦ inr (later r routes other at, ap (λ l. r ∷ l) e)
          ])
    ]

pub cut_face-IsCut :
    (face_id : ℕ) (routes : List Route) → IsCut (IsTo face_id) routes (cut_face face_id routes)
unfolding cut_face later
cut_face-IsCut face_id [] = inl (tt, refl)
cut_face-IsCut face_id (r ∷ routes) = elim (Bool-cases (r.face_id == face_id)) [
  | inl t ↦ rw t (
      inr (
        record {
          before = [];
          first = r;
          after = routes;
          split = refl;
          others = tt;
          kind = (==_iff r.face_id face_id).0 t;
        },
        refl,
      ))
  | inr f ↦
      let other : ¬ IsTo face_id r = λ to. apart ((==_iff r.face_id face_id).1 to) f in
      rw f (elim (cut_face-IsCut face_id routes) [
        | inl (none_to, e) ↦ inl ((other, none_to), ap (λ l. r ∷ l) e)
        | inr (at, e) ↦ inr (later r routes other at, ap (λ l. r ∷ l) e)
      ])
]

pub changed_if :
    (b : Bool) (Change : List Route → List Route → Type 0) (f : List Route → List Route)
    (old new : List Route)
    → Change old (f old)
    → new ≡ (if b then f old else old)
    → ChangedIf b Change old new
changed_if true Change f old new change h = subst (Change old) (sym h) change
changed_if false Change f old new change h = h
