-- ===== src/Table/Rib/Least.antt =====
-- The least cost among the routes that count for an entry of the RIB: ndnd/fw/table/rib.go.
use ndn_bier.Prelude.{
  ℕ, ◌<◌, ◌≤◌, ◌≡◌, ◌≢◌, ◌↔◌, refl, ◌∙◌, ap, true, Option, none, some, List, [], ◌∷◌, length, ltb,
  ◌==◌, ==_iff, if◌then◌else◌, arith, Bool-cases, inl, inr,
}
use ndn_bier.Prelude.Lists.{Occurs}
use ndn_bier.Table.Rib.{Route, effective_routes}
use ndn_bier.Table.Rib.Costs.{cheapest, lower, cheapest-cons}
use ndn_bier.Table.Rib.Counting.{Counts, effective_routes-Counts}

-- The least cost among the routes of a kind to a face.
abbrev pub IsLeast : (Route → Type 0) → ℕ → Option ℕ → Type 0
IsLeast P face none = (r : Route) → P r → r.face_id ≢ face
IsLeast P face (some cost) =
    ((r : Route) × P r × (r.face_id ≡ face) × (r.cost ≡ cost))
    × ((r : Route) → P r → r.face_id ≡ face → cost ≤ r.cost)

-- The cost that an entry sets for a face.
abbrev pub IsSetCost : ℕ → List Route → List (List Route) → Option ℕ → Type 0
IsSetCost face routes up o =
    (routes ≡ [] → o ≡ none) × (0 < length routes → IsLeast (Counts routes up) face o)

same_kind :
    (P Q : Route → Type 0) (face : ℕ) (o : Option ℕ)
    → ((r : Route) → P r ↔ Q r)
    → IsLeast P face o
    → IsLeast Q face o
same_kind P Q face none same h = λ r q. h r ((same r).1 q)
same_kind P Q face (some cost) same ((r, p, to, at), least) =
    ((r, (same r).0 p, to, at), λ s q. least s ((same s).1 q))

IsLeast-beside :
    (face : ℕ) (r : Route) (routes : List Route) (o : Option ℕ)
    → r.face_id ≢ face
    → IsLeast (λ q. Occurs q routes) face o
    → IsLeast (λ q. Occurs q (r ∷ routes)) face o
IsLeast-beside face r routes none away h =
    λ q at. elim at [ inl e ↦ λ to. away (ap (λ x. x.face_id) e ∙ to) | inr o ↦ h q o ]
IsLeast-beside face r routes (some cost) away ((q, o, to, at), least) = (
  (q, inr o, to, at),
  λ s at. elim at [ inl e ↦ λ to. absurd (away (ap (λ x. x.face_id) e ∙ to)) | inr o ↦ least s o ],
)

IsLeast-with :
    (face : ℕ) (r : Route) (routes : List Route) (o : Option ℕ)
    → r.face_id ≡ face
    → IsLeast (λ q. Occurs q routes) face o
    → IsLeast (λ q. Occurs q (r ∷ routes)) face (lower (some r.cost) o)
IsLeast-with face r routes none to h = (
  (r, inl refl, to, refl),
  λ s at. elim at [
    | inl e ↦ let same = ap (λ x. x.cost) e in λ at. omega (arith, same)
    | inr o ↦ λ at. absurd (h s o at)
  ],
)
IsLeast-with face r routes (some cost) to ((q, o, to_q, cost_q), least) = (
  elim (Bool-cases (ltb r.cost cost)) [
    | inl less ↦ (r, inl refl, to, ground (arith, less))
    | inr more ↦ (q, inr o, to_q, ground (arith, more, cost_q))
  ],
  λ s at. elim at [
    | inl e ↦ let same = ap (λ x. x.cost) e in λ at. omega (arith, same)
    | inr o ↦ λ at. let below = least s o at in omega (arith, below)
  ],
)

cheapest-IsLeast :
    (face : ℕ) (routes : List Route) → IsLeast (λ q. Occurs q routes) face (cheapest face routes)
cheapest-IsLeast face [] = unfold cheapest in λ r o. absurd o
cheapest-IsLeast face (r ∷ routes) =
    let rest = cheapest-IsLeast face routes in
    rw (cheapest-cons face r routes) (elim (Bool-cases (r.face_id == face)) [
      | inl t ↦ rw t (IsLeast-with face r routes _ ((==_iff r.face_id face).0 t) rest)
      | inr f ↦ rw f (
          IsLeast-beside face r routes _
            (λ e. let t = (==_iff r.face_id face).1 e in ground (arith, t, f)) rest)
    ])

pub cheapest-IsSetCost :
    (face : ℕ) (routes : List Route) (up : List (List Route))
    → IsSetCost face routes up
        (if ltb 0 (length routes) then cheapest face (effective_routes routes up) else none)
cheapest-IsSetCost face [] up = (λ e. refl, λ h. absurd (omega (arith, h)))
cheapest-IsSetCost face (r ∷ routes) up =
    let some_there : ltb 0 (length (r ∷ routes)) ≡ true = ground arith in
    (
      λ e. absurd (ground (arith, e)),
      λ h. rw some_there (
          same_kind _ (Counts (r ∷ routes) up) face _
            (λ q. effective_routes-Counts q (r ∷ routes) up)
            (cheapest-IsLeast face (effective_routes (r ∷ routes) up))),
    )
