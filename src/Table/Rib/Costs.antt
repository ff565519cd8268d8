-- ===== src/Table/Rib/Costs.antt =====
-- The least cost for each face among routes: ndnd/fw/table/rib.go.
use ndn_bier.Prelude.{
  ℕ, ◌≡◌, refl, sym, ◌∙◌, ap, Bool, true, false, Option, none, some, List, [], ◌∷◌, ◌==◌, ==_iff,
  min, if◌then◌else◌, arith, Option-cases, inl, inr,
}
use ndn_bier.Prelude.Maps.{Map, Distinct, lookup, insert, lookup-insert, insert-Distinct}
use ndn_bier.Table.Rib.{Route, is_cheaper, min_costs_onto}

-- The reference: the least cost among the routes to a face.
unfoldable pub cheapest : ℕ → List Route → Option ℕ
cheapest face [] = none
cheapest face (r ∷ routes) =
    let rest = cheapest face routes in
    if r.face_id == face then some (elim rest [ none ↦ r.cost | some c ↦ min r.cost c ]) else rest

abbrev pub lower : Option ℕ → Option ℕ → Option ℕ
lower none o = o
lower (some a) none = some a
lower (some a) (some b) = some (min a b)

pub same_lookup : (j k : ℕ) (costs : Map ℕ) → (j == k) ≡ true → lookup j costs ≡ lookup k costs
same_lookup j k costs h = ap (λ x. lookup x costs) ((==_iff j k).0 h)

abbrev pub costs_with : Route → Map ℕ → Map ℕ
costs_with r costs =
    if is_cheaper r.cost (lookup r.face_id costs) then insert r.face_id r.cost costs else costs

keep_cheaper :
    (face : ℕ) (r : Route) (costs : Map ℕ)
    → lookup face (costs_with r costs)
      ≡ (if r.face_id == face then lower (lookup face costs) (some r.cost) else lookup face costs)
keep_cheaper face r costs =
    ground (arith, lookup-insert r.face_id face r.cost costs, same_lookup r.face_id face costs)

lower_assoc : (a b c : Option ℕ) → lower (lower a b) c ≡ lower a (lower b c)
lower_assoc none b c = refl
lower_assoc (some a) none c = refl
lower_assoc (some a) (some b) none = refl
lower_assoc (some a) (some b) (some c) = ap (λ n. some n) (omega arith)

lower-none : (a : Option ℕ) → lower a none ≡ a
lower-none none = refl
lower-none (some a) = refl

pub cheapest-cons :
    (face : ℕ) (r : Route) (routes : List Route)
    → cheapest face (r ∷ routes) ≡ (
        if r.face_id == face
        then lower (some r.cost) (cheapest face routes)
        else cheapest face routes)
unfolding cheapest
cheapest-cons face r routes = elim (Option-cases (cheapest face routes)) [
  | inl h ↦ rw h refl
  | inr (c, h) ↦ rw h refl
]

pub min_costs_onto-cheapest :
    (face : ℕ) (costs : Map ℕ) (routes : List Route)
    → lookup face (min_costs_onto costs routes) ≡ lower (lookup face costs) (cheapest face routes)
unfolding min_costs_onto
min_costs_onto-cheapest face costs [] = sym (unfold cheapest in lower-none (lookup face costs))
min_costs_onto-cheapest face costs (r ∷ routes) =
    min_costs_onto-cheapest face (costs_with r costs) routes
    ∙ ap (λ o. lower o (cheapest face routes)) (keep_cheaper face r costs)
    ∙ both (r.face_id == face)
    ∙ ap (lower (lookup face costs)) (sym (cheapest-cons face r routes))
  where
    both :
        (b : Bool)
        → lower
            (if b then lower (lookup face costs) (some r.cost) else lookup face costs)
            (cheapest face routes)
          ≡ lower
              (lookup face costs)
              (if b then lower (some r.cost) (cheapest face routes) else cheapest face routes)
    both true = lower_assoc (lookup face costs) (some r.cost) (cheapest face routes)
    both false = refl

pub min_costs_onto-Distinct :
    (costs : Map ℕ) (routes : List Route) → Distinct costs → Distinct (min_costs_onto costs routes)
unfolding min_costs_onto
min_costs_onto-Distinct costs [] d = d
min_costs_onto-Distinct costs (r ∷ routes) d =
    min_costs_onto-Distinct (costs_with r costs) routes
      (kept (is_cheaper r.cost (lookup r.face_id costs)))
  where
    kept : (b : Bool) → Distinct (if b then insert r.face_id r.cost costs else costs)
    kept true = insert-Distinct r.face_id r.cost costs d
    kept false = d
