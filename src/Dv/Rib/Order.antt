-- ===== src/Dv/Rib/Order.antt =====
-- The two best hops of a RIB entry do not depend on the order of the map.
use ndn_bier.Prelude.{ℕ, ◌≡◌, inl, inr, refl, sym, true, arith, Occurs, All-Occurs}
use ndn_bier.Prelude.Maps.{Map, Distinct}
use ndn_bier.Dv.Rib.{Lowest, cost_infinity, no_lowest, lowest_loop}
use ndn_bier.Dv.Rib.Selection.{at_least, covers, IsPlace, IsLowest, lowest_loop-IsLowest}

place_bound :
    (all : Map ℕ) (hop cost : ℕ) → IsPlace all hop cost → at_least hop cost 0 cost_infinity ≡ true
place_bound all hop cost (inl (z, i)) = rw (z, i) refl
place_bound all hop cost (inr (l, o)) = ground arith

-- A place of one result is not better than the first place of another.
first_best :
    (all all' : Map ℕ) (a b : Lowest)
    → IsLowest all a
    → IsLowest all' b
    → ((e : ℕ × ℕ) → Occurs e all' → Occurs e all)
    → at_least a.next_hop1 a.lowest1 b.next_hop1 b.lowest1 ≡ true
first_best all all' a b ia ib sub = from ib.first
  where
    bound : at_least a.next_hop1 a.lowest1 0 cost_infinity ≡ true
    bound = place_bound all a.next_hop1 a.lowest1 ia.first

    from :
        IsPlace all' b.next_hop1 b.lowest1
        → at_least a.next_hop1 a.lowest1 b.next_hop1 b.lowest1 ≡ true
    from (inl (z, i)) = rw (z, i) bound
    from (inr (l, o)) =
        let c =
          All-Occurs (λ e. covers a e ≡ true) all (b.next_hop1, b.lowest1) ia.covered (sub _ o) in
        let q = ia.in_order in ground arith

antisym :
    (h c h' c' : ℕ) → at_least h c h' c' ≡ true → at_least h' c' h c ≡ true → (h ≡ h') × (c ≡ c')
antisym h c h' c' p q = (ground arith, ground arith)

second_best :
    (all all' : Map ℕ) (a b : Lowest)
    → IsLowest all a
    → IsLowest all' b
    → ((e : ℕ × ℕ) → Occurs e all' → Occurs e all)
    → (a.next_hop1 ≡ b.next_hop1)
    → at_least a.next_hop2 a.lowest2 b.next_hop2 b.lowest2 ≡ true
second_best all all' a b ia ib sub same = from ib.second
  where
    bound : at_least a.next_hop2 a.lowest2 0 cost_infinity ≡ true
    bound = place_bound all a.next_hop2 a.lowest2 ia.second

    from :
        IsPlace all' b.next_hop2 b.lowest2
        → at_least a.next_hop2 a.lowest2 b.next_hop2 b.lowest2 ≡ true
    from (inl (z, i)) = rw (z, i) bound
    from (inr (l, o)) =
        let c =
          All-Occurs (λ e. covers a e ≡ true) all (b.next_hop2, b.lowest2) ia.covered (sub _ o) in
        let d = ib.distinct in ground arith

-- Two maps with the same entries have the same two best hops.
pub IsLowest-unique :
    (all all' : Map ℕ) (a b : Lowest)
    → IsLowest all a
    → IsLowest all' b
    → ((e : ℕ × ℕ) → Occurs e all' → Occurs e all)
    → ((e : ℕ × ℕ) → Occurs e all → Occurs e all')
    → a ≡ b
IsLowest-unique all all' a b ia ib sub sup =
    let (h1, c1) =
      antisym _ _ _ _ (first_best all all' a b ia ib sub) (first_best all' all b a ib ia sup) in
    let (h2, c2) =
      antisym _ _ _ _ (second_best all all' a b ia ib sub h1)
        (second_best all' all b a ib ia sup (sym h1)) in
    λ i. record { next_hop1 = h1 i; lowest1 = c1 i; next_hop2 = h2 i; lowest2 = c2 i }

-- The order in which Go ranges over the costs does not matter: from two maps with each hop once and
-- the same entries the loop of `refresh` gets the same two hops and costs.
pub lowest_loop-order :
    (costs costs' : Map ℕ)
    → Distinct costs
    → Distinct costs'
    → ((e : ℕ × ℕ) → Occurs e costs' → Occurs e costs)
    → ((e : ℕ × ℕ) → Occurs e costs → Occurs e costs')
    → lowest_loop no_lowest costs ≡ lowest_loop no_lowest costs'
lowest_loop-order costs costs' n n' =
    IsLowest-unique costs costs' _ _ (lowest_loop-IsLowest costs n) (lowest_loop-IsLowest costs' n')
