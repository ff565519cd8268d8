-- ===== src/Dv/Rib/Selection.antt =====
-- `refresh` finds the two best hops, whatever the order of the map.
use ndn_bier.Prelude.{
  Occurs-self, ℕ, ◌≡◌, ◌<◌, ◌≢◌, ◌⊎◌, inl, inr, refl, Bool, true, not, ◌&&◌, ◌||◌, [], ◌∷◌, ltb,
  leb, ◌==◌, arith, All, Occurs, Bool-cases,
}
use ndn_bier.Prelude.Maps.{Map, Distinct}
use ndn_bier.Dv.Rib.{Lowest, cost_infinity, no_lowest, lower, lowest_step, lowest_loop}

-- The first hop is as good as the second one, by cost and then by hash.
abbrev pub at_least : ℕ → ℕ → ℕ → ℕ → Bool
at_least hop cost hop' cost' = ltb cost cost' || (cost == cost' && leb hop hop')

abbrev pub ordered : Lowest → Bool
ordered b = at_least b.next_hop1 b.lowest1 b.next_hop2 b.lowest2

-- The hop is the first one, or the second one is as good.
abbrev pub covers : Lowest → ℕ × ℕ → Bool
covers b e = (b.next_hop1 == e.0 && b.lowest1 == e.1) || at_least b.next_hop2 b.lowest2 e.0 e.1

step-ordered : (b : Lowest) (e : ℕ × ℕ) → ordered b ≡ true → ordered (lowest_step b e) ≡ true
unfolding lowest_step lower
step-ordered b e h = ground arith

step-covers_new : (b : Lowest) (e : ℕ × ℕ) → ordered b ≡ true → covers (lowest_step b e) e ≡ true
unfolding lowest_step lower
step-covers_new b e h = ground arith

step-covers :
    (b : Lowest) (e x : ℕ × ℕ)
    → ordered b ≡ true
    → covers b x ≡ true
    → covers (lowest_step b e) x ≡ true
unfolding lowest_step lower
step-covers b e x h c = ground arith

-- Both places are better than an unreachable hop, or are its zero value.
abbrev bounded : Lowest → Bool
bounded b =
    at_least b.next_hop1 b.lowest1 0 cost_infinity && at_least b.next_hop2 b.lowest2 0 cost_infinity

step-bounded : (b : Lowest) (e : ℕ × ℕ) → bounded b ≡ true → bounded (lowest_step b e) ≡ true
unfolding lowest_step lower
step-bounded b e h = ground arith

-- Two reachable places have different hops.
abbrev pub differ : Lowest → Bool
differ b = b.lowest2 == cost_infinity || not (b.next_hop1 == b.next_hop2)

-- The hop stands in neither place.
abbrev fresh : Lowest → ℕ × ℕ → Bool
fresh b e =
    (b.lowest1 == cost_infinity || not (e.0 == b.next_hop1))
    && (b.lowest2 == cost_infinity || not (e.0 == b.next_hop2))

step-differ :
    (b : Lowest) (e : ℕ × ℕ)
    → bounded b ≡ true
    → ordered b ≡ true
    → fresh b e ≡ true
    → differ b ≡ true
    → differ (lowest_step b e) ≡ true
unfolding lowest_step lower
step-differ b e h o f d = ground arith

step-fresh :
    (b : Lowest) (e x : ℕ × ℕ) → x.0 ≢ e.0 → fresh b x ≡ true → fresh (lowest_step b e) x ≡ true
unfolding lowest_step lower
step-fresh b e x n f = ground arith

-- A place holds a reachable hop of the map, or the zero value.
abbrev pub IsPlace : Map ℕ → ℕ → ℕ → Type 0
IsPlace all hop cost =
    ((hop ≡ 0) × (cost ≡ cost_infinity)) ⊎ ((cost < cost_infinity) × Occurs (hop, cost) all)

IsPlace-lower :
    (all : Map ℕ) (b : Lowest) (e : ℕ × ℕ)
    → bounded b ≡ true
    → ordered b ≡ true
    → lower e.0 e.1 b.next_hop2 b.lowest2 ≡ true
    → Occurs e all
    → IsPlace all e.0 e.1
unfolding lower
IsPlace-lower all b e h o l there = inr (ground arith, there)

lower_both :
    (b : Lowest) (e : ℕ × ℕ)
    → ordered b ≡ true
    → lower e.0 e.1 b.next_hop1 b.lowest1 ≡ true
    → lower e.0 e.1 b.next_hop2 b.lowest2 ≡ true
unfolding lower
lower_both b e o l = ground arith

-- Both places.
abbrev ArePlaces : Map ℕ → Lowest → Type 0
ArePlaces all b = IsPlace all b.next_hop1 b.lowest1 × IsPlace all b.next_hop2 b.lowest2

step-ArePlaces :
    (all : Map ℕ) (b : Lowest) (e : ℕ × ℕ)
    → bounded b ≡ true
    → ordered b ≡ true
    → Occurs e all
    → ArePlaces all b
    → ArePlaces all (lowest_step b e)
unfolding lowest_step
step-ArePlaces all b e h o there p = elim (Bool-cases (lower e.0 e.1 b.next_hop1 b.lowest1)) [
  | inl first ↦ rw first (IsPlace-lower all b e h o (lower_both b e o first) there, p.0)
  | inr not_first ↦ rw not_first (elim (Bool-cases (lower e.0 e.1 b.next_hop2 b.lowest2)) [
    | inl second ↦ rw second (p.0, IsPlace-lower all b e h o second there)
    | inr neither ↦ rw neither p
  ])
]

-- The two best hops of a map of costs, by cost and then by hash; a place without a reachable hop
-- has the hop 0 and the infinite cost.
pub record IsLowest (all : Map ℕ) (b : Lowest) : Type 0 where
  pub in_order : ordered b ≡ true
  pub first : IsPlace all b.next_hop1 b.lowest1
  pub second : IsPlace all b.next_hop2 b.lowest2
  pub distinct : differ b ≡ true
  pub covered : All (λ e. covers b e ≡ true) all

loop-covers :
    (es : Map ℕ) (b : Lowest) (x : ℕ × ℕ)
    → ordered b ≡ true
    → covers b x ≡ true
    → covers (lowest_loop b es) x ≡ true
unfolding lowest_loop
loop-covers [] b x o c = c
loop-covers (e ∷ es) b x o c =
    loop-covers es (lowest_step b e) x (step-ordered b e o) (step-covers b e x o c)

loop-covers-All :
    (es : Map ℕ) (b : Lowest) → ordered b ≡ true → All (λ e. covers (lowest_loop b es) e ≡ true) es
unfolding lowest_loop
loop-covers-All [] b o = tt
loop-covers-All (e ∷ es) b o = (
  loop-covers es (lowest_step b e) e (step-ordered b e o) (step-covers_new b e o),
  loop-covers-All es (lowest_step b e) (step-ordered b e o),
)

-- The part of the claim that needs no look at the entries that are still to come.
record IsSound (all : Map ℕ) (b : Lowest) : Type 0 where
  o : ordered b ≡ true
  h : bounded b ≡ true
  d : differ b ≡ true
  p : ArePlaces all b

All-fresh :
    (b : Lowest) (e : ℕ × ℕ) (es : Map ℕ)
    → All (λ x. x.0 ≢ e.0) es
    → All (λ x. fresh b x ≡ true) es
    → All (λ x. fresh (lowest_step b e) x ≡ true) es
All-fresh b e [] n f = tt
All-fresh b e (x ∷ es) n f = (step-fresh b e x n.0 f.0, All-fresh b e es n.1 f.1)

loop-IsSound :
    (all es : Map ℕ) (b : Lowest)
    → Distinct es
    → All (λ e. Occurs e all) es
    → All (λ e. fresh b e ≡ true) es
    → IsSound all b
    → IsSound all (lowest_loop b es)
unfolding lowest_loop
loop-IsSound all [] b n there f s = s
loop-IsSound all (e ∷ es) b n there f s =
    loop-IsSound all es (lowest_step b e) n.1 there.1 (All-fresh b e es n.0 f.1) (record {
      o = step-ordered b e s.o;
      h = step-bounded b e s.h;
      d = step-differ b e s.h s.o f.0 s.d;
      p = step-ArePlaces all b e s.h s.o there.0 s.p;
    })

fresh_start : (es : Map ℕ) → All (λ e. fresh no_lowest e ≡ true) es
fresh_start [] = tt
fresh_start (e ∷ es) = (refl, fresh_start es)

-- In a map with each hop once, the loop of `refresh` finds the two best hops by cost and then by
-- hash among those with a finite cost; a place that none is left for has the hop 0 and the
-- infinite cost.
pub lowest_loop-IsLowest :
    (costs : Map ℕ) → Distinct costs → IsLowest costs (lowest_loop no_lowest costs)
lowest_loop-IsLowest costs n =
    let s =
      loop-IsSound costs costs no_lowest n (Occurs-self costs) (fresh_start costs)
        (record { o = refl; h = refl; d = refl; p = (inl (refl, refl), inl (refl, refl)) }) in
    record {
      in_order = s.o;
      first = s.p.0;
      second = s.p.1;
      distinct = s.d;
      covered = loop-covers-All costs no_lowest refl;
    }
