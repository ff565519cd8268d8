-- ===== src/Table/FibHashTable/Hops.antt =====
-- Lists of next hops as maps from faces to costs, where no face occurs twice.
use ndn_bier.Prelude.{
  ℕ, ◌≡◌, ◌≢◌, refl, sym, Option, none, some, List, [], ◌∷◌, length, ltb, ◌==◌, if◌then◌else◌,
  arith, All, Pairs, Bool-cases, inl, inr,
}
use ndn_bier.Table.NextHops.{FibNextHopEntry}
use ndn_bier.Table.FibEntry.{put_hop, cut_hop, swap_out_hop, last_or, but_last, without_head}

unfoldable pub cost_to : ℕ → List FibNextHopEntry → Option ℕ
cost_to face [] = none
cost_to face (nh ∷ nhs) = if nh.nexthop == face then some nh.cost else cost_to face nhs

abbrev pub IsOther : FibNextHopEntry → FibNextHopEntry → Type 0
IsOther a b = a.nexthop ≢ b.nexthop

abbrev pub AreDistinct : List FibNextHopEntry → Type 0
AreDistinct nhs = Pairs IsOther nhs

pub cost_to-put_hop :
    (face nexthop cost : ℕ) (nhs : List FibNextHopEntry)
    → cost_to face (put_hop nexthop cost nhs)
      ≡ (if nexthop == face then some cost else cost_to face nhs)
unfolding cost_to put_hop
cost_to-put_hop face nexthop cost [] = refl
cost_to-put_hop face nexthop cost (nh ∷ nhs) = ground (arith, cost_to-put_hop face nexthop cost nhs)

others-put_hop :
    (face nexthop cost : ℕ) (nhs : List FibNextHopEntry)
    → face ≢ nexthop
    → All (λ nh. face ≢ nh.nexthop) nhs
    → All (λ nh. face ≢ nh.nexthop) (put_hop nexthop cost nhs)
unfolding put_hop
others-put_hop face nexthop cost [] h t = (h, tt)
others-put_hop face nexthop cost (nh ∷ nhs) h t = elim (Bool-cases (nh.nexthop == nexthop)) [
  | inl e ↦ rw e t
  | inr d ↦ rw d (t.0, others-put_hop face nexthop cost nhs h t.1)
]

pub put_hop-AreDistinct :
    (nexthop cost : ℕ) (nhs : List FibNextHopEntry)
    → AreDistinct nhs
    → AreDistinct (put_hop nexthop cost nhs)
unfolding put_hop
put_hop-AreDistinct nexthop cost [] d = (tt, tt)
put_hop-AreDistinct nexthop cost (nh ∷ nhs) d = elim (Bool-cases (nh.nexthop == nexthop)) [
  | inl e ↦ rw e d
  | inr n ↦ rw n (
    others-put_hop nh.nexthop nexthop cost nhs (ground (arith, n)) d.0,
    put_hop-AreDistinct nexthop cost nhs d.1,
  )
]

cost_to-others :
    (face : ℕ) (nhs : List FibNextHopEntry)
    → All (λ nh. face ≢ nh.nexthop) nhs
    → cost_to face nhs ≡ none
unfolding cost_to
cost_to-others face [] h = refl
cost_to-others face (nh ∷ nhs) h = ground (arith, h.0, cost_to-others face nhs h.1)

pub cost_to-cut_hop :
    (face nexthop : ℕ) (nhs : List FibNextHopEntry)
    → AreDistinct nhs
    → cost_to face (cut_hop nexthop nhs) ≡ (if nexthop == face then none else cost_to face nhs)
unfolding cost_to cut_hop
cost_to-cut_hop face nexthop [] d = ground arith
cost_to-cut_hop face nexthop (nh ∷ nhs) d =
    ground (arith, cost_to-others nh.nexthop nhs d.0, cost_to-cut_hop face nexthop nhs d.1)

others-cut_hop :
    (face nexthop : ℕ) (nhs : List FibNextHopEntry)
    → All (λ nh. face ≢ nh.nexthop) nhs
    → All (λ nh. face ≢ nh.nexthop) (cut_hop nexthop nhs)
unfolding cut_hop
others-cut_hop face nexthop [] h = tt
others-cut_hop face nexthop (nh ∷ nhs) h = elim (Bool-cases (nh.nexthop == nexthop)) [
  | inl e ↦ rw e h.1
  | inr d ↦ rw d (h.0, others-cut_hop face nexthop nhs h.1)
]

pub cut_hop-AreDistinct :
    (nexthop : ℕ) (nhs : List FibNextHopEntry) → AreDistinct nhs → AreDistinct (cut_hop nexthop nhs)
unfolding cut_hop
cut_hop-AreDistinct nexthop [] d = tt
cut_hop-AreDistinct nexthop (nh ∷ nhs) d = elim (Bool-cases (nh.nexthop == nexthop)) [
  | inl e ↦ rw e d.1
  | inr n ↦ rw n (others-cut_hop nh.nexthop nexthop nhs d.0, cut_hop-AreDistinct nexthop nhs d.1)
]

-- The last element in front.
others-last_or :
    (face : ℕ) (nh : FibNextHopEntry) (nhs : List FibNextHopEntry)
    → All (λ x. face ≢ x.nexthop) (nh ∷ nhs)
    → (face ≢ (last_or nh nhs).nexthop) × All (λ x. face ≢ x.nexthop) (but_last (nh ∷ nhs))
others-last_or face nh [] h = (h.0, tt)
others-last_or face nh (x ∷ nhs) h =
    let below = others-last_or face x nhs h.1 in (below.0, (h.0, below.1))

others-without_head :
    (face : ℕ) (nhs : List FibNextHopEntry)
    → All (λ nh. face ≢ nh.nexthop) nhs
    → All (λ nh. face ≢ nh.nexthop) (without_head nhs)
others-without_head face [] h = tt
others-without_head face (nh ∷ nhs) h = others-last_or face nh nhs h

cost_to-without_head :
    (face : ℕ) (nhs : List FibNextHopEntry)
    → AreDistinct nhs
    → cost_to face (without_head nhs) ≡ cost_to face nhs
unfolding cost_to
cost_to-without_head face [] d = refl
cost_to-without_head face (nh ∷ []) d = refl
cost_to-without_head face (nh ∷ x ∷ nhs) d =
    ground (arith, (others-last_or nh.nexthop x nhs d.0).0, cost_to-without_head face (x ∷ nhs) d.1)

without_head-AreDistinct :
    (nhs : List FibNextHopEntry) → AreDistinct nhs → AreDistinct (without_head nhs)
without_head-AreDistinct [] d = tt
without_head-AreDistinct (nh ∷ []) d = (tt, tt)
without_head-AreDistinct (nh ∷ x ∷ nhs) d =
    let away = others-last_or nh.nexthop x nhs d.0 in
    let rest = without_head-AreDistinct (x ∷ nhs) d.1 in
    (((λ e. away.0 (sym e)), rest.0), (away.1, rest.1))

pub cost_to-swap_out_hop :
    (face nexthop : ℕ) (nhs : List FibNextHopEntry)
    → AreDistinct nhs
    → cost_to face (swap_out_hop nexthop nhs) ≡ (if nexthop == face then none else cost_to face nhs)
unfolding cost_to swap_out_hop
cost_to-swap_out_hop face nexthop [] d = ground arith
cost_to-swap_out_hop face nexthop (nh ∷ nhs) d = ground (
  arith,
  cost_to-others nh.nexthop nhs d.0,
  cost_to-without_head face nhs d.1,
  cost_to-swap_out_hop face nexthop nhs d.1,
)

others-swap_out_hop :
    (face nexthop : ℕ) (nhs : List FibNextHopEntry)
    → All (λ nh. face ≢ nh.nexthop) nhs
    → All (λ nh. face ≢ nh.nexthop) (swap_out_hop nexthop nhs)
unfolding swap_out_hop
others-swap_out_hop face nexthop [] h = tt
others-swap_out_hop face nexthop (nh ∷ nhs) h = elim (Bool-cases (nh.nexthop == nexthop)) [
  | inl e ↦ rw e (others-without_head face nhs h.1)
  | inr d ↦ rw d (h.0, others-swap_out_hop face nexthop nhs h.1)
]

pub swap_out_hop-AreDistinct :
    (nexthop : ℕ) (nhs : List FibNextHopEntry)
    → AreDistinct nhs
    → AreDistinct (swap_out_hop nexthop nhs)
unfolding swap_out_hop
swap_out_hop-AreDistinct nexthop [] d = tt
swap_out_hop-AreDistinct nexthop (nh ∷ nhs) d = elim (Bool-cases (nh.nexthop == nexthop)) [
  | inl e ↦ rw e (without_head-AreDistinct nhs d.1)
  | inr n ↦
      rw n
        (others-swap_out_hop nh.nexthop nexthop nhs d.0, swap_out_hop-AreDistinct nexthop nhs d.1)
]

-- Lists with the same costs are empty together.
pub same_costs_empty :
    (nhs others : List FibNextHopEntry)
    → ((face : ℕ) → cost_to face nhs ≡ cost_to face others)
    → ltb 0 (length nhs) ≡ ltb 0 (length others)
unfolding cost_to
same_costs_empty [] [] h = refl
same_costs_empty [] (nh ∷ nhs) h = absurd (ground (arith, h nh.nexthop))
same_costs_empty (nh ∷ nhs) [] h = absurd (ground (arith, h nh.nexthop))
same_costs_empty (nh ∷ nhs) (x ∷ others) h = ground arith
