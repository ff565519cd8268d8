-- ===== src/Dv/Rib/Runs.antt =====
-- The tables that the operations of the RIB build, in any order.
use ndn_bier.Prelude.{ℕ, ◌<◌, [], ◌∷◌, map, All}
use ndn_bier.Prelude.Maps.{Map}
use ndn_bier.Encoding.Name.{Name}
use ndn_bier.Dv.Rib.{
  RibEntry, Rib, cost_infinity, rib_set, remove_next_hop, dirty_reset_next_hop, prune, AdvEntry,
  adv_entry, advert,
}
use ndn_bier.Dv.Rib.Invariant.{
  IsRib, IsReachable, IsPruned, rib_set-IsRib, remove_hop-Distinct, remove_hop-All, reset-Distinct,
  reset-All, prune-IsPruned, IsPruned-IsRib,
}

-- One call of a method.
pub data Step (hash : Name → ℕ) : Rib → Rib → Type 0 where
  set_cost : (r : Rib) (dest hop : Name) (cost : ℕ) → Step hash r (rib_set hash dest hop cost r).0
  remove : (r : Rib) (hop : Name) → Step hash r (remove_next_hop hash hop r).0
  reset : (r : Rib) (hop : Name) → Step hash r (dirty_reset_next_hop hash hop r)
  prune_all : (r : Rib) → Step hash r (prune r).0

pub data Reach (hash : Name → ℕ) (start : Rib) : Rib → Type 0 where
  here : Reach hash start start
  next : {r s : Rib} → Reach hash start r → Step hash r s → Reach hash start s

Step-IsRib : {hash : Name → ℕ} {r s : Rib} → Step hash r s → IsRib r → IsRib s
Step-IsRib {hash} (set_cost r dest hop cost) i = rib_set-IsRib hash dest hop cost r i
Step-IsRib {hash} (remove r hop) i =
    unfold remove_next_hop in
    record {
      distinct = remove_hop-Distinct (hash hop) r.entries i.distinct;
      entries_right = remove_hop-All (hash hop) r.entries i.entries_right;
    }
Step-IsRib {hash} (reset r hop) i =
    unfold dirty_reset_next_hop in
    record {
      distinct = reset-Distinct (hash hop) r.entries i.distinct;
      entries_right = reset-All (hash hop) r.entries i.entries_right;
    }
Step-IsRib (prune_all r) i = IsPruned-IsRib _ (prune-IsPruned r i)

abbrev pub empty_rib : Rib
empty_rib = record { entries = []; neighbors = [] }

-- Whatever calls built the table from the empty one, it has one entry for a destination, and every
-- entry that is not dirty has the two best of its hops; each entry that a pruning leaves is
-- reachable, is not dirty, and has the two best of its hops.
pub Reach-IsRib :
    {hash : Name → ℕ} {r : Rib} → Reach hash empty_rib r → IsRib r × IsPruned (prune r).0
Reach-IsRib {hash} {r} way = let i = right way in (i, prune-IsPruned r i)
  where
    right : {hash : Name → ℕ} {r : Rib} → Reach hash empty_rib r → IsRib r
    right here = record { distinct = tt; entries_right = tt }
    right (next way s) = Step-IsRib s (right way)

-- An advertised destination has a finite lowest cost.
abbrev pub IsFiniteAdv : AdvEntry → Type 0
IsFiniteAdv a = a.cost < cost_infinity

-- Whatever calls built the table from the empty one, after a pruning it advertises only destinations
-- with a finite lowest cost.
pub advert-prune-IsFiniteAdv :
    {hash : Name → ℕ} {r : Rib} → Reach hash empty_rib r → All IsFiniteAdv (advert (prune r).0)
unfolding advert
advert-prune-IsFiniteAdv {hash} {r} way = every (prune r).0.entries (Reach-IsRib way).1.reachable
  where
    every :
        (es : Map RibEntry)
        → All (λ e. IsReachable e.1) es
        → All IsFiniteAdv (map (adv_entry (prune r).0.neighbors) es)
    every [] h = tt
    every (e ∷ es) h = (h.0.finite, every es h.1)
