-- ===== src/Dv/Rib/Invariant.antt =====
-- What every operation of the RIB keeps, and what pruning brings about.
use ndn_bier.Prelude.{
  ℕ, ◌≡◌, ◌<◌, ◌≢◌, ◌⊎◌, inl, inr, refl, Bool, true, false, [], ◌∷◌, Option, none, some, map, ◌==◌,
  arith, All, All-map_imp, Occurs, Bool-cases, Option-cases,
}
use ndn_bier.Prelude.Maps.{Map, lookup, Distinct, insert-Distinct, delete-Distinct, All-insert}
use ndn_bier.Encoding.Name.{Name}
use ndn_bier.Dv.Rib.{
  RibEntry, Rib, cost_infinity, refresh, is_known, entry_set, entry_or_new, rib_set, remove_hop,
  reset_entry, drop_hop, refresh_when, refresh_if_dirty, prune_loop, prune,
}
use ndn_bier.Dv.Rib.Selection.{IsLowest, lowest_loop-IsLowest}

-- The entry has each hop once, and its two best hops unless it is dirty.
pub record IsEntry (e : RibEntry) : Type 0 where
  pub distinct : Distinct e.costs
  pub best_or_dirty : (e.dirty ≡ true) ⊎ IsLowest e.costs e.best

pub record IsRib (r : Rib) : Type 0 where
  pub distinct : Distinct r.entries
  pub entries_right : All (λ e. IsEntry e.1) r.entries

-- The entry is reachable, and has its two best hops.
pub record IsReachable (e : RibEntry) : Type 0 where
  pub clean : e.dirty ≡ false
  pub best : IsLowest e.costs e.best
  pub finite : e.best.lowest1 < cost_infinity

refresh-IsEntry : (e : RibEntry) → Distinct e.costs → IsEntry (refresh e).0
unfolding refresh
refresh-IsEntry e d = record { distinct = d; best_or_dirty = inr (lowest_loop-IsLowest e.costs d) }

entry_set-IsEntry :
    (hop cost : ℕ) (e : RibEntry)
    → Distinct e.costs
    → (is_known cost (lookup hop e.costs) ≡ true → IsEntry e)
    → IsEntry (entry_set hop cost e).0
unfolding entry_set
entry_set-IsEntry hop cost e d old = elim (Bool-cases (is_known cost (lookup hop e.costs))) [
  | inl known ↦ rw known (old known)
  | inr new ↦ rw new (refresh-IsEntry _ (insert-Distinct hop cost e.costs d))
]

lookup-All {κ} :
    (P : RibEntry → Type κ) (k : ℕ) (m : Map RibEntry) (e : RibEntry)
    → All (λ x. P x.1) m
    → lookup k m ≡ some e
    → P e
unfolding lookup
lookup-All P k [] e h l = cc
lookup-All P k (x ∷ m) e h l = ground (arith, lookup-All P k m e h.1)

entry_set-entry_or_new-IsEntry :
    (name : Name) (hop cost k : ℕ) (m : Map RibEntry)
    → All (λ e. IsEntry e.1) m
    → IsEntry (entry_set hop cost (entry_or_new name (lookup k m))).0
entry_set-entry_or_new-IsEntry name hop cost k m h = elim (Option-cases (lookup k m)) [
  | inl absent ↦ rw absent (entry_set-IsEntry hop cost _ tt (λ known. unfold lookup in cc))
  | inr (e, there) ↦
      let i = lookup-All IsEntry k m e h there in
      rw there (entry_set-IsEntry hop cost e i.distinct (λ known. i))
]

pub rib_set-IsRib :
    (hash : Name → ℕ) (dest hop : Name) (cost : ℕ) (r : Rib)
    → IsRib r
    → IsRib (rib_set hash dest hop cost r).0
unfolding rib_set
rib_set-IsRib hash dest hop cost r i = record {
  distinct = insert-Distinct (hash dest) _ r.entries i.distinct;
  entries_right =
      All-insert _ (hash dest) _ r.entries
        (entry_set-entry_or_new-IsEntry dest (hash hop) cost (hash dest) r.entries i.entries_right)
        i.entries_right;
}

drop_hop-IsEntry :
    (hop : ℕ) (e : RibEntry) (o : Option ℕ) → IsEntry e → IsEntry (drop_hop hop e o).0
drop_hop-IsEntry hop e none i = i
drop_hop-IsEntry hop e (some cost) i = refresh-IsEntry _ (delete-Distinct hop e.costs i.distinct)

module _ (hop : ℕ) where
  pub remove_hop-All :
      (es : Map RibEntry) → All (λ e. IsEntry e.1) es → All (λ e. IsEntry e.1) (remove_hop hop es).0
  unfolding remove_hop
  remove_hop-All [] h = tt
  remove_hop-All (e ∷ es) h =
      (drop_hop-IsEntry hop e.1 (lookup hop e.1.costs) h.0, remove_hop-All es h.1)

  remove_hop-absent :
      (k : ℕ) (es : Map RibEntry) → All (λ f. f.0 ≢ k) es → All (λ f. f.0 ≢ k) (remove_hop hop es).0
  unfolding remove_hop
  remove_hop-absent k [] h = tt
  remove_hop-absent k (e ∷ es) h = (h.0, remove_hop-absent k es h.1)

  pub remove_hop-Distinct : (es : Map RibEntry) → Distinct es → Distinct (remove_hop hop es).0
  unfolding remove_hop
  remove_hop-Distinct [] d = tt
  remove_hop-Distinct (e ∷ es) d = (remove_hop-absent e.0 es d.0, remove_hop-Distinct es d.1)

  pub reset-All :
      (es : Map RibEntry)
      → All (λ e. IsEntry e.1) es
      → All (λ e. IsEntry e.1) (map (reset_entry hop) es)
  reset-All [] h = tt
  reset-All (e ∷ es) h = (
    record {
      distinct = insert-Distinct hop cost_infinity e.1.costs h.0.distinct;
      best_or_dirty = inl refl;
    },
    reset-All es h.1,
  )

  reset-absent :
      (k : ℕ) (es : Map RibEntry)
      → All (λ f. f.0 ≢ k) es
      → All (λ f. f.0 ≢ k) (map (reset_entry hop) es)
  reset-absent k [] h = tt
  reset-absent k (e ∷ es) h = (h.0, reset-absent k es h.1)

  pub reset-Distinct : (es : Map RibEntry) → Distinct es → Distinct (map (reset_entry hop) es)
  reset-Distinct [] d = tt
  reset-Distinct (e ∷ es) d = (reset-absent e.0 es d.0, reset-Distinct es d.1)

refresh-best : (e : RibEntry) → Distinct e.costs → IsLowest (refresh e).0.costs (refresh e).0.best
unfolding refresh
refresh-best e d = lowest_loop-IsLowest e.costs d

refresh-clean : (e : RibEntry) → (refresh e).0.dirty ≡ false
unfolding refresh
refresh-clean e = refl

clean_best : (e : RibEntry) → IsEntry e → e.dirty ≡ false → IsLowest e.costs e.best
clean_best e i clean = from i.best_or_dirty
  where
    from : (e.dirty ≡ true) ⊎ IsLowest e.costs e.best → IsLowest e.costs e.best
    from (inl dirty) = cc
    from (inr best) = best

-- An entry that is clean, and has its two best hops.
record IsClean (e : RibEntry) : Type 0 where
  clean : e.dirty ≡ false
  once : Distinct e.costs
  best : IsLowest e.costs e.best

refresh_when-IsClean :
    (b : Bool) (e : RibEntry) → IsEntry e → e.dirty ≡ b → IsClean (refresh_when b e).0
refresh_when-IsClean true e i h = record {
  clean = refresh-clean e;
  once = (refresh-IsEntry e i.distinct).distinct;
  best = refresh-best e i.distinct;
}
refresh_when-IsClean false e i h = record { clean = h; once = i.distinct; best = clean_best e i h }

refresh_if_dirty-IsClean : (e : RibEntry) → IsEntry e → IsClean (refresh_if_dirty e).0
unfolding refresh_if_dirty
refresh_if_dirty-IsClean e i = refresh_when-IsClean e.dirty e i refl

finite_place :
    (e : RibEntry)
    → IsLowest e.costs e.best
    → (e.best.lowest1 == cost_infinity) ≡ false
    → e.best.lowest1 < cost_infinity
finite_place e l h = from l.first
  where
    from :
        ((e.best.next_hop1 ≡ 0) × (e.best.lowest1 ≡ cost_infinity))
          ⊎ ((e.best.lowest1 < cost_infinity) × Occurs (e.best.next_hop1, e.best.lowest1) e.costs)
        → e.best.lowest1 < cost_infinity
    from (inl (z, infinite)) = ground arith
    from (inr (finite, o)) = finite

module _ {κ} (P : ℕ × RibEntry → Type κ) where
  prune_loop-All :
      (es : Map RibEntry)
      → All
          (λ e.
            (refresh_if_dirty e.1).0.best.lowest1 == cost_infinity ≡ false
            → P (e.0, (refresh_if_dirty e.1).0))
          es
      → All P (prune_loop es).0
  unfolding prune_loop
  prune_loop-All [] h = tt
  prune_loop-All (e ∷ es) h =
      elim (Bool-cases ((refresh_if_dirty e.1).0.best.lowest1 == cost_infinity)) [
        | inl gone ↦ rw gone (prune_loop-All es h.1)
        | inr stays ↦ rw stays (h.0 stays, prune_loop-All es h.1)
      ]

prune_loop-Distinct : (es : Map RibEntry) → Distinct es → Distinct (prune_loop es).0
unfolding prune_loop
prune_loop-Distinct [] d = tt
prune_loop-Distinct (e ∷ es) d =
    elim (Bool-cases ((refresh_if_dirty e.1).0.best.lowest1 == cost_infinity)) [
      | inl gone ↦ rw gone (prune_loop-Distinct es d.1)
      | inr stays ↦ rw stays (
        prune_loop-All (λ f. f.0 ≢ e.0) es (All-map_imp _ _ (λ f n stays. n) es d.0),
        prune_loop-Distinct es d.1,
      )
    ]

-- Each entry once, reachable, and with its two best hops.
pub record IsPruned (r : Rib) : Type 0 where
  pub distinct : Distinct r.entries
  pub costs_once : All (λ e. Distinct e.1.costs) r.entries
  pub reachable : All (λ e. IsReachable e.1) r.entries

pub prune-IsPruned : (r : Rib) → IsRib r → IsPruned (prune r).0
unfolding prune
prune-IsPruned r i = record {
  distinct = prune_loop-Distinct r.entries i.distinct;
  costs_once = prune_loop-All _ r.entries (
      All-map_imp _ _ (λ e h stays. (refresh_if_dirty-IsClean e.1 h).once) r.entries
        i.entries_right);
  reachable = prune_loop-All _ r.entries (
      All-map_imp _ _
        (λ e h stays.
          let c = refresh_if_dirty-IsClean e.1 h in
          record {
            clean = c.clean;
            best = c.best;
            finite = finite_place (refresh_if_dirty e.1).0 c.best stays;
          })
        r.entries i.entries_right);
}

pub IsPruned-IsRib : (r : Rib) → IsPruned r → IsRib r
IsPruned-IsRib r p = record {
  distinct = p.distinct;
  entries_right = both r.entries p.costs_once p.reachable;
}
  where
    both :
        (es : Map RibEntry)
        → All (λ e. Distinct e.1.costs) es
        → All (λ e. IsReachable e.1) es
        → All (λ e. IsEntry e.1) es
    both [] d h = tt
    both (e ∷ es) d h = (record { distinct = d.0; best_or_dirty = inr h.0.best }, both es d.1 h.1)
