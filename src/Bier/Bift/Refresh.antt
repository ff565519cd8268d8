-- ===== src/Bier/Bift/Refresh.antt =====
-- `BuildFromFibPet`: which next hop each router gets.
use ndn_bier.Prelude.{
  ℕ, ◌≡◌, refl, ◌∙◌, inl, inr, true, false, List, [], ◌∷◌, Option, none, some, ◌==◌, ==_iff,
  if◌then◌else◌, Bool-cases, Option-cases, All,
}
use ndn_bier.Prelude.Maps.{Map, lookup, Distinct, lookup-insert, lookup-absent}
use ndn_bier.Encoding.Name.{Name}
use ndn_bier.Table.NextHops.{FibNextHopEntry, sort_by_cost}
use ndn_bier.Bier.Bift.{
  BiftEntry, BiftState, update_next_hop, use_best, refresh_next_hops, build_from_fib_pet,
}
use ndn_bier.Bier.Bift.Masks.{HasMasks, rebuild_fbm-HasMasks}
use ndn_bier.Bier.Bift.Invariant.{
  IsValid, IsKeyed, hop, hop_or_zero, update_next_hop-IsValid, rebuild_fbm-IsValid, hop-rebuild_fbm,
}

-- The cheapest next hop, or the old one if there is none.
abbrev pub chosen : List FibNextHopEntry → ℕ → ℕ
chosen [] old = old
chosen (nh ∷ others) old = nh.nexthop

abbrev with_hop : ℕ → Option BiftEntry → Option BiftEntry
with_hop face none = none
with_hop face (some e) = some (record e { next_hop = face })

lookup-update_next_hop :
    (id face q : ℕ) (b : BiftState)
    → lookup q (update_next_hop id face b).entries
      ≡ (if id == q then with_hop face (lookup q b.entries) else lookup q b.entries)
unfolding update_next_hop lookup
lookup-update_next_hop id face q b = elim (Option-cases (lookup id b.entries)) [
  | inl absent ↦
      rw (absent, update_next_hop)
        (elim (Bool-cases (id == q)) [
          | inl same ↦ rw (same, ← (==_iff id q).0 same, absent)
          | inr other ↦ rw other
        ])
  | inr (e, there) ↦
      rw (there, update_next_hop, lookup-insert)
        (elim (Bool-cases (id == q)) [
          | inl same ↦ rw (same, ← (==_iff id q).0 same, there)
          | inr other ↦ rw other
        ])
]

lookup-use_best_other :
    (e : BiftEntry) (hops : List FibNextHopEntry) (b : BiftState) (q : ℕ)
    → (e.bfr_id == q) ≡ false
    → lookup q (use_best e hops b).entries ≡ lookup q b.entries
unfolding use_best
lookup-use_best_other e [] b q h = refl
lookup-use_best_other e (nh ∷ others) b q h = rw (lookup-update_next_hop e.bfr_id nh.nexthop q b, h)

use_best-IsValid :
    (e : BiftEntry) (hops : List FibNextHopEntry) (b : BiftState)
    → IsValid b
    → IsValid (use_best e hops b)
unfolding use_best
use_best-IsValid e [] b v = v
use_best-IsValid e (nh ∷ others) b v = update_next_hop-IsValid e.bfr_id nh.nexthop b v

-- The next hop that an entry with these sorted next hops gets, from its state before.
abbrev refreshed : List FibNextHopEntry → Option BiftEntry → ℕ
refreshed hops none = 0
refreshed hops (some now) = chosen hops now.next_hop

hop-use_best_self :
    (e : BiftEntry) (hops : List FibNextHopEntry) (b : BiftState) (q : ℕ)
    → (e.bfr_id == q) ≡ true
    → hop (use_best e hops b).entries q ≡ refreshed hops (lookup q b.entries)
unfolding use_best
hop-use_best_self e [] b q h = keep (lookup q b.entries)
  where
    keep : (o : Option BiftEntry) → hop_or_zero o ≡ refreshed [] o
    keep none = refl
    keep (some now) = refl
hop-use_best_self e (nh ∷ others) b q h =
    rw (lookup-update_next_hop e.bfr_id nh.nexthop q b, h) (change (lookup q b.entries))
  where
    change :
        (o : Option BiftEntry) → hop_or_zero (with_hop nh.nexthop o) ≡ refreshed (nh ∷ others) o
    change none = refl
    change (some now) = refl

module _ (find : Name → List FibNextHopEntry) where
  abbrev refreshed_from : Option BiftEntry → Option BiftEntry → ℕ
  refreshed_from none now = hop_or_zero now
  refreshed_from (some e) now = refreshed (sort_by_cost (find e.router_name)) now

  hop-refresh :
      (es : Map BiftEntry) (b : BiftState) (q : ℕ)
      → Distinct es
      → All IsKeyed es
      → hop (refresh_next_hops find es b).entries q
        ≡ refreshed_from (lookup q es) (lookup q b.entries)
  unfolding refresh_next_hops lookup
  hop-refresh [] b q d k = refl
  hop-refresh (e ∷ es) b q d k =
      let best = sort_by_cost (find e.1.router_name) in
      elim (Bool-cases (e.0 == q)) [
        | inl same ↦
            hop-refresh es (use_best e.1 best b) q d.1 k.1
            ∙ (rw (same, lookup-absent q es (rw ((==_iff e.0 q).0 same) at d.0))
                (hop-use_best_self e.1 best b q (rw k.0 same)))
        | inr other ↦
            hop-refresh es (use_best e.1 best b) q d.1 k.1
            ∙ (rw (other, lookup-use_best_other e.1 best b q (rw k.0 other)))
      ]

  refresh_next_hops-IsValid :
      (es : Map BiftEntry) (b : BiftState) → IsValid b → IsValid (refresh_next_hops find es b)
  unfolding refresh_next_hops
  refresh_next_hops-IsValid [] b v = v
  refresh_next_hops-IsValid (e ∷ es) b v =
      refresh_next_hops-IsValid es _
        (use_best-IsValid e.1 (sort_by_cost (find e.1.router_name)) b v)

  pub build_from_fib_pet-IsValid : (b : BiftState) → IsValid b → IsValid (build_from_fib_pet find b)
  unfolding build_from_fib_pet
  build_from_fib_pet-IsValid b v = rebuild_fbm-IsValid _ (refresh_next_hops-IsValid b.entries b v)

  -- In a valid table the next hop of a registered BFR-ID becomes the one that the FIB has first by
  -- cost for the router's name, and stays as it was if the FIB has none; the table stays valid, and
  -- every entry with a next hop has the mask of its face.
  pub build_from_fib_pet-hop :
      (b : BiftState) (q : ℕ) (e : BiftEntry)
      → IsValid b
      → lookup q b.entries ≡ some e
      → IsValid (build_from_fib_pet find b)
        × HasMasks (build_from_fib_pet find b)
        × (hop (build_from_fib_pet find b).entries q
            ≡ chosen (sort_by_cost (find e.router_name)) e.next_hop)
  unfolding build_from_fib_pet
  build_from_fib_pet-hop b q e v there =
      let b' = refresh_next_hops find b.entries b in
      (
        rebuild_fbm-IsValid b' (refresh_next_hops-IsValid b.entries b v),
        rebuild_fbm-HasMasks b',
        hop-rebuild_fbm q b' ∙ hop-refresh b.entries b q v.distinct v.keyed ∙ (rw there),
      )
