-- ===== src/Dv/Rib.antt =====
-- The Routing Information Base, ndnd/dv/table/rib.go. The hash of a name is a parameter; costs and
-- hashes are compared only.
pub mod Selection
pub mod Order
pub mod Invariant
pub mod Runs
use ndn_bier.Prelude.{
  ℕ, Bool, true, false, not, ◌&&◌, ◌||◌, Option, none, some, List, [], ◌∷◌, ltb, ◌==◌,
  if◌then◌else◌, map,
}
use ndn_bier.Prelude.Maps.{Map, lookup, insert, delete}
use ndn_bier.Encoding.Name.{Name}

abbrev pub cost_infinity : ℕ
cost_infinity = 16

-- The two lowest costs and their hops, as `refresh` collects them.
pub record Lowest : Type 0 where
  pub next_hop1 : ℕ
  pub lowest1 : ℕ
  pub next_hop2 : ℕ
  pub lowest2 : ℕ

pub record RibEntry : Type 0 where
  pub name : Name
  pub costs : Map ℕ
  pub best : Lowest
  pub dirty : Bool

pub record Rib : Type 0 where
  pub entries : Map RibEntry
  pub neighbors : Map Name

-- A new entry has the zero value of its fields.
abbrev pub zero_lowest : Lowest
zero_lowest = record { next_hop1 = 0; lowest1 = 0; next_hop2 = 0; lowest2 = 0 }

abbrev pub no_lowest : Lowest
no_lowest = record {
  next_hop1 = 0;
  lowest1 = cost_infinity;
  next_hop2 = 0;
  lowest2 = cost_infinity;
}

unfoldable pub lower : ℕ → ℕ → ℕ → ℕ → Bool
lower hop cost next_hop lowest = ltb cost lowest || (cost == lowest && ltb hop next_hop)

-- One round of the loop, at the hop and its cost.
unfoldable pub lowest_step : Lowest → ℕ × ℕ → Lowest
lowest_step b e =
    if lower e.0 e.1 b.next_hop1 b.lowest1
    then record { next_hop1 = e.0; lowest1 = e.1; next_hop2 = b.next_hop1; lowest2 = b.lowest1 }
    else if lower e.0 e.1 b.next_hop2 b.lowest2
    then record b { next_hop2 = e.0; lowest2 = e.1 }
    else b

unfoldable pub lowest_loop : Lowest → Map ℕ → Lowest
lowest_loop b [] = b
lowest_loop b (e ∷ es) = lowest_loop (lowest_step b e) es

unfoldable pub same_lowest : Lowest → Lowest → Bool
same_lowest a b =
    (a.lowest1 == b.lowest1 && a.lowest2 == b.lowest2)
    && (a.next_hop1 == b.next_hop1 && a.next_hop2 == b.next_hop2)

-- `refresh`: the entry, and whether its lowest costs changed.
unfoldable pub refresh : RibEntry → RibEntry × Bool
refresh e =
    let best = lowest_loop no_lowest e.costs in
    (record e { dirty = false; best = best }, not (same_lowest e.best best))

abbrev pub is_known : ℕ → Option ℕ → Bool
is_known cost none = false
is_known cost (some known) = known == cost

-- `Set` of an entry.
unfoldable pub entry_set : ℕ → ℕ → RibEntry → RibEntry × Bool
entry_set next_hop cost e =
    if is_known cost (lookup next_hop e.costs)
    then (e, false)
    else refresh (record e { costs = insert next_hop cost e.costs })

abbrev pub entry_or_new : Name → Option RibEntry → RibEntry
entry_or_new name (some e) = e
entry_or_new name none = record { name = name; costs = []; best = zero_lowest; dirty = false }

abbrev pub with_neighbor : ℕ → Name → Map Name → Option Name → Map Name
with_neighbor h name m (some known) = m
with_neighbor h name m none = insert h name m

-- One entry of `RemoveNextHop`, at the cost that it has for the hop.
abbrev pub drop_hop : ℕ → RibEntry → Option ℕ → RibEntry × Bool
drop_hop hop e none = (e, false)
drop_hop hop e (some cost) = refresh (record e { costs = delete hop e.costs })

-- The loop of `RemoveNextHop`.
unfoldable pub remove_hop : ℕ → Map RibEntry → Map RibEntry × Bool
remove_hop hop [] = ([], false)
remove_hop hop (e ∷ es) =
    let (e', changed) = drop_hop hop e.1 (lookup hop e.1.costs) in
    let (rest, dirty) = remove_hop hop es in ((e.0, e') ∷ rest, changed || dirty)

-- One entry of `DirtyResetNextHop`.
abbrev pub reset_entry : ℕ → ℕ × RibEntry → ℕ × RibEntry
reset_entry hop e = (e.0, record (e.1) { costs = insert hop cost_infinity e.1.costs; dirty = true })

module _ (hash : Name → ℕ) where
  -- `Set` of the table.
  unfoldable pub rib_set : Name → Name → ℕ → Rib → Rib × Bool
  rib_set dest_name next_hop cost r =
      let dest_hash = hash dest_name in
      let hop = hash next_hop in
      let (e, dirty) = entry_set hop cost (entry_or_new dest_name (lookup dest_hash r.entries)) in
      (
        record {
          entries = insert dest_hash e r.entries;
          neighbors = with_neighbor hop next_hop r.neighbors (lookup hop r.neighbors);
        },
        dirty,
      )

  unfoldable pub has : Name → Rib → Bool
  has dest_name r = elim (lookup (hash dest_name) r.entries) [
    | none ↦ false
    | some e ↦ ltb e.best.lowest1 cost_infinity
  ]

  unfoldable pub remove_next_hop : Name → Rib → Rib × Bool
  remove_next_hop next_hop r =
      let (es, dirty) = remove_hop (hash next_hop) r.entries in (record r { entries = es }, dirty)

  unfoldable pub dirty_reset_next_hop : Name → Rib → Rib
  dirty_reset_next_hop next_hop r = record r {
    entries = map (reset_entry (hash next_hop)) r.entries;
  }

abbrev pub refresh_when : Bool → RibEntry → RibEntry × Bool
refresh_when true e = refresh e
refresh_when false e = (e, false)

unfoldable pub refresh_if_dirty : RibEntry → RibEntry × Bool
refresh_if_dirty e = refresh_when e.dirty e

-- The loop of `Prune`; the key of an entry is the hash of its name. An entry is refreshed if it is dirty, and removed if it has no valid hop.
unfoldable pub prune_loop : Map RibEntry → Map RibEntry × Bool
prune_loop [] = ([], false)
prune_loop (e ∷ es) =
    let (e', changed) = refresh_if_dirty e.1 in
    let (rest, dirty) = prune_loop es in
    if e'.best.lowest1 == cost_infinity then (rest, true) else ((e.0, e') ∷ rest, changed || dirty)

unfoldable pub prune : Rib → Rib × Bool
prune r = let (es, dirty) = prune_loop r.entries in (record r { entries = es }, dirty)

-- An entry of an advertisement, `AdvEntry` of ndnd/dv/tlv.
pub record AdvEntry : Type 0 where
  pub destination : Name
  pub next_hop : Name
  pub cost : ℕ
  pub other_cost : ℕ

abbrev pub name_or_nil : Option Name → Name
name_or_nil none = []
name_or_nil (some name) = name

abbrev pub adv_entry : Map Name → ℕ × RibEntry → AdvEntry
adv_entry neighbors e = record {
  destination = e.1.name;
  next_hop = name_or_nil (lookup e.1.best.next_hop1 neighbors);
  cost = e.1.best.lowest1;
  other_cost = e.1.best.lowest2;
}

unfoldable pub advert : Rib → List AdvEntry
advert r = map (adv_entry r.neighbors) r.entries
