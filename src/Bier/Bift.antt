-- ===== src/Bier/Bift.antt =====
-- The Bit Index Forwarding Table of ndnd/fw/fw/bier.go. Every method that changes it holds its lock
-- for its whole body, so each is one step; `BuildFromFibPet` is the steps of one caller that no other
-- one interrupts. The hash of a name is a parameter.
pub mod Groups
pub mod Masks
pub mod Neighbors
pub mod Invariant
pub mod Refresh
pub mod Runs
use ndn_bier.Prelude.{
  ℕ, zero, suc, ◌+◌, ◌/◌, ◌<◌, Bool, true, false, Option, none, some, List, [], ◌∷◌, ◌++◌, map, leb,
  ltb, ◌==◌, if◌then◌else◌, replicate,
}
use ndn_bier.Prelude.Maps.{Map, lookup, insert}
use ndn_bier.Encoding.Name.{Name}
use ndn_bier.Bier.Bits.{Bytes, bier_set_bit}
use ndn_bier.Table.NextHops.{FibNextHopEntry, sort_by_cost}

-- `nil` and a slice are told apart by the option.
pub record BiftEntry : Type 0 where
  pub bfr_id : ℕ
  pub router_name : Name
  pub next_hop : ℕ
  pub fbm : Option Bytes

pub record BiftState : Type 0 where
  pub entries : Map BiftEntry
  pub router_bit : Map ℕ

abbrev pub empty : BiftState
empty = record { entries = []; router_bit = [] }

module _ (hash : Name → ℕ) where
  unfoldable pub register_router : Name → ℕ → BiftState → BiftState
  register_router router_name bfr_id b = record {
    entries =
        insert bfr_id
          (record { bfr_id = bfr_id; router_name = router_name; next_hop = 0; fbm = none })
          b.entries;
    router_bit = insert (hash router_name) bfr_id b.router_bit;
  }

  unfoldable pub get_router_bfr_id : Name → BiftState → Option ℕ
  get_router_bfr_id router_name b = lookup (hash router_name) b.router_bit

  unfoldable pub build_loop : Map ℕ → List Name → Bytes → Bytes
  build_loop router_bit [] bs = bs
  build_loop router_bit (er ∷ rest) bs =
      build_loop router_bit rest
        (elim (lookup (hash er) router_bit) [ some id ↦ bier_set_bit bs id | none ↦ bs ])

  -- `nil` is the empty bit-string: its callers look at the length only.
  unfoldable pub build_bier_bit_string : List Name → BiftState → Bytes
  unfolding build_loop
  build_bier_bit_string egress_routers b = build_loop b.router_bit egress_routers []

unfoldable pub update_next_hop : ℕ → ℕ → BiftState → BiftState
update_next_hop bfr_id next_hop b = elim (lookup bfr_id b.entries) [
  | some entry ↦ record b {
    entries = insert bfr_id (record entry { next_hop = next_hop }) b.entries;
  }
  | none ↦ b
]

unfoldable pub max_bit : ℕ → Map BiftEntry → ℕ
max_bit found [] = found
max_bit found (e ∷ es) = max_bit (if ltb found e.0 then e.0 else found) es

abbrev pub group : ℕ → Map (List ℕ) → List ℕ
group face groups = elim (lookup face groups) [ some ids ↦ ids | none ↦ [] ]

unfoldable pub face_groups : Map BiftEntry → Map (List ℕ) → Map (List ℕ)
face_groups [] groups = groups
face_groups (e ∷ es) groups = face_groups es (
    if ltb 0 e.1.next_hop
    then insert e.1.next_hop (group e.1.next_hop groups ++ e.0 ∷ []) groups
    else groups)

unfoldable pub set_all : List ℕ → Bytes → Bytes
set_all [] fbm = fbm
set_all (id ∷ ids) fbm = set_all ids (bier_set_bit fbm id)

unfoldable pub face_fbms : ℕ → Map (List ℕ) → Map Bytes → Map Bytes
face_fbms bs_len [] fbms = fbms
face_fbms bs_len (g ∷ groups) fbms =
    face_fbms bs_len groups (insert g.0 (set_all g.1 (replicate bs_len 0)) fbms)

unfoldable pub assign_fbm : Map Bytes → ℕ × BiftEntry → ℕ × BiftEntry
assign_fbm fbms e = elim (lookup e.1.next_hop fbms) [
  | some fbm ↦ (e.0, record (e.1) { fbm = some fbm })
  | none ↦ e
]

unfoldable pub rebuild_fbm : BiftState → BiftState
unfolding max_bit
rebuild_fbm b =
    let bs_len = max_bit 0 b.entries / 8 + 1 in
    let fbms = face_fbms bs_len (face_groups b.entries []) [] in
    record b { entries = map (assign_fbm fbms) b.entries }

-- The next hop of one router, from its next hops sorted by cost.
unfoldable pub use_best : BiftEntry → List FibNextHopEntry → BiftState → BiftState
use_best entry [] b = b
use_best entry (nh ∷ others) b = update_next_hop entry.bfr_id nh.nexthop b

-- The loop of `BuildFromFibPet` over its copy of the entries; `find` is the FIB's lookup.
unfoldable pub refresh_next_hops :
    (Name → List FibNextHopEntry) → Map BiftEntry → BiftState → BiftState
refresh_next_hops find [] b = b
refresh_next_hops find (e ∷ es) b =
    refresh_next_hops find es (use_best e.1 (sort_by_cost (find e.1.router_name)) b)

unfoldable pub build_from_fib_pet : (Name → List FibNextHopEntry) → BiftState → BiftState
build_from_fib_pet find b = rebuild_fbm (refresh_next_hops find b.entries b)

pub record BiftNeighborEntry : Type 0 where
  pub face_id : ℕ
  pub fbm : Bytes

-- The loop that groups the entries by face; the first entry of a face gives the mask.
unfoldable pub neighbor_loop : Map BiftEntry → Map Bytes → Map Bytes
neighbor_loop [] faces = faces
neighbor_loop (e ∷ es) faces = neighbor_loop es (
    if e.1.next_hop == 0 then faces else elim e.1.fbm [
      | none ↦ faces
      | some fbm ↦ elim (lookup e.1.next_hop faces) [
        | some known ↦ faces
        | none ↦ insert e.1.next_hop fbm faces
      ]
    ])

abbrev pub to_neighbor : ℕ × Bytes → BiftNeighborEntry
to_neighbor f = record { face_id = f.0; fbm = f.1 }

unfoldable pub get_neighbor_entries : BiftState → List BiftNeighborEntry
get_neighbor_entries b = map to_neighbor (neighbor_loop b.entries [])
