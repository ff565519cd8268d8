-- ===== src/Fw/Lookup.antt =====
-- `twoPhaseLookup` of ndnd/fw/fw/thread.go.
-- The longest-prefix lookups of the PET and of the FIB are parameters here: what they find for a name.
use ndn_bier.Prelude.{
  Occurs-self, inl, inr, Bool, false, Option, none, some, List, [], ◌∷◌, ◌++◌, map, ltb,
  if◌then◌else◌, length, All, Occurs, Bool-cases,
}
use ndn_bier.Encoding.Name.{Name, equal}
use ndn_bier.Table.NextHops.{FibNextHopEntry}
use ndn_bier.Table.Pet.{PetNextHop, PetEntry}

-- The local next hops, the network next hops, and the egress router of each network next hop.
pub record Lookup : Type 0 where
  pub next_local : List PetNextHop
  pub next_net : List FibNextHopEntry
  pub next_er : List Name

module _ (find_pet : Name → Option PetEntry) (find_next_hops : Name → List FibNextHopEntry) where
  -- The next hops to one egress router, and its name once for each.
  abbrev pub router_tags : Name → List FibNextHopEntry → List Name
  router_tags er nexthops = map (λ nh. er) nexthops

  unfoldable pub network_hops : List Name → List FibNextHopEntry × List Name
  network_hops [] = ([], [])
  network_hops (er ∷ ers) =
      let (net, tags) = network_hops ers in
      (find_next_hops er ++ net, router_tags er (find_next_hops er) ++ tags)

  abbrev pub local_only : Option PetEntry → Lookup
  local_only none = record { next_local = []; next_net = []; next_er = [] }
  local_only (some e) = record { next_local = e.next_hops; next_net = []; next_er = [] }

  abbrev pub local_and_net : Option PetEntry → Lookup
  local_and_net none = record { next_local = []; next_net = []; next_er = [] }
  local_and_net (some e) =
      let (net, tags) = network_hops e.egress_routers in
      record { next_local = e.next_hops; next_net = net; next_er = tags }

  -- The router's own name is none while it is not set.
  abbrev pub is_own : Name → Option Name → Bool
  is_own er none = false
  is_own er (some router_name) = equal er router_name

  unfoldable pub two_phase_lookup : Name → Name → Option Name → Lookup
  two_phase_lookup lookup_name egress_router router_name =
      if ltb 0 (length egress_router)
      then if is_own egress_router router_name then local_only (find_pet lookup_name) else record {
        next_local = [];
        next_net = find_next_hops egress_router;
        next_er = router_tags egress_router (find_next_hops egress_router);
      }
      else local_and_net (find_pet lookup_name)

  -- Each network next hop stands with an egress router for which the FIB has it.
  abbrev pub IsTagged : List FibNextHopEntry → List Name → Type 0
  IsTagged [] [] = Unit
  IsTagged [] (er ∷ ers) = ⊥
  IsTagged (nh ∷ nhs) [] = ⊥
  IsTagged (nh ∷ nhs) (er ∷ ers) = Occurs nh (find_next_hops er) × IsTagged nhs ers

  tags-IsTagged :
      (er : Name) (nhs net : List FibNextHopEntry) (tags : List Name)
      → All (λ nh. Occurs nh (find_next_hops er)) nhs
      → IsTagged net tags
      → IsTagged (nhs ++ net) (router_tags er nhs ++ tags)
  tags-IsTagged er [] net tags h t = t
  tags-IsTagged er (nh ∷ nhs) net tags h t = (h.0, tags-IsTagged er nhs net tags h.1 t)

  network_hops-IsTagged : (ers : List Name) → IsTagged (network_hops ers).0 (network_hops ers).1
  unfolding network_hops
  network_hops-IsTagged [] = tt
  network_hops-IsTagged (er ∷ ers) =
      tags-IsTagged er (find_next_hops er) _ _ (Occurs-self (find_next_hops er))
        (network_hops-IsTagged ers)

  one-IsTagged :
      (er : Name) (nhs : List FibNextHopEntry)
      → All (λ nh. Occurs nh (find_next_hops er)) nhs
      → IsTagged nhs (router_tags er nhs)
  one-IsTagged er [] h = tt
  one-IsTagged er (nh ∷ nhs) h = (h.0, one-IsTagged er nhs h.1)

  local_and_net-IsTagged :
      (o : Option PetEntry) → IsTagged (local_and_net o).next_net (local_and_net o).next_er
  local_and_net-IsTagged none = tt
  local_and_net-IsTagged (some e) = network_hops-IsTagged e.egress_routers

  local_only-IsTagged :
      (o : Option PetEntry) → IsTagged (local_only o).next_net (local_only o).next_er
  local_only-IsTagged none = tt
  local_only-IsTagged (some e) = tt

  -- Whatever the two phases find, the network next hops and the egress routers are as many, and each
  -- next hop is one that the FIB has for the egress router at its place.
  pub two_phase_lookup-IsTagged :
      (lookup_name egress_router : Name) (router_name : Option Name)
      → IsTagged
          (two_phase_lookup lookup_name egress_router router_name).next_net
          (two_phase_lookup lookup_name egress_router router_name).next_er
  unfolding two_phase_lookup
  two_phase_lookup-IsTagged lookup_name er router_name = elim (Bool-cases (ltb 0 (length er))) [
    | inl tagged ↦ rw tagged (elim (Bool-cases (is_own er router_name)) [
      | inl own ↦ rw own (local_only-IsTagged (find_pet lookup_name))
      | inr other ↦ rw other (one-IsTagged er (find_next_hops er) (Occurs-self (find_next_hops er)))
    ])
    | inr plain ↦ rw plain (local_and_net-IsTagged (find_pet lookup_name))
  ]
