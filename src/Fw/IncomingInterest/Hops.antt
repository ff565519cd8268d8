-- ===== src/Fw/IncomingInterest/Hops.antt =====
-- The next hops that the tables have for an Interest, and those of them that it may take: ndnd/fw/fw/thread.go.
use ndn_bier.Prelude.{
  ℕ, Bool, true, false, ◌&&◌, not, Option, none, some, List, [], ◌∷◌, ◌==◌, if◌then◌else◌,
}
use ndn_bier.Prelude.Maps.{lookup}
use ndn_bier.Encoding.Name.{Name}
use ndn_bier.Table.NextHops.{FibNextHopEntry}
use ndn_bier.Table.Pet.{PetNextHop}
use ndn_bier.Table.PitEntry.{PitEntry, PitInRecord}
use ndn_bier.Fw.Packet.{Pkt, Face, Scope, is_local}
use ndn_bier.Fw.Lookup.{Lookup, two_phase_lookup}
use ndn_bier.Fw.IncomingInterest.{Env, is_localhop}

-- The face has no in-record.
abbrev pub is_absent : Option PitInRecord → Bool
is_absent none = true
is_absent (some r) = false

unfoldable pub allowed_local : ℕ → PitEntry → List PetNextHop → List PetNextHop
unfolding lookup
allowed_local incoming e [] = []
allowed_local incoming e (nh ∷ nhs) =
    let rest = allowed_local incoming e nhs in
    if nh.face_id == incoming
    then rest
    else if is_absent (lookup nh.face_id e.in_records)
    then nh ∷ rest
    else rest

abbrev pub is_local_scope : Scope → Bool
is_local_scope is_local = true
is_local_scope other = false

abbrev pub leaves_host : Option Face → Bool
leaves_host none = false
leaves_host (some face) = not (is_local_scope face.scope)

-- A network next hop with its egress router passes.
unfoldable pub is_allowed_net : Env → Bool → ℕ → PitEntry → FibNextHopEntry → Bool
unfolding lookup
is_allowed_net env local_faces_only incoming e nh =
    if nh.nexthop == incoming
    then false
    else if local_faces_only && leaves_host (lookup nh.nexthop env.faces)
    then false
    else is_absent (lookup nh.nexthop e.in_records)

-- There are as many egress routers as next hops.
unfoldable pub allowed_net :
    Env → Bool → ℕ → PitEntry → List FibNextHopEntry → List Name → List FibNextHopEntry × List Name
unfolding is_allowed_net
allowed_net env only incoming e [] ers = ([], [])
allowed_net env only incoming e (nh ∷ nhs) [] = ([], [])
allowed_net env only incoming e (nh ∷ nhs) (er ∷ ers) =
    let (rest, rest_er) = allowed_net env only incoming e nhs ers in
    if is_allowed_net env only incoming e nh then (nh ∷ rest, er ∷ rest_er) else (rest, rest_er)

abbrev pub lookup_name : Pkt → Option Name → Name
lookup_name packet none = packet.interest.name_v
lookup_name packet (some fh_name) = fh_name

-- What the tables have for a packet, and the network next hops of it that may be taken.
unfoldable pub found_hops : Env → Pkt → Option Name → Lookup
unfolding two_phase_lookup
found_hops env packet hint =
    two_phase_lookup env.find_pet env.find_next_hops (lookup_name packet hint) packet.egress_router
      env.router_name

abbrev pub local_faces_only : Face → Pkt → Bool
local_faces_only face packet = not (is_local_scope face.scope) && is_localhop packet.name

unfoldable pub net_candidates :
    Env → Face → Pkt → Option Name → PitEntry → List FibNextHopEntry × List Name
unfolding found_hops allowed_net is_localhop
net_candidates env face packet hint e =
    let found = found_hops env packet hint in
    allowed_net env (local_faces_only face packet) packet.incoming_face_id e found.next_net
      found.next_er

unfoldable pub local_candidates : Env → Pkt → Option Name → PitEntry → List PetNextHop
unfolding found_hops allowed_local
local_candidates env packet hint e =
    allowed_local packet.incoming_face_id e (found_hops env packet hint).next_local
