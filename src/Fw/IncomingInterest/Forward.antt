-- ===== src/Fw/IncomingInterest/Forward.antt =====
-- Where an Interest goes that is not answered from the Content Store: ndnd/fw/fw/thread.go.
use ndn_bier.Prelude.{ℕ, ◌&&◌, Option, none, some, List, [], ◌∷◌, length, ltb, ◌==◌, if◌then◌else◌}
use ndn_bier.Prelude.Maps.{lookup}
use ndn_bier.Encoding.Name.{Name}
use ndn_bier.Bier.Bits.{bier_clear_bit, bier_is_zero}
use ndn_bier.Bier.Bift.{build_bier_bit_string}
use ndn_bier.Table.NextHops.{FibNextHopEntry}
use ndn_bier.Table.Pet.{PetNextHop}
use ndn_bier.Fw.Packet.{Pkt, Face}
use ndn_bier.Fw.Outgoing.{Egress, process_outgoing_interest}
use ndn_bier.Fw.Strategy.BestRoute.{after_receive_interest}
use ndn_bier.Fw.Strategy.Multicast.{multicast_after_receive_interest, bier_after_receive_interest}
use ndn_bier.Fw.IncomingInterest.{Env, StrategyKind, best_route, bier, clear_own_bit, multicast}
use ndn_bier.Fw.Replication.{is_bier_enabled}
use ndn_bier.Fw.IncomingInterest.Hops.{local_candidates, net_candidates}

-- A strategy by its kind.
unfoldable pub run_strategy :
    Env → StrategyKind → Pkt → ℕ → List FibNextHopEntry → List Name → Egress → Egress
unfolding after_receive_interest multicast_after_receive_interest bier_after_receive_interest
run_strategy env best_route packet in_face nexthops next_er st =
    after_receive_interest env.thread_id env.faces env.now packet in_face next_er nexthops st
run_strategy env multicast packet in_face nexthops next_er st =
    multicast_after_receive_interest env.thread_id env.faces env.now env.bier_index env.neighbors
      packet in_face nexthops st
run_strategy env bier packet in_face nexthops next_er st =
    bier_after_receive_interest env.thread_id env.faces env.now env.bier_index env.neighbors packet
      in_face nexthops st

abbrev pub run_if_any :
    Env → Option StrategyKind → Pkt → ℕ → List FibNextHopEntry → List Name → Egress → Option Egress
run_if_any env none packet in_face nexthops next_er st = none
run_if_any env (some kind) packet in_face nexthops next_er st =
    some (run_strategy env kind packet in_face nexthops next_er st)

-- The packet as a first router puts it on several ways: with a bit for each egress router.
unfoldable pub encode_bit_string : Env → List Name → Pkt → Pkt
unfolding build_bier_bit_string is_bier_enabled
encode_bit_string env ers packet =
    let bs = build_bier_bit_string env.name_hash ers env.bift in
    if is_bier_enabled env.bier_index
      && ltb 1 (length ers)
      && length packet.bier == 0
      && ltb 0 (length bs)
    then record packet { bier = bs }
    else packet

abbrev pub or_kind : Option StrategyKind → Option StrategyKind → Option StrategyKind
or_kind (some kind) other = some kind
or_kind none other = other

-- The BIER strategy for a packet with a bit-string, when there is one.
unfoldable pub active_strategy : Env → Pkt → Option StrategyKind → Option StrategyKind
unfolding lookup
active_strategy env packet strategy =
    if ltb 0 (length packet.bier)
    then or_kind (lookup (env.name_hash env.bier_strategy_name) env.strategies) strategy
    else strategy

-- The network next hops.
unfoldable pub forward_net :
    Env → Option StrategyKind → Pkt → ℕ → List FibNextHopEntry → List Name → Egress → Option Egress
unfolding encode_bit_string active_strategy run_strategy
forward_net env strategy packet in_face [] ers st = some st
forward_net env strategy packet in_face (nh ∷ nhs) ers st =
    let encoded = encode_bit_string env ers packet in
    run_if_any env (active_strategy env encoded strategy) encoded in_face (nh ∷ nhs) ers st

-- The first local next hop gets the packet. A bit-string without the bit of this router goes on, when
-- any other bit is left.
unfoldable pub forward_local :
    Env
    → Option StrategyKind
    → Pkt
    → ℕ
    → List PetNextHop
    → List FibNextHopEntry
    → List Name
    → Egress
    → Option Egress
unfolding forward_net process_outgoing_interest bier_clear_bit bier_is_zero is_bier_enabled
forward_local env strategy packet in_face [] nhs ers st =
    forward_net env strategy packet in_face nhs ers st
forward_local env strategy packet in_face (first ∷ others) nhs ers st =
    let untagged : Pkt = record packet { egress_router = [] } in
    let (done, delivered) =
      process_outgoing_interest env.thread_id env.faces env.now untagged first.face_id in_face st in
    let bs = clear_own_bit env.bier_index packet.bier in
    let onward =
      forward_net env strategy (record untagged { bier = bs }) in_face nhs ers delivered in
    if ltb 0 (length packet.bier) && is_bier_enabled env.bier_index
    then if bier_is_zero bs then some delivered else onward
    else some delivered

-- To the face that the packet names, or by the tables.
unfoldable pub forward_lookup :
    Env → Option StrategyKind → Face → Pkt → Option Name → Egress → Option Egress
unfolding net_candidates local_candidates forward_local
forward_lookup env strategy face packet hint st =
    let (net, net_er) = net_candidates env face packet hint st.pit_entry in
    forward_local env strategy packet face.face_id (local_candidates env packet hint st.pit_entry)
      net net_er st

unfoldable pub forward :
    Env → Option StrategyKind → Face → Pkt → Option Name → Egress → Option Egress
unfolding forward_lookup process_outgoing_interest
forward env strategy face packet hint st = elim packet.next_hop_face_id [
  | none ↦ forward_lookup env strategy face packet hint st
  | some hop ↦
      some (process_outgoing_interest env.thread_id env.faces env.now packet hop face.face_id st).1
]
