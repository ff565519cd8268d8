-- ===== src/Tests/Incoming.antt =====
-- An Interest that comes in at the first BIER router, and the Data that it meets.
use ndn_bier.Prelude.{
  ℕ, ◌≡◌, ◌<◌, ◌↔◌, refl, true, false, Option, none, some, List, [], ◌∷◌, length, get_or, ◌==◌,
  arith, map,
}
use ndn_bier.Prelude.Int.{pos}
use ndn_bier.Prelude.Lists.{Occurs}
use ndn_bier.Prelude.Maps.{lookup, insert}
use ndn_bier.Encoding.Name.{Name, component_equal, bytes_equal}
use ndn_bier.Table.NextHops.{FibNextHopEntry}
use ndn_bier.Table.Pet.{PetEntry}
use ndn_bier.Table.DeadNonceList.{DeadNonceList, new_dead_nonce_list, find}
use ndn_bier.Table.NetworkRegion.{is_producer}
use ndn_bier.Table.PitCs.Pit.{remove_interest, find_interest_prefix_match_by_name}
use ndn_bier.Table.PitCs.{PitCsTree}
use ndn_bier.Table.PitEntry.{PitEntry}
use ndn_bier.Table.PitCs.Found.{IsMatch}
use ndn_bier.Table.PitCs.Matches.{held}
use ndn_bier.Table.PitCs.Runs.{
  PitCsOp, op_insert_interest, op_write_entry, op_insert_data, run_pit_cs, run_pit_cs-matches,
}
use ndn_bier.Bier.Bits.Sets.{member}
use ndn_bier.Bier.Bift.{build_bier_bit_string, build_loop}
use ndn_bier.Fw.Packet.{Pkt, is_non_local}
use ndn_bier.Fw.Outgoing.{Egress, out_token, is_localhost}
use ndn_bier.Fw.Replication.{is_bier_enabled}
use ndn_bier.Fw.Strategy.Bier.{IsReplicated}
use ndn_bier.Fw.Dispatch.{
  hash_name_to_all_prefix_fw_threads, prefix_rounds, some_prefix_goes, all_prefix_threads-prefixes,
}
use ndn_bier.Fw.DataPipeline.{token_of, token_round_trip}
use ndn_bier.Fw.IncomingInterest.{Env, bier, is_localhop}
use ndn_bier.Fw.IncomingInterest.Check.{
  accepted, check_incoming, check_scope, check_nonce, hint_loop, with_nonce, with_hop_limit,
}
use ndn_bier.Fw.IncomingInterest.Hops.{found_hops, net_candidates}
use ndn_bier.Fw.IncomingInterest.Forward.{forward_net}
use ndn_bier.Fw.IncomingInterest.Filters.{AreCandidates, net_candidates-AreCandidates}
use ndn_bier.Fw.IncomingInterest.BitString.{
  bits_for, with_bits, some_router_has, forward_net-delivers,
}
use ndn_bier.Fw.IncomingInterest.Guards.{IsAdmitted, check_incoming-IsAdmitted}
use ndn_bier.Tests.Bier.{bift_program, table, table-IsValid, table-HasMasks, router, first_byte}
use ndn_bier.Tests.Fw.{faces, wan, packet, neighbors, neighbors-same, start, entry, prefix}

incoming_program : Unit {0}
unfolding lookup insert component_equal bytes_equal find is_producer build_bier_bit_string
    build_loop is_non_local is_localhost is_localhop check_incoming check_scope check_nonce
    hint_loop out_token
incoming_program = tt

-- Every prefix is a group with the egress routers 2 and 4, behind the faces 10 and 20.
abbrev group : Name → Option PetEntry
group name = some (record {
  prefix = name;
  egress_routers = router 2 ∷ router 4 ∷ [];
  next_hops = [];
  multicast = true;
})

abbrev hops_of : Name → List FibNextHopEntry
hops_of name = elim (first_byte name == 2) [
  | true ↦ record { nexthop = 10; cost = 1 } ∷ []
  | false ↦ record { nexthop = 20; cost = 1 } ∷ []
]

abbrev bier_name : Name
bier_name = record { typ = 8; val = b'b' ∷ [] } ∷ []

abbrev env : Env
env = record {
  thread_id = 1;
  faces = faces;
  now = 200;
  regions = [];
  dead_nonce_lifetime = 6000;
  cs_serve = true;
  cs_admit = true;
  cs_capacity = 2;
  bier_index = pos 0;
  bift = table;
  neighbors = neighbors;
  router_name = some (router 1);
  find_pet = group;
  find_next_hops = hops_of;
  find_strategy = λ name. bier_name;
  strategies = (first_byte bier_name, bier) ∷ [];
  bier_strategy_name = bier_name;
  component_hash = λ c. length c.val;
  name_hash = first_byte;
  parse_data = λ wire. none;
}

abbrev plain_packet : Pkt
plain_packet = record packet { bier = [] }

net_candidates-AreCandidates_example :
    AreCandidates env
      (wan 5)
      plain_packet
      entry
      (found_hops env plain_packet none).next_net
      (net_candidates env (wan 5) plain_packet none entry)
net_candidates-AreCandidates_example =
    net_candidates-AreCandidates env (wan 5) plain_packet none entry

abbrev no_dead_nonces : DeadNonceList
no_dead_nonces = new_dead_nonce_list

abbrev packet_on : Pkt
packet_on = with_nonce 77 (with_hop_limit (some 7) plain_packet)

packet_accepted :
    check_incoming env no_dead_nonces plain_packet (some 77) ≡ accepted (wan 5) packet_on none
unfolding incoming_program bift_program
packet_accepted = refl

check_incoming-IsAdmitted_example :
    IsAdmitted env no_dead_nonces plain_packet (some 77) (wan 5) packet_on none
check_incoming-IsAdmitted_example =
    check_incoming-IsAdmitted env no_dead_nonces plain_packet (some 77) (wan 5) packet_on none
      packet_accepted

abbrev ers : List Name
ers = router 2 ∷ router 4 ∷ []

there : lookup (env.name_hash env.bier_strategy_name) env.strategies ≡ some bier
unfolding incoming_program
there = refl

some_bits : 0 < length (bits_for env ers)
unfolding incoming_program bift_program
some_bits = omega arith

enabled : is_bier_enabled env.bier_index ≡ true
unfolding is_bier_enabled
enabled = refl

abbrev hop : ℕ → FibNextHopEntry
hop face_id = record { nexthop = face_id; cost = 1 }

forward_net-delivers_example :
    ((q : ℕ) → member (bits_for env ers) q ≡ some_router_has first_byte table.router_bit ers q)
    × ((st' : Egress) × (forward_net env (some bier) plain_packet 5 (hop 10 ∷ hop 20 ∷ []) ers start
          ≡ some st')
        × IsReplicated table 1 faces 200 (pos 0) (with_bits env ers plain_packet) 5 start st')
forward_net-delivers_example =
    forward_net-delivers env table-IsValid table-HasMasks neighbors-same there (some bier)
      plain_packet 5 (hop 10) (hop 20 ∷ []) ers start enabled (omega arith) refl some_bits

abbrev pending : PitEntry
pending = record entry { token = 1; can_be_prefix = true }

abbrev other : PitEntry
other = record entry { token = 2 }

-- Two Interests are pending under /a.
abbrev pit_ops : List PitCsOp
pit_ops =
    op_write_entry pending
    ∷ op_insert_interest (record packet.interest { can_be_prefix_v = true }) [] 5
    ∷ op_insert_data prefix (some 10) [] 100
    ∷ op_insert_interest packet.interest [] 5
    ∷ []

abbrev below_prefix : Name
below_prefix = record { typ = 8; val = b'a' ∷ [] } ∷ record { typ = 8; val = b'x' ∷ b'y' ∷ [] } ∷ []

abbrev pit_after : PitCsTree
pit_after = run_pit_cs env.component_hash first_byte 2 pit_ops

run_pit_cs-matches_example :
    (Occurs pending (find_interest_prefix_match_by_name env.component_hash below_prefix pit_after)
      ↔ IsMatch
          (held env.component_hash pit_after.root)
          (map env.component_hash below_prefix)
          pending)
    × (Occurs pending (
          find_interest_prefix_match_by_name env.component_hash below_prefix
            (remove_interest env.component_hash other pit_after).0)
        ↔ IsMatch
            (held env.component_hash pit_after.root)
            (map env.component_hash below_prefix)
            pending)
run_pit_cs-matches_example =
    run_pit_cs-matches env.component_hash first_byte 2 pit_ops below_prefix pending other
      (λ e. omega (arith, e))

token_round_trip_example : token_of (out_token 1 entry) ≡ some 3
token_round_trip_example = token_round_trip 1 entry (omega arith)

all_prefix_threads-prefixes_example :
    get_or (hash_name_to_all_prefix_fw_threads first_byte 3 below_prefix) 1 false
    ≡ some_prefix_goes first_byte 3 below_prefix 2 1
all_prefix_threads-prefixes_example =
    all_prefix_threads-prefixes first_byte 3 (omega arith) below_prefix 1

-- Every prefix of the name but the empty one begins with the byte 97, and goes to thread 1 of 3.
dispatch_test :
    hash_name_to_all_prefix_fw_threads first_byte 3 below_prefix ≡ false ∷ true ∷ false ∷ []
unfolding hash_name_to_all_prefix_fw_threads prefix_rounds incoming_program
dispatch_test = refl
