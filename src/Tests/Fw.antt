-- ===== src/Tests/Fw.antt =====
-- An Interest for three routers, replicated by the BIER strategy, and the Data that comes back.
use ndn_bier.Prelude.{
  ℕ, ◌+◌, ◌≡◌, refl, ◌&&◌, ◌⊎◌, not, Bool, true, false, none, some, List, [], ◌∷◌, arith, All,
  Occurs,
}
use ndn_bier.Prelude.Int.{pos}
use ndn_bier.Prelude.Maps.{Map, lookup, insert, delete, Distinct}
use ndn_bier.Encoding.Name.{Name, component_equal, bytes_equal}
use ndn_bier.Table.NextHops.{FibNextHopEntry}
use ndn_bier.Table.PitEntry.{
  PitEntry, PitInRecord, lifetime, refresh_out_record, insert_out_record, remove_in_record,
}
use ndn_bier.Bier.Bits.{
  Bytes, IsBytes, bier_get_bit, bier_clear_bit, bier_and, bier_and_not, bier_is_zero,
}
use ndn_bier.Bier.Bits.Sets.{member}
use ndn_bier.Bier.Bift.{BiftNeighborEntry, get_neighbor_entries}
use ndn_bier.Fw.Packet.{Pkt, Face, non_local, point_to_point, is_non_local, is_ad_hoc}
use ndn_bier.Fw.Outgoing.{
  DataPkt, Egress, is_localhost, is_zero_hop, out_token, may_send, sent_interest, send_interest_on,
  process_outgoing_interest, process_outgoing_data, send_interest, send_data,
}
use ndn_bier.Fw.Outgoing.Sends.{usable}
use ndn_bier.Fw.Outgoing.Records.{OutRecord, reached, run-OutRecord}
use ndn_bier.Fw.Replication.{
  is_bier_enabled, clear_local, clone_pkt, replicate_step, replicate_loop, bier_replicate,
}
use ndn_bier.Fw.Replication.Plan.{send_all}
use ndn_bier.Fw.Replication.Packets.{send_each, carriers}
use ndn_bier.Fw.Replication.Delivery.{to_nat}
use ndn_bier.Fw.Replication.Served.{SameElements, routed, is_local}
use ndn_bier.Fw.Replication.Routed.{IsDelivery, bier_replicate_delivers}
use ndn_bier.Fw.Strategy.BestRoute
use ndn_bier.Fw.Strategy.BestRoute.Cheapest.{
  IsFresh, IsUnusable, IsBestOf, IsUsable, best_route_cheapest, best_route_swapped_tag, sent_on,
}
use ndn_bier.Fw.Strategy.Multicast.{
  is_suppressed, flood, flood_unless_suppressed, replicate_bier, bier_after_receive_interest,
}
use ndn_bier.Fw.Strategy.Replies.{
  send_data_all, after_receive_data, replies, IsAnswered, after_receive_data-IsAnswered,
}
use ndn_bier.Tests.Bier.{bift_program, table, table-IsValid, table-HasMasks}
use ndn_bier.Table.DeadNonceList.{DeadNonceList, queued}
use ndn_bier.Table.DeadNonceList.Agreement.{IsValid}
use ndn_bier.Fw.Finalize.{bury_nonces}
use ndn_bier.Fw.IncomingData.{
  satisfy_one, satisfy_several, satisfy_several-first_only, IsSatisfied, satisfy_one-IsSatisfied,
}

program : Unit {0}
unfolding lookup insert delete component_equal bytes_equal lifetime refresh_out_record
    insert_out_record remove_in_record bier_get_bit bier_clear_bit bier_and bier_and_not
    bier_is_zero is_non_local is_ad_hoc is_localhost is_zero_hop out_token may_send sent_interest
    send_interest_on process_outgoing_interest process_outgoing_data send_interest send_data usable
    is_bier_enabled clear_local clone_pkt replicate_step replicate_loop bier_replicate is_suppressed
    flood flood_unless_suppressed replicate_bier bier_after_receive_interest send_data_all
    after_receive_data replies
program = tt

abbrev pub neighbors : List BiftNeighborEntry
neighbors = get_neighbor_entries table

pub neighbors-same : SameElements neighbors (get_neighbor_entries table)
neighbors-same = record { sound = λ n o. o; complete = λ n o. o }

abbrev pub wan : ℕ → Face
wan id = record { face_id = id; scope = non_local; link_type = point_to_point }

abbrev pub faces : Map Face
faces = (5, wan 5) ∷ (10, wan 10) ∷ (20, wan 20) ∷ []

abbrev pub prefix : Name
prefix = record { typ = 8; val = b'a' ∷ [] } ∷ []

-- For the BFR-IDs 0, 1, 2 and 9.
abbrev pub packet : Pkt
packet = record {
  name = prefix;
  interest = record {
    name_v = prefix;
    can_be_prefix_v = false;
    must_be_fresh_v = false;
    forwarding_hint_v = none;
    nonce_v = 77;
    interest_lifetime_v = none;
    hop_limit_v = some 8;
  };
  raw = [];
  pit_token = [];
  congestion_mark = none;
  incoming_face_id = 5;
  next_hop_face_id = none;
  egress_router = [];
  bier = 7 ∷ 2 ∷ [];
}

packet-IsBytes : IsBytes packet.bier
packet-IsBytes = (omega arith, (omega arith, tt))

abbrev in_record : PitInRecord
in_record = record {
  face = 5;
  latest_timestamp = 100;
  latest_nonce = 77;
  expiration_time = 1000;
  pit_token = 1 ∷ 2 ∷ [];
}

abbrev pub entry : PitEntry
entry = record {
  encname = prefix;
  can_be_prefix = false;
  must_be_fresh = false;
  forwarding_hint_new = [];
  in_records = (5, in_record) ∷ [];
  out_records = [];
  expiration_time = 1000;
  satisfied = false;
  token = 3;
}

abbrev pub start : Egress
start = record {
  pit_entry = entry;
  n_out_interests = 0;
  n_out_data = 0;
  n_satisfied_interests = 0;
  sent = [];
}

abbrev after_bier : Egress
after_bier = bier_after_receive_interest 1 faces 200 (pos 0) neighbors packet 5 [] start

two_copies : after_bier.n_out_interests ≡ 2
unfolding program bift_program
two_copies = refl

-- Sending that counts.
abbrev count_send : Pkt → ℕ → ℕ → ℕ → Bool × ℕ
count_send p face in_face n = (true, n + 1)

bier_replicate_delivers_example :
    (cs : List (ℕ × Pkt)) × ((s : ℕ)
      → bier_replicate count_send packet 5 (pos 0) neighbors s ≡ send_each count_send 5 cs s)
    × ((q : ℕ)
        → carriers q cs
          ≡ to_nat ((not (is_local (pos 0) q) && member packet.bier q) && routed table 5 q))
    × All (IsDelivery table 5 packet) cs
bier_replicate_delivers_example =
    bier_replicate_delivers table table-IsValid table-HasMasks neighbors neighbors-same count_send
      packet 5 (pos 0) packet-IsBytes

abbrev two_masks : List (ℕ × Bytes)
two_masks = (10, 6 ∷ 0 ∷ []) ∷ (20, 0 ∷ 2 ∷ []) ∷ []

run-OutRecord_example :
    OutRecord 200 77 20 start
      (send_all (send_interest 1 faces 200) packet 5 two_masks start)
      (reached faces packet 5 20 two_masks)
run-OutRecord_example = run-OutRecord 1 faces 200 packet 5 two_masks start 20

abbrev data_packet : DataPkt
data_packet = record { name = prefix; raw = 1 ∷ [] }

abbrev after_data : Egress
after_data = after_receive_data 1 faces 300 data_packet 20 after_bier

data_back : after_data.n_out_data ≡ 1
unfolding program bift_program
data_back = refl

start-Distinct : Distinct start.pit_entry.in_records
start-Distinct = (tt, tt)

after_receive_data-IsAnswered_example :
    IsAnswered start
      (record entry { in_records = [] })
      (replies faces data_packet 20 entry.in_records)
      (after_receive_data 1 faces 300 data_packet 20 start)
after_receive_data-IsAnswered_example =
    after_receive_data-IsAnswered 1 faces 300 data_packet 20 start start-Distinct

abbrev dear : FibNextHopEntry
dear = record { nexthop = 10; cost = 7 }

abbrev cheap : FibNextHopEntry
cheap = record { nexthop = 20; cost = 3 }

abbrev dear_er : Name
dear_er = record { typ = 8; val = b'x' ∷ [] } ∷ []

abbrev cheap_er : Name
cheap_er = record { typ = 8; val = b'y' ∷ [] } ∷ []

dear-IsFresh : IsFresh start dear
unfolding program
dear-IsFresh = refl

cheap-IsFresh : IsFresh start cheap
unfolding program
cheap-IsFresh = refl

cheap_usable : usable faces packet 20 5 ≡ true
unfolding program
cheap_usable = refl

best_route_cheapest_example :
    (All (IsUnusable faces [] packet 5) (dear ∷ cheap ∷ [])
      × (BestRoute.after_receive_interest 1 faces 200 packet 5 [] (dear ∷ cheap ∷ []) start
          ≡ start))
    ⊎ ((nh : FibNextHopEntry) × (k : ℕ) × Occurs nh (dear ∷ cheap ∷ [])
        × IsUsable faces [] packet 5 nh
        × All (IsBestOf faces [] packet 5 nh) (dear ∷ cheap ∷ [])
        × (BestRoute.after_receive_interest 1 faces 200 packet 5 [] (dear ∷ cheap ∷ []) start
            ≡ sent_on 1 faces 200 packet 5 [] k nh start))
best_route_cheapest_example =
    best_route_cheapest 1 faces 200 packet 5 [] (dear ∷ cheap ∷ []) start
      (dear-IsFresh, (cheap-IsFresh, tt))

best_route_swapped_tag_example :
    BestRoute.after_receive_interest 1 faces 200 packet 5
      (dear_er ∷ cheap_er ∷ [])
      (dear ∷ cheap ∷ [])
      start
    ≡ (send_interest 1 faces 200 (record packet { egress_router = dear_er }) 20 5 start).1
best_route_swapped_tag_example =
    best_route_swapped_tag 1 faces 200 packet 5 (dear_er ∷ cheap_er ∷ []) dear cheap dear_er
      cheap_er start refl (omega arith) cheap-IsFresh cheap_usable

abbrev hash_none : Name → ℕ
hash_none name = 0

abbrev no_dead : DeadNonceList
no_dead = record { list = []; expiration_queue = [] }

no_dead-IsValid : IsValid no_dead
unfolding lookup queued
no_dead-IsValid = record { once = tt; agree = λ k. refl }

satisfy_one-IsSatisfied_example :
    IsSatisfied hash_none 6000 1 faces 300 data_packet 20 start
      (satisfy_one hash_none 6000 1 faces 300 data_packet 20 start no_dead).0
      (satisfy_one hash_none 6000 1 faces 300 data_packet 20 start no_dead).1
satisfy_one-IsSatisfied_example =
    satisfy_one-IsSatisfied hash_none 6000 1 faces 300 data_packet 20 start no_dead start-Distinct
      no_dead-IsValid

abbrev sent_entry : PitEntry
sent_entry = record entry {
  out_records =
      (20, record { face = 20; latest_timestamp = 1; latest_nonce = 77; expiration_time = 2 }) ∷ [];
}

satisfy_several-first_only_example :
    (satisfy_several hash_none 6000 1 faces 300 data_packet 20
      (entry ∷ sent_entry ∷ [])
      start
      no_dead).2
    ≡ bury_nonces hash_none 6000 data_packet.name 300 entry.out_records no_dead
satisfy_several-first_only_example =
    satisfy_several-first_only hash_none 6000 1 faces 300 data_packet 20 entry (sent_entry ∷ [])
      start no_dead
