-- ===== src/Fw/IncomingInterest/Process.antt =====
-- The whole of `processIncomingInterest` of ndnd/fw/fw/thread.go.
use ndn_bier.Prelude.{ℕ, ◌+◌, Option, none, some, ltb, if◌then◌else◌}
use ndn_bier.Prelude.Maps.{lookup}
use ndn_bier.Encoding.Name.{Name}
use ndn_bier.Table.PitEntry.{PitEntry, PitInRecord, insert_in_record, set_expiration_time}
use ndn_bier.Table.DeadNonceList.{insert_nonce}
use ndn_bier.Table.PitCs.{CsEntry}
use ndn_bier.Table.PitCs.Pit.{Inserted, insert_interest, write_entry}
use ndn_bier.Table.PitCs.Cs.{find_matching_data_from_cs}
use ndn_bier.Fw.Packet.{Pkt, Face}
use ndn_bier.Fw.Outgoing.{DataPkt, Egress}
use ndn_bier.Fw.Strategy.Replies.{after_content_store_hit}
use ndn_bier.Fw.IncomingInterest.{Env, StrategyKind, Thread, from_egress, to_egress}
use ndn_bier.Fw.IncomingInterest.Check.{
  Check, accepted, check_incoming, dropped, dropped_counted, name_or_empty,
}
use ndn_bier.Fw.IncomingInterest.Forward.{forward}

-- The entry lives as long as its newest in-record.
abbrev pub extend : PitInRecord → PitEntry → PitEntry
extend r e =
    if ltb e.expiration_time r.expiration_time then set_expiration_time r.expiration_time e else e

abbrev pub map_egress : Env → Thread → Option Egress → Option Thread
map_egress env t none = none
map_egress env t (some st) = some (from_egress env st t)

abbrev pub go_on :
    Env
    → Option StrategyKind
    → Face
    → Pkt
    → Option Name
    → PitInRecord
    → PitEntry
    → Thread
    → Option Thread
go_on env strategy face packet hint r e t =
    map_egress env t (forward env strategy face packet hint (to_egress (extend r e) t))

-- The cached Data goes back, when it parses.
abbrev pub answer_from_cs :
    Env
    → Option StrategyKind
    → Face
    → Pkt
    → Option Name
    → PitInRecord
    → PitEntry
    → Thread
    → Option DataPkt
    → Option Thread
answer_from_cs env strategy face packet hint r e t none = go_on env strategy face packet hint r e t
answer_from_cs env none face packet hint r e t (some data_packet) = none
answer_from_cs env (some kind) face packet hint r e t (some data_packet) = some (
    from_egress env
      (after_content_store_hit env.thread_id env.faces env.now data_packet face.face_id
        (to_egress (set_expiration_time env.now e) t))
      t)

abbrev pub after_cs :
    Env
    → Option StrategyKind
    → Face
    → Pkt
    → Option Name
    → PitInRecord
    → PitEntry
    → Thread
    → Option CsEntry
    → Option Thread
after_cs env strategy face packet hint r e t none =
    go_on env strategy face packet hint r e (record t { n_cs_misses = t.n_cs_misses + 1 })
after_cs env strategy face packet hint r e t (some cs) =
    answer_from_cs env strategy face packet hint r e (record t { n_cs_hits = t.n_cs_hits + 1 })
      (env.parse_data cs.wire)

-- A new Interest looks into the Content Store; for a pending one the nonce before is dead.
unfoldable pub pend :
    Env → Option StrategyKind → Face → Pkt → Option Name → PitEntry → Thread → Option Thread
unfolding insert_in_record find_matching_data_from_cs after_content_store_hit forward insert_nonce
    write_entry
pend env strategy face packet hint e t =
    let recorded = insert_in_record packet.interest face.face_id packet.pit_token env.now e in
    let name = packet.interest.name_v in
    let served = find_matching_data_from_cs env.component_hash packet.interest env.now t.pit_cs in
    let buried =
      (insert_nonce env.name_hash env.dead_nonce_lifetime name recorded.3 env.now
        t.dead_nonce_list).0 in
    if recorded.2
    then go_on env strategy face packet hint recorded.1 recorded.0
        (record t { dead_nonce_list = buried })
    else if env.cs_serve
    then after_cs env strategy face packet hint recorded.1 recorded.0
        (record t { pit_cs = served.1 }) served.0
    else go_on env strategy face packet hint recorded.1 recorded.0 t

abbrev pub after_insert : Env → Face → Pkt → Option Name → Inserted → Thread → Option Thread
after_insert env face packet hint inserted t =
    let strategy =
      lookup (env.name_hash (env.find_strategy packet.interest.name_v)) env.strategies in
    let pending =
      pend env strategy face packet hint inserted.entry (record t { pit_cs = inserted.pit_cs }) in
    if inserted.is_duplicate then some (record t { pit_cs = inserted.pit_cs }) else pending

abbrev pub count_in : Thread → Thread
count_in t = record t { n_in_interests = t.n_in_interests + 1 }

abbrev pub process_checked : Env → Check → Thread → Option Thread
process_checked env dropped t = some t
process_checked env dropped_counted t = some (count_in t)
process_checked env (accepted face packet hint) t =
    after_insert env face packet hint
      (insert_interest env.component_hash packet.interest (name_or_empty hint) face.face_id
        t.pit_cs)
      (count_in t)

unfoldable pub process_incoming_interest : Env → Pkt → Option ℕ → Thread → Option Thread
unfolding check_incoming insert_interest pend
process_incoming_interest env packet given_nonce t =
    process_checked env (check_incoming env t.dead_nonce_list packet given_nonce) t
