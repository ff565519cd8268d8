-- ===== src/Fw/DataPipeline.antt =====
-- The whole of `processIncomingData` of ndnd/fw/fw/thread.go. As for Interests, a strategy that is nil
-- panics when it is called, and the result is none.
use ndn_bier.Prelude.{
  ℕ, ◌+◌, ◌*◌, ◌^◌, ◌/◌, ◌%◌, ◌<◌, ◌≡◌, ap, arith, ◌&&◌, Option, none, some, List, [], ◌∷◌,
  if◌then◌else◌,
}
use ndn_bier.Prelude.Maps.{lookup}
use ndn_bier.Bier.Bits.{Bytes}
use ndn_bier.Table.PitEntry.{PitEntry}
use ndn_bier.Table.PitCs.{PitCsTree}
use ndn_bier.Table.PitCs.Pit.{write_entry, find_interest_prefix_match_by_data}
use ndn_bier.Table.PitCs.Cs.{insert_data}
use ndn_bier.Fw.Packet.{Face, is_non_local}
use ndn_bier.Fw.Outgoing.{DataPkt, is_localhost, out_token}
use ndn_bier.Fw.IncomingData.{satisfy_one, satisfy_several}
use ndn_bier.Fw.IncomingInterest.{Env, Thread, StrategyKind, to_egress, from_egress}

-- A Data packet with what came with it.
pub record InData : Type 0 where
  pub packet : DataPkt
  pub pit_token : Bytes
  pub incoming_face_id : ℕ
  pub freshness_period : Option ℕ

-- The last four of six bytes.
abbrev pub token_of : Bytes → Option ℕ
token_of (a ∷ b ∷ c ∷ d ∷ e ∷ f ∷ []) = some (((c * 256 + d) * 256 + e) * 256 + f)
token_of other = none

unfoldable pub admit : Env → InData → Thread → Thread
unfolding insert_data
admit env arrival t =
    if env.cs_admit
    then record t {
      pit_cs =
          insert_data env.component_hash env.name_hash env.cs_capacity arrival.packet.name
            arrival.freshness_period arrival.packet.raw env.now t.pit_cs;
    }
    else t

unfoldable pub write_all : Env → List PitEntry → PitCsTree → PitCsTree
unfolding write_entry
write_all env [] p = p
write_all env (e ∷ es) p = write_all env es (write_entry env.component_hash e p)

unfoldable pub satisfy : Env → InData → List PitEntry → Thread → Thread
unfolding satisfy_one satisfy_several write_all
satisfy env arrival [] t = t
satisfy env arrival (e ∷ []) t =
    let (st, d) =
      satisfy_one env.name_hash env.dead_nonce_lifetime env.thread_id env.faces env.now
        arrival.packet arrival.incoming_face_id (to_egress e t) t.dead_nonce_list in
    record (from_egress env st t) { dead_nonce_list = d }
satisfy env arrival (e ∷ e' ∷ es) t =
    let (done, st, d) =
      satisfy_several env.name_hash env.dead_nonce_lifetime env.thread_id env.faces env.now
        arrival.packet arrival.incoming_face_id (e ∷ e' ∷ es) (to_egress e t) t.dead_nonce_list in
    record t {
      pit_cs = write_all env done t.pit_cs;
      dead_nonce_list = d;
      n_out_data = st.n_out_data;
      n_satisfied_interests = st.n_satisfied_interests;
      sent = st.sent;
    }

-- Without a strategy the first call of it panics; unsolicited Data calls none.
abbrev pub satisfy_with :
    Env → InData → Option StrategyKind → List PitEntry → Thread → Option Thread
satisfy_with env arrival strategy [] t = some t
satisfy_with env arrival none (e ∷ es) t = none
satisfy_with env arrival (some kind) (e ∷ es) t = some (satisfy env arrival (e ∷ es) t)

unfoldable pub answer : Env → InData → Thread → Option Thread
unfolding admit satisfy lookup
answer env arrival t =
    let admitted = admit env arrival t in
    satisfy_with env arrival
      (lookup (env.name_hash (env.find_strategy arrival.packet.name)) env.strategies)
      (find_interest_prefix_match_by_data env.component_hash arrival.packet.name
        (token_of arrival.pit_token) admitted.pit_cs)
      admitted

abbrev pub count_data : Thread → Thread
count_data t = record t { n_in_data = t.n_in_data + 1 }

abbrev pub answer_on : Env → InData → Option Face → Thread → Option Thread
answer_on env arrival none t = some t
answer_on env arrival (some face) t =
    let answered = answer env arrival (count_data t) in
    if is_non_local face.scope && is_localhost arrival.packet.name
    then some (count_data t)
    else answered

unfoldable pub process_incoming_data : Env → InData → Thread → Option Thread
unfolding answer lookup is_localhost is_non_local
process_incoming_data env arrival t =
    answer_on env arrival (lookup arrival.incoming_face_id env.faces) t

-- The token that an Interest leaves with is the one that is read from the Data that brings it back: the
-- token of the PIT entry, if it fits 32 bits.
pub token_round_trip :
    (thread_id : ℕ) (e : PitEntry)
    → e.token < 2 ^ 32
    → token_of (out_token thread_id e) ≡ some e.token
unfolding out_token
token_round_trip thread_id e h =
    let v = e.token in
    let sum : ((v / 2 ^ 24 % 256 * 256 + v / 2 ^ 16 % 256) * 256 + v / 256 % 256) * 256 + v % 256
        ≡ v =
      omega (arith, h) in
    ap (λ n. some n) sum
