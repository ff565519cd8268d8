-- ===== src/Fw/Strategy/Bier.antt =====
-- The BIER strategy as a whole: where an Interest with a bit-string goes, and what the PIT
-- remembers of it.
use ndn_bier.Prelude.{ℕ, ◌≡◌, ◌↔◌, ◌∙◌, true, ◌<◌, not, ◌&&◌, List, length, All, lt→ltb}
use ndn_bier.Prelude.Int.{ℤ}
use ndn_bier.Prelude.Maps.{Map}
use ndn_bier.Table.NextHops.{FibNextHopEntry}
use ndn_bier.Bier.Bits.{IsBytes}
use ndn_bier.Bier.Bits.Sets.{member}
use ndn_bier.Bier.Bift.{BiftState, BiftNeighborEntry, get_neighbor_entries}
use ndn_bier.Bier.Bift.Masks.{HasMasks}
use ndn_bier.Bier.Bift.Invariant.{IsValid}
use ndn_bier.Fw.Packet.{Pkt, Face}
use ndn_bier.Fw.Outgoing.{Egress, out_token, may_send, send_interest}
use ndn_bier.Fw.Outgoing.Records.{OutRecord, run-OutRecord}
use ndn_bier.Fw.Outgoing.Copies.{IsSent, run-IsSent}
use ndn_bier.Fw.Outgoing.Packets.{
  MayLeave, may_send_iff, out_packets, some_left, out_copies-out_packets, reached-some_left,
}
use ndn_bier.Fw.Replication.Delivery.{to_nat}
use ndn_bier.Fw.Replication.Packets.{carriers, packets_of, carriers-packets_of}
use ndn_bier.Fw.Replication.Served.{SameElements, routed, is_local}
use ndn_bier.Fw.Replication.Routed.{IsDelivery, packets_of-IsDelivery, bier_replicate_planned}
use ndn_bier.Fw.Strategy.Multicast.{replicate_bier, bier_after_receive_interest}

-- What is left of an Interest with a bit-string: the packets that were made, and where they are.
pub record IsReplicated (b : BiftState) (thread_id : ℕ) (faces : Map Face) (now : ℕ) (index : ℤ)
    (packet : Pkt) (in_face : ℕ) (st st' : Egress) : Type 0 where
  pub made : List (ℕ × Pkt)
  pub once :
      (q : ℕ)
      → carriers q made
        ≡ to_nat ((not (is_local index q) && member packet.bier q) && routed b in_face q)
  pub delivered : All (IsDelivery b in_face packet) made
  pub leaves : (p : Pkt) (face : Face) → (may_send p face in_face ≡ true) ↔ MayLeave p in_face face
  pub left :
      IsSent thread_id st (out_packets faces in_face (out_token thread_id st.pit_entry) made) st'
  pub recorded :
      (face : ℕ)
      → OutRecord now packet.interest.nonce_v face st st' (some_left faces in_face face made)

module _ (b : BiftState) (valid : IsValid b) (masks : HasMasks b) (ns : List BiftNeighborEntry)
    (same : SameElements ns (get_neighbor_entries b)) (thread_id : ℕ) (faces : Map Face) (now : ℕ)
    (index : ℤ) (packet : Pkt) (in_face : ℕ) where
  pub bier_interest_replicates :
      (nexthops : List FibNextHopEntry) (st : Egress)
      → 0 < length packet.bier
      → IsBytes packet.bier
      → IsReplicated b thread_id faces now index packet in_face st
          (bier_after_receive_interest thread_id faces now index ns packet in_face nexthops st)
  unfolding bier_after_receive_interest replicate_bier
  bier_interest_replicates nexthops st long bytes =
      let (cs, run, once, right) =
        bier_replicate_planned b valid masks ns same (send_interest thread_id faces now) packet
          in_face index bytes in
      let sent = run-IsSent thread_id faces now packet in_face cs st in
      let out = out_copies-out_packets faces packet in_face (out_token thread_id st.pit_entry) cs in
      rw (lt→ltb 0 (length packet.bier) long, run st)
        (record {
          made = packets_of packet cs;
          once = λ q. carriers-packets_of packet q cs ∙ once q;
          delivered = packets_of-IsDelivery b in_face packet cs right;
          leaves = λ p face. may_send_iff p in_face face;
          left = rw out at sent;
          recorded = λ face.
              rw (reached-some_left faces packet in_face face cs) at
                (run-OutRecord thread_id faces now packet in_face cs st face);
        })
