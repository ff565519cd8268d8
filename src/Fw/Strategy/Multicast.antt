-- ===== src/Fw/Strategy/Multicast.antt =====
-- `AfterReceiveInterest` of ndnd/fw/fw/multicast.go and of ndnd/fw/fw/bier_strategy.go: BIER
-- replication for a packet with a bit-string, and else a copy on every next hop.
use ndn_bier.Prelude.{
  ℕ, ◌+◌, ◌*◌, Bool, true, false, not, ◌&&◌, List, [], ◌∷◌, ◌==◌, ltb, if◌then◌else◌, length,
}
use ndn_bier.Prelude.Int.{ℤ}
use ndn_bier.Prelude.Maps.{Map}
use ndn_bier.Table.NextHops.{FibNextHopEntry}
use ndn_bier.Table.PitEntry.{PitOutRecord, millisecond}
use ndn_bier.Bier.Bift.{BiftNeighborEntry}
use ndn_bier.Fw.Packet.{Pkt, Face}
use ndn_bier.Fw.Outgoing.{Egress, send_interest}
use ndn_bier.Fw.Replication.{bier_replicate}

abbrev pub multicast_suppression_time : ℕ
multicast_suppression_time = 500 * millisecond

-- Some out-record is recent and has another nonce.
unfoldable pub is_suppressed : ℕ → ℕ → Map PitOutRecord → Bool
is_suppressed now nonce [] = false
is_suppressed now nonce (r ∷ rs) =
    if not (r.1.latest_nonce == nonce)
      && ltb now (r.1.latest_timestamp + multicast_suppression_time)
    then true
    else is_suppressed now nonce rs

-- `neighbors` is what the global table's `GetNeighborEntries()` returns, in any order.
module _ (thread_id : ℕ) (faces : Map Face) (now : ℕ) (bier_index : ℤ)
    (neighbors : List BiftNeighborEntry) where
  unfoldable pub flood : Pkt → ℕ → List FibNextHopEntry → Egress → Egress
  flood packet in_face [] st = st
  flood packet in_face (nh ∷ rest) st =
      flood packet in_face rest (send_interest thread_id faces now packet nh.nexthop in_face st).1

  -- Without a bit-string.
  unfoldable pub flood_unless_suppressed : Pkt → ℕ → List FibNextHopEntry → Egress → Egress
  flood_unless_suppressed packet in_face nexthops st =
      if length nexthops == 0
      then st
      else if is_suppressed now packet.interest.nonce_v st.pit_entry.out_records
      then st
      else flood packet in_face nexthops st

  unfoldable pub multicast_after_receive_interest : Pkt → ℕ → List FibNextHopEntry → Egress → Egress
  multicast_after_receive_interest packet in_face nexthops st =
      if ltb 0 (length packet.bier)
      then bier_replicate (send_interest thread_id faces now) packet in_face bier_index neighbors st
      else flood_unless_suppressed packet in_face nexthops st

  unfoldable pub replicate_bier : Pkt → ℕ → Egress → Egress
  replicate_bier packet in_face st =
      bier_replicate (send_interest thread_id faces now) packet in_face bier_index neighbors st

  unfoldable pub bier_after_receive_interest : Pkt → ℕ → List FibNextHopEntry → Egress → Egress
  bier_after_receive_interest packet in_face nexthops st =
      if ltb 0 (length packet.bier)
      then replicate_bier packet in_face st
      else flood_unless_suppressed packet in_face nexthops st
