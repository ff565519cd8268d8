-- ===== src/Fw/Replication.antt =====
-- The replication loop of ndnd/fw/fw/bier_strategy.go, for any state that sending changes.
pub mod Plan
pub mod Delivery
pub mod Packets
pub mod Served
pub mod Routed
use ndn_bier.Prelude.{ℕ, Bool, true, false, List, [], ◌∷◌, ◌⊎◌, inl, inr, ◌==◌, if◌then◌else◌, none}
use ndn_bier.Prelude.Int.{ℤ, pos, negsuc}
use ndn_bier.Bier.Bits.{Bytes, bier_get_bit, bier_clear_bit, bier_and, bier_and_not, bier_is_zero}
use ndn_bier.Bier.Bift.{BiftNeighborEntry}
use ndn_bier.Fw.Packet.{Pkt}

-- `IsBierEnabled`, at the configured index.
unfoldable pub is_bier_enabled : ℤ → Bool
is_bier_enabled (pos id) = true
is_bier_enabled (negsuc n) = false

-- The local bit is cleared if it is set.
unfoldable pub clear_local : ℤ → Bytes → Bytes
clear_local (pos id) bs = if bier_get_bit bs id then bier_clear_bit bs id else bs
clear_local (negsuc n) bs = bs

-- The clone for one neighbor; the fields that the code does not copy are zero.
unfoldable pub clone_pkt : Pkt → Bytes → Pkt
clone_pkt packet mask = record {
  name = packet.name;
  interest = packet.interest;
  raw = packet.raw;
  pit_token = [];
  congestion_mark = packet.congestion_mark;
  incoming_face_id = packet.incoming_face_id;
  next_hop_face_id = none;
  egress_router = [];
  bier = mask;
}

-- `send packet nexthop in_face` is the call of `sendInterest`; its result is not used.
module _ {ℓ} {S : Type ℓ} (send : Pkt → ℕ → ℕ → S → Bool × S) (packet : Pkt) (in_face : ℕ) where
  -- One round of the loop: the working mask and state for the next one, or `break`.
  unfoldable pub replicate_step : BiftNeighborEntry → Bytes → S → (Bytes × S) ⊎ S
  replicate_step neighbor bs s =
      if neighbor.face_id == in_face
      then inl (bs, s)
      else let mask = bier_and bs neighbor.fbm in
        if bier_is_zero mask
        then inl (bs, s)
        else let s' = (send (clone_pkt packet mask) neighbor.face_id in_face s).1 in
          let bs' = bier_and_not bs neighbor.fbm in
          if bier_is_zero bs' then inr s' else inl (bs', s')

  unfoldable pub replicate_loop : List BiftNeighborEntry → Bytes → S → S
  replicate_loop [] bs s = s
  replicate_loop (neighbor ∷ rest) bs s = elim (replicate_step neighbor bs s) [
    | inl (bs', s') ↦ replicate_loop rest bs' s'
    | inr s' ↦ s'
  ]

  -- `neighbors` is what `Bift.GetNeighborEntries()` returns, in any order.
  unfoldable pub bier_replicate : ℤ → List BiftNeighborEntry → S → S
  bier_replicate bier_index neighbors s =
      let incoming_bs = clear_local bier_index packet.bier in
      if bier_is_zero incoming_bs then s else replicate_loop neighbors incoming_bs s
