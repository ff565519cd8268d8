-- ===== src/Fw/Outgoing.antt =====
-- The outgoing pipelines of a forwarding thread, ndnd/fw/fw/thread.go, and the helpers of
-- ndnd/fw/fw/strategy.go over them. A counter does not wrap.
pub mod Sends
pub mod Records
pub mod Copies
pub mod Packets
use ndn_bier.Prelude.{
  ℕ, ◌+◌, Bool, true, false, Option, none, some, List, [], ◌∷◌, ◌++◌, ◌&&◌, not, ◌==◌,
  if◌then◌else◌,
}
use ndn_bier.Prelude.Maps.{Map, lookup}
use ndn_bier.Encoding.BigEndian.{put_uint16, put_uint32}
use ndn_bier.Encoding.Name.{Name, Component, component_equal}
use ndn_bier.Bier.Bits.{Bytes}
use ndn_bier.Fw.Packet.{Pkt, Face, is_non_local, is_ad_hoc}
use ndn_bier.Table.PitEntry.{PitEntry, insert_out_record, remove_in_record}

-- A packet whose `L3.Data` is set.
pub record DataPkt : Type 0 where
  pub name : Name
  pub raw : Bytes

pub data Payload : Type 0 where
  interest_payload : Pkt → Payload
  data_payload : DataPkt → Payload

-- A packet that was handed to a face.
pub record OutPkt : Type 0 where
  pub face_id : ℕ
  pub pkt : Payload
  pub pit_token : Bytes
  pub in_face : ℕ

-- What the outgoing pipelines read and change: the PIT entry at hand, the counters, and the
-- packets that were sent, in order.
pub record Egress : Type 0 where
  pub pit_entry : PitEntry
  pub n_out_interests : ℕ
  pub n_out_data : ℕ
  pub n_satisfied_interests : ℕ
  pub sent : List OutPkt

-- "localhost"
abbrev pub localhost : Component
localhost = record {
  typ = 8;
  val = b'l' ∷ b'o' ∷ b'c' ∷ b'a' ∷ b'l' ∷ b'h' ∷ b'o' ∷ b's' ∷ b't' ∷ [];
}

-- `len(name) > 0 && name[0].Equal(enc.LOCALHOST)`
unfoldable pub is_localhost : Name → Bool
is_localhost [] = false
is_localhost (c ∷ rest) = component_equal c localhost

unfoldable pub is_zero_hop : Option ℕ → Bool
is_zero_hop none = false
is_zero_hop (some h) = h == 0

-- The 6 bytes of the token of an outgoing Interest.
unfoldable pub out_token : ℕ → PitEntry → Bytes
out_token thread_id e = put_uint16 thread_id ++ put_uint32 e.token

-- The checks before an Interest leaves on a face.
unfoldable pub may_send : Pkt → Face → ℕ → Bool
may_send packet face in_face =
    if face.face_id == in_face && not (is_ad_hoc face.link_type)
    then false
    else if is_zero_hop packet.interest.hop_limit_v && is_non_local face.scope
    then false
    else true

module _ (thread_id : ℕ) (faces : Map Face) (now : ℕ) where
  -- The out-record, the counter and the packet of an Interest that leaves.
  unfoldable pub sent_interest : Pkt → ℕ → ℕ → Face → Egress → Egress
  sent_interest packet nexthop in_face face st =
      let e = insert_out_record packet.interest nexthop now st.pit_entry in
      record st {
        pit_entry = e;
        n_out_interests = st.n_out_interests + 1;
        sent =
            st.sent
            ++ record {
              face_id = face.face_id;
              pkt = interest_payload packet;
              pit_token = out_token thread_id e;
              in_face = in_face;
            }
              ∷ [];
      }

  unfoldable pub send_interest_on : Pkt → ℕ → ℕ → Egress → Option Face → Bool × Egress
  send_interest_on packet nexthop in_face st none = (false, st)
  send_interest_on packet nexthop in_face st (some face) =
      if may_send packet face in_face
      then (true, sent_interest packet nexthop in_face face st)
      else (false, st)

  unfoldable pub process_outgoing_interest : Pkt → ℕ → ℕ → Egress → Bool × Egress
  process_outgoing_interest packet nexthop in_face st =
      send_interest_on packet nexthop in_face st (lookup nexthop faces)

  unfoldable pub process_outgoing_data : DataPkt → ℕ → Bytes → ℕ → Egress → Egress
  process_outgoing_data packet nexthop pit_token in_face st = elim (lookup nexthop faces) [
    | none ↦ st
    | some face ↦ if is_non_local face.scope && is_localhost packet.name then st else record st {
      n_out_data = st.n_out_data + 1;
      n_satisfied_interests = st.n_satisfied_interests + 1;
      sent =
          st.sent
          ++ record {
            face_id = face.face_id;
            pkt = data_payload packet;
            pit_token = pit_token;
            in_face = in_face;
          }
            ∷ [];
    }
  ]

  unfoldable pub send_interest : Pkt → ℕ → ℕ → Egress → Bool × Egress
  send_interest packet nexthop in_face st = process_outgoing_interest packet nexthop in_face st

  -- The token of the in-record, which is removed; no token if there is none.
  unfoldable pub send_data : DataPkt → ℕ → ℕ → Egress → Egress
  send_data packet nexthop in_face st = elim (lookup nexthop st.pit_entry.in_records) [
    | some in_record ↦
        process_outgoing_data packet nexthop in_record.pit_token in_face
          (record st { pit_entry = remove_in_record nexthop st.pit_entry })
    | none ↦ process_outgoing_data packet nexthop [] in_face st
  ]
