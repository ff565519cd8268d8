-- ===== src/Fw/Replication/Packets.antt =====
-- The packets that replication sends, field by field, and the bit-strings that they carry.
use ndn_bier.Prelude.{ℕ, ◌+◌, ◌≡◌, refl, ap, Bool, none, List, [], ◌∷◌, map}
use ndn_bier.Bier.Bits.{Bytes}
use ndn_bier.Bier.Bits.Sets.{member}
use ndn_bier.Fw.Packet.{Pkt}
use ndn_bier.Fw.Replication.{clone_pkt}
use ndn_bier.Fw.Replication.Plan.{send_all}
use ndn_bier.Fw.Replication.Delivery.{to_nat, copies}

-- A copy of a packet, but for its bit-string: it has no token, no chosen next hop and no egress router.
pub record IsClone (packet copy : Pkt) : Type 0 where
  pub same_name : copy.name ≡ packet.name
  pub same_interest : copy.interest ≡ packet.interest
  pub same_raw : copy.raw ≡ packet.raw
  pub same_mark : copy.congestion_mark ≡ packet.congestion_mark
  pub same_incoming : copy.incoming_face_id ≡ packet.incoming_face_id
  pub no_token : copy.pit_token ≡ []
  pub no_next_hop : copy.next_hop_face_id ≡ none
  pub no_egress : copy.egress_router ≡ []

-- The packets are sent one after another, each to its face.
unfoldable pub send_each {ℓ} :
    {S : Type ℓ} (send : Pkt → ℕ → ℕ → S → Bool × S) (in_face : ℕ) → List (ℕ × Pkt) → S → S
send_each send in_face [] s = s
send_each send in_face (p ∷ ps) s = send_each send in_face ps (send p.1 p.0 in_face s).1

-- How many of the packets have the bit in their bit-strings.
unfoldable pub carriers : ℕ → List (ℕ × Pkt) → ℕ
carriers q [] = 0
carriers q (p ∷ ps) = to_nat (member p.1.bier q) + carriers q ps

abbrev pub packets_of : Pkt → List (ℕ × Bytes) → List (ℕ × Pkt)
packets_of packet cs = map (λ c. (c.0, clone_pkt packet c.1)) cs

pub send_all-packets_of {ℓ} :
    {S : Type ℓ} (send : Pkt → ℕ → ℕ → S → Bool × S) (packet : Pkt) (in_face : ℕ)
    (cs : List (ℕ × Bytes)) (s : S)
    → send_all send packet in_face cs s ≡ send_each send in_face (packets_of packet cs) s
unfolding send_all send_each
send_all-packets_of send packet in_face [] s = refl
send_all-packets_of send packet in_face (c ∷ cs) s =
    send_all-packets_of send packet in_face cs (send (clone_pkt packet c.1) c.0 in_face s).1

pub carriers-packets_of :
    (packet : Pkt) (q : ℕ) (cs : List (ℕ × Bytes)) → carriers q (packets_of packet cs) ≡ copies q cs
unfolding carriers copies clone_pkt
carriers-packets_of packet q [] = refl
carriers-packets_of packet q (c ∷ cs) =
    ap (λ k. to_nat (member c.1 q) + k) (carriers-packets_of packet q cs)

pub clone_pkt-IsClone : (packet : Pkt) (mask : Bytes) → IsClone packet (clone_pkt packet mask)
unfolding clone_pkt
clone_pkt-IsClone packet mask = record {
  same_name = refl;
  same_interest = refl;
  same_raw = refl;
  same_mark = refl;
  same_incoming = refl;
  no_token = refl;
  no_next_hop = refl;
  no_egress = refl;
}
