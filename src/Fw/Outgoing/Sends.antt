-- ===== src/Fw/Outgoing/Sends.antt =====
-- When an outgoing Interest leaves, and what it leaves behind in the PIT entry.
use ndn_bier.Prelude.{ℕ, ◌≡◌, refl, Bool, true, false, Option, none, some}
use ndn_bier.Prelude.Maps.{Map, lookup}
use ndn_bier.Bier.Bits.{Bytes}
use ndn_bier.Fw.Packet.{Pkt, Face}
use ndn_bier.Fw.Outgoing.{
  Egress, may_send, sent_interest, send_interest_on, process_outgoing_interest, send_interest,
}
use ndn_bier.Fw.Replication.{clone_pkt}

-- An Interest may leave on the face: it exists, and the checks pass.
abbrev pub usable_face : Pkt → ℕ → Option Face → Bool
usable_face packet in_face none = false
usable_face packet in_face (some face) = may_send packet face in_face

unfoldable pub usable : Map Face → Pkt → ℕ → ℕ → Bool
usable faces packet nexthop in_face = usable_face packet in_face (lookup nexthop faces)

module _ (thread_id : ℕ) (faces : Map Face) (now : ℕ) where
  on-refused :
      (packet : Pkt) (nexthop in_face : ℕ) (st : Egress) (o : Option Face)
      → usable_face packet in_face o ≡ false
      → send_interest_on thread_id faces now packet nexthop in_face st o ≡ (false, st)
  unfolding send_interest_on
  on-refused packet nexthop in_face st none h = refl
  on-refused packet nexthop in_face st (some face) h = rw h

  on-accepted :
      (packet : Pkt) (nexthop in_face : ℕ) (st : Egress) (o : Option Face)
      → usable_face packet in_face o ≡ true
      → (face : Face) × (o ≡ some face)
        × (send_interest_on thread_id faces now packet nexthop in_face st o
            ≡ (true, sent_interest thread_id faces now packet nexthop in_face face st))
  unfolding send_interest_on
  on-accepted packet nexthop in_face st none h = cc
  on-accepted packet nexthop in_face st (some face) h = (face, refl, rw h)

  module _ (packet : Pkt) (nexthop in_face : ℕ) (st : Egress) where
    -- A refused Interest changes nothing.
    pub send-refused :
        usable faces packet nexthop in_face ≡ false
        → send_interest thread_id faces now packet nexthop in_face st ≡ (false, st)
    unfolding usable send_interest process_outgoing_interest
    send-refused h = on-refused packet nexthop in_face st (lookup nexthop faces) h

    pub send-accepted :
        usable faces packet nexthop in_face ≡ true
        → (face : Face) × (lookup nexthop faces ≡ some face)
          × (send_interest thread_id faces now packet nexthop in_face st
              ≡ (true, sent_interest thread_id faces now packet nexthop in_face face st))
    unfolding usable send_interest process_outgoing_interest
    send-accepted h = on-accepted packet nexthop in_face st (lookup nexthop faces) h

  -- The checks do not look at the bit-string or the egress router.
  pub usable-clone :
      (packet : Pkt) (mask : Bytes) (nexthop in_face : ℕ)
      → usable faces (clone_pkt packet mask) nexthop in_face ≡ usable faces packet nexthop in_face
  unfolding usable may_send clone_pkt
  usable-clone packet mask nexthop in_face = same (lookup nexthop faces)
    where
      same :
          (o : Option Face)
          → usable_face (clone_pkt packet mask) in_face o ≡ usable_face packet in_face o
      same none = refl
      same (some face) = refl
