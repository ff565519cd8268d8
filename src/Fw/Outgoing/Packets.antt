-- ===== src/Fw/Outgoing/Packets.antt =====
-- What becomes of packets that are sent one after another: which of them leave, and as what.
use ndn_bier.Prelude.{
  ℕ, ◌≡◌, ◌≢◌, ◌↔◌, refl, ◌∙◌, ap, Bool, true, false, ◌&&◌, ◌||◌, not, Option, none, some, List, [],
  ◌∷◌, ◌++◌, ◌==◌, ==_iff, if◌then◌else◌, arith, Bool-cases, inl, inr,
}
use ndn_bier.Prelude.Maps.{Map, lookup}
use ndn_bier.Bier.Bits.{Bytes}
use ndn_bier.Fw.Packet.{
  Pkt, Face, Scope, unknown, non_local, is_local, LinkType, point_to_point, multi_access, ad_hoc,
  is_non_local, is_ad_hoc,
}
use ndn_bier.Fw.Outgoing.{OutPkt, interest_payload, may_send, is_zero_hop}
use ndn_bier.Fw.Outgoing.Sends.{usable, usable-clone}
use ndn_bier.Fw.Outgoing.Records.{reached}
use ndn_bier.Fw.Outgoing.Copies.{out_copy, out_copies}
use ndn_bier.Fw.Replication.{clone_pkt}
use ndn_bier.Fw.Replication.Packets.{packets_of}

-- An Interest may leave on a face: not back to where it came from unless that is an ad hoc link, and
-- not to another host without a hop left.
pub record MayLeave (packet : Pkt) (in_face : ℕ) (face : Face) : Type 0 where
  pub not_back : face.face_id ≡ in_face → face.link_type ≡ ad_hoc
  pub in_reach : packet.interest.hop_limit_v ≡ some 0 → face.scope ≢ non_local

ad_hoc_iff : (l : LinkType) → (is_ad_hoc l ≡ true) ↔ (l ≡ ad_hoc)
unfolding is_ad_hoc
ad_hoc_iff point_to_point = (λ e. cc, λ e. cc)
ad_hoc_iff multi_access = (λ e. cc, λ e. cc)
ad_hoc_iff ad_hoc = (λ e. refl, λ e. refl)

non_local_iff : (s : Scope) → (is_non_local s ≡ true) ↔ (s ≡ non_local)
unfolding is_non_local
non_local_iff unknown = (λ e. cc, λ e. cc)
non_local_iff non_local = (λ e. refl, λ e. refl)
non_local_iff is_local = (λ e. cc, λ e. cc)

zero_hop_iff : (h : Option ℕ) → (is_zero_hop h ≡ true) ↔ (h ≡ some 0)
unfolding is_zero_hop
zero_hop_iff none = (λ e. cc, λ e. cc)
zero_hop_iff (some n) = (λ e. ap (λ k. some k) ((==_iff n 0).0 e), λ e. (==_iff n 0).1 (cc e))

pub may_send_iff :
    (packet : Pkt) (in_face : ℕ) (face : Face)
    → (may_send packet face in_face ≡ true) ↔ MayLeave packet in_face face
unfolding may_send
may_send_iff packet in_face face =
    let same = ==_iff face.face_id in_face in
    let ad = ad_hoc_iff face.link_type in
    let out = non_local_iff face.scope in
    let hops = zero_hop_iff packet.interest.hop_limit_v in
    (
      λ h. record {
        not_back = λ e. ad.0 (ground (arith, h, same.1 e));
        in_reach = λ e s. ground (arith, h, hops.1 e, out.1 s);
      },
      λ h.
          let kept : (face.face_id == in_face && not (is_ad_hoc face.link_type)) ≡ false =
            elim (Bool-cases (face.face_id == in_face)) [
              | inl back ↦ let link = ad.1 (h.not_back (same.0 back)) in ground (arith, link)
              | inr onward ↦ ground (arith, onward)
            ] in
          let near : (is_zero_hop packet.interest.hop_limit_v && is_non_local face.scope) ≡ false =
            elim (Bool-cases (is_zero_hop packet.interest.hop_limit_v)) [
              | inl zero ↦ elim (Bool-cases (is_non_local face.scope)) [
                | inl far ↦ absurd (h.in_reach (hops.0 zero) (out.0 far))
                | inr close ↦ ground (arith, close)
              ]
              | inr more ↦ ground (arith, more)
            ] in
          rw (kept, near) refl,
    )

-- The packet that leaves on its face: none if it may not leave there.
abbrev pub out_packet : ℕ → Bytes → Pkt → Option Face → List OutPkt
out_packet in_face token p none = []
out_packet in_face token p (some face) =
    if may_send p face in_face
    then record {
      face_id = face.face_id;
      pkt = interest_payload p;
      pit_token = token;
      in_face = in_face;
    }
      ∷ []
    else []

unfoldable pub out_packets : Map Face → ℕ → Bytes → List (ℕ × Pkt) → List OutPkt
out_packets faces in_face token [] = []
out_packets faces in_face token (p ∷ ps) =
    out_packet in_face token p.1 (lookup p.0 faces) ++ out_packets faces in_face token ps

-- Some packet goes to the face and may leave there.
unfoldable pub some_left : Map Face → ℕ → ℕ → List (ℕ × Pkt) → Bool
some_left faces in_face face [] = false
some_left faces in_face face (p ∷ ps) =
    (p.0 == face && usable faces p.1 p.0 in_face) || some_left faces in_face face ps

module _ (faces : Map Face) (packet : Pkt) (in_face : ℕ) where
  out_copy-out_packet :
      (token mask : Bytes) (o : Option Face)
      → out_copy packet in_face token mask o ≡ out_packet in_face token (clone_pkt packet mask) o
  unfolding clone_pkt may_send
  out_copy-out_packet token mask none = refl
  out_copy-out_packet token mask (some face) = refl

  pub out_copies-out_packets :
      (token : Bytes) (cs : List (ℕ × Bytes))
      → out_copies faces packet in_face token cs
        ≡ out_packets faces in_face token (packets_of packet cs)
  unfolding out_copies out_packets
  out_copies-out_packets token [] = refl
  out_copies-out_packets token (c ∷ cs) =
      ap (λ l. l ++ out_copies faces packet in_face token cs)
        (out_copy-out_packet token c.1 (lookup c.0 faces))
      ∙ ap (λ l. out_packet in_face token (clone_pkt packet c.1) (lookup c.0 faces) ++ l)
          (out_copies-out_packets token cs)

  pub reached-some_left :
      (face : ℕ) (cs : List (ℕ × Bytes))
      → reached faces packet in_face face cs ≡ some_left faces in_face face (packets_of packet cs)
  unfolding reached some_left
  reached-some_left face [] = refl
  reached-some_left face (c ∷ cs) =
      rw (usable-clone 0 faces 0 packet c.1 c.0 in_face, reached-some_left face cs) refl
