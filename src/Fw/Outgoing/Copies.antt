-- ===== src/Fw/Outgoing/Copies.antt =====
-- The packets that leave when copies of an Interest are sent one after another.
use ndn_bier.Prelude.{
  ℕ, ◌+◌, ◌≡◌, refl, sym, ◌∙◌, ap, inl, inr, true, false, Option, none, some, List, [], ◌∷◌, ◌++◌,
  if◌then◌else◌, Bool-cases, arith, length, length-append,
}
use mathlib.Core.List.{append-nil, append_assoc}
use ndn_bier.Prelude.Maps.{Map, lookup}
use ndn_bier.Bier.Bits.{Bytes}
use ndn_bier.Fw.Packet.{Pkt, Face}
use ndn_bier.Table.PitEntry.{insert_out_record}
use ndn_bier.Fw.Outgoing.{OutPkt, Egress, interest_payload, out_token, may_send, sent_interest}
use ndn_bier.Fw.Outgoing.Sends.{usable, usable_face}
use ndn_bier.Fw.Replication.{clone_pkt}
use ndn_bier.Fw.Replication.Plan.{send_all}
use ndn_bier.Fw.Outgoing.Records.{one, run, one-refused, one-accepted}

-- The packets `out` left: the token of the PIT entry is as before, and they are counted.
pub record IsSent (thread_id : ℕ) (st : Egress) (out : List OutPkt) (st' : Egress) : Type 0 where
  pub token : out_token thread_id st'.pit_entry ≡ out_token thread_id st.pit_entry
  pub packets : st'.sent ≡ st.sent ++ out
  pub count : st'.n_out_interests ≡ st.n_out_interests + length out

-- The packet that a copy becomes on its face: none if it may not leave there.
abbrev pub out_copy : Pkt → ℕ → Bytes → Bytes → Option Face → List OutPkt
out_copy packet in_face token mask none = []
out_copy packet in_face token mask (some face) =
    if may_send packet face in_face
    then record {
      face_id = face.face_id;
      pkt = interest_payload (clone_pkt packet mask);
      pit_token = token;
      in_face = in_face;
    }
      ∷ []
    else []

-- The packets that a list of copies becomes.
unfoldable pub out_copies : Map Face → Pkt → ℕ → Bytes → List (ℕ × Bytes) → List OutPkt
out_copies faces packet in_face token [] = []
out_copies faces packet in_face token (c ∷ cs) =
    out_copy packet in_face token c.1 (lookup c.0 faces) ++ out_copies faces packet in_face token cs

module _ (thread_id : ℕ) (faces : Map Face) (now : ℕ) (packet : Pkt) (in_face : ℕ) where
  out_copy-refused :
      (token mask : Bytes) (o : Option Face)
      → usable_face packet in_face o ≡ false
      → out_copy packet in_face token mask o ≡ []
  out_copy-refused token mask none h = refl
  out_copy-refused token mask (some face) h = rw h

  out_copy-accepted :
      (token mask : Bytes) (face : Face)
      → usable_face packet in_face (some face) ≡ true
      → out_copy packet in_face token mask (some face)
        ≡ record {
          face_id = face.face_id;
          pkt = interest_payload (clone_pkt packet mask);
          pit_token = token;
          in_face = in_face;
        }
          ∷ []
  out_copy-accepted token mask face h = rw h

  one-IsSent :
      (c : ℕ × Bytes) (st : Egress)
      → IsSent thread_id st
          (out_copy packet in_face (out_token thread_id st.pit_entry) c.1 (lookup c.0 faces))
          (one thread_id faces now packet in_face c st)
  one-IsSent c st =
      let token = out_token thread_id st.pit_entry in
      elim (Bool-cases (usable faces packet c.0 in_face)) [
        | inl ok ↦
            let (face, there, e) = one-accepted thread_id faces now packet in_face c st ok in
            rw (e, there)
              (rw (out_copy-accepted token c.1 face (unfold usable in (rw there at ok))) (
                unfold sent_interest out_token insert_out_record in
                record { token = refl; packets = refl; count = omega arith }))
        | inr refused ↦
            rw
              (
                one-refused thread_id faces now packet in_face c st refused,
                out_copy-refused token c.1 (lookup c.0 faces) (unfold usable in refused),
              )
              (record { token = refl; packets = sym (append-nil st.sent); count = omega arith })
      ]

  -- What leaves is the list of copies in order, each if it may, with the token of the PIT entry,
  -- and it is counted.
  pub run-IsSent :
      (cs : List (ℕ × Bytes)) (st : Egress)
      → IsSent thread_id st
          (out_copies faces packet in_face (out_token thread_id st.pit_entry) cs)
          (run thread_id faces now packet in_face cs st)
  unfolding send_all out_copies
  run-IsSent [] st = record {
    token = refl;
    packets = sym (append-nil st.sent);
    count = omega arith;
  }
  run-IsSent (c ∷ cs) st =
      let a = one-IsSent c st in
      let b = run-IsSent cs (one thread_id faces now packet in_face c st) in
      let out = out_copy packet in_face (out_token thread_id st.pit_entry) c.1 (lookup c.0 faces) in
      let rest = out_copies faces packet in_face (out_token thread_id st.pit_entry) cs in
      let same = ap (λ t. out_copies faces packet in_face t cs) a.token in
      record {
        token = b.token ∙ a.token;
        packets =
            b.packets
            ∙ ap (λ l. (one thread_id faces now packet in_face c st).sent ++ l) same
            ∙ ap (λ l. l ++ rest) a.packets
            ∙ append_assoc st.sent out rest;
        count = omega (arith, a.count, b.count, ap length same, length-append out rest);
      }
