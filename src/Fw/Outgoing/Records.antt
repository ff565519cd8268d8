-- ===== src/Fw/Outgoing/Records.antt =====
-- The out-records that replicated Interests leave in the PIT entry, to bring the Data back.
use ndn_bier.Prelude.{
  ℕ, ◌≡◌, refl, ◌∙◌, ap, inl, inr, Bool, true, false, Option, none, some, List, [], ◌∷◌, ◌&&◌, ◌||◌,
  ◌==◌, ==_iff, Bool-cases, arith, subst,
}
use ndn_bier.Prelude.Maps.{Map, lookup, lookup-insert}
use ndn_bier.Bier.Bits.{Bytes}
use ndn_bier.Fw.Packet.{Pkt, Face, FwInterest}
use ndn_bier.Table.PitEntry.{PitOutRecord, insert_out_record, refresh_out_record}
use ndn_bier.Fw.Outgoing.{Egress, sent_interest, send_interest}
use ndn_bier.Fw.Outgoing.Sends.{usable, send-refused, send-accepted, usable-clone}
use ndn_bier.Fw.Replication.{clone_pkt}
use ndn_bier.Fw.Replication.Plan.{send_all}

-- The face has an out-record of this time and nonce.
pub record IsRecorded (now nonce face : ℕ) (st : Egress) : Type 0 where
  pub out : PitOutRecord
  pub there : lookup face st.pit_entry.out_records ≡ some out
  pub nonce_kept : out.latest_nonce ≡ nonce
  pub time_kept : out.latest_timestamp ≡ now

refresh-nonce :
    (interest : FwInterest) (face now : ℕ) (o : Option PitOutRecord)
    → ((refresh_out_record interest face now o).latest_nonce ≡ interest.nonce_v)
      × ((refresh_out_record interest face now o).latest_timestamp ≡ now)
unfolding refresh_out_record
refresh-nonce interest face now none = (refl, refl)
refresh-nonce interest face now (some old) = (refl, refl)

-- Some copy goes to the face and may leave there.
unfoldable pub reached : Map Face → Pkt → ℕ → ℕ → List (ℕ × Bytes) → Bool
reached faces packet in_face face [] = false
reached faces packet in_face face (c ∷ cs) =
    (c.0 == face && usable faces packet c.0 in_face) || reached faces packet in_face face cs

-- The out-record of a face: renewed where a copy left, and else as before.
abbrev pub OutRecord : ℕ → ℕ → ℕ → Egress → Egress → Bool → Type 0
OutRecord now nonce face st st' true = IsRecorded now nonce face st'
OutRecord now nonce face st st' false =
    lookup face st'.pit_entry.out_records ≡ lookup face st.pit_entry.out_records

module _ (thread_id : ℕ) (faces : Map Face) (now : ℕ) where
  sent-IsRecorded :
      (packet : Pkt) (nexthop in_face : ℕ) (face : Face) (st : Egress)
      → IsRecorded now packet.interest.nonce_v nexthop
          (sent_interest thread_id faces now packet nexthop in_face face st)
  unfolding sent_interest insert_out_record
  sent-IsRecorded packet nexthop in_face face st =
      let old = lookup nexthop st.pit_entry.out_records in
      let (n, t) = refresh-nonce packet.interest nexthop now old in
      record {
        out = refresh_out_record packet.interest nexthop now old;
        there = lookup-insert nexthop nexthop _ st.pit_entry.out_records ∙ ground arith;
        nonce_kept = n;
        time_kept = t;
      }

  sent-other :
      (packet : Pkt) (nexthop in_face other : ℕ) (face : Face) (st : Egress)
      → (nexthop == other) ≡ false
      → lookup other
          (sent_interest thread_id faces now packet nexthop in_face face st).pit_entry.out_records
        ≡ lookup other st.pit_entry.out_records
  unfolding sent_interest insert_out_record
  sent-other packet nexthop in_face other face st h =
      lookup-insert nexthop other _ st.pit_entry.out_records ∙ (rw h)

  module _ (packet : Pkt) (in_face : ℕ) where
    abbrev pub one : ℕ × Bytes → Egress → Egress
    one c st = (send_interest thread_id faces now (clone_pkt packet c.1) c.0 in_face st).1

    abbrev pub run : List (ℕ × Bytes) → Egress → Egress
    run cs st = send_all (send_interest thread_id faces now) packet in_face cs st

    pub one-refused :
        (c : ℕ × Bytes) (st : Egress) → usable faces packet c.0 in_face ≡ false → one c st ≡ st
    one-refused c st h =
        ap (λ r. r.1)
          (send-refused thread_id faces now (clone_pkt packet c.1) c.0 in_face st
            (usable-clone thread_id faces now packet c.1 c.0 in_face ∙ h))

    pub one-accepted :
        (c : ℕ × Bytes) (st : Egress)
        → usable faces packet c.0 in_face ≡ true
        → (face : Face) × (lookup c.0 faces ≡ some face)
          × (one c st
              ≡ sent_interest thread_id faces now (clone_pkt packet c.1) c.0 in_face face st)
    one-accepted c st h =
        let (face, there, e) =
          send-accepted thread_id faces now (clone_pkt packet c.1) c.0 in_face st
            (usable-clone thread_id faces now packet c.1 c.0 in_face ∙ h) in
        (face, there, ap (λ r. r.1) e)

    one-keeps :
        (c : ℕ × Bytes) (st : Egress) (face : ℕ)
        → IsRecorded now packet.interest.nonce_v face st
        → IsRecorded now packet.interest.nonce_v face (one c st)
    one-keeps c st face r = elim (Bool-cases (usable faces packet c.0 in_face)) [
      | inl ok ↦
          let (f, there, e) = one-accepted c st ok in
          rw e (elim (Bool-cases (c.0 == face)) [
            | inl same ↦
                subst
                  (λ x.
                    IsRecorded now packet.interest.nonce_v x
                      (sent_interest thread_id faces now (clone_pkt packet c.1) c.0 in_face f st))
                  ((==_iff c.0 face).0 same)
                  (unfold clone_pkt in sent-IsRecorded (clone_pkt packet c.1) c.0 in_face f st)
            | inr other ↦ record {
              out = r.out;
              there = sent-other (clone_pkt packet c.1) c.0 in_face face f st other ∙ r.there;
              nonce_kept = r.nonce_kept;
              time_kept = r.time_kept;
            }
          ])
      | inr refused ↦ rw (one-refused c st refused) r
    ]

    run-keeps :
        (cs : List (ℕ × Bytes)) (st : Egress) (face : ℕ)
        → IsRecorded now packet.interest.nonce_v face st
        → IsRecorded now packet.interest.nonce_v face (run cs st)
    unfolding send_all
    run-keeps [] st face r = r
    run-keeps (c ∷ cs) st face r = run-keeps cs (one c st) face (one-keeps c st face r)

    -- Every face that a copy left on has an out-record with the nonce of the Interest.
    run-IsRecorded :
        (cs : List (ℕ × Bytes)) (st : Egress) (face : ℕ)
        → reached faces packet in_face face cs ≡ true
        → IsRecorded now packet.interest.nonce_v face (run cs st)
    unfolding send_all reached
    run-IsRecorded [] st face h = cc
    run-IsRecorded (c ∷ cs) st face h =
        elim (Bool-cases (c.0 == face && usable faces packet c.0 in_face)) [
          | inl here ↦
              let same : (c.0 == face) ≡ true = ground arith in
              let ok : usable faces packet c.0 in_face ≡ true = ground arith in
              let (f, there, e) = one-accepted c st ok in
              run-keeps cs (one c st) face (
                subst (λ x. IsRecorded now packet.interest.nonce_v x (one c st))
                  ((==_iff c.0 face).0 same)
                  (rw e
                    (unfold clone_pkt in sent-IsRecorded (clone_pkt packet c.1) c.0 in_face f st)))
          | inr later ↦ run-IsRecorded cs (one c st) face (rw later at h)
        ]

    -- The out-records of all other faces stay as they were.
    run-other :
        (cs : List (ℕ × Bytes)) (st : Egress) (face : ℕ)
        → reached faces packet in_face face cs ≡ false
        → lookup face (run cs st).pit_entry.out_records ≡ lookup face st.pit_entry.out_records
    unfolding send_all reached
    run-other [] st face h = refl
    run-other (c ∷ cs) st face h =
        run-other cs (one c st) face (ground arith)
        ∙ (elim (Bool-cases (usable faces packet c.0 in_face)) [
          | inl ok ↦
              let (f, there, e) = one-accepted c st ok in
              rw e (sent-other (clone_pkt packet c.1) c.0 in_face face f st (ground arith))
          | inr refused ↦ rw (one-refused c st refused)
        ])

    -- Every face that a copy left on has an out-record with the time and the nonce; the others
    -- have the record that they had, or none.
    pub run-OutRecord :
        (cs : List (ℕ × Bytes)) (st : Egress) (face : ℕ)
        → OutRecord now packet.interest.nonce_v face st
            (run cs st)
            (reached faces packet in_face face cs)
    run-OutRecord cs st face = elim (Bool-cases (reached faces packet in_face face cs)) [
      | inl left ↦ rw left (run-IsRecorded cs st face left)
      | inr stayed ↦ rw stayed (run-other cs st face stayed)
    ]
