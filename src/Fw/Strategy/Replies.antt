-- ===== src/Fw/Strategy/Replies.antt =====
-- `AfterReceiveData` and `AfterContentStoreHit`, which all strategies have in the same words: the
-- Data goes to every in-record of the PIT entry, with the token of the record. A `range` over a
-- map that removes the current key visits every key once.
use ndn_bier.Prelude.{
  ℕ, ◌+◌, ◌≡◌, refl, sym, ◌∙◌, ap, inl, inr, Option, none, some, List, [], ◌∷◌, ◌++◌, ◌&&◌,
  if◌then◌else◌, subst, Bool-cases, Option-cases, arith, map, length, length-append,
}
use mathlib.Core.List.{append-nil, append_assoc}
use ndn_bier.Prelude.Maps.{Map, lookup, delete, Distinct, lookup-head, delete-head}
use ndn_bier.Bier.Bits.{Bytes}
use ndn_bier.Fw.Packet.{Face, is_non_local}
use ndn_bier.Table.PitEntry.{PitEntry, PitInRecord, remove_in_record}
use ndn_bier.Fw.Outgoing.{
  DataPkt, OutPkt, Egress, data_payload, is_localhost, process_outgoing_data, send_data,
}

module _ (thread_id : ℕ) (faces : Map Face) (now : ℕ) where
  unfoldable pub send_data_all : DataPkt → ℕ → List ℕ → Egress → Egress
  send_data_all packet in_face [] st = st
  send_data_all packet in_face (face ∷ rest) st =
      send_data_all packet in_face rest (send_data thread_id faces now packet face in_face st)

  unfoldable pub after_receive_data : DataPkt → ℕ → Egress → Egress
  after_receive_data packet in_face st =
      send_data_all packet in_face (map (λ r. r.0) st.pit_entry.in_records) st

  unfoldable pub after_content_store_hit : DataPkt → ℕ → Egress → Egress
  after_content_store_hit packet in_face st = send_data thread_id faces now packet in_face 0 st

-- The packet that an in-record gets: none if its face is gone, or if the Data is of /localhost
-- and the face leads to another forwarder.
abbrev reply_on : DataPkt → ℕ → Bytes → Option Face → List OutPkt
reply_on packet in_face pit_token none = []
reply_on packet in_face pit_token (some face) =
    if is_non_local face.scope && is_localhost packet.name
    then []
    else record {
      face_id = face.face_id;
      pkt = data_payload packet;
      pit_token = pit_token;
      in_face = in_face;
    }
      ∷ []

unfoldable pub replies : Map Face → DataPkt → ℕ → Map PitInRecord → List OutPkt
replies faces packet in_face [] = []
replies faces packet in_face (r ∷ rs) =
    reply_on packet in_face r.1.pit_token (lookup r.0 faces) ++ replies faces packet in_face rs

-- The state after the packets `out` were sent, with the PIT entry `e`.
pub record IsAnswered (st : Egress) (e : PitEntry) (out : List OutPkt) (st' : Egress) : Type 0 where
  pub entry : st'.pit_entry ≡ e
  pub packets : st'.sent ≡ st.sent ++ out
  pub data_count : st'.n_out_data ≡ st.n_out_data + length out
  pub satisfied_count : st'.n_satisfied_interests ≡ st.n_satisfied_interests + length out
  pub interest_count : st'.n_out_interests ≡ st.n_out_interests

nothing-IsAnswered : (st : Egress) → IsAnswered st st.pit_entry [] st
nothing-IsAnswered st = record {
  entry = refl;
  packets = sym (append-nil st.sent);
  data_count = omega arith;
  satisfied_count = omega arith;
  interest_count = refl;
}

IsAnswered-trans :
    (st : Egress) (e e' : PitEntry) (out out' : List OutPkt) (st' st'' : Egress)
    → IsAnswered st e out st'
    → IsAnswered st' e' out' st''
    → IsAnswered st e' (out ++ out') st''
IsAnswered-trans st e e' out out' st' st'' a b = record {
  entry = b.entry;
  packets = b.packets ∙ ap (λ l. l ++ out') a.packets ∙ append_assoc st.sent out out';
  data_count = omega (arith, a.data_count, b.data_count, length-append out out');
  satisfied_count = omega (arith, a.satisfied_count, b.satisfied_count, length-append out out');
  interest_count = b.interest_count ∙ a.interest_count;
}

module _ (thread_id : ℕ) (faces : Map Face) (now : ℕ) where
  outgoing-IsAnswered :
      (packet : DataPkt) (nexthop in_face : ℕ) (pit_token : Bytes) (st : Egress)
      → IsAnswered st st.pit_entry
          (reply_on packet in_face pit_token (lookup nexthop faces))
          (process_outgoing_data thread_id faces now packet nexthop pit_token in_face st)
  unfolding process_outgoing_data
  outgoing-IsAnswered packet nexthop in_face pit_token st =
      elim (Option-cases (lookup nexthop faces)) [
        | inl absent ↦ rw (absent, process_outgoing_data) (nothing-IsAnswered st)
        | inr (face, there) ↦
            rw (there, process_outgoing_data)
              (elim (Bool-cases (is_non_local face.scope && is_localhost packet.name)) [
                | inl barred ↦ rw barred (nothing-IsAnswered st)
                | inr fine ↦ rw fine (record {
                  entry = refl;
                  packets = refl;
                  data_count = omega arith;
                  satisfied_count = omega arith;
                  interest_count = refl;
                })
              ])
      ]

  send_data-IsAnswered :
      (packet : DataPkt) (nexthop in_face : ℕ) (r : PitInRecord) (st : Egress)
      → lookup nexthop st.pit_entry.in_records ≡ some r
      → IsAnswered st
          (remove_in_record nexthop st.pit_entry)
          (reply_on packet in_face r.pit_token (lookup nexthop faces))
          (send_data thread_id faces now packet nexthop in_face st)
  unfolding send_data
  send_data-IsAnswered packet nexthop in_face r st h =
      rw (h, send_data)
        (let a =
            outgoing-IsAnswered packet nexthop in_face r.pit_token
              (record st { pit_entry = remove_in_record nexthop st.pit_entry }) in
          record {
            entry = a.entry;
            packets = a.packets;
            data_count = a.data_count;
            satisfied_count = a.satisfied_count;
            interest_count = a.interest_count;
          })

  abbrev without : Map PitInRecord → PitEntry → PitEntry
  without rs e = record e { in_records = rs }

  in_records-remove :
      (face : ℕ) (e : PitEntry) → (remove_in_record face e).in_records ≡ delete face e.in_records
  unfolding remove_in_record
  in_records-remove face e = refl

  without-remove : (face : ℕ) (e : PitEntry) → without [] (remove_in_record face e) ≡ without [] e
  unfolding remove_in_record
  without-remove face e = refl

  send_data_all-IsAnswered :
      (packet : DataPkt) (in_face : ℕ) (rs : Map PitInRecord) (st : Egress)
      → st.pit_entry.in_records ≡ rs
      → Distinct rs
      → IsAnswered st
          (without [] st.pit_entry)
          (replies faces packet in_face rs)
          (send_data_all thread_id faces now packet in_face (map (λ r. r.0) rs) st)
  unfolding send_data_all replies
  send_data_all-IsAnswered packet in_face [] st e d =
      let a = nothing-IsAnswered st in
      record {
        entry = λ i. without (e i) st.pit_entry;
        packets = a.packets;
        data_count = a.data_count;
        satisfied_count = a.satisfied_count;
        interest_count = a.interest_count;
      }
  send_data_all-IsAnswered packet in_face (r ∷ rs) st e d =
      let found = ap (lookup r.0) e ∙ lookup-head r rs in
      let a = send_data-IsAnswered packet r.0 in_face r.1 st found in
      let left =
        ap (λ p. p.in_records) a.entry
        ∙ in_records-remove r.0 st.pit_entry
        ∙ ap (delete r.0) e
        ∙ delete-head r rs d in
      let st' = send_data thread_id faces now packet r.0 in_face st in
      let b = send_data_all-IsAnswered packet in_face rs st' left d.1 in
      IsAnswered-trans st _ _ _ _ st' _ a (
        subst
          (λ p.
            IsAnswered st' p (replies faces packet in_face rs)
              (send_data_all thread_id faces now packet in_face (map (λ x. x.0) rs) st'))
          (ap (without []) a.entry ∙ without-remove r.0 st.pit_entry) b)

  -- Where a PIT entry has one in-record for a face, a Data packet is sent once for every in-record
  -- whose face takes it, with the token of that record; it is counted as often, the in-records are
  -- gone, and the rest of the entry is as before.
  pub after_receive_data-IsAnswered :
      (packet : DataPkt) (in_face : ℕ) (st : Egress)
      → Distinct st.pit_entry.in_records
      → IsAnswered st
          (record (st.pit_entry) { in_records = [] })
          (replies faces packet in_face st.pit_entry.in_records)
          (after_receive_data thread_id faces now packet in_face st)
  unfolding after_receive_data
  after_receive_data-IsAnswered packet in_face st d =
      send_data_all-IsAnswered packet in_face st.pit_entry.in_records st refl d
