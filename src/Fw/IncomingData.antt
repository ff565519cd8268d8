-- ===== src/Fw/IncomingData.antt =====
-- What `processIncomingData` of ndnd/fw/fw/thread.go does with the PIT entries that a Data packet
-- matches: one of them, through the strategy, or several. The timer of the PIT, which
-- `UpdateExpirationTimer` tells as well, is not modelled.
use ndn_bier.Prelude.{ℕ, ◌≡◌, refl, ap, true, List, [], ◌∷◌, ◌++◌, ◌==◌, if◌then◌else◌, All}
use ndn_bier.Prelude.Maps.{Map, Distinct}
use ndn_bier.Encoding.Name.{Name}
use ndn_bier.Bier.Bits.{Bytes}
use ndn_bier.Table.PitEntry.{
  PitEntry, PitInRecord, PitOutRecord, clear_in_records, clear_out_records, set_expiration_time,
  set_satisfied,
}
use ndn_bier.Table.DeadNonceList.{DeadNonceList, find}
use ndn_bier.Table.DeadNonceList.Agreement.{IsValid}
use ndn_bier.Fw.Packet.{Face}
use ndn_bier.Fw.Outgoing.{DataPkt, Egress, process_outgoing_data}
use ndn_bier.Fw.Finalize.{bury_nonces, bury_nonces-All, bury_nonces-IsValid}
use ndn_bier.Fw.Strategy.Replies.{after_receive_data, replies, after_receive_data-IsAnswered}

abbrev pub on_entry : (PitEntry → PitEntry) → Egress → Egress
on_entry f st = record st { pit_entry = f st.pit_entry }

module _ (hash : Name → ℕ) (lifetime thread_id : ℕ) (faces : Map Face) (now : ℕ) (packet : DataPkt)
    (in_face : ℕ) where
  -- One match.
  unfoldable pub satisfy_one : Egress → DeadNonceList → Egress × DeadNonceList
  satisfy_one st d =
      let st1 =
        after_receive_data thread_id faces now packet in_face
          (on_entry (set_expiration_time now) st) in
      let st2 = on_entry (set_satisfied true) st1 in
      (
        on_entry clear_out_records (on_entry clear_in_records st2),
        bury_nonces hash lifetime packet.name now st2.pit_entry.out_records d,
      )

  -- The faces of the in-records but the one that the Data came on, with their tokens.
  unfoldable pub downstreams : Map PitInRecord → Map Bytes
  downstreams [] = []
  downstreams (r ∷ rs) =
      if r.0 == in_face then downstreams rs else (r.0, r.1.pit_token) ∷ downstreams rs

  unfoldable pub send_downstream : Map Bytes → Egress → Egress
  send_downstream [] st = st
  send_downstream (t ∷ ts) st =
      send_downstream ts (process_outgoing_data thread_id faces now packet t.0 t.1 in_face st)

  abbrev pub finish_entry : PitEntry → PitEntry
  finish_entry e =
      clear_out_records (clear_in_records (set_satisfied true (set_expiration_time now e)))

  -- One round of several matches, on its entry.
  unfoldable pub satisfy_round : Egress → Egress
  satisfy_round st =
      let ts = downstreams st.pit_entry.in_records in send_downstream ts (on_entry finish_entry st)

  -- The loop over several matches. `head_records` is what `pitEntries[0].OutRecords()` holds in the
  -- round: the first round clears them. The entries that are done come first in the result.
  unfoldable pub satisfy_each :
      Map PitOutRecord
      → List PitEntry
      → Egress
      → DeadNonceList
      → List PitEntry × Egress × DeadNonceList
  satisfy_each head_records [] st d = ([], st, d)
  satisfy_each head_records (e ∷ es) st d =
      let st' = satisfy_round (record st { pit_entry = e }) in
      let (es', st'', d') =
        satisfy_each [] es st' (bury_nonces hash lifetime packet.name now head_records d) in
      (st'.pit_entry ∷ es', st'', d')

  abbrev pub head_out_records : List PitEntry → Map PitOutRecord
  head_out_records [] = []
  head_out_records (e ∷ es) = e.out_records

  unfoldable pub satisfy_several :
      List PitEntry → Egress → DeadNonceList → List PitEntry × Egress × DeadNonceList
  satisfy_several es st d = satisfy_each (head_out_records es) es st d

  nothing_buried :
      (es : List PitEntry) (st : Egress) (d : DeadNonceList) → (satisfy_each [] es st d).2 ≡ d
  unfolding satisfy_each bury_nonces
  nothing_buried [] st d = refl
  nothing_buried (e ∷ es) st d = nothing_buried es _ d

  -- With several matches only the nonces of the first entry become dead, whatever nonces the
  -- out-records of the others hold.
  pub satisfy_several-first_only :
      (e : PitEntry) (es : List PitEntry) (st : Egress) (d : DeadNonceList)
      → (satisfy_several (e ∷ es) st d).2
        ≡ bury_nonces hash lifetime packet.name now e.out_records d
  unfolding satisfy_several satisfy_each
  satisfy_several-first_only e es st d = nothing_buried es _ _

  -- The entry after one match: no records, satisfied, and at its end.
  abbrev pub answered_entry : PitEntry → PitEntry
  answered_entry e = record e {
    in_records = [];
    out_records = [];
    satisfied = true;
    expiration_time = now;
  }

  -- The state after a single match.
  pub record IsSatisfied (st st' : Egress) (d' : DeadNonceList) : Type 0 where
    pub entry : st'.pit_entry ≡ answered_entry st.pit_entry
    pub packets : st'.sent ≡ st.sent ++ replies faces packet in_face st.pit_entry.in_records
    pub dead :
        All
          (λ r. find hash lifetime packet.name r.1.latest_nonce d' ≡ true)
          st.pit_entry.out_records
    pub valid : IsValid d'

  -- Where a Data packet matches one PIT entry, which has one in-record for a face, and the list of
  -- dead nonces is valid: the packet is sent once for every in-record whose face takes it, with the
  -- token of that record; the entry is satisfied and at its end, with no records; and the nonces of
  -- its out-records are dead under the name of the Data.
  pub satisfy_one-IsSatisfied :
      (st : Egress) (d : DeadNonceList)
      → Distinct st.pit_entry.in_records
      → IsValid d
      → IsSatisfied st (satisfy_one st d).0 (satisfy_one st d).1
  unfolding satisfy_one set_expiration_time set_satisfied clear_in_records clear_out_records
  satisfy_one-IsSatisfied st d distinct v =
      let st0 = on_entry (set_expiration_time now) st in
      let a = after_receive_data-IsAnswered thread_id faces now packet in_face st0 distinct in
      let outs = ap (λ e. e.out_records) a.entry in
      record {
        entry = ap (λ e. clear_out_records (clear_in_records (set_satisfied true e))) a.entry;
        packets = a.packets;
        dead = rw outs (bury_nonces-All hash lifetime packet.name now st.pit_entry.out_records d);
        valid = bury_nonces-IsValid hash lifetime packet.name now _ d v;
      }
