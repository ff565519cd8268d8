-- ===== src/Fw/Finalize.antt =====
-- `finalizeInterest` of ndnd/fw/fw/thread.go: what a thread does with a PIT entry that has expired.
use ndn_bier.Prelude.{ℕ, ◌+◌, ◌≡◌, ◌∙◌, true, [], ◌∷◌, ◌==◌, if◌then◌else◌, length, arith, All}
use ndn_bier.Prelude.Maps.{Map, lookup}
use ndn_bier.Encoding.Name.{Name}
use ndn_bier.Table.PitEntry.{PitEntry, PitOutRecord}
use ndn_bier.Table.DeadNonceList.{DeadNonceList, is_present, nonce_key, find, insert_nonce}
use ndn_bier.Table.DeadNonceList.Agreement.{IsValid, insert_nonce-IsValid, present-insert_nonce}

-- `finalizeInterest`: the nonces of the out-records are dead, and an unsatisfied Interest is counted
-- once for each in-record.
module _ (hash : Name → ℕ) (lifetime : ℕ) where
  unfoldable pub bury_nonces : Name → ℕ → Map PitOutRecord → DeadNonceList → DeadNonceList
  bury_nonces name now [] d = d
  bury_nonces name now (r ∷ rs) d =
      bury_nonces name now rs (insert_nonce hash lifetime name r.1.latest_nonce now d).0

  unfoldable pub finalize_interest : ℕ → PitEntry → ℕ → DeadNonceList → ℕ × DeadNonceList
  finalize_interest now e n_unsatisfied d = (
    (if e.satisfied then n_unsatisfied else n_unsatisfied + length e.in_records),
    bury_nonces e.encname now e.out_records d,
  )

  present-bury_nonces :
      (name : Name) (now k : ℕ) (rs : Map PitOutRecord) (d : DeadNonceList)
      → is_present (lookup k d.list) ≡ true
      → is_present (lookup k (bury_nonces name now rs d).list) ≡ true
  unfolding bury_nonces
  present-bury_nonces name now k [] d h = h
  present-bury_nonces name now k (r ∷ rs) d h =
      present-bury_nonces name now k rs _
        (present-insert_nonce hash lifetime name r.1.latest_nonce now d k ∙ (rw h (ground arith)))

  pub bury_nonces-All :
      (name : Name) (now : ℕ) (rs : Map PitOutRecord) (d : DeadNonceList)
      → All (λ r. find hash lifetime name r.1.latest_nonce (bury_nonces name now rs d) ≡ true) rs
  unfolding bury_nonces find
  bury_nonces-All name now [] d = tt
  bury_nonces-All name now (r ∷ rs) d =
      let key = nonce_key hash lifetime name r.1.latest_nonce in
      let same : (key == key) ≡ true = ground arith in
      (
        present-bury_nonces name now key rs _ (
            present-insert_nonce hash lifetime name r.1.latest_nonce now d key
            ∙ (rw same (ground arith))),
        bury_nonces-All name now rs _,
      )

  pub bury_nonces-IsValid :
      (name : Name) (now : ℕ) (rs : Map PitOutRecord) (d : DeadNonceList)
      → IsValid d
      → IsValid (bury_nonces name now rs d)
  unfolding bury_nonces
  bury_nonces-IsValid name now [] d v = v
  bury_nonces-IsValid name now (r ∷ rs) d v =
      bury_nonces-IsValid name now rs _
        (insert_nonce-IsValid hash lifetime name r.1.latest_nonce now d v)

  -- After an Interest was finalized the list of dead nonces, which was valid, is so again, and it
  -- has the nonce of every out-record under the name of the entry.
  pub finalize_interest-All :
      (now : ℕ) (e : PitEntry) (n_unsatisfied : ℕ) (d : DeadNonceList)
      → IsValid d
      → let d' = (finalize_interest now e n_unsatisfied d).1 in
        IsValid d'
        × All (λ r. find hash lifetime e.encname r.1.latest_nonce d' ≡ true) e.out_records
  unfolding finalize_interest
  finalize_interest-All now e n_unsatisfied d v = (
    bury_nonces-IsValid e.encname now e.out_records d v,
    bury_nonces-All e.encname now e.out_records d,
  )
