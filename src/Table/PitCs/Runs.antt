-- ===== src/Table/PitCs/Runs.antt =====
-- Any sequence of calls on the PIT and the Content Store.
use ndn_bier.Prelude.{
  ℕ, ◌≡◌, ◌≢◌, ◌↔◌, refl, sym, subst, arith, Option, none, some, List, [], ◌∷◌, length, map,
  Bool-cases, inl, inr, find_first,
}
use ndn_bier.Prelude.Maps.{lookup}
use ndn_bier.Encoding.Name.{Component, Name}
use ndn_bier.Bier.Bits.{Bytes}
use ndn_bier.Fw.Packet.{FwInterest}
use ndn_bier.Table.PitEntry.{PitEntry}
use ndn_bier.Table.NameTree.{payload, find_exact}
use ndn_bier.Table.NameTree.Exact.{
  HasDepths, fill_update-HasDepths, update_exact-HasDepths, prune-HasDepths,
}
use ndn_bier.Table.PitCs.{CsEntry, PitCsNode, PitCsTree, new_pit_cs, pit_cs_shape}
use ndn_bier.Table.PitCs.Pit.{
  insert_interest, insert_as, has_nonce_of_other_face, pit_entries_at, write_entry, remove_interest,
  has_token, is_some, find_interest_prefix_match_by_name,
}
use ndn_bier.Table.PitCs.Cs.{
  find_matching_data_from_cs, find_data_at, answers, used, insert_data, insert_data_at, erase_at,
  erase_all, erase_cs_data_from_replacement_strategy,
}
use ndn_bier.Prelude.Lists.{Occurs}
use ndn_bier.Table.PitCs.Found.{IsMatch, matches_along-IsMatch, remove_interest-keeps}
use ndn_bier.Table.PitCs.Matches.{held, find_interest_prefix_match_by_name-along}

-- The calls that change the table, with their arguments.
pub data PitCsOp : Type 0 where
  op_insert_interest : FwInterest → Name → ℕ → PitCsOp
  op_write_entry : PitEntry → PitCsOp
  op_remove_interest : PitEntry → PitCsOp
  op_find_matching_data : FwInterest → ℕ → PitCsOp
  op_insert_data : Name → Option ℕ → Bytes → ℕ → PitCsOp

module _ (hash : Component → ℕ) (name_hash : Name → ℕ) (capacity : ℕ) where
  unfoldable pub pit_cs_step : PitCsOp → PitCsTree → PitCsTree
  unfolding insert_interest write_entry remove_interest find_matching_data_from_cs insert_data
  pit_cs_step (op_insert_interest interest hint in_face) p =
      (insert_interest hash interest hint in_face p).pit_cs
  pit_cs_step (op_write_entry e) p = write_entry hash e p
  pit_cs_step (op_remove_interest e) p = (remove_interest hash e p).0
  pit_cs_step (op_find_matching_data interest now) p =
      (find_matching_data_from_cs hash interest now p).1
  pit_cs_step (op_insert_data name freshness_period wire now) p =
      insert_data hash name_hash capacity name freshness_period wire now p

  -- The calls in the order of the list, the last one at its head.
  unfoldable pub run_pit_cs : List PitCsOp → PitCsTree
  unfolding pit_cs_step
  run_pit_cs [] = new_pit_cs
  run_pit_cs (op ∷ ops) = pit_cs_step op (run_pit_cs ops)

  abbrev IsDeep : PitCsTree → Type 0
  IsDeep p = HasDepths (pit_cs_shape hash) 0 p.root

  insert_as-IsDeep :
      (interest : FwInterest) (hint : Name) (in_face : ℕ) (found : Option PitEntry) (p : PitCsTree)
      → IsDeep p
      → IsDeep (insert_as hash interest hint in_face found p).pit_cs
  insert_as-IsDeep interest hint in_face none p h =
      fill_update-HasDepths (pit_cs_shape hash) p.root 0 interest.name_v _ h
  insert_as-IsDeep interest hint in_face (some e) p h =
      elim (Bool-cases (has_nonce_of_other_face in_face interest.nonce_v e.in_records)) [
        | inl loop ↦ rw loop h
        | inr fine ↦
            rw fine (fill_update-HasDepths (pit_cs_shape hash) p.root 0 interest.name_v _ h)
      ]

  remove_interest-IsDeep :
      (e : PitEntry) (p : PitCsTree) → IsDeep p → IsDeep (remove_interest hash e p).0
  unfolding remove_interest
  remove_interest-IsDeep e p h =
      elim (Bool-cases
        (is_some hash (find_first (has_token e.token) (pit_entries_at hash e.encname p.root)))) [
          | inl there ↦ rw there (
              prune-HasDepths (pit_cs_shape hash) _ 0 e.encname
                (update_exact-HasDepths (pit_cs_shape hash) p.root 0 e.encname _ h))
          | inr gone ↦ rw gone h
        ]

  used-IsDeep : (o : Option CsEntry) (p : PitCsTree) → IsDeep p → IsDeep (used hash o p).1
  used-IsDeep none p h = h
  used-IsDeep (some e) p h = h

  find_data_at-IsDeep :
      (interest : FwInterest) (now : ℕ) (o : Option PitCsNode) (p : PitCsTree)
      → IsDeep p
      → IsDeep (find_data_at hash interest now o p).1
  find_data_at-IsDeep interest now none p h = h
  find_data_at-IsDeep interest now (some n) p h = elim (Bool-cases interest.can_be_prefix_v) [
    | inl prefix ↦ rw prefix h
    | inr exact ↦ rw exact (used-IsDeep (answers hash interest now (payload n).cs_entry) p h)
  ]

  erase_at-IsDeep :
      (index : ℕ) (o : Option Name) (p : PitCsTree) → IsDeep p → IsDeep (erase_at hash index o p)
  erase_at-IsDeep index none p h = h
  erase_at-IsDeep index (some name) p h =
      update_exact-HasDepths (pit_cs_shape hash) p.root 0 name _ h

  erase_all-IsDeep : (erased : List ℕ) (p : PitCsTree) → IsDeep p → IsDeep (erase_all hash erased p)
  unfolding erase_all erase_cs_data_from_replacement_strategy
  erase_all-IsDeep [] p h = h
  erase_all-IsDeep (index ∷ erased) p h =
      erase_all-IsDeep erased _ (erase_at-IsDeep index (lookup index p.cs_map) p h)

  insert_data_at-IsDeep :
      (index : ℕ) (e : CsEntry) (name : Name) (o : Option Name) (p : PitCsTree)
      → IsDeep p
      → IsDeep (insert_data_at hash index e name capacity o p)
  insert_data_at-IsDeep index e name none p h =
      erase_all-IsDeep _ _ (fill_update-HasDepths (pit_cs_shape hash) p.root 0 name _ h)
  insert_data_at-IsDeep index e name (some old) p h =
      update_exact-HasDepths (pit_cs_shape hash) p.root 0 old _ h

  step-IsDeep : (op : PitCsOp) (p : PitCsTree) → IsDeep p → IsDeep (pit_cs_step op p)
  unfolding pit_cs_step insert_interest write_entry find_matching_data_from_cs insert_data
  step-IsDeep (op_insert_interest interest hint in_face) p h =
      insert_as-IsDeep interest hint in_face _ p h
  step-IsDeep (op_write_entry e) p h =
      update_exact-HasDepths (pit_cs_shape hash) p.root 0 e.encname _ h
  step-IsDeep (op_remove_interest e) p h = remove_interest-IsDeep e p h
  step-IsDeep (op_find_matching_data interest now) p h =
      find_data_at-IsDeep interest now (find_exact (pit_cs_shape hash) interest.name_v p.root) p h
  step-IsDeep (op_insert_data name freshness_period wire now) p h =
      insert_data_at-IsDeep (name_hash name) _ name (lookup (name_hash name) p.cs_map) p h

  run-IsDeep : (ops : List PitCsOp) → IsDeep (run_pit_cs ops)
  unfolding run_pit_cs
  run-IsDeep [] = unfold HasDepths in (refl, tt)
  run-IsDeep (op ∷ ops) = step-IsDeep op (run_pit_cs ops) (run-IsDeep ops)

  length_keys : (name : Name) → length (map hash name) ≡ length name
  length_keys [] = refl
  length_keys (c ∷ name) = ground (arith, length_keys name)

  found-IsMatch :
      (ops : List PitCsOp) (name : Name) (e : PitEntry)
      → Occurs e (find_interest_prefix_match_by_name hash name (run_pit_cs ops))
        ↔ IsMatch (held hash (run_pit_cs ops).root) (map hash name) e
  found-IsMatch ops name e =
      subst (λ es. Occurs e es ↔ IsMatch (held hash (run_pit_cs ops).root) (map hash name) e)
        (sym (find_interest_prefix_match_by_name-along hash name (run_pit_cs ops) (run-IsDeep ops)))
        (matches_along-IsMatch hash e (length name) 0 (held hash (run_pit_cs ops).root)
          (map hash name) (let keys = length_keys name in omega (arith, keys)))

  kept-IsMatch :
      (gone e : PitEntry) (p : PitCsTree) (ks : List ℕ)
      → e.token ≢ gone.token
      → IsMatch (held hash (remove_interest hash gone p).0.root) ks e
        ↔ IsMatch (held hash p.root) ks e
  kept-IsMatch gone e p ks other = (
    λ i. record {
      before = i.before;
      after = i.after;
      split = i.split;
      here = (remove_interest-keeps hash gone e p i.before other).0 i.here;
      fits = i.fits;
    },
    λ i. record {
      before = i.before;
      after = i.after;
      split = i.split;
      here = (remove_interest-keeps hash gone e p i.before other).1 i.here;
      fits = i.fits;
    },
  )

  -- After any sequence of calls, a Data name finds an entry just when the table holds it under some first
  -- keys of the name, and the entry may be a prefix or these are all of its keys. A removal of an entry
  -- changes nothing of that for the entries with other tokens.
  pub run_pit_cs-matches :
      (ops : List PitCsOp) (name : Name) (e gone : PitEntry)
      → e.token ≢ gone.token
      → (Occurs e (find_interest_prefix_match_by_name hash name (run_pit_cs ops))
          ↔ IsMatch (held hash (run_pit_cs ops).root) (map hash name) e)
        × (Occurs e (
              find_interest_prefix_match_by_name hash name
                (remove_interest hash gone (run_pit_cs ops)).0)
            ↔ IsMatch (held hash (run_pit_cs ops).root) (map hash name) e)
  run_pit_cs-matches ops name e gone other =
      let after = found-IsMatch (op_remove_interest gone ∷ ops) name e in
      let kept = kept-IsMatch gone e (run_pit_cs ops) (map hash name) other in
      (
        found-IsMatch ops name e,
        unfold run_pit_cs pit_cs_step in (λ o. kept.0 (after.0 o), λ i. after.1 (kept.1 i)),
      )
