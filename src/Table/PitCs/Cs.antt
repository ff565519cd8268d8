-- ===== src/Table/PitCs/Cs.antt =====
-- Cached Data: ndnd/fw/table/pit-cs-tree.go.
use ndn_bier.Prelude.{
  ℕ, ◌+◌, ◌-◌, ◌||◌, not, Option, none, some, List, [], ◌∷◌, length, ltb, leb, if◌then◌else◌,
}
use ndn_bier.Prelude.Maps.{lookup, insert, delete}
use ndn_bier.Encoding.Name.{Component, Name}
use ndn_bier.Bier.Bits.{Bytes}
use ndn_bier.Fw.Packet.{FwInterest}
use ndn_bier.Table.CsLru.{after_insert, after_refresh, before_use, evict_entries}
use ndn_bier.Table.NameTree.{
  Children, node, leaf, child, payload, find_exact, fill_update, update_exact,
}
use ndn_bier.Table.PitCs.{CsEntry, PitCsNode, PitCsTree, PitCsValue, pit_cs_shape, with_cs_entry}

abbrev pub first_found : Option CsEntry → Option CsEntry → Option CsEntry
first_found none other = other
first_found (some e) other = some e

module _ (hash : Component → ℕ) where
  -- A Content Store entry that may answer: any, or one that is not stale yet.
  abbrev pub answers : FwInterest → ℕ → Option CsEntry → Option CsEntry
  answers interest now none = none
  answers interest now (some e) =
      if not interest.must_be_fresh_v || ltb now e.stale_time then some e else none

  -- The node itself, and then what is below it.
  unfoldable mutual
    pub find_matching_data_cs_prefix : FwInterest → ℕ → PitCsNode → Option CsEntry
    find_matching_data_cs_prefix interest now (node name v cs) =
        let below = find_matching_data_below interest now cs in
        first_found (answers interest now v.cs_entry)
          (if leb (length interest.name_v) (length name) then below else none)

    pub find_matching_data_below : FwInterest → ℕ → Children ℕ PitCsValue → Option CsEntry
    find_matching_data_below interest now leaf = none
    find_matching_data_below interest now (child k n cs) =
        first_found (find_matching_data_cs_prefix interest now n)
          (find_matching_data_below interest now cs)

  abbrev pub used : Option CsEntry → PitCsTree → Option CsEntry × PitCsTree
  used none p = (none, p)
  used (some e) p = (some e, record p { cs_replacement = before_use e.index p.cs_replacement })

  abbrev pub find_data_at :
      FwInterest → ℕ → Option PitCsNode → PitCsTree → Option CsEntry × PitCsTree
  find_data_at interest now none p = (none, p)
  find_data_at interest now (some n) p =
      if interest.can_be_prefix_v
      then (find_matching_data_cs_prefix interest now n, p)
      else used (answers interest now (payload n).cs_entry) p

  -- Only an exact match tells the replacement policy of its use.
  unfoldable pub find_matching_data_from_cs :
      FwInterest → ℕ → PitCsTree → Option CsEntry × PitCsTree
  unfolding find_exact find_matching_data_cs_prefix before_use
  find_matching_data_from_cs interest now p =
      find_data_at interest now (find_exact (pit_cs_shape hash) interest.name_v p.root) p

  abbrev pub erase_at : ℕ → Option Name → PitCsTree → PitCsTree
  erase_at index none p = p
  erase_at index (some name) p = record p {
    root = update_exact (pit_cs_shape hash) name (with_cs_entry none) p.root;
    cs_map = delete index p.cs_map;
    n_cs_entries = p.n_cs_entries - 1;
  }

  -- The node of an erased entry is not pruned.
  unfoldable pub erase_cs_data_from_replacement_strategy : ℕ → PitCsTree → PitCsTree
  unfolding lookup delete update_exact
  erase_cs_data_from_replacement_strategy index p = erase_at index (lookup index p.cs_map) p

  unfoldable pub erase_all : List ℕ → PitCsTree → PitCsTree
  unfolding erase_cs_data_from_replacement_strategy
  erase_all [] p = p
  erase_all (index ∷ indexes) p =
      erase_all indexes (erase_cs_data_from_replacement_strategy index p)

  abbrev pub with_eviction : ℕ → PitCsTree → PitCsTree
  with_eviction capacity p =
      let (erased, l) = evict_entries capacity p.cs_replacement in
      erase_all erased (record p { cs_replacement = l })

  abbrev pub stale_time_of : ℕ → Option ℕ → ℕ
  stale_time_of now none = now
  stale_time_of now (some freshness) = now + freshness

  abbrev pub refresh_data : ℕ → CsEntry → Name → PitCsTree → PitCsTree
  refresh_data index e name p = record p {
    root = update_exact (pit_cs_shape hash) name (with_cs_entry (some e)) p.root;
    cs_replacement = after_refresh index p.cs_replacement;
  }

  abbrev pub insert_new_data : ℕ → CsEntry → Name → ℕ → PitCsTree → PitCsTree
  insert_new_data index e name capacity p = with_eviction capacity (record p {
    root = fill_update (pit_cs_shape hash) name (with_cs_entry (some e)) p.root;
    n_cs_entries = p.n_cs_entries + 1;
    cs_map = insert index name p.cs_map;
    cs_replacement = after_insert index p.cs_replacement;
  })

  abbrev pub insert_data_at : ℕ → CsEntry → Name → ℕ → Option Name → PitCsTree → PitCsTree
  insert_data_at index e name capacity none p = insert_new_data index e name capacity p
  insert_data_at index e name capacity (some old) p = refresh_data index e old p

  -- A Data packet of that name and freshness period goes into the Content Store.
  unfoldable pub insert_data : (Name → ℕ) → ℕ → Name → Option ℕ → Bytes → ℕ → PitCsTree → PitCsTree
  unfolding lookup insert update_exact fill_update after_insert after_refresh evict_entries
      erase_all
  insert_data name_hash capacity name freshness_period wire now p =
      let e : CsEntry = record {
        index = name_hash name;
        wire = wire;
        stale_time = stale_time_of now freshness_period;
      } in
      insert_data_at (name_hash name) e name capacity (lookup (name_hash name) p.cs_map) p
