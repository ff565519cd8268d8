-- ===== src/Table/PitCs.antt =====
-- The PIT and the Content Store in one name tree: ndnd/fw/table/pit-cs-tree.go. A pointer to an entry is
-- the name of its node and its token, or its index; pools only save allocations. `now` is the time of
-- the call. Pit is about pending Interests, Cs about cached Data.
pub mod Pit
pub mod Cs
pub mod Matches
pub mod Found
pub mod Runs
use ndn_bier.Prelude.{
  ℕ, ◌+◌, ◌-◌, ◌%◌, ◌^◌, Bool, true, false, ◌&&◌, ◌||◌, not, Option, none, some, List, [], ◌∷◌,
  ◌++◌, length, ltb, leb, ◌==◌, if◌then◌else◌, map, filter, find_first, replace_first, swap_out,
}
use ndn_bier.Prelude.Maps.{Map, lookup, insert, delete}
use ndn_bier.Encoding.Name.{Component, Name, equal}
use ndn_bier.Bier.Bits.{Bytes}
use ndn_bier.Fw.Packet.{FwInterest}
use ndn_bier.Table.PitEntry.{PitEntry, PitInRecord, set_expiration_time}
use ndn_bier.Table.CsLru.{CsLru, new_cs_lru, after_insert, after_refresh, before_use, evict_entries}
use ndn_bier.Table.NameTree.{
  Node, Children, Shape, node, leaf, child, payload, node_name, find_path, find_exact, fill_update,
  update_exact, prune,
}

pub record CsEntry : Type 0 where
  pub index : ℕ
  pub wire : Bytes
  pub stale_time : ℕ

pub record PitCsValue : Type 0 where
  pub pit_entries : List PitEntry
  pub cs_entry : Option CsEntry

abbrev pub is_nil_entry : Option CsEntry → Bool
is_nil_entry none = true
is_nil_entry (some e) = false

abbrev pub pit_cs_shape : (Component → ℕ) → Shape ℕ PitCsValue
pit_cs_shape hash = record {
  same = λ a b. a == b;
  key = hash;
  fresh = record { pit_entries = []; cs_entry = none };
  is_empty = λ v. length v.pit_entries == 0 && is_nil_entry v.cs_entry;
}

abbrev pub PitCsNode : Type 0
PitCsNode = Node ℕ PitCsValue

pub record PitCsTree : Type 0 where
  pub root : PitCsNode
  pub n_pit_entries : ℕ
  pub n_pit_token : ℕ
  pub pit_tokens : Map (Name × ℕ)
  pub n_cs_entries : ℕ
  pub cs_replacement : CsLru
  pub cs_map : Map Name

abbrev pub new_pit_cs : PitCsTree
new_pit_cs = record {
  root = node [] (record { pit_entries = []; cs_entry = none }) leaf;
  n_pit_entries = 0;
  n_pit_token = 0;
  pit_tokens = [];
  n_cs_entries = 0;
  cs_replacement = new_cs_lru;
  cs_map = [];
}

abbrev pub pit_token_lookup_table_size : ℕ
pit_token_lookup_table_size = 125_000

abbrev pub with_pit_entries : (List PitEntry → List PitEntry) → PitCsValue → PitCsValue
with_pit_entries f v = record v { pit_entries = f v.pit_entries }

abbrev pub with_cs_entry : Option CsEntry → PitCsValue → PitCsValue
with_cs_entry e v = record v { cs_entry = e }
