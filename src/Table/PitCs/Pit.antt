-- ===== src/Table/PitCs/Pit.antt =====
-- Pending Interests: ndnd/fw/table/pit-cs-tree.go. The queue of expirations is not modelled.
use ndn_bier.Prelude.{
  ℕ, ◌+◌, ◌-◌, ◌%◌, ◌^◌, Bool, true, false, ◌&&◌, ◌||◌, not, Option, none, some, List, [], ◌∷◌,
  ◌++◌, length, ◌==◌, if◌then◌else◌, filter, find_first, replace_first, swap_out,
}
use ndn_bier.Prelude.Maps.{Map, lookup, insert, delete}
use ndn_bier.Encoding.Name.{Component, Name, equal}
use ndn_bier.Fw.Packet.{FwInterest}
use ndn_bier.Table.PitEntry.{PitEntry, PitInRecord, set_expiration_time}
use ndn_bier.Table.NameTree.{
  payload, node_name, find_path, find_exact, fill_update, update_exact, prune,
}
use ndn_bier.Table.PitCs.{
  PitCsNode, PitCsTree, PitCsValue, pit_cs_shape, pit_token_lookup_table_size, with_pit_entries,
}

-- `uint32` of the counter; the index in the table of tokens.
unfoldable pub new_pit_token : PitCsTree → ℕ
new_pit_token p = (p.n_pit_token + 1) % 2 ^ 32

unfoldable pub pit_token_idx : ℕ → ℕ
pit_token_idx token = token % pit_token_lookup_table_size

abbrev pub same_flag : Bool → Bool → Bool
same_flag true b = b
same_flag false b = not b

-- A hint that is nil equals one that is nil or empty.
unfoldable pub is_same_interest : FwInterest → Name → PitEntry → Bool
is_same_interest interest hint e =
    same_flag e.can_be_prefix interest.can_be_prefix_v
    && same_flag e.must_be_fresh interest.must_be_fresh_v
    && equal hint e.forwarding_hint_new

unfoldable pub has_nonce_of_other_face : ℕ → ℕ → Map PitInRecord → Bool
has_nonce_of_other_face in_face nonce [] = false
has_nonce_of_other_face in_face nonce (r ∷ rs) =
    if not (r.0 == in_face) && r.1.latest_nonce == nonce
    then true
    else has_nonce_of_other_face in_face nonce rs

abbrev pub has_token : ℕ → PitEntry → Bool
has_token token e = e.token == token

-- The table after an insertion, the entry, and whether the nonce is a duplicate.
pub record Inserted : Type 0 where
  pub pit_cs : PitCsTree
  pub entry : PitEntry
  pub is_duplicate : Bool

abbrev pub new_entry : FwInterest → Name → ℕ → PitEntry
new_entry interest hint token = record {
  encname = interest.name_v;
  can_be_prefix = interest.can_be_prefix_v;
  must_be_fresh = interest.must_be_fresh_v;
  forwarding_hint_new = hint;
  in_records = [];
  out_records = [];
  expiration_time = 0;
  satisfied = false;
  token = token;
}

module _ (hash : Component → ℕ) where
  abbrev pub entries_of : Option PitCsNode → List PitEntry
  entries_of none = []
  entries_of (some n) = (payload n).pit_entries

  unfoldable pub pit_entries_at : Name → PitCsNode → List PitEntry
  unfolding find_exact
  pit_entries_at name root = entries_of (find_exact (pit_cs_shape hash) name root)

  abbrev pub change_entries : Name → (List PitEntry → List PitEntry) → PitCsTree → PitCsTree
  change_entries name f p = record p {
    root = fill_update (pit_cs_shape hash) name (with_pit_entries f) p.root;
  }

  abbrev pub insert_new : FwInterest → Name → PitCsTree → Inserted
  insert_new interest hint p =
      let token = new_pit_token p in
      let e = new_entry interest hint token in
      record {
        pit_cs = record (change_entries interest.name_v (λ es. es ++ e ∷ []) p) {
          n_pit_entries = p.n_pit_entries + 1;
          n_pit_token = p.n_pit_token + 1;
          pit_tokens = insert (pit_token_idx token) (interest.name_v, token) p.pit_tokens;
        };
        entry = e;
        is_duplicate = false;
      }

  abbrev pub insert_found : FwInterest → ℕ → PitEntry → PitCsTree → Inserted
  insert_found interest in_face e p =
      let reset = set_expiration_time 0 e in
      if has_nonce_of_other_face in_face interest.nonce_v e.in_records
      then record { pit_cs = p; entry = e; is_duplicate = true }
      else record {
        pit_cs = change_entries interest.name_v (replace_first (has_token e.token) reset) p;
        entry = reset;
        is_duplicate = false;
      }

  abbrev pub insert_as : FwInterest → Name → ℕ → Option PitEntry → PitCsTree → Inserted
  insert_as interest hint in_face none p = insert_new interest hint p
  insert_as interest hint in_face (some e) p = insert_found interest in_face e p

  -- One more than 2^64 Interests would wrap the counter of tokens.
  unfoldable pub insert_interest : FwInterest → Name → ℕ → PitCsTree → Inserted
  unfolding pit_entries_at is_same_interest has_nonce_of_other_face fill_update new_pit_token
      pit_token_idx insert
  insert_interest interest hint in_face p =
      insert_as interest hint in_face
        (find_first (is_same_interest interest hint) (pit_entries_at interest.name_v p.root)) p

  -- What a caller changes of an entry that it holds.
  unfoldable pub write_entry : PitEntry → PitCsTree → PitCsTree
  unfolding update_exact
  write_entry e p = record p {
    root =
        update_exact (pit_cs_shape hash) e.encname
          (with_pit_entries (replace_first (has_token e.token) e)) p.root;
  }

  abbrev pub without_token : ℕ → Map (Name × ℕ) → Map (Name × ℕ)
  without_token token tokens = elim (lookup (pit_token_idx token) tokens) [
    | none ↦ tokens
    | some (name, t) ↦ if t == token then delete (pit_token_idx token) tokens else tokens
  ]

  abbrev pub is_some : Option PitEntry → Bool
  is_some none = false
  is_some (some e) = true

  unfoldable pub remove_interest : PitEntry → PitCsTree → PitCsTree × Bool
  unfolding pit_entries_at update_exact prune lookup delete pit_token_idx
  remove_interest e p =
      let found = is_some (find_first (has_token e.token) (pit_entries_at e.encname p.root)) in
      let changed =
        update_exact (pit_cs_shape hash) e.encname (with_pit_entries (swap_out (has_token e.token)))
          p.root in
      if found
      then (
        record p {
          root = prune (pit_cs_shape hash) e.encname changed;
          n_pit_entries = p.n_pit_entries - 1;
          pit_tokens = without_token e.token p.pit_tokens;
        },
        true,
      )
      else (p, false)

  unfoldable pub find_interest_exact_match : FwInterest → PitCsTree → Option PitEntry
  unfolding pit_entries_at
  find_interest_exact_match interest p =
      find_first
        (λ e.
          same_flag e.can_be_prefix interest.can_be_prefix_v
          && same_flag e.must_be_fresh interest.must_be_fresh_v)
        (pit_entries_at interest.name_v p.root)

  -- An entry matches a name of `len` components at a node of some depth.
  abbrev pub matching : ℕ → ℕ → PitCsValue → List PitEntry
  matching len depth v = filter (λ e. e.can_be_prefix || depth == len) v.pit_entries

  unfoldable pub gather_up : ℕ → List PitCsNode → List PitEntry
  gather_up len [] = []
  gather_up len (n ∷ up) = matching len (length (node_name n)) (payload n) ++ gather_up len up

  unfoldable pub find_interest_prefix_match_by_name : Name → PitCsTree → List PitEntry
  unfolding find_path gather_up
  find_interest_prefix_match_by_name name p =
      gather_up (length name) (find_path (pit_cs_shape hash) name [] p.root)

  -- The entry that the table of tokens has for the token of the Data, if it has that token still.
  abbrev pub entry_by_token : ℕ → Option (Name × ℕ) → PitCsTree → Option PitEntry
  entry_by_token token none p = none
  entry_by_token token (some (name, t)) p =
      if t == token then find_first (has_token token) (pit_entries_at name p.root) else none

  abbrev pub one_or_by_name : Name → Option PitEntry → PitCsTree → List PitEntry
  one_or_by_name name (some e) p = e ∷ []
  one_or_by_name name none p = find_interest_prefix_match_by_name name p

  abbrev pub find_interest_prefix_match_by_data : Name → Option ℕ → PitCsTree → List PitEntry
  find_interest_prefix_match_by_data name none p = find_interest_prefix_match_by_name name p
  find_interest_prefix_match_by_data name (some token) p =
      one_or_by_name name (entry_by_token token (lookup (pit_token_idx token) p.pit_tokens) p) p
