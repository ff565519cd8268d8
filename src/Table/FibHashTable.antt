-- ===== src/Table/FibHashTable.antt =====
-- The FIB-strategy table as a hash table with virtual names of length `m`:
-- ndnd/fw/table/fib-strategy-hashtable.go. `PrefixHash` is the hash of every prefix of a name. The set of
-- the names of a virtual name is keyed by the bytes of a name in the code, and by the name here.
pub mod NameSets
pub mod Invariant
pub mod Lookups
pub mod Runs
pub mod Refinement
pub mod Hops
pub mod Agreement
use ndn_bier.Prelude.{
  ℕ, zero, suc, Bool, true, false, ◌&&◌, ◌||◌, Option, none, some, List, [], ◌∷◌, length, take, leb,
  ltb, ◌==◌, max, min, if◌then◌else◌, map,
}
use ndn_bier.Prelude.Maps.{Map, lookup, insert, delete}
use ndn_bier.Encoding.Name.{Name, equal}
use ndn_bier.Table.NextHops.{FibNextHopEntry}
use ndn_bier.Table.FibEntry.{
  FibValue, no_value, no_information, has_next_hops, has_strategy, put_value_hop,
  swap_out_value_hop, clear_value_hops, set_value_strategy, put_hop, swap_out_hop, is_set,
}
use ndn_bier.Table.FibTree.{hops_of, strategy_of}

pub record RealEntry : Type 0 where
  pub name : Name
  pub value : FibValue

pub record FibHashTable : Type 0 where
  pub real_table : Map RealEntry
  -- The length of the longest name of each virtual name.
  pub virt_table : Map ℕ
  -- The names of each virtual name, with their lengths.
  pub virt_table_names : Map (List (Name × ℕ))

abbrev pub or_else : {A : Type 0} → Option A → Option A → Option A
or_else (some a) other = some a
or_else none other = other

abbrev pub is_found : {A : Type 0} → Option A → Bool
is_found none = false
is_found (some a) = true

unfoldable pub has_name : Name → List (Name × ℕ) → Bool
has_name name [] = false
has_name name (e ∷ set) = if equal e.0 name then true else has_name name set

unfoldable pub delete_name : Name → List (Name × ℕ) → List (Name × ℕ)
delete_name name [] = []
delete_name name (e ∷ set) =
    if equal e.0 name then delete_name name set else e ∷ delete_name name set

unfoldable pub put_name : Name → List (Name × ℕ) → List (Name × ℕ)
unfolding has_name
put_name name set = if has_name name set then set else (name, length name) ∷ set

abbrev pub set_or_empty : Option (List (Name × ℕ)) → List (Name × ℕ)
set_or_empty none = []
set_or_empty (some set) = set

abbrev pub longer : ℕ → Option ℕ → ℕ
longer n none = n
longer n (some md) = max md n

-- `md = max(md, l)` for each length.
unfoldable pub longest_of : ℕ → List (Name × ℕ) → ℕ
longest_of md [] = md
longest_of md (e ∷ set) = longest_of (max md e.1) set

module _ (hash : Name → ℕ) (m : ℕ) where
  unfoldable pub new_fib_hash_table : Name → FibHashTable
  unfolding insert
  new_fib_hash_table default_strategy = record {
    real_table =
        (
          hash [],
          record { name = []; value = record { nexthops = []; strategy = some default_strategy } },
        )
        ∷ [];
    virt_table = [];
    virt_table_names = [];
  }

  -- The real entry of the longest prefix of at most `pfx` components.
  unfoldable pub scan_real : Map RealEntry → Name → ℕ → Option RealEntry
  unfolding lookup
  scan_real real name zero = lookup (hash (take 0 name)) real
  scan_real real name (suc pfx) =
      or_else (lookup (hash (take (suc pfx) name)) real) (scan_real real name pfx)

  -- The same over prefixes that are longer than virtual names.
  unfoldable pub scan_above : Map RealEntry → Name → ℕ → Option RealEntry
  unfolding lookup
  scan_above real name zero = none
  scan_above real name (suc pfx) =
      let rest = scan_above real name pfx in
      if ltb m (suc pfx) then or_else (lookup (hash (take (suc pfx) name)) real) rest else none

  abbrev pub scan_virtual : Map RealEntry → Name → Option ℕ → Option RealEntry
  scan_virtual real name none = none
  scan_virtual real name (some md) = scan_above real name (min md (length name))

  unfoldable pub find_longest_prefix_match : Name → FibHashTable → Option RealEntry
  unfolding lookup scan_real scan_above
  find_longest_prefix_match name t =
      if leb (length name) m
      then scan_real t.real_table name (length name)
      else or_else (scan_virtual t.real_table name (lookup (hash (take m name)) t.virt_table))
          (scan_real t.real_table name m)

  abbrev pub entry_or_new : Name → Option RealEntry → RealEntry
  entry_or_new name none = record { name = name; value = no_value }
  entry_or_new name (some e) = e

  -- The tables with an entry for the name, whose value is changed.
  unfoldable pub insert_entry : Name → (FibValue → FibValue) → FibHashTable → FibHashTable
  unfolding lookup insert put_name
  insert_entry name f t =
      let e = entry_or_new name (lookup (hash name) t.real_table) in
      let real = insert (hash name) (record e { value = f e.value }) t.real_table in
      let virt = hash (take m name) in
      let names = put_name name (set_or_empty (lookup virt t.virt_table_names)) in
      if leb m (length name)
      then record {
        real_table = real;
        virt_table = insert virt (longer (length name) (lookup virt t.virt_table)) t.virt_table;
        virt_table_names = insert virt names t.virt_table_names;
      }
      else record t { real_table = real }

  -- The names of a virtual name without one of them; nothing is left of an empty set.
  abbrev pub drop_virtual_name :
      Name → Option ℕ → Option (List (Name × ℕ)) → Map (List (Name × ℕ)) → Map (List (Name × ℕ))
  drop_virtual_name name none names table = table
  drop_virtual_name name (some md) none table = table
  drop_virtual_name name (some md) (some set) table =
      let rest = delete_name name set in
      if has_name name set
      then if length rest == 0
        then delete (hash (take m name)) table
        else insert (hash (take m name)) rest table
      else table

  -- The longest length of a virtual name, when one of its names went.
  abbrev pub drop_virtual : Name → Option ℕ → Option (List (Name × ℕ)) → Map ℕ → Map ℕ
  drop_virtual name none names table = table
  drop_virtual name (some md) none table =
      if length name == md then delete (hash (take m name)) table else table
  drop_virtual name (some md) (some set) table =
      if length name == md then insert (hash (take m name)) (longest_of md set) table else table

  unfoldable pub prune_tables : RealEntry → FibHashTable → FibHashTable
  unfolding lookup insert delete has_name delete_name longest_of
  prune_tables e t =
      let virt = hash (take m e.name) in
      let md = lookup virt t.virt_table in
      let names = drop_virtual_name e.name md (lookup virt t.virt_table_names) t.virt_table_names in
      let real = delete (hash e.name) t.real_table in
      if no_information e.value
      then if leb m (length e.name)
        then record {
          real_table = real;
          virt_table = drop_virtual e.name md (lookup virt names) t.virt_table;
          virt_table_names = names;
        }
        else record t { real_table = real }
      else t

  -- An entry that the code changes in place, and then prunes.
  abbrev pub change_entry :
      Name → (FibValue → FibValue) → Option RealEntry → FibHashTable → FibHashTable
  change_entry name f none t = t
  change_entry name f (some e) t =
      let changed = record e { value = f e.value } in
      prune_tables changed (record t { real_table = insert (hash name) changed t.real_table })

  -- The first value that a test accepts, of the prefixes of at most `pfx` components.
  abbrev pub accepted : (FibValue → Bool) → Option RealEntry → Option FibValue
  accepted accepts none = none
  accepted accepts (some e) = if accepts e.value then some e.value else none

  unfoldable pub scan_value : (FibValue → Bool) → Map RealEntry → Name → ℕ → Option FibValue
  unfolding lookup
  scan_value accepts real name zero = accepted accepts (lookup (hash (take 0 name)) real)
  scan_value accepts real name (suc pfx) =
      or_else (accepted accepts (lookup (hash (take (suc pfx) name)) real))
        (scan_value accepts real name pfx)

  abbrev pub scan_from :
      (FibValue → Bool) → Map RealEntry → Name → Option RealEntry → Option FibValue
  scan_from accepts real name none = none
  scan_from accepts real name (some e) = scan_value accepts real name (length e.name)

  unfoldable pub find_next_hops : Name → FibHashTable → List FibNextHopEntry
  unfolding find_longest_prefix_match scan_value
  find_next_hops name t =
      hops_of (scan_from has_next_hops t.real_table name (find_longest_prefix_match name t))

  unfoldable pub find_strategy : Name → FibHashTable → Option Name
  unfolding find_longest_prefix_match scan_value
  find_strategy name t =
      strategy_of (scan_from has_strategy t.real_table name (find_longest_prefix_match name t))

  unfoldable pub insert_next_hop : Name → ℕ → ℕ → FibHashTable → FibHashTable
  unfolding insert_entry put_hop
  insert_next_hop name nexthop cost t = insert_entry name (put_value_hop nexthop cost) t

  unfoldable pub clear_next_hops : Name → FibHashTable → FibHashTable
  unfolding prune_tables lookup insert
  clear_next_hops name t = change_entry name clear_value_hops (lookup (hash name) t.real_table) t

  -- Nothing changes, and nothing is pruned, without a next hop to the face.
  abbrev pub has_hop : ℕ → List FibNextHopEntry → Bool
  has_hop nexthop [] = false
  has_hop nexthop (nh ∷ nhs) = if nh.nexthop == nexthop then true else has_hop nexthop nhs

  abbrev pub remove_from_entry : Name → ℕ → Option RealEntry → FibHashTable → FibHashTable
  remove_from_entry name nexthop none t = t
  remove_from_entry name nexthop (some e) t =
      if has_hop nexthop e.value.nexthops
      then change_entry name (swap_out_value_hop nexthop) (some e) t
      else t

  unfoldable pub remove_next_hop : Name → ℕ → FibHashTable → FibHashTable
  unfolding prune_tables lookup insert swap_out_hop
  remove_next_hop name nexthop t =
      remove_from_entry name nexthop (lookup (hash name) t.real_table) t

  unfoldable pub set_strategy : Name → Name → FibHashTable → FibHashTable
  unfolding insert_entry
  set_strategy name strategy t = insert_entry name (set_value_strategy (some strategy)) t

  unfoldable pub unset_strategy : Name → FibHashTable → FibHashTable
  unfolding prune_tables lookup insert
  unset_strategy name t =
      change_entry name (set_value_strategy none) (lookup (hash name) t.real_table) t

  abbrev pub get_num_fib_entries : FibHashTable → ℕ
  get_num_fib_entries t = length t.real_table
