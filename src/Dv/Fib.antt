-- ===== src/Dv/Fib.antt =====
-- The FIB of distance-vector routing, ndnd/dv/table/fib.go, and the commands that it gives to the
-- forwarder, in order. `nfdc.Exec` queues a command; its retries are not modelled.
pub mod Merge
pub mod Replay
pub mod Mirror
use ndn_bier.Prelude.{
  ℕ, Bool, true, false, not, Option, none, some, List, [], ◌∷◌, ◌++◌, map, ltb, leb, ◌==◌, min,
  if◌then◌else◌, length,
}
use ndn_bier.Prelude.Maps.{Map, lookup, insert, delete}
use ndn_bier.Encoding.Name.{Name}
use ndn_bier.Dv.Rib.{Rib, RibEntry, cost_infinity}

abbrev pub cost_pfx_infinity : ℕ
cost_pfx_infinity = 0xffff_ffff

pub record FibEntry : Type 0 where
  pub face_id : ℕ
  pub cost : ℕ
  pub prev_cost : ℕ

pub record Fib : Type 0 where
  pub names : Map Name
  pub prefixes : Map (List FibEntry)
  pub mark : Map Bool

-- Commands of the module "rib", with the arguments that the code sets.
pub data Command : Type 0 where
  register : (name : Name) (face_id cost : ℕ) → Command
  unregister : (name : Name) (face_id : ℕ) → Command

-- One hop of `GetFibEntries`; `face_of` is `NeighborTable.GetH` and the face of what it finds.
abbrev pub hop_entry : ℕ → Option ℕ → List FibEntry
hop_entry cost none = []
hop_entry cost (some face) =
    if ltb cost cost_infinity
    then record { face_id = face; cost = cost; prev_cost = 0 } ∷ []
    else []

-- `none` is the panic of a router that the RIB does not have.
unfoldable pub get_fib_entries : (ℕ → Option ℕ) → ℕ → Rib → Option (List FibEntry)
get_fib_entries face_of router r = elim (lookup router r.entries) [
  | none ↦ none
  | some e ↦ some (
      hop_entry e.best.lowest1 (face_of e.best.next_hop1)
      ++ hop_entry e.best.lowest2 (face_of e.best.next_hop2))
]

abbrev pub expire : FibEntry → FibEntry
expire e = record e { prev_cost = e.cost; cost = cost_pfx_infinity }

-- A new entry lowers the cost of its face, or is appended.
unfoldable pub absorb : FibEntry → List FibEntry → List FibEntry
absorb new [] = record new { prev_cost = cost_pfx_infinity } ∷ []
absorb new (old ∷ olds) =
    if old.face_id == new.face_id
    then record old { cost = min new.cost old.cost } ∷ olds
    else old ∷ absorb new olds

unfoldable pub merge_new : List FibEntry → List FibEntry → List FibEntry
merge_new olds [] = olds
merge_new olds (new ∷ news) =
    merge_new (if leb cost_pfx_infinity new.cost then olds else absorb new olds) news

unfoldable pub unregisters : Name → List FibEntry → List Command
unregisters name [] = []
unregisters name (e ∷ es) =
    if leb cost_pfx_infinity e.cost
    then unregister name e.face_id ∷ unregisters name es
    else unregisters name es

unfoldable pub final_entries : List FibEntry → List FibEntry
final_entries [] = []
final_entries (e ∷ es) =
    if leb cost_pfx_infinity e.cost then final_entries es else e ∷ final_entries es

unfoldable pub registers : Name → List FibEntry → List Command
registers name [] = []
registers name (e ∷ es) =
    if e.cost == e.prev_cost
    then registers name es
    else register name e.face_id e.cost ∷ registers name es

abbrev pub entries_or_empty : Option (List FibEntry) → List FibEntry
entries_or_empty none = []
entries_or_empty (some es) = es

abbrev pub with_name : ℕ → Name → Map Name → Option Name → Map Name
with_name name_h name m (some known) = m
with_name name_h name m none = insert name_h name m

-- The last part of `UpdateH`.
abbrev pub store : ℕ → Fib → List FibEntry → Fib × Bool
store name_h fib (e ∷ es) = (record fib { prefixes = insert name_h (e ∷ es) fib.prefixes }, true)
store name_h fib [] = (
  record {
    names = delete name_h fib.names;
    prefixes = delete name_h fib.prefixes;
    mark = delete name_h fib.mark;
  },
  false,
)

-- The entries that `UpdateH` works on after the merge.
unfoldable pub merged : ℕ → List FibEntry → Fib → List FibEntry
merged name_h new_entries fib =
    merge_new (map expire (entries_or_empty (lookup name_h fib.prefixes))) new_entries

-- The table, the commands, and whether the prefix has an entry.
unfoldable pub update_h : ℕ → Name → List FibEntry → Fib → Fib × List Command × Bool
update_h name_h name new_entries fib =
    let named = record fib { names = with_name name_h name fib.names (lookup name_h fib.names) } in
    let es = merged name_h new_entries fib in
    let finals = final_entries es in
    let (fib', found) = store name_h named finals in
    (fib', unregisters name es ++ registers name finals, found)

unfoldable pub mark_h : ℕ → Fib → Fib
mark_h name fib = record fib { mark = insert name true fib.mark }

unfoldable pub unmark_all : Fib → Fib
unmark_all fib = record fib { mark = [] }

abbrev pub is_marked : Option Bool → Bool
is_marked none = false
is_marked (some b) = b

-- The loop of `RemoveUnmarked` over the keys of `prefixes`.
unfoldable pub remove_unmarked_loop : Map (List FibEntry) → Fib → Fib × List Command
remove_unmarked_loop [] fib = (fib, [])
remove_unmarked_loop (p ∷ ps) fib =
    if is_marked (lookup p.0 fib.mark)
    then remove_unmarked_loop ps fib
    else elim (lookup p.0 fib.names) [
      | none ↦ remove_unmarked_loop ps fib
      | some name ↦
          let (fib', commands, found) = update_h p.0 name [] fib in
          let (fib'', others) = remove_unmarked_loop ps fib' in (fib'', commands ++ others)
    ]

unfoldable pub remove_unmarked : Fib → Fib × List Command
remove_unmarked fib = remove_unmarked_loop fib.prefixes fib
