-- ===== src/Table/Pet.antt =====
-- The Prefix Egress Table: ndnd/fw/table/pet.go. Children are found by the hash of a component, and
-- egress routers by the hash of their name; both hashes are functions of a package that the code calls.
-- The names of a snapshot are in the order of their text, which is a parameter too.
pub mod Refinement
pub mod Invariant
pub mod Runs
use ndn_bier.Prelude.{
  ℕ, Bool, true, false, ◌&&◌, ◌||◌, Option, none, some, List, [], ◌∷◌, map, length, ltb, ◌==◌,
  if◌then◌else◌, sort_by,
}
use ndn_bier.Prelude.Maps.{Map, insert, delete}
use ndn_bier.Encoding.Name.{Component, Name}
use ndn_bier.Table.NameTree.{
  Node, Shape, node, leaf, payload, first_up, find_path, find_exact, fill_update, update_exact,
  prune, clean,
}
use ndn_bier.Table.NameTree.Walk.{walk}

pub record PetNextHop : Type 0 where
  pub face_id : ℕ
  pub cost : ℕ

pub record PetEntry : Type 0 where
  pub prefix : Name
  pub egress_routers : List Name
  pub next_hops : List PetNextHop
  pub multicast : Bool

pub record PetEntryState : Type 0 where
  pub name : Name
  pub egress : Map Name
  pub next_hops : Map PetNextHop
  pub multicast : Bool

-- The values of a map, in the order of a `range`.
abbrev pub values : {V : Type 0} → Map V → List V
values m = map (λ e. e.1) m

unfoldable pub snapshot : (Name → Name → Bool) → PetEntryState → PetEntry
snapshot before e = record {
  prefix = e.name;
  egress_routers = sort_by before (values e.egress);
  next_hops = sort_by (λ a b. ltb a.face_id b.face_id) (values e.next_hops);
  multicast = e.multicast;
}

abbrev pub has_entry : Option PetEntryState → Bool
has_entry none = false
has_entry (some e) = true

abbrev pub no_entry : Option PetEntryState → Bool
no_entry none = true
no_entry (some e) = false

abbrev pub pet_shape : (Component → ℕ) → Shape ℕ (Option PetEntryState)
pet_shape hash = record { same = λ a b. a == b; key = hash; fresh = none; is_empty = no_entry }

abbrev pub Pet : Type 0
Pet = Node ℕ (Option PetEntryState)

abbrev pub new_pet : Pet
new_pet = node [] none leaf

abbrev pub get_or_create_entry : Name → Option PetEntryState → PetEntryState
get_or_create_entry name none = record {
  name = name;
  egress = [];
  next_hops = [];
  multicast = false;
}
get_or_create_entry name (some e) = e

-- `len(egress) == 0 && len(nextHops) == 0`
abbrev pub is_vacant : PetEntryState → Bool
is_vacant e = length e.egress == 0 && length e.next_hops == 0

abbrev pub unless_vacant : PetEntryState → Option PetEntryState
unless_vacant e = if is_vacant e then none else some e

abbrev pub put_next_hop : Name → ℕ → ℕ → Option PetEntryState → Option PetEntryState
put_next_hop prefix face_id cost o =
    let e = get_or_create_entry prefix o in
    some (record e {
      next_hops = insert face_id (record { face_id = face_id; cost = cost }) e.next_hops;
    })

abbrev pub drop_next_hop : ℕ → Option PetEntryState → Option PetEntryState
drop_next_hop face_id none = none
drop_next_hop face_id (some e) = unless_vacant (record e { next_hops = delete face_id e.next_hops })

module _ (hash : Component → ℕ) (name_hash : Name → ℕ) where
  abbrev pub put_egress : Name → Name → Bool → Option PetEntryState → Option PetEntryState
  put_egress prefix egress multicast o =
      let e = get_or_create_entry prefix o in
      some (record e {
        egress = insert (name_hash egress) egress e.egress;
        multicast = if multicast then true else e.multicast;
      })

  abbrev pub drop_egress : Name → Option PetEntryState → Option PetEntryState
  drop_egress egress none = none
  drop_egress egress (some e) =
      unless_vacant (record e { egress = delete (name_hash egress) e.egress })

  unfoldable pub add_egress : Name → Name → Bool → Pet → Pet
  unfolding fill_update
  add_egress prefix egress multicast root =
      if length egress == 0
      then root
      else fill_update (pet_shape hash) prefix (put_egress prefix egress multicast) root

  unfoldable pub add_next_hop : Name → ℕ → ℕ → Pet → Pet
  unfolding fill_update
  add_next_hop prefix face_id cost root =
      fill_update (pet_shape hash) prefix (put_next_hop prefix face_id cost) root

  -- Nothing without an entry of exactly that prefix; the node is pruned when its entry goes.
  abbrev pub remove_from :
      Name → (Option PetEntryState → Option PetEntryState) → Option Pet → Pet → Pet
  remove_from prefix drop none root = root
  remove_from prefix drop (some n) root =
      let changed = update_exact (pet_shape hash) prefix drop root in
      let pruned = prune (pet_shape hash) prefix changed in
      if no_entry (payload n) then root else if no_entry (drop (payload n)) then pruned else changed

  unfoldable pub remove_egress : Name → Name → Pet → Pet
  unfolding find_exact update_exact prune
  remove_egress prefix egress root =
      if length egress == 0
      then root
      else remove_from prefix (drop_egress egress) (find_exact (pet_shape hash) prefix root) root

  unfoldable pub remove_next_hop : Name → ℕ → Pet → Pet
  unfolding find_exact update_exact prune
  remove_next_hop prefix face_id root =
      remove_from prefix (drop_next_hop face_id) (find_exact (pet_shape hash) prefix root) root

  unfoldable pub clean_up_face : ℕ → Pet → Pet
  unfolding clean
  clean_up_face face_id root = clean (pet_shape hash) (drop_next_hop face_id) root

  module _ (before : Name → Name → Bool) where
    abbrev pub snapshot_of : Option PetEntryState → Option PetEntry
    snapshot_of none = none
    snapshot_of (some e) = some (snapshot before e)

    abbrev pub entry_of : Option Pet → Option PetEntryState
    entry_of none = none
    entry_of (some n) = payload n

    unfoldable pub find_exact_entry : Name → Pet → Option PetEntry
    unfolding find_exact
    find_exact_entry prefix root = snapshot_of (entry_of (find_exact (pet_shape hash) prefix root))

    abbrev pub join : Option (Option PetEntryState) → Option PetEntryState
    join none = none
    join (some o) = o

    -- From the deepest node up, to the first one with an entry.
    unfoldable pub find_longest_prefix_entry : Name → Pet → Option PetEntry
    unfolding find_path first_up
    find_longest_prefix_entry name root =
        snapshot_of (join (first_up has_entry (find_path (pet_shape hash) name [] root)))

    -- The entries of the visited nodes.
    abbrev pub snapshots : List Pet → List PetEntry
    snapshots [] = []
    snapshots (n ∷ ns) = elim (payload n) [
      | none ↦ snapshots ns
      | some e ↦ snapshot before e ∷ snapshots ns
    ]

    unfoldable pub get_all_entries : Pet → List PetEntry
    unfolding walk
    get_all_entries root = snapshots (walk root)
