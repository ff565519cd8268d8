-- ===== src/Tests/Bier.antt =====
-- A table of four routers, its bit-strings and its masks.
use ndn_bier.Prelude.{ℕ, ◌≡◌, refl, true, false, some, List, [], ◌∷◌, ◌==◌}
use ndn_bier.Prelude.Maps.{lookup, insert}
use ndn_bier.Encoding.Name.{Name}
use ndn_bier.Table.NextHops.{FibNextHopEntry, sort_by_cost, insert_by_cost, sort_onto}
use ndn_bier.Bier.Bits.{
  Bytes, bier_get_bit, grow, bier_set_bit, bier_clear_bit, bier_and, bier_and_not, bier_is_zero,
}
use ndn_bier.Bier.Bift.{
  BiftEntry, BiftState, empty, register_router, get_router_bfr_id, build_bier_bit_string,
  build_loop, update_next_hop, max_bit, face_groups, set_all, face_fbms, assign_fbm, rebuild_fbm,
  use_best, refresh_next_hops, build_from_fib_pet, neighbor_loop, get_neighbor_entries,
}
use ndn_bier.Bier.Bift.Groups.{reaches}
use ndn_bier.Bier.Bift.Masks.{HasMasks, rebuild_fbm-HasMasks}
use ndn_bier.Bier.Bift.Invariant.{
  IsValid, hop, register_router-IsValid, update_next_hop-IsValid, rebuild_fbm-IsValid,
}
use ndn_bier.Bier.Bift.Runs.{Reach, here, next, register, update, Reach-IsValid}
use ndn_bier.Bier.Bift.Refresh.{chosen, build_from_fib_pet-hop}

unfoldable pub bift_program : Unit {0}
unfolding bier_get_bit grow bier_set_bit bier_clear_bit bier_and bier_and_not bier_is_zero
    register_router get_router_bfr_id build_bier_bit_string build_loop update_next_hop max_bit
    face_groups set_all face_fbms assign_fbm rebuild_fbm use_best refresh_next_hops
    build_from_fib_pet neighbor_loop get_neighbor_entries lookup insert insert_by_cost sort_onto
    sort_by_cost reaches
bift_program = tt

-- A router's name is one component of one byte.
abbrev pub router : ℕ → Name
router n = record { typ = 8; val = n ∷ [] } ∷ []

abbrev pub first_byte : Name → ℕ
first_byte [] = 0
first_byte (c ∷ rest) = byte c.val
  where
    byte : List ℕ → ℕ
    byte [] = 0
    byte (b ∷ bs) = b

abbrev pub registered : BiftState
registered = register_router first_byte (router 4) 9 (
    register_router first_byte (router 3) 2
      (register_router first_byte (router 2) 1 (register_router first_byte (router 1) 0 empty)))

pub registered-IsValid : IsValid registered
registered-IsValid = register_router-IsValid first_byte (router 4) 9 _ (
    register_router-IsValid first_byte (router 3) 2 _ (
      register_router-IsValid first_byte (router 2) 1 _ (
        register_router-IsValid first_byte (router 1) 0 empty
          (record { distinct = tt; keyed = tt }))))

-- Routers 1 and 2 are behind face 10, and router 9 is behind face 20.
abbrev routed_table : BiftState
routed_table = update_next_hop 9 20 (update_next_hop 2 10 (update_next_hop 1 10 registered))

abbrev pub table : BiftState
table = rebuild_fbm routed_table

pub table-IsValid : IsValid table
table-IsValid = rebuild_fbm-IsValid routed_table (
    update_next_hop-IsValid 9 20 _
      (update_next_hop-IsValid 2 10 _ (update_next_hop-IsValid 1 10 _ registered-IsValid)))

pub table-HasMasks : HasMasks table
table-HasMasks = rebuild_fbm-HasMasks routed_table

table-neighbors :
    get_neighbor_entries table
    ≡ record { face_id = 10; fbm = 6 ∷ 0 ∷ [] } ∷ record { face_id = 20; fbm = 0 ∷ 2 ∷ [] } ∷ []
unfolding bift_program
table-neighbors = refl

bit_string_test :
    build_bier_bit_string first_byte (router 4 ∷ router 7 ∷ router 2 ∷ []) table ≡ 2 ∷ 2 ∷ []
unfolding bift_program
bit_string_test = refl

fib : Name → List FibNextHopEntry
fib name = elim (first_byte name == 3) [
  | true ↦ record { nexthop = 30; cost = 7 } ∷ record { nexthop = 31; cost = 4 } ∷ []
  | false ↦ []
]

refresh_test : hop (build_from_fib_pet fib table).entries 2 ≡ 31
unfolding bift_program fib
refresh_test = refl

stale_test : hop (build_from_fib_pet fib table).entries 9 ≡ 20
unfolding bift_program fib
stale_test = refl

abbrev router_3_entry : BiftEntry
router_3_entry = record {
  bfr_id = 2;
  router_name = router 3;
  next_hop = 10;
  fbm = some (6 ∷ 0 ∷ []);
}

router_3 : lookup 2 table.entries ≡ some router_3_entry
unfolding bift_program
router_3 = refl

build_from_fib_pet-hop_example :
    IsValid (build_from_fib_pet fib table)
    × HasMasks (build_from_fib_pet fib table)
    × (hop (build_from_fib_pet fib table).entries 2 ≡ chosen (sort_by_cost (fib (router 3))) 10)
build_from_fib_pet-hop_example =
    build_from_fib_pet-hop fib table 2 router_3_entry table-IsValid router_3

registered-Reach :
    Reach first_byte empty (update_next_hop 2 10 (register_router first_byte (router 3) 2 empty))
registered-Reach = next (next here (register empty (router 3) 2)) (update _ 2 10)

Reach-IsValid_example :
    IsValid (update_next_hop 2 10 (register_router first_byte (router 3) 2 empty))
    × IsValid (rebuild_fbm (update_next_hop 2 10 (register_router first_byte (router 3) 2 empty)))
    × HasMasks (rebuild_fbm (update_next_hop 2 10 (register_router first_byte (router 3) 2 empty)))
Reach-IsValid_example = Reach-IsValid registered-Reach

rebuild_fbm-HasMasks_example : HasMasks (rebuild_fbm routed_table)
rebuild_fbm-HasMasks_example = rebuild_fbm-HasMasks routed_table

router_9_reached : reaches table.entries 20 9 ≡ true
unfolding bift_program
router_9_reached = refl

-- {1, 2, 9}
abbrev three : Bytes
three = 6 ∷ 2 ∷ []

three_not_zero : bier_is_zero three ≡ false
unfolding bift_program
three_not_zero = refl
