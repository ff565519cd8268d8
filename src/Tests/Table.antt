-- ===== src/Tests/Table.antt =====
-- The small tables of a forwarding thread.
use ndn_bier.Prelude.{ℕ, ◌≡◌, refl, inl, true, false, Option, some, List, [], ◌∷◌, arith, All}
use ndn_bier.Prelude.Maps.{lookup, insert, delete}
use ndn_bier.Encoding.Name.{Name, bytes_equal, component_equal, components_equal, equal, is_prefix}
use ndn_bier.Table.DeadNonceList.{
  DeadNonceList, push, is_present, remove_loop, remove_expired_entries, nonce_key, find,
  insert_nonce, queued,
}
use ndn_bier.Table.DeadNonceList.Agreement.{IsValid, remove_expired_entries-keeps}
use ndn_bier.Table.NetworkRegion.{has_region, add_region, is_producer}
use ndn_bier.Table.CsLru.{indices}
use ndn_bier.Table.CsLru.Order.{IsQueue, without, keep_last}
use ndn_bier.Table.CsLru.Runs.{
  LruOp, op_insert, op_use, op_erase, op_evict, run_lru, run_order, order_step, has_index,
  run_lru-order,
}
use ndn_bier.Table.CsLru.{
  CsLru, new_cs_lru, remove_element, push_back, after_insert, before_use, evict_loop, evict_entries,
}
use ndn_bier.Table.NextHops.{FibNextHopEntry}
use ndn_bier.Table.PitEntry.{PitEntry}
use ndn_bier.Table.Pet.{PetEntry}
use ndn_bier.Fw.Finalize.{finalize_interest, finalize_interest-All}

table_program : Unit {0}
unfolding lookup insert delete bytes_equal component_equal components_equal equal is_prefix push
    remove_loop remove_expired_entries nonce_key find insert_nonce queued has_region add_region
    is_producer remove_element push_back after_insert before_use evict_loop evict_entries
table_program = tt

abbrev region : Name
region = record { typ = 8; val = b'a' ∷ [] } ∷ []

abbrev inside : Name
inside = record { typ = 8; val = b'a' ∷ [] } ∷ record { typ = 8; val = b'b' ∷ [] } ∷ []

abbrev hash_zero : Name → ℕ
hash_zero name = 0

abbrev one_dead : DeadNonceList
one_dead = record {
  list = (7, true) ∷ [];
  expiration_queue = record { object = 7; priority = 500 } ∷ [];
}

one_dead-IsValid : IsValid one_dead
unfolding table_program
one_dead-IsValid = record { once = (tt, tt); agree = λ k. ground arith }

expired_test : (remove_expired_entries (λ i. 501) one_dead).list ≡ []
unfolding table_program
expired_test = refl

remove_expired_entries-keeps_example :
    IsValid (remove_expired_entries (λ i. 400) one_dead)
    × (is_present (lookup 7 (remove_expired_entries (λ i. 400) one_dead).list) ≡ true)
remove_expired_entries-keeps_example =
    remove_expired_entries-keeps (λ i. 400) one_dead (record { object = 7; priority = 500 })
      one_dead-IsValid (inl refl) (λ i. omega arith)

producer_test : is_producer inside (add_region region []) ≡ true
unfolding table_program
producer_test = refl

abbrev three_entries : CsLru
three_entries = before_use 1 (after_insert 3 (after_insert 2 (after_insert 1 new_cs_lru)))

evict_test : (evict_entries 1 three_entries).0 ≡ 2 ∷ 3 ∷ []
unfolding table_program
evict_test = refl

-- The FIB has one next hop for the router a.
abbrev next_hops_of : Name → List FibNextHopEntry
next_hops_of [] = []
next_hops_of (c ∷ rest) = record { nexthop = 10; cost = 1 } ∷ []

abbrev pet_of : Name → Option PetEntry
pet_of name =
    some (record { prefix = name; egress_routers = region ∷ []; next_hops = []; multicast = true })

abbrev expired_entry : PitEntry
expired_entry = record {
  encname = inside;
  can_be_prefix = false;
  must_be_fresh = false;
  forwarding_hint_new = [];
  in_records = [];
  out_records =
      (10, record { face = 10; latest_timestamp = 1; latest_nonce = 9; expiration_time = 2 }) ∷ [];
  expiration_time = 2;
  satisfied = false;
  token = 0;
}

finalize_interest-All_example :
    IsValid (finalize_interest hash_zero 6000 100 expired_entry 0 one_dead).1
    × All
        (λ r.
          find hash_zero 6000 inside r.1.latest_nonce
            (finalize_interest hash_zero 6000 100 expired_entry 0 one_dead).1
          ≡ true)
        expired_entry.out_records
finalize_interest-All_example =
    finalize_interest-All hash_zero 6000 100 expired_entry 0 one_dead one_dead-IsValid

-- Of four Data, the second is used again, the first is erased, and the capacity is two.
abbrev lru_ops : List LruOp
lru_ops =
    op_evict 2 ∷ op_erase 1 ∷ op_use 2 ∷ op_insert 4 ∷ op_insert 3 ∷ op_insert 2 ∷ op_insert 1 ∷ []

run_lru-order_example :
    IsQueue (run_lru lru_ops) × (indices (run_lru lru_ops).queue ≡ run_order lru_ops)
run_lru-order_example = run_lru-order lru_ops

lru_test : run_order lru_ops ≡ 4 ∷ 2 ∷ []
unfolding run_order order_step has_index without keep_last
lru_test = refl
