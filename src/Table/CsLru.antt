-- ===== src/Table/CsLru.antt =====
-- ndnd/fw/table/cs-lru.go. An element of Go's `container/list` is a pointer: here it has a number,
-- and the numbers are given out in order. Removing an element that is not in the list any more does
-- nothing. What the Content Store erases is returned, oldest first.
pub mod Order
pub mod Moves
pub mod Runs
use ndn_bier.Prelude.{
  ℕ, ◌+◌, ◌≡◌, ◌≤◌, inl, inr, refl, ap, Option, none, some, List, [], ◌∷◌, ◌++◌, map, ltb, ◌==◌,
  if◌then◌else◌, length, min, arith, Bool-cases,
}
use ndn_bier.Prelude.Maps.{Map, lookup, insert, delete}

pub record CsLru : Type 0 where
  pub queue : List (ℕ × ℕ)
  pub locations : Map ℕ
  pub next_element : ℕ

abbrev pub new_cs_lru : CsLru
new_cs_lru = record { queue = []; locations = []; next_element = 0 }

unfoldable pub remove_element : ℕ → List (ℕ × ℕ) → List (ℕ × ℕ)
remove_element id [] = []
remove_element id (x ∷ q) = if x.0 == id then q else x ∷ remove_element id q

-- `l.locations[index] = l.queue.PushBack(index)`
unfoldable pub push_back : ℕ → CsLru → CsLru
push_back index l = record {
  queue = l.queue ++ (l.next_element, index) ∷ [];
  locations = insert index l.next_element l.locations;
  next_element = l.next_element + 1;
}

unfoldable pub after_insert : ℕ → CsLru → CsLru
after_insert index l = push_back index l

abbrev pub unlink : Option ℕ → CsLru → CsLru
unlink none l = l
unlink (some location) l = record l { queue = remove_element location l.queue }

-- `AfterRefresh` and `BeforeUse` have the same body.
unfoldable pub after_refresh : ℕ → CsLru → CsLru
after_refresh index l = push_back index (unlink (lookup index l.locations) l)

unfoldable pub before_use : ℕ → CsLru → CsLru
before_use index l = push_back index (unlink (lookup index l.locations) l)

unfoldable pub before_erase : ℕ → CsLru → CsLru
before_erase index l = elim (lookup index l.locations) [
  | none ↦ l
  | some location ↦ record (unlink (some location) l) { locations = delete index l.locations }
]

-- The loop of `EvictEntries`: the indices that are erased, and the queue that is left.
unfoldable pub evict_loop : ℕ → List (ℕ × ℕ) → List ℕ × List (ℕ × ℕ)
evict_loop capacity [] = ([], [])
evict_loop capacity (x ∷ q) =
    let (erased, rest) = evict_loop capacity q in
    if ltb capacity (length (x ∷ q)) then (x.1 ∷ erased, rest) else ([], x ∷ q)

unfoldable pub evict_entries : ℕ → CsLru → List ℕ × CsLru
evict_entries capacity l =
    let (erased, rest) = evict_loop capacity l.queue in (erased, record l { queue = rest })

abbrev pub indices : List (ℕ × ℕ) → List ℕ
indices q = map (λ x. x.1) q

-- The indices that were erased, oldest first, then those that are left, as many as fit.
pub record IsEvicted (capacity : ℕ) (q : List (ℕ × ℕ)) (erased : List ℕ) (rest : List (ℕ × ℕ))
    : Type 0 where
  pub order : indices q ≡ erased ++ indices rest
  pub size : length rest ≡ min capacity (length q)

evict_loop-IsEvicted :
    (capacity : ℕ) (q : List (ℕ × ℕ))
    → IsEvicted capacity q (evict_loop capacity q).0 (evict_loop capacity q).1
unfolding evict_loop
evict_loop-IsEvicted capacity [] = record { order = refl; size = omega arith }
evict_loop-IsEvicted capacity (x ∷ q) = elim (Bool-cases (ltb capacity (length (x ∷ q)))) [
  | inl full ↦
      let r = evict_loop-IsEvicted capacity q in
      let more : capacity ≤ length q = ground arith in
      let s = r.size in rw full (record { order = ap (λ l. x.1 ∷ l) r.order; size = omega arith })
  | inr room ↦
      let fits : length (x ∷ q) ≤ capacity = ground arith in
      rw room (record { order = refl; size = omega arith })
]

-- Eviction erases the indices at the front of the queue, in order, and keeps the others: all
-- of them if they fit, and else as many as the capacity.
pub evict_entries-IsEvicted :
    (capacity : ℕ) (l : CsLru)
    → IsEvicted capacity l.queue (evict_entries capacity l).0 (evict_entries capacity l).1.queue
unfolding evict_entries
evict_entries-IsEvicted capacity l = evict_loop-IsEvicted capacity l.queue
