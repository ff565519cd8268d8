-- ===== src/Table/DeadNonceList.antt =====
-- ndnd/fw/table/dead-nonce-list.go over ndnd/std/types/priority_queue. The queue is kept in the
-- order in which it is popped; which of two equal priorities comes first is open in Go, and the
-- older one here. The clock is read once for an insertion and once for each round of the removal.
pub mod Agreement
use ndn_bier.Prelude.{
  ℕ, zero, suc, ◌+◌, ◌%◌, ◌^◌, ◌≡◌, ◌≢◌, ◌≤◌, ◌<◌, inl, inr, refl, sym, ◌∙◌, Bool, true, false, not,
  ◌||◌, ◌&&◌, Option, none, some, List, [], ◌∷◌, ltb, leb, ◌==◌, ==_iff, if◌then◌else◌, arith, All,
  Pairs, Occurs, Bool-cases, ap,
}
use ndn_bier.Prelude.Maps.{Map, lookup, insert, delete, lookup-insert, lookup-delete}
use ndn_bier.Encoding.Name.{Name}

pub record Item : Type 0 where
  pub object : ℕ
  pub priority : ℕ

pub record DeadNonceList : Type 0 where
  pub list : Map Bool
  pub expiration_queue : List Item

abbrev pub new_dead_nonce_list : DeadNonceList
new_dead_nonce_list = record { list = []; expiration_queue = [] }

-- `Push` of the priority queue.
unfoldable pub push : ℕ → ℕ → List Item → List Item
push object priority [] = record { object = object; priority = priority } ∷ []
push object priority (x ∷ q) =
    if leb x.priority priority
    then x ∷ push object priority q
    else record { object = object; priority = priority } ∷ x ∷ q

abbrev pub is_present : Option Bool → Bool
is_present none = false
is_present (some b) = true

-- One round of the removal after another; `left` rounds of the hundred are left.
unfoldable pub remove_loop : (ℕ → ℕ) → ℕ → ℕ → List Item → Map Bool → DeadNonceList
remove_loop now zero evicted q list = record { list = list; expiration_queue = q }
remove_loop now (suc left) evicted [] list = record { list = list; expiration_queue = [] }
remove_loop now (suc left) evicted (x ∷ q) list =
    let rest = remove_loop now left (suc evicted) q (delete x.object list) in
    if ltb x.priority (now evicted) then rest else record { list = list; expiration_queue = x ∷ q }

unfoldable pub remove_expired_entries : (ℕ → ℕ) → DeadNonceList → DeadNonceList
remove_expired_entries now d = remove_loop now 100 0 d.expiration_queue d.list

module _ (hash : Name → ℕ) (lifetime : ℕ) where
  -- `name.Hash() + uint64(nonce)`
  unfoldable pub nonce_key : Name → ℕ → ℕ
  nonce_key name nonce = (hash name + nonce) % 2 ^ 64

  unfoldable pub find : Name → ℕ → DeadNonceList → Bool
  find name nonce d = is_present (lookup (nonce_key name nonce) d.list)

  unfoldable pub insert_nonce : Name → ℕ → ℕ → DeadNonceList → DeadNonceList × Bool
  insert_nonce name nonce now d =
      let key = nonce_key name nonce in
      if is_present (lookup key d.list) then (d, true) else (
        record {
          list = insert key true d.list;
          expiration_queue = push key (now + lifetime) d.expiration_queue;
        },
        false,
      )

-- The queue has the key.
unfoldable pub queued : ℕ → List Item → Bool
queued k [] = false
queued k (x ∷ q) = x.object == k || queued k q
