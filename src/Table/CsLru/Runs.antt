-- ===== src/Table/CsLru/Runs.antt =====
-- Any sequence of calls on the queue of ndnd/fw/table/cs-lru.go.
use ndn_bier.Prelude.{
  ℕ, ◌≡◌, ◌≢◌, refl, ◌∙◌, ap, Bool, true, false, none, some, List, [], ◌∷◌, ◌++◌, ◌==◌,
  if◌then◌else◌, arith, All, Bool-cases, Option-cases, inl, inr,
}
use ndn_bier.Prelude.Maps.{Map, lookup, delete, lookup-delete}
use ndn_bier.Table.CsLru.{
  CsLru, new_cs_lru, push_back, after_insert, after_refresh, before_use, before_erase, unlink,
  evict_entries, indices,
}
use ndn_bier.Table.CsLru.Order.{
  IsQueue, without, keep_last, All-evict_loop, evict_loop-Distinct, indices-evict_loop,
}
use ndn_bier.Table.CsLru.Moves.{IsUnlinked, unlink-IsUnlinked, indices-push, push_back-IsQueue}

-- A call on the queue. An index is inserted only when it has no element, as the Content Store does it.
pub data LruOp : Type 0 where
  op_insert op_refresh op_use op_erase : ℕ → LruOp
  op_evict : ℕ → LruOp

unfoldable pub has_index : ℕ → List ℕ → Bool
has_index i [] = false
has_index i (j ∷ js) = if j == i then true else has_index i js

unfoldable pub lru_step : LruOp → CsLru → CsLru
unfolding after_insert after_refresh before_use before_erase evict_entries
lru_step (op_insert i) l = if has_index i (indices l.queue) then l else after_insert i l
lru_step (op_refresh i) l = after_refresh i l
lru_step (op_use i) l = before_use i l
lru_step (op_erase i) l = before_erase i l
lru_step (op_evict capacity) l = (evict_entries capacity l).1

-- The same on the list of indices.
unfoldable pub order_step : LruOp → List ℕ → List ℕ
unfolding without keep_last
order_step (op_insert i) js = if has_index i js then js else js ++ i ∷ []
order_step (op_refresh i) js = without i js ++ i ∷ []
order_step (op_use i) js = without i js ++ i ∷ []
order_step (op_erase i) js = without i js
order_step (op_evict capacity) js = keep_last capacity js

record IsOrdered (js : List ℕ) (l : CsLru) : Type 0 where
  is_queue : IsQueue l
  order : indices l.queue ≡ js

not_indexed : (i : ℕ) (q : List (ℕ × ℕ)) → has_index i (indices q) ≡ false → All (λ x. x.1 ≢ i) q
unfolding has_index
not_indexed i [] h = tt
not_indexed i (x ∷ q) h = ground (arith, h, not_indexed i q)

push-IsOrdered :
    (i : ℕ) (l : CsLru)
    → IsQueue l
    → All (λ x. x.1 ≢ i) l.queue
    → IsOrdered (indices l.queue ++ i ∷ []) (push_back i l)
push-IsOrdered i l h gone = record {
  is_queue = push_back-IsQueue i l h gone;
  order = unfold push_back in indices-push l.queue (l.next_element, i);
}

move-IsOrdered :
    (i : ℕ) (l : CsLru)
    → IsQueue l
    → IsOrdered
        (without i (indices l.queue) ++ i ∷ [])
        (push_back i (unlink (lookup i l.locations) l))
move-IsOrdered i l h =
    let u = unlink-IsUnlinked i l h in
    let p = push-IsOrdered i (unlink (lookup i l.locations) l) u.is_queue u.gone in
    record { is_queue = p.is_queue; order = p.order ∙ ap (λ js. js ++ i ∷ []) u.order }

erase-IsOrdered :
    (i : ℕ) (l : CsLru) → IsQueue l → IsOrdered (without i (indices l.queue)) (before_erase i l)
unfolding before_erase
erase-IsOrdered i l h = elim (Option-cases (lookup i l.locations)) [
  | inl missing ↦
      let u = unlink-IsUnlinked i l h in
      rw (missing, before_erase) (record { is_queue = h; order = (rw missing at u.order) })
  | inr (id, at) ↦
      let u = unlink-IsUnlinked i l h in
      let u' : IsUnlinked i l (unlink (some id) l) = (rw at at u) in
      rw (at, before_erase)
        (record { is_queue = erased i (unlink (some id) l) u'.is_queue u'.gone; order = u'.order })
]
  where
    owned_still :
        (i : ℕ) (locations : Map ℕ) (q : List (ℕ × ℕ))
        → All (λ x. (j : ℕ) → lookup j locations ≡ some x.0 → j ≡ x.1) q
        → All (λ x. (j : ℕ) → lookup j (delete i locations) ≡ some x.0 → j ≡ x.1) q
    owned_still i locations [] o = tt
    owned_still i locations (x ∷ q) o = (
      λ j e. o.0 j (ground (arith, lookup-delete i j locations, e)),
      owned_still i locations q o.1,
    )

    located_still :
        (i : ℕ) (locations : Map ℕ) (q : List (ℕ × ℕ))
        → All (λ x. x.1 ≢ i) q
        → All (λ x. lookup x.1 locations ≡ some x.0) q
        → All (λ x. lookup x.1 (delete i locations) ≡ some x.0) q
    located_still i locations [] gone l = tt
    located_still i locations (x ∷ q) gone l = (
      lookup-delete i x.1 locations ∙ ground (arith, gone.0, l.0),
      located_still i locations q gone.1 l.1,
    )

    erased :
        (i : ℕ) (l : CsLru)
        → IsQueue l
        → All (λ x. x.1 ≢ i) l.queue
        → IsQueue (record l { locations = delete i l.locations })
    erased i l h gone = record {
      bounded = λ j id e. h.bounded j id (ground (arith, lookup-delete i j l.locations, e));
      owned = owned_still i l.locations l.queue h.owned;
      located = located_still i l.locations l.queue gone h.located;
      distinct = h.distinct;
    }

insert-IsOrdered :
    (i : ℕ) (l : CsLru)
    → IsQueue l
    → IsOrdered (order_step (op_insert i) (indices l.queue)) (lru_step (op_insert i) l)
unfolding lru_step order_step after_insert
insert-IsOrdered i l h = elim (Bool-cases (has_index i (indices l.queue))) [
  | inl there ↦ rw there (record { is_queue = h; order = refl })
  | inr absent ↦ rw absent (push-IsOrdered i l h (not_indexed i l.queue absent))
]

evict-IsOrdered :
    (capacity : ℕ) (l : CsLru)
    → IsQueue l
    → IsOrdered (keep_last capacity (indices l.queue)) (evict_entries capacity l).1
unfolding evict_entries
evict-IsOrdered capacity l h = record {
  is_queue = record {
    bounded = h.bounded;
    owned = All-evict_loop _ capacity l.queue h.owned;
    located = All-evict_loop _ capacity l.queue h.located;
    distinct = evict_loop-Distinct capacity l.queue h.distinct;
  };
  order = indices-evict_loop capacity l.queue;
}

step-IsOrdered :
    (op : LruOp) (l : CsLru)
    → IsQueue l
    → IsOrdered (order_step op (indices l.queue)) (lru_step op l)
unfolding lru_step order_step after_refresh before_use
step-IsOrdered (op_insert i) l h = insert-IsOrdered i l h
step-IsOrdered (op_refresh i) l h = move-IsOrdered i l h
step-IsOrdered (op_use i) l h = move-IsOrdered i l h
step-IsOrdered (op_erase i) l h = erase-IsOrdered i l h
step-IsOrdered (op_evict capacity) l h = evict-IsOrdered capacity l h

-- The calls in the order of the list, the last one at its head.
unfoldable pub run_lru : List LruOp → CsLru
unfolding lru_step
run_lru [] = new_cs_lru
run_lru (op ∷ ops) = lru_step op (run_lru ops)

unfoldable pub run_order : List LruOp → List ℕ
unfolding order_step
run_order [] = []
run_order (op ∷ ops) = order_step op (run_order ops)

-- After any sequence of calls, in which an index is inserted only when it has no element, the queue holds
-- the indices in the order of their last use, and every element is where the location of its index
-- points to: inserting appends an index, refreshing and using move it to the end, erasing takes it out,
-- and eviction keeps the last ones that fit.
pub run_lru-order :
    (ops : List LruOp) → IsQueue (run_lru ops) × (indices (run_lru ops).queue ≡ run_order ops)
unfolding run_lru run_order
run_lru-order [] = (
  record {
    bounded = λ j id e. absurd (unfold lookup in apart id e);
    owned = tt;
    located = tt;
    distinct = tt;
  },
  refl,
)
  where
    apart : (id : ℕ) → none ≡ some id → ⊥
    apart id e = cc
run_lru-order (op ∷ ops) =
    let before = run_lru-order ops in
    let after = step-IsOrdered op (run_lru ops) before.0 in
    (after.is_queue, after.order ∙ ap (order_step op) before.1)
