-- ===== src/Table/DeadNonceList/Agreement.antt =====
-- The list of dead nonces agrees with its queue, and keeps what has not expired.
use ndn_bier.Prelude.{
  ℕ, zero, suc, ◌+◌, ◌≡◌, ◌≢◌, ◌≤◌, inl, inr, refl, sym, ◌∙◌, Bool, true, false, not, ◌||◌, ◌&&◌,
  Option, none, some, List, [], ◌∷◌, ltb, leb, ◌==◌, ==_iff, if◌then◌else◌, arith, subst, All,
  Pairs, Occurs, Bool-cases, ap,
}
use ndn_bier.Prelude.Maps.{Map, lookup, delete, lookup-insert, lookup-delete}
use ndn_bier.Encoding.Name.{Name}
use ndn_bier.Table.DeadNonceList.{
  Item, DeadNonceList, push, is_present, remove_loop, remove_expired_entries, nonce_key, find,
  insert_nonce, queued,
}

-- The list and the queue have the same keys, each once.
pub record IsValid (d : DeadNonceList) : Type 0 where
  pub once : Pairs (λ x y. y.object ≢ x.object) d.expiration_queue
  pub agree : (k : ℕ) → is_present (lookup k d.list) ≡ queued k d.expiration_queue

queued-push : (key p k : ℕ) (q : List Item) → queued k (push key p q) ≡ (key == k || queued k q)
unfolding queued push
queued-push key p k [] = refl
queued-push key p k (x ∷ q) = ground (arith, queued-push key p k q)

absent-queued : (k : ℕ) (q : List Item) → All (λ y. y.object ≢ k) q → queued k q ≡ false
unfolding queued
absent-queued k [] h = refl
absent-queued k (x ∷ q) h = ground (arith, absent-queued k q h.1)

queued-absent : (k : ℕ) (q : List Item) → queued k q ≡ false → All (λ y. y.object ≢ k) q
unfolding queued
queued-absent k [] h = tt
queued-absent k (x ∷ q) h = (ground arith, queued-absent k q (ground arith))

push-All :
    (key p k : ℕ) (q : List Item)
    → key ≢ k
    → All (λ y. y.object ≢ k) q
    → All (λ y. y.object ≢ k) (push key p q)
unfolding push
push-All key p k [] n h = (n, tt)
push-All key p k (x ∷ q) n h = elim (Bool-cases (leb x.priority p)) [
  | inl before ↦ rw before (h.0, push-All key p k q n h.1)
  | inr here ↦ rw here (n, h)
]

push-Pairs :
    (key p : ℕ) (q : List Item)
    → All (λ y. y.object ≢ key) q
    → Pairs (λ x y. y.object ≢ x.object) q
    → Pairs (λ x y. y.object ≢ x.object) (push key p q)
unfolding push
push-Pairs key p [] a h = (tt, tt)
push-Pairs key p (x ∷ q) a h = elim (Bool-cases (leb x.priority p)) [
  | inl before ↦
      rw before (push-All key p x.object q (λ e. a.0 (sym e)) h.0, push-Pairs key p q a.1 h.1)
  | inr here ↦ rw here (a, h)
]

present_if :
    (b : Bool) (o : Option Bool) → is_present (if b then some true else o) ≡ (b || is_present o)
present_if true o = refl
present_if false o = refl

absent_if :
    (b : Bool) (o : Option Bool) → is_present (if b then none else o) ≡ (not b && is_present o)
absent_if true o = refl
absent_if false o = refl

module _ (hash : Name → ℕ) (lifetime : ℕ) (name : Name) (nonce now : ℕ) (d : DeadNonceList) where
  abbrev pub key : ℕ
  key = nonce_key hash lifetime name nonce

  pub insert_nonce-IsValid : IsValid d → IsValid (insert_nonce hash lifetime name nonce now d).0
  unfolding insert_nonce
  insert_nonce-IsValid v = elim (Bool-cases (is_present (lookup key d.list))) [
    | inl old ↦ rw old v
    | inr new ↦ rw new (record {
      once =
          push-Pairs key (now + lifetime) d.expiration_queue
            (queued-absent key d.expiration_queue (sym (v.agree key) ∙ new)) v.once;
      agree = λ k.
          ap is_present (lookup-insert key k true d.list)
          ∙ present_if (key == k) (lookup k d.list)
          ∙ ap (λ b. key == k || b) (v.agree k)
          ∙ sym (queued-push key (now + lifetime) k d.expiration_queue);
    })
  ]

  flag_lem : (insert_nonce hash lifetime name nonce now d).1 ≡ find hash lifetime name nonce d
  unfolding insert_nonce find
  flag_lem = elim (Bool-cases (is_present (lookup key d.list))) [
    | inl old ↦ rw old
    | inr new ↦ rw new
  ]

  pub present-insert_nonce :
      (k : ℕ)
      → is_present (lookup k (insert_nonce hash lifetime name nonce now d).0.list)
        ≡ (key == k || is_present (lookup k d.list))
  unfolding insert_nonce
  present-insert_nonce k = elim (Bool-cases (is_present (lookup key d.list))) [
    | inl old ↦ rw old (elim (Bool-cases (key == k)) [
      | inl same ↦
          rw same (subst (λ x. is_present (lookup x d.list) ≡ true) ((==_iff key k).0 same) old)
      | inr other ↦ rw other
    ])
    | inr new ↦
        rw new (
          ap is_present (lookup-insert key k true d.list) ∙ present_if (key == k) (lookup k d.list))
  ]

  -- Where the list and the queue have the same keys, each once, they do so after an insertion, which
  -- answers whether the name and the nonce were there, and adds their key and no other one.
  pub insert_nonce-adds :
      IsValid d
      → IsValid (insert_nonce hash lifetime name nonce now d).0
        × ((insert_nonce hash lifetime name nonce now d).1 ≡ find hash lifetime name nonce d)
        × ((k : ℕ)
            → is_present (lookup k (insert_nonce hash lifetime name nonce now d).0.list)
              ≡ (nonce_key hash lifetime name nonce == k || is_present (lookup k d.list)))
  insert_nonce-adds v = (insert_nonce-IsValid v, flag_lem, present-insert_nonce)

remove_loop-IsValid :
    (now : ℕ → ℕ) (left evicted : ℕ) (q : List Item) (list : Map Bool)
    → IsValid (record { list = list; expiration_queue = q })
    → IsValid (remove_loop now left evicted q list)
unfolding remove_loop
remove_loop-IsValid now zero evicted q list v = v
remove_loop-IsValid now (suc left) evicted [] list v = v
remove_loop-IsValid now (suc left) evicted (x ∷ q) list v =
    let next : IsValid (record { list = delete x.object list; expiration_queue = q }) = record {
      once = v.once.1;
      agree = λ k.
          ap is_present (lookup-delete x.object k list)
          ∙ absent_if (x.object == k) (lookup k list)
          ∙ popped k (v.agree k);
    } in
    elim (Bool-cases (ltb x.priority (now evicted))) [
      | inl expired ↦
          rw expired (remove_loop-IsValid now left (suc evicted) q (delete x.object list) next)
      | inr alive ↦ rw alive v
    ]
  where
    popped :
        (k : ℕ)
        → is_present (lookup k list) ≡ queued k (x ∷ q)
        → (not (x.object == k) && is_present (lookup k list)) ≡ queued k q
    popped k e = elim (Bool-cases (x.object == k)) [
      | inl same ↦ rw same (sym (absent-queued k q (rw ((==_iff x.object k).0 same) at v.once.0)))
      | inr other ↦ rw (other, e) (unfold queued in rw other)
    ]

remove_loop-keeps :
    (now : ℕ → ℕ) (left evicted : ℕ) (q : List Item) (list : Map Bool) (item : Item)
    → ((i : ℕ) → now i ≤ item.priority)
    → Occurs item q
    → Occurs item (remove_loop now left evicted q list).expiration_queue
unfolding remove_loop
remove_loop-keeps now zero evicted q list item early o = o
remove_loop-keeps now (suc left) evicted [] list item early o = absurd o
remove_loop-keeps now (suc left) evicted (x ∷ q) list item early o =
    elim (Bool-cases (ltb x.priority (now evicted))) [
      | inl expired ↦ rw expired (
          remove_loop-keeps now left (suc evicted) q (delete x.object list) item early
            (later expired o))
      | inr alive ↦ rw alive o
    ]
  where
    later : ltb x.priority (now evicted) ≡ true → Occurs item (x ∷ q) → Occurs item q
    later expired (inr o') = o'
    later expired (inl same) =
        let e = ap (λ i. i.priority) same in let n = early evicted in absurd (ground arith)

Occurs-queued : (item : Item) (q : List Item) → Occurs item q → queued item.object q ≡ true
unfolding queued
Occurs-queued item [] o = absurd o
Occurs-queued item (x ∷ q) (inl same) = let e = ap (λ i. i.object) same in ground arith
Occurs-queued item (x ∷ q) (inr o) = rw (Occurs-queued item q o) (ground arith)

-- Where the list and the queue have the same keys, each once, a key whose time has not come in any
-- round of a removal is still present afterwards, and the list and the queue agree again.
pub remove_expired_entries-keeps :
    (now : ℕ → ℕ) (d : DeadNonceList) (item : Item)
    → IsValid d
    → Occurs item d.expiration_queue
    → ((i : ℕ) → now i ≤ item.priority)
    → IsValid (remove_expired_entries now d)
      × (is_present (lookup item.object (remove_expired_entries now d).list) ≡ true)
unfolding remove_expired_entries
remove_expired_entries-keeps now d item v o early =
    let v' = remove_loop-IsValid now 100 0 d.expiration_queue d.list v in
    (
      v',
      v'.agree item.object
          ∙ Occurs-queued item _
              (remove_loop-keeps now 100 0 d.expiration_queue d.list item early o),
    )
