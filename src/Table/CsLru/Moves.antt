-- ===== src/Table/CsLru/Moves.antt =====
-- Unlinking the element of an index from the queue, and pushing a new one: ndnd/fw/table/cs-lru.go.
use ndn_bier.Prelude.{
  ℕ, ◌≡◌, ◌≢◌, ◌<◌, refl, sym, ◌∙◌, ap, none, some, List, [], ◌∷◌, ◌++◌, ◌==◌, ==_iff, arith, All,
  Bool-cases, Option-cases, inl, inr,
}
use ndn_bier.Prelude.Maps.{Map, lookup, insert, Distinct, lookup-insert}
use ndn_bier.Table.CsLru.{CsLru, push_back, unlink, indices}
use ndn_bier.Table.CsLru.Order.{
  IsQueue, without, some_injective, All-remove_element, remove_element-Distinct, without-absent,
  remove_element-without,
}

-- A queue without the index, and otherwise as it was.
pub record IsUnlinked (i : ℕ) (l l' : CsLru) : Type 0 where
  pub is_queue : IsQueue l'
  pub gone : All (λ x. x.1 ≢ i) l'.queue
  pub order : indices l'.queue ≡ without i (indices l.queue)

never_located :
    (locations : Map ℕ) (i : ℕ) (q : List (ℕ × ℕ))
    → lookup i locations ≡ none
    → All (λ x. lookup x.1 locations ≡ some x.0) q
    → All (λ x. x.1 ≢ i) q
never_located locations i [] missing l = tt
never_located locations i (x ∷ q) missing l = (
  λ same. apart x.0 (sym missing ∙ ap (λ k. lookup k locations) (sym same) ∙ l.0),
  never_located locations i q missing l.1,
)
  where
    apart : (k : ℕ) → none ≡ some k → ⊥
    apart k e = cc

pub unlink-IsUnlinked :
    (i : ℕ) (l : CsLru) → IsQueue l → IsUnlinked i l (unlink (lookup i l.locations) l)
unlink-IsUnlinked i l h = elim (Option-cases (lookup i l.locations)) [
  | inl missing ↦
      let gone = never_located l.locations i l.queue missing h.located in
      rw missing (record { is_queue = h; gone = gone; order = sym (without-absent i l.queue gone) })
  | inr (id, at) ↦
      let removed =
        remove_element-without l.locations i id at l.queue h.owned h.located h.distinct in
      rw at (record {
        is_queue = record {
          bounded = h.bounded;
          owned = All-remove_element _ id l.queue h.owned;
          located = All-remove_element _ id l.queue h.located;
          distinct = remove_element-Distinct id l.queue h.distinct;
        };
        gone = removed.0;
        order = removed.1;
      })
]

All-push : (P : ℕ × ℕ → Type 0) (q : List (ℕ × ℕ)) (x : ℕ × ℕ) → All P q → P x → All P (q ++ x ∷ [])
All-push P [] x h p = (p, tt)
All-push P (y ∷ q) x h p = (h.0, All-push P q x h.1 p)

push-Distinct :
    (q : List (ℕ × ℕ)) (x : ℕ × ℕ) → Distinct q → All (λ y. y.0 < x.0) q → Distinct (q ++ x ∷ [])
push-Distinct [] x d h = (tt, tt)
push-Distinct (y ∷ q) x d h =
    (All-push (λ f. f.0 ≢ y.0) q x d.0 (λ e. ground (arith, h.0, e)), push-Distinct q x d.1 h.1)

pub indices-push : (q : List (ℕ × ℕ)) (x : ℕ × ℕ) → indices (q ++ x ∷ []) ≡ indices q ++ x.1 ∷ []
indices-push [] x = refl
indices-push (y ∷ q) x = ap (λ js. y.1 ∷ js) (indices-push q x)

module _ (i : ℕ) (l : CsLru) (h : IsQueue l) where
  still_located :
      (q : List (ℕ × ℕ))
      → All (λ x. x.1 ≢ i) q
      → All (λ x. lookup x.1 l.locations ≡ some x.0) q
      → All (λ x. lookup x.1 (insert i l.next_element l.locations) ≡ some x.0) q
  still_located [] gone located = tt
  still_located (x ∷ q) gone located = (
    lookup-insert i x.1 l.next_element l.locations ∙ ground (arith, gone.0, located.0),
    still_located q gone.1 located.1,
  )

  still_owned :
      (q : List (ℕ × ℕ))
      → All (λ x. lookup x.1 l.locations ≡ some x.0) q
      → All (λ x. (j : ℕ) → lookup j l.locations ≡ some x.0 → j ≡ x.1) q
      → All (λ x. (j : ℕ) → lookup j (insert i l.next_element l.locations) ≡ some x.0 → j ≡ x.1) q
  still_owned [] located owned = tt
  still_owned (x ∷ q) located owned = (
    λ j e. elim (Bool-cases (i == j)) [
      | inl same ↦
          let e' = sym (lookup-insert i j l.next_element l.locations) ∙ e in
          let at : some l.next_element ≡ some x.0 = (rw same at e') in
          let low = h.bounded x.1 x.0 located.0 in
          let equal = some_injective l.next_element x.0 at in absurd (omega (arith, low, equal))
      | inr other ↦
          let e' = sym (lookup-insert i j l.next_element l.locations) ∙ e in
          let at : lookup j l.locations ≡ some x.0 = (rw other at e') in owned.0 j at
    ],
    still_owned q located.1 owned.1,
  )

  all_low :
      (q : List (ℕ × ℕ))
      → All (λ x. lookup x.1 l.locations ≡ some x.0) q
      → All (λ x. x.0 < l.next_element) q
  all_low [] located = tt
  all_low (x ∷ q) located = (h.bounded x.1 x.0 located.0, all_low q located.1)

  pub push_back-IsQueue : All (λ x. x.1 ≢ i) l.queue → IsQueue (push_back i l)
  unfolding push_back
  push_back-IsQueue gone = record {
    bounded = λ j id e. elim (Bool-cases (i == j)) [
      | inl same ↦
          let e' = sym (lookup-insert i j l.next_element l.locations) ∙ e in
          let at : some l.next_element ≡ some id = (rw same at e') in
          let equal = some_injective l.next_element id at in omega (arith, equal)
      | inr other ↦
          let e' = sym (lookup-insert i j l.next_element l.locations) ∙ e in
          let at : lookup j l.locations ≡ some id = (rw other at e') in
          let low = h.bounded j id at in omega (arith, low)
    ];
    owned =
        All-push _ l.queue (l.next_element, i) (still_owned l.queue h.located h.owned)
          (λ j e. elim (Bool-cases (i == j)) [
            | inl same ↦ sym ((==_iff i j).0 same)
            | inr other ↦
                let e' = sym (lookup-insert i j l.next_element l.locations) ∙ e in
                let at : lookup j l.locations ≡ some l.next_element = (rw other at e') in
                let low = h.bounded j l.next_element at in absurd (omega (arith, low))
          ]);
    located =
        All-push _ l.queue (l.next_element, i) (still_located l.queue gone h.located)
          (lookup-insert i i l.next_element l.locations ∙ ground arith);
    distinct = push-Distinct l.queue (l.next_element, i) h.distinct (all_low l.queue h.located);
  }
