-- ===== src/Table/CsLru/Order.antt =====
-- The queue of ndnd/fw/table/cs-lru.go as a list of indices, from the one unused for longest to the last
-- one used.
use ndn_bier.Prelude.{
  ℕ, suc, ◌≡◌, ◌≢◌, ◌<◌, refl, sym, ◌∙◌, ap, false, some, List, [], ◌∷◌, length, ltb, ◌==◌, ==_iff,
  if◌then◌else◌, arith, All, Bool-cases, inl, inr,
}
use ndn_bier.Prelude.Maps.{Map, lookup, Distinct}
use ndn_bier.Table.CsLru.{CsLru, remove_element, evict_loop, indices}

-- The elements have numbers of their own, and an element is where the location of its index points to,
-- and no other location.
pub record IsQueue (l : CsLru) : Type 0 where
  pub bounded : (j id : ℕ) → lookup j l.locations ≡ some id → id < l.next_element
  pub owned : All (λ x. (j : ℕ) → lookup j l.locations ≡ some x.0 → j ≡ x.1) l.queue
  pub located : All (λ x. lookup x.1 l.locations ≡ some x.0) l.queue
  pub distinct : Distinct l.queue

unfoldable pub without : ℕ → List ℕ → List ℕ
without i [] = []
without i (j ∷ js) = let rest = without i js in if j == i then rest else j ∷ rest

unfoldable pub keep_last : ℕ → List ℕ → List ℕ
keep_last capacity [] = []
keep_last capacity (j ∷ js) =
    let rest = keep_last capacity js in if ltb capacity (length (j ∷ js)) then rest else j ∷ js

pub some_injective : (a b : ℕ) → some a ≡ some b → a ≡ b
some_injective a b e = cc

pub All-remove_element {κ} :
    (P : ℕ × ℕ → Type κ) (id : ℕ) (q : List (ℕ × ℕ)) → All P q → All P (remove_element id q)
unfolding remove_element
All-remove_element P id [] h = tt
All-remove_element P id (x ∷ q) h = ground (arith, All-remove_element P id q)

pub remove_element-Distinct :
    (id : ℕ) (q : List (ℕ × ℕ)) → Distinct q → Distinct (remove_element id q)
unfolding remove_element
remove_element-Distinct id [] d = tt
remove_element-Distinct id (x ∷ q) d = elim (Bool-cases (x.0 == id)) [
  | inl e ↦ rw e d.1
  | inr e ↦ rw e (All-remove_element (λ f. f.0 ≢ x.0) id q d.0, remove_element-Distinct id q d.1)
]

pub All-evict_loop {κ} :
    (P : ℕ × ℕ → Type κ) (capacity : ℕ) (q : List (ℕ × ℕ))
    → All P q
    → All P (evict_loop capacity q).1
unfolding evict_loop
All-evict_loop P capacity [] h = tt
All-evict_loop P capacity (x ∷ q) h = elim (Bool-cases (ltb capacity (length (x ∷ q)))) [
  | inl e ↦ rw e (All-evict_loop P capacity q h.1)
  | inr e ↦ rw e h
]

pub evict_loop-Distinct :
    (capacity : ℕ) (q : List (ℕ × ℕ)) → Distinct q → Distinct (evict_loop capacity q).1
unfolding evict_loop
evict_loop-Distinct capacity [] d = tt
evict_loop-Distinct capacity (x ∷ q) d = elim (Bool-cases (ltb capacity (length (x ∷ q)))) [
  | inl e ↦ rw e (evict_loop-Distinct capacity q d.1)
  | inr e ↦ rw e d
]

length-indices : (q : List (ℕ × ℕ)) → length (indices q) ≡ length q
length-indices [] = refl
length-indices (x ∷ q) = ap suc (length-indices q)

pub indices-evict_loop :
    (capacity : ℕ) (q : List (ℕ × ℕ))
    → indices (evict_loop capacity q).1 ≡ keep_last capacity (indices q)
unfolding evict_loop keep_last
indices-evict_loop capacity [] = refl
indices-evict_loop capacity (x ∷ q) =
    rw (length-indices q) (elim (Bool-cases (ltb capacity (length (x ∷ q)))) [
      | inl e ↦ rw e (indices-evict_loop capacity q)
      | inr e ↦ rw e refl
    ])

pub without-absent :
    (i : ℕ) (q : List (ℕ × ℕ)) → All (λ x. x.1 ≢ i) q → without i (indices q) ≡ indices q
unfolding without
without-absent i [] h = refl
without-absent i (x ∷ q) h = ground (arith, h, without-absent i q)

-- The element at the location of an index is the one with that index.
module _ (locations : Map ℕ) (i id : ℕ) (at : lookup i locations ≡ some id) where
  others :
      (x : ℕ × ℕ) (q : List (ℕ × ℕ))
      → x.0 ≡ id
      → All (λ f. f.0 ≢ x.0) q
      → All (λ y. lookup y.1 locations ≡ some y.0) q
      → All (λ y. y.1 ≢ i) q
  others x [] e d l = tt
  others x (y ∷ q) e d l = (
    λ same. d.0 (
        some_injective y.0 x.0
          (sym l.0 ∙ ap (λ k. lookup k locations) same ∙ at ∙ ap some (sym e))),
    others x q e d.1 l.1,
  )

  pub remove_element-without :
      (q : List (ℕ × ℕ))
      → All (λ x. (j : ℕ) → lookup j locations ≡ some x.0 → j ≡ x.1) q
      → All (λ x. lookup x.1 locations ≡ some x.0) q
      → Distinct q
      → All (λ x. x.1 ≢ i) (remove_element id q)
        × (indices (remove_element id q) ≡ without i (indices q))
  unfolding remove_element without
  remove_element-without [] o l d = (tt, refl)
  remove_element-without (x ∷ q) o l d = elim (Bool-cases (x.0 == id)) [
    | inl e ↦
        let same = (==_iff x.0 id).0 e in
        let rest = others x q same d.0 l.1 in
        let mine : i ≡ x.1 = o.0 i (at ∙ ap some (sym same)) in
        rw (e, (==_iff x.1 i).1 (sym mine)) (rest, sym (without-absent i q rest))
    | inr e ↦
        let below = remove_element-without q o.1 l.1 d.1 in
        let other : x.1 ≢ i = λ same.
          (ground
            (arith, e, some_injective x.0 id (sym l.0 ∙ ap (λ k. lookup k locations) same ∙ at))) in
        let apart : (x.1 == i) ≡ false = ground (arith, other) in
        rw (e, apart) ((other, below.0), ap (λ js. x.1 ∷ js) below.1)
  ]
