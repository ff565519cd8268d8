-- ===== src/Dv/Fib/Merge.antt =====
-- The entries of a prefix after `UpdateH` has merged the new ones into them.
use ndn_bier.Prelude.{
  ℕ, ◌≡◌, ◌≤◌, ◌<◌, ◌≢◌, inl, inr, refl, ◌∙◌, List, [], ◌∷◌, map, leb, ◌==◌, min, if◌then◌else◌,
  arith, All, Pairs, Bool-cases,
}
use ndn_bier.Prelude.Maps.{lookup}
use ndn_bier.Dv.Fib.{
  FibEntry, Fib, cost_pfx_infinity, expire, absorb, merge_new, entries_or_empty, merged,
}

-- The cost of a face, infinite if it has no entry.
unfoldable pub cost_at : ℕ → List FibEntry → ℕ
cost_at face [] = cost_pfx_infinity
cost_at face (e ∷ es) = if e.face_id == face then e.cost else cost_at face es

unfoldable pub prev_at : ℕ → List FibEntry → ℕ
prev_at face [] = cost_pfx_infinity
prev_at face (e ∷ es) = if e.face_id == face then e.prev_cost else prev_at face es

-- The lowest cost that the entries have for a face, infinite if none has a lower one.
unfoldable pub lowest_at : ℕ → List FibEntry → ℕ
lowest_at face [] = cost_pfx_infinity
lowest_at face (e ∷ es) =
    if e.face_id == face then min e.cost (lowest_at face es) else lowest_at face es

-- Each face once.
abbrev pub FacesDistinct : List FibEntry → Type 0
FacesDistinct es = Pairs (λ a b. b.face_id ≢ a.face_id) es

abbrev pub IsFinite : List FibEntry → Type 0
IsFinite es = All (λ e. e.cost < cost_pfx_infinity) es

abbrev pub IsBounded : List FibEntry → Type 0
IsBounded es = All (λ e. e.cost ≤ cost_pfx_infinity) es

-- The expired entries.
cost_at-expire : (face : ℕ) (es : List FibEntry) → cost_at face (map expire es) ≡ cost_pfx_infinity
unfolding cost_at
cost_at-expire face [] = refl
cost_at-expire face (e ∷ es) = ground (arith, cost_at-expire face es)

prev_at-expire : (face : ℕ) (es : List FibEntry) → prev_at face (map expire es) ≡ cost_at face es
unfolding cost_at prev_at
prev_at-expire face [] = refl
prev_at-expire face (e ∷ es) = rw (prev_at-expire face es)

expire-IsBounded : (es : List FibEntry) → IsBounded (map expire es)
expire-IsBounded [] = tt
expire-IsBounded (e ∷ es) = (omega arith, expire-IsBounded es)

ne-expire :
    (k : ℕ) (es : List FibEntry)
    → All (λ b. b.face_id ≢ k) es
    → All (λ b. b.face_id ≢ k) (map expire es)
ne-expire k [] h = tt
ne-expire k (e ∷ es) h = (h.0, ne-expire k es h.1)

expire-FacesDistinct : (es : List FibEntry) → FacesDistinct es → FacesDistinct (map expire es)
expire-FacesDistinct [] d = tt
expire-FacesDistinct (e ∷ es) d = (ne-expire e.face_id es d.0, expire-FacesDistinct es d.1)

-- One new entry.
module _ (new : FibEntry) (less : new.cost < cost_pfx_infinity) where
  cost_at-absorb :
      (face : ℕ) (es : List FibEntry)
      → cost_at face (absorb new es)
        ≡ (if new.face_id == face then min new.cost (cost_at face es) else cost_at face es)
  unfolding cost_at absorb
  cost_at-absorb face [] = ground arith
  cost_at-absorb face (e ∷ es) = ground (arith, cost_at-absorb face es)

  prev_at-absorb : (face : ℕ) (es : List FibEntry) → prev_at face (absorb new es) ≡ prev_at face es
  unfolding prev_at absorb
  prev_at-absorb face [] = ground arith
  prev_at-absorb face (e ∷ es) = ground (arith, prev_at-absorb face es)

  absorb-IsBounded : (es : List FibEntry) → IsBounded es → IsBounded (absorb new es)
  unfolding absorb
  absorb-IsBounded [] h = (omega arith, tt)
  absorb-IsBounded (e ∷ es) h = elim (Bool-cases (e.face_id == new.face_id)) [
    | inl same ↦ rw same (omega (arith, h.0), h.1)
    | inr other ↦ rw other (h.0, absorb-IsBounded es h.1)
  ]

  ne-absorb :
      (k : ℕ) (es : List FibEntry)
      → new.face_id ≢ k
      → All (λ b. b.face_id ≢ k) es
      → All (λ b. b.face_id ≢ k) (absorb new es)
  unfolding absorb
  ne-absorb k [] n h = (n, tt)
  ne-absorb k (e ∷ es) n h = elim (Bool-cases (e.face_id == new.face_id)) [
    | inl same ↦ rw same (h.0, h.1)
    | inr other ↦ rw other (h.0, ne-absorb k es n h.1)
  ]

  absorb-FacesDistinct : (es : List FibEntry) → FacesDistinct es → FacesDistinct (absorb new es)
  unfolding absorb
  absorb-FacesDistinct [] d = (tt, tt)
  absorb-FacesDistinct (e ∷ es) d = elim (Bool-cases (e.face_id == new.face_id)) [
    | inl same ↦ rw same (d.0, d.1)
    | inr other ↦
        let n : new.face_id ≢ e.face_id = ground arith in
        rw other (ne-absorb e.face_id es n d.0, absorb-FacesDistinct es d.1)
  ]

lowest_at-le : (face : ℕ) (es : List FibEntry) → lowest_at face es ≤ cost_pfx_infinity
unfolding lowest_at
lowest_at-le face [] = omega arith
lowest_at-le face (e ∷ es) = ground (arith, lowest_at-le face es)

cost_at-le : (face : ℕ) (es : List FibEntry) → IsBounded es → cost_at face es ≤ cost_pfx_infinity
unfolding cost_at
cost_at-le face [] h = omega arith
cost_at-le face (e ∷ es) h = ground (arith, cost_at-le face es h.1)

-- The entries after the merge.
pub record IsMerged (olds news es : List FibEntry) : Type 0 where
  pub bounded : IsBounded es
  pub distinct : FacesDistinct es
  pub costs : (face : ℕ) → cost_at face es ≡ min (lowest_at face news) (cost_at face olds)
  pub prevs : (face : ℕ) → prev_at face es ≡ prev_at face olds

pub merge_new-IsMerged :
    (news olds : List FibEntry)
    → IsBounded olds
    → FacesDistinct olds
    → IsMerged olds news (merge_new olds news)
unfolding merge_new lowest_at
merge_new-IsMerged [] olds h d = record {
  bounded = h;
  distinct = d;
  costs = λ face. let l = cost_at-le face olds h in omega arith;
  prevs = λ face. refl;
}
merge_new-IsMerged (new ∷ news) olds h d = elim (Bool-cases (leb cost_pfx_infinity new.cost)) [
  | inl skip ↦
      let m = merge_new-IsMerged news olds h d in
      rw skip (record {
        bounded = m.bounded;
        distinct = m.distinct;
        costs = λ face. m.costs face ∙ (let l = lowest_at-le face news in ground arith);
        prevs = m.prevs;
      })
  | inr take ↦
      let less : new.cost < cost_pfx_infinity = ground arith in
      let m =
        merge_new-IsMerged news (absorb new olds) (absorb-IsBounded new less olds h)
          (absorb-FacesDistinct new less olds d) in
      rw take (record {
        bounded = m.bounded;
        distinct = m.distinct;
        costs = λ face. m.costs face ∙ (let c = cost_at-absorb new less face olds in ground arith);
        prevs = λ face. m.prevs face ∙ prev_at-absorb new less face olds;
      })
]

-- `UpdateH` works on entries with each face once, at the lowest of the new costs, which remember
-- the cost that they had.
pub merged-IsMerged :
    (name_h : ℕ) (news : List FibEntry) (fib : Fib) (olds : List FibEntry)
    → entries_or_empty (lookup name_h fib.prefixes) ≡ olds
    → FacesDistinct olds
    → IsBounded (merged name_h news fib)
      × FacesDistinct (merged name_h news fib)
      × ((face : ℕ) → cost_at face (merged name_h news fib) ≡ lowest_at face news)
      × ((face : ℕ) → prev_at face (merged name_h news fib) ≡ cost_at face olds)
unfolding merged
merged-IsMerged name_h news fib olds e d =
    let m =
      merge_new-IsMerged news (map expire olds) (expire-IsBounded olds)
        (expire-FacesDistinct olds d) in
    rw e (
      m.bounded,
      m.distinct,
      λ face.
          m.costs face
          ∙ (let c = cost_at-expire face olds in let l = lowest_at-le face news in omega arith),
      λ face. m.prevs face ∙ prev_at-expire face olds,
    )
