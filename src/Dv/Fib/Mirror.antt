-- ===== src/Dv/Fib/Mirror.antt =====
-- After `UpdateH` the routes that the forwarder has are those of the table.
use ndn_bier.Prelude.{
  ℕ, ◌≡◌, ◌≢◌, inl, inr, refl, sym, ◌∙◌, ap, true, Option, none, some, List, [], ◌∷◌, leb, ◌==◌,
  ==_iff, if◌then◌else◌, arith, All, Bool-cases, subst,
}
use ndn_bier.Prelude.Maps.{Map, lookup, lookup-insert, lookup-delete}
use ndn_bier.Encoding.Name.{Name}
use ndn_bier.Dv.Fib.{
  FibEntry, Fib, cost_pfx_infinity, unregisters, final_entries, registers, entries_or_empty,
  with_name, store, merged, update_h,
}
use ndn_bier.Dv.Fib.Merge.{cost_at, lowest_at, FacesDistinct, IsFinite, IsBounded, merged-IsMerged}
use ndn_bier.Dv.Fib.Replay.{
  run_commands, route_at, settled_at, run_commands-append, route_at-registers, route_at-unregisters,
  settled-cost_at,
}

final_entries-absent :
    (q : ℕ) (es : List FibEntry)
    → All (λ b. b.face_id ≢ q) es
    → All (λ b. b.face_id ≢ q) (final_entries es)
unfolding final_entries
final_entries-absent q [] h = tt
final_entries-absent q (e ∷ es) h = ground (arith, final_entries-absent q es h.1)

absent-cost_at :
    (q : ℕ) (es : List FibEntry) → All (λ b. b.face_id ≢ q) es → cost_at q es ≡ cost_pfx_infinity
unfolding cost_at
absent-cost_at q [] h = refl
absent-cost_at q (e ∷ es) h = ground (arith, absent-cost_at q es h.1)

final_entries-cost_at :
    (q : ℕ) (es : List FibEntry)
    → IsBounded es
    → FacesDistinct es
    → cost_at q (final_entries es) ≡ cost_at q es
unfolding cost_at final_entries
final_entries-cost_at q [] h d = refl
final_entries-cost_at q (e ∷ es) h d = elim (Bool-cases (leb cost_pfx_infinity e.cost)) [
  | inl drop ↦ rw drop (elim (Bool-cases (e.face_id == q)) [
    | inl same ↦ rw same (
        absent-cost_at q (final_entries es) (
          final_entries-absent q es
            (subst (λ x. All (λ b. b.face_id ≢ x) es) ((==_iff e.face_id q).0 same) d.0))
        ∙ (let l = h.0 in ground arith))
    | inr other ↦ rw other (final_entries-cost_at q es h.1 d.1)
  ])
  | inr keep ↦ rw keep (elim (Bool-cases (e.face_id == q)) [
    | inl same ↦ rw same
    | inr other ↦ rw other (final_entries-cost_at q es h.1 d.1)
  ])
]

final_entries-FacesDistinct :
    (es : List FibEntry) → FacesDistinct es → FacesDistinct (final_entries es)
unfolding final_entries
final_entries-FacesDistinct [] d = tt
final_entries-FacesDistinct (e ∷ es) d = elim (Bool-cases (leb cost_pfx_infinity e.cost)) [
  | inl drop ↦ rw drop (final_entries-FacesDistinct es d.1)
  | inr keep ↦ rw keep (final_entries-absent e.face_id es d.0, final_entries-FacesDistinct es d.1)
]

final_entries-IsFinite : (es : List FibEntry) → IsFinite (final_entries es)
unfolding final_entries
final_entries-IsFinite [] = tt
final_entries-IsFinite (e ∷ es) = elim (Bool-cases (leb cost_pfx_infinity e.cost)) [
  | inl drop ↦ rw drop (final_entries-IsFinite es)
  | inr keep ↦ rw keep (ground arith, final_entries-IsFinite es)
]

-- An empty list of entries is not stored.
abbrev pub stored : List FibEntry → Option (List FibEntry)
stored [] = none
stored (e ∷ es) = some (e ∷ es)

store-lookup :
    (name_h k : ℕ) (fib : Fib) (es : List FibEntry)
    → lookup k (store name_h fib es).0.prefixes
      ≡ (if name_h == k then stored es else lookup k fib.prefixes)
store-lookup name_h k fib [] = lookup-delete name_h k fib.prefixes
store-lookup name_h k fib (e ∷ es) = lookup-insert name_h k (e ∷ es) fib.prefixes

entries-stored : (es : List FibEntry) → entries_or_empty (stored es) ≡ es
entries-stored [] = refl
entries-stored (e ∷ es) = refl

-- The entries that the table has for a prefix.
abbrev pub entries_of : ℕ → Fib → List FibEntry
entries_of name_h fib = entries_or_empty (lookup name_h fib.prefixes)

-- The forwarder's routes for the prefix have the costs that the table has.
abbrev pub Mirrors : Map ℕ → List FibEntry → Type 0
Mirrors routes es = (face : ℕ) → route_at face routes ≡ cost_at face es

-- The state after `UpdateH`: `routes'` are the forwarder's routes after the commands.
pub record IsUpdated (name_h : ℕ) (news : List FibEntry) (fib fib' : Fib) (routes' : Map ℕ)
    : Type 0 where
  pub lowest : (face : ℕ) → cost_at face (entries_of name_h fib') ≡ lowest_at face news
  pub mirror : Mirrors routes' (entries_of name_h fib')
  pub distinct : FacesDistinct (entries_of name_h fib')
  pub finite : IsFinite (entries_of name_h fib')
  pub lookups :
      (k : ℕ)
      → lookup k fib'.prefixes
        ≡ (if name_h == k then stored (entries_of name_h fib') else lookup k fib.prefixes)

self_eq : (k : ℕ) → (k == k) ≡ true
self_eq k = ground arith

-- Where the forwarder's routes for a prefix are those of the table, with each face once, they are
-- so again after `UpdateH` and its commands. Each face then has the lowest of its new costs and no
-- other face has a route; the entries have each face once and finite costs, and the other prefixes
-- keep their entries.
pub update_h-IsUpdated :
    (name_h : ℕ) (name : Name) (news : List FibEntry) (fib : Fib) (routes : Map ℕ)
    → FacesDistinct (entries_of name_h fib)
    → Mirrors routes (entries_of name_h fib)
    → let (fib', commands, found) = update_h name_h name news fib in
      IsUpdated name_h news fib fib' (run_commands commands routes)
unfolding update_h
update_h-IsUpdated name_h name news fib routes d m =
    let es = merged name_h news fib in
    let (bounded, distinct, costs, prevs) =
      merged-IsMerged name_h news fib (entries_of name_h fib) refl d in
    let named : Fib = record fib {
      names = with_name name_h name fib.names (lookup name_h fib.names);
    } in
    let own : entries_of name_h (store name_h named (final_entries es)).0 ≡ final_entries es =
      ap entries_or_empty (store-lookup name_h name_h named (final_entries es))
      ∙ (rw (self_eq name_h) (entries-stored (final_entries es))) in
    let now : (face : ℕ) → cost_at face (final_entries es) ≡ cost_at face es =
      λ face. final_entries-cost_at face es bounded distinct in
    record {
      lowest = λ face. ap (cost_at face) own ∙ now face ∙ costs face;
      mirror = λ face.
          ap (route_at face)
            (run_commands-append (unregisters name es) (registers name (final_entries es)) routes)
          ∙ route_at-registers name face es _ distinct
          ∙ ap (settled_at face es) (route_at-unregisters name face es routes distinct)
          ∙ settled-cost_at face es (route_at face routes) bounded (m face ∙ sym (prevs face))
          ∙ sym (now face)
          ∙ sym (ap (cost_at face) own);
      distinct = rw own (final_entries-FacesDistinct es distinct);
      finite = rw own (final_entries-IsFinite es);
      lookups = λ k. store-lookup name_h k named (final_entries es) ∙ (rw own);
    }
