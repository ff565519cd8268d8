-- ===== src/Prelude/Maps.antt =====
-- A Go map with integer keys: an association list with one entry for a key, in the order in which
-- a `range` over it runs. Go leaves that order open, so statements are about every such list.
use Prim.Native.Nat.{ℕ}
use mathlib.Core.Path.{◌≡◌, refl, subst}
use mathlib.Core.Logic.{◌≢◌, inl, inr}
use mathlib.Core.List.{List, [], ◌∷◌}
use mathlib.Core.Option.{Option, none, some}
use native.Mathlib.Omega.{arith}
use ndn_bier.Prelude.Tests.{◌==◌, ==_iff, if◌then◌else◌, Bool-cases}
use ndn_bier.Prelude.Lists.{All}

abbrev pub Map {ℓ} : Type ℓ → Type ℓ
Map V = List (ℕ × V)

module _ {ℓ} {V : Type ℓ} where
  unfoldable pub lookup : ℕ → Map V → Option V
  lookup k [] = none
  lookup k (e ∷ m) = if e.0 == k then some e.1 else lookup k m

  -- `m[k] = v`
  unfoldable pub insert : ℕ → V → Map V → Map V
  insert k v [] = (k, v) ∷ []
  insert k v (e ∷ m) = if e.0 == k then (k, v) ∷ m else e ∷ insert k v m

  -- `delete(m, k)`
  unfoldable pub delete : ℕ → Map V → Map V
  delete k [] = []
  delete k (e ∷ m) = if e.0 == k then delete k m else e ∷ delete k m

  -- No key occurs twice.
  abbrev pub Distinct : Map V → Type 0
  Distinct [] = Unit
  Distinct (e ∷ m) = All (λ f. f.0 ≢ e.0) m × Distinct m

  pub lookup-insert :
      (k j : ℕ) (v : V) (m : Map V)
      → lookup j (insert k v m) ≡ (if k == j then some v else lookup j m)
  unfolding lookup insert
  lookup-insert k j v [] = refl
  lookup-insert k j v (e ∷ m) = ground (arith, lookup-insert k j v m)

  pub lookup-delete :
      (k j : ℕ) (m : Map V) → lookup j (delete k m) ≡ (if k == j then none else lookup j m)
  unfolding lookup delete
  lookup-delete k j [] = ground arith
  lookup-delete k j (e ∷ m) = ground (arith, lookup-delete k j m)

  pub All-insert {κ} :
      (P : ℕ × V → Type κ) (k : ℕ) (v : V) (m : Map V) → P (k, v) → All P m → All P (insert k v m)
  unfolding insert
  All-insert P k v [] p h = (p, tt)
  All-insert P k v (e ∷ m) p h = ground (arith, All-insert P k v m)

  pub All-delete {κ} : (P : ℕ × V → Type κ) (k : ℕ) (m : Map V) → All P m → All P (delete k m)
  unfolding delete
  All-delete P k [] h = tt
  All-delete P k (e ∷ m) h = ground (arith, All-delete P k m)

  pub insert-Distinct : (k : ℕ) (v : V) (m : Map V) → Distinct m → Distinct (insert k v m)
  unfolding insert
  insert-Distinct k v [] d = (tt, tt)
  insert-Distinct k v (e ∷ m) d = elim (Bool-cases (e.0 == k)) [
    | inl h ↦ rw h (subst (λ x. All (λ f. f.0 ≢ x) m) ((==_iff _ _).0 h) d.0, d.1)
    | inr h ↦ rw h (All-insert (λ f. f.0 ≢ e.0) k v m (ground arith) d.0, insert-Distinct k v m d.1)
  ]

  pub delete-Distinct : (k : ℕ) (m : Map V) → Distinct m → Distinct (delete k m)
  unfolding delete
  delete-Distinct k [] d = tt
  delete-Distinct k (e ∷ m) d = elim (Bool-cases (e.0 == k)) [
    | inl h ↦ rw h (delete-Distinct k m d.1)
    | inr h ↦ rw h (All-delete (λ f. f.0 ≢ e.0) k m d.0, delete-Distinct k m d.1)
  ]

  pub lookup-absent : (k : ℕ) (m : Map V) → All (λ f. f.0 ≢ k) m → lookup k m ≡ none
  unfolding lookup
  lookup-absent k [] h = refl
  lookup-absent k (e ∷ m) h = ground (arith, lookup-absent k m h.1)

  pub delete-absent : (k : ℕ) (m : Map V) → All (λ f. f.0 ≢ k) m → delete k m ≡ m
  unfolding delete
  delete-absent k [] h = refl
  delete-absent k (e ∷ m) h = ground (arith, delete-absent k m h.1)

  pub lookup-head : (e : ℕ × V) (m : Map V) → lookup e.0 (e ∷ m) ≡ some e.1
  unfolding lookup
  lookup-head e m = ground arith

  pub delete-head : (e : ℕ × V) (m : Map V) → Distinct (e ∷ m) → delete e.0 (e ∷ m) ≡ m
  unfolding delete
  delete-head e m d = ground (arith, delete-absent e.0 m d.0)
