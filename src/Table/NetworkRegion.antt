-- ===== src/Table/NetworkRegion.antt =====
-- ndnd/fw/table/network-region.go: the producer regions of the forwarder.
use ndn_bier.Prelude.{
  ◌≡◌, Bool, true, false, ◌||◌, List, [], ◌∷◌, ◌++◌, if◌then◌else◌, arith, Bool-cases, inl, inr,
}
use ndn_bier.Encoding.Name.{Name, equal, is_prefix}
use ndn_bier.Encoding.Name.Prefix.{equal_iff}

-- Some region of the table is the name.
unfoldable pub has_region : Name → List Name → Bool
has_region name [] = false
has_region name (region ∷ table) = if equal region name then true else has_region name table

unfoldable pub add_region : Name → List Name → List Name
add_region name table = if has_region name table then table else table ++ name ∷ []

unfoldable pub is_producer : Name → List Name → Bool
is_producer name [] = false
is_producer name (region ∷ table) = if is_prefix region name then true else is_producer name table

is_producer-append :
    (name region : Name) (table : List Name)
    → is_producer name (table ++ region ∷ []) ≡ (is_prefix region name || is_producer name table)
unfolding is_producer
is_producer-append name region [] = ground arith
is_producer-append name region (r ∷ table) = ground (arith, is_producer-append name region table)

is_producer-has_region :
    (name region : Name) (table : List Name)
    → has_region region table ≡ true
    → is_producer name table ≡ (is_prefix region name || is_producer name table)
unfolding is_producer has_region
is_producer-has_region name region [] h = ground arith
is_producer-has_region name region (r ∷ table) h = elim (Bool-cases (equal r region)) [
  | inl same ↦ rw ((equal_iff r region).0 same) (ground arith)
  | inr other ↦ ground (arith, is_producer-has_region name region table)
]

-- After a region was added, new or not, a name is in the forwarder's regions exactly when it was
-- before or the region is a prefix of it.
pub is_producer-add_region :
    (name region : Name) (table : List Name)
    → is_producer name (add_region region table) ≡ (is_prefix region name || is_producer name table)
unfolding add_region
is_producer-add_region name region table = elim (Bool-cases (has_region region table)) [
  | inl known ↦ rw known (is_producer-has_region name region table known)
  | inr new ↦ rw new (is_producer-append name region table)
]
