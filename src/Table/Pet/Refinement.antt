-- ===== src/Table/Pet/Refinement.antt =====
-- The table is a map from sequences of hashes to entries, and each operation changes it at the keys
-- of its prefix.
use ndn_bier.Prelude.{
  ℕ, ◌≡◌, refl, sym, ◌∙◌, ap, subst, Bool, true, Option, none, some, List, [], map, length, ◌==◌,
  ==_iff, if◌then◌else◌, Bool-cases, Option-cases, inl, inr,
}
use ndn_bier.Encoding.Name.{Component, Name}
use ndn_bier.Table.NameTree.{Laws, payload, find_exact}
use ndn_bier.Table.NameTree.View.{
  view, keys_equal, keys_equal_sound, view-fill_update, view-update_exact, view-prune, view-clean,
}
use ndn_bier.Table.NameTree.Exact.{payload_or, HasDepths, find_exact-view}
use ndn_bier.Table.NameTree.Longest.{longest, first_up-find_path}
use ndn_bier.Table.Pet.{
  PetEntryState, Pet, pet_shape, no_entry, has_entry, put_egress, drop_egress, put_next_hop,
  drop_next_hop, add_egress, remove_egress, add_next_hop, remove_next_hop, clean_up_face,
  remove_from, find_exact_entry, find_longest_prefix_entry, snapshot_of, entry_of, join,
}

-- What the operations do, as calls in a sequence.
pub data PetOp : Type 0 where
  op_add_egress : Name → Name → Bool → PetOp
  op_remove_egress : Name → Name → PetOp
  op_add_next_hop : Name → ℕ → ℕ → PetOp
  op_remove_next_hop : Name → ℕ → PetOp
  op_clean_up_face : ℕ → PetOp

-- The abstract table.
abbrev pub PetMap : Type 0
PetMap = List ℕ → Option PetEntryState

pub no_entry_sound : (o : Option PetEntryState) → no_entry o ≡ true → o ≡ none
no_entry_sound none h = refl
no_entry_sound (some e) h = cc

abbrev pub pet_laws : (hash : Component → ℕ) → Laws (pet_shape hash)
pet_laws hash = record { same_iff = ==_iff; empty_fresh = no_entry_sound }

module _ (hash : Component → ℕ) (name_hash : Name → ℕ) where
  abbrev pub view_pet : Pet → PetMap
  view_pet root ks = view (pet_shape hash) ks root

  abbrev pub at_prefix : Name → (Option PetEntryState → Option PetEntryState) → PetMap → PetMap
  at_prefix prefix f m ks =
      if keys_equal (pet_shape hash) (map hash prefix) ks then f (m ks) else m ks

  abbrev pub map_step : PetOp → PetMap → PetMap
  map_step (op_add_egress prefix egress multicast) m ks =
      if length egress == 0
      then m ks
      else at_prefix prefix (put_egress hash name_hash prefix egress multicast) m ks
  map_step (op_remove_egress prefix egress) m ks =
      if length egress == 0 then m ks else at_prefix prefix (drop_egress hash name_hash egress) m ks
  map_step (op_add_next_hop prefix face_id cost) m ks =
      at_prefix prefix (put_next_hop prefix face_id cost) m ks
  map_step (op_remove_next_hop prefix face_id) m ks = at_prefix prefix (drop_next_hop face_id) m ks
  map_step (op_clean_up_face face_id) m ks = drop_next_hop face_id (m ks)

  unfoldable pub pet_step : PetOp → Pet → Pet
  unfolding add_egress remove_egress add_next_hop remove_next_hop clean_up_face
  pet_step (op_add_egress prefix egress multicast) root =
      add_egress hash name_hash prefix egress multicast root
  pet_step (op_remove_egress prefix egress) root = remove_egress hash name_hash prefix egress root
  pet_step (op_add_next_hop prefix face_id cost) root =
      add_next_hop hash name_hash prefix face_id cost root
  pet_step (op_remove_next_hop prefix face_id) root =
      remove_next_hop hash name_hash prefix face_id root
  pet_step (op_clean_up_face face_id) root = clean_up_face hash name_hash face_id root

  none_exact :
      (prefix : Name) (root : Pet)
      → HasDepths (pet_shape hash) 0 root
      → find_exact (pet_shape hash) prefix root ≡ none
      → view_pet root (map hash prefix) ≡ none
  none_exact prefix root h e =
      sym (find_exact-view (pet_shape hash) root prefix h) ∙ ap (payload_or none) e

  pub some_exact :
      (prefix : Name) (root n : Pet)
      → HasDepths (pet_shape hash) 0 root
      → find_exact (pet_shape hash) prefix root ≡ some n
      → view_pet root (map hash prefix) ≡ payload n
  some_exact prefix root n h e =
      sym (find_exact-view (pet_shape hash) root prefix h) ∙ ap (payload_or none) e

  -- Where there is no entry, a change that makes none changes nothing.
  at_prefix-absent :
      (prefix : Name) (drop : Option PetEntryState → Option PetEntryState) (m : PetMap)
      (ks : List ℕ)
      → m (map hash prefix) ≡ none
      → drop none ≡ none
      → at_prefix prefix drop m ks ≡ m ks
  at_prefix-absent prefix drop m ks h e =
      elim (Bool-cases (keys_equal (pet_shape hash) (map hash prefix) ks)) [
        | inl t ↦
            let here : m ks ≡ none =
              subst (λ js. m js ≡ none) (keys_equal_sound (pet_shape hash) (pet_laws hash) _ ks t)
                h in
            rw (t, here) e
        | inr t ↦ rw t refl
      ]

  view-remove_found :
      (prefix : Name) (drop : Option PetEntryState → Option PetEntryState) (root n : Pet)
      (ks : List ℕ)
      → drop none ≡ none
      → view_pet root (map hash prefix) ≡ payload n
      → view_pet (remove_from hash name_hash prefix drop (some n) root) ks
        ≡ at_prefix prefix drop (view_pet root) ks
  view-remove_found prefix drop root n ks e h = elim (Option-cases (payload n)) [
    | inl absent ↦
        rw (absent) (sym (at_prefix-absent prefix drop (view_pet root) ks (h ∙ absent) e))
    | inr (o, present) ↦ rw present (elim (Bool-cases (no_entry (drop (some o)))) [
      | inl t ↦ rw t (
          view-prune (pet_shape hash) (pet_laws hash) _ ks prefix
          ∙ view-update_exact (pet_shape hash) (pet_laws hash) root ks prefix drop e)
      | inr t ↦ rw t (view-update_exact (pet_shape hash) (pet_laws hash) root ks prefix drop e)
    ])
  ]

  view-remove_from :
      (prefix : Name) (drop : Option PetEntryState → Option PetEntryState) (root : Pet)
      (ks : List ℕ)
      → HasDepths (pet_shape hash) 0 root
      → drop none ≡ none
      → view_pet
          (remove_from hash name_hash prefix drop (find_exact (pet_shape hash) prefix root) root)
          ks
        ≡ at_prefix prefix drop (view_pet root) ks
  view-remove_from prefix drop root ks h e =
      elim (Option-cases (find_exact (pet_shape hash) prefix root)) [
        | inl t ↦
            rw t
              (sym (at_prefix-absent prefix drop (view_pet root) ks (none_exact prefix root h t) e))
        | inr (n, t) ↦
            rw t (view-remove_found prefix drop root n ks e (some_exact prefix root n h t))
      ]

  pub view-pet_step :
      (op : PetOp) (root : Pet) (ks : List ℕ)
      → HasDepths (pet_shape hash) 0 root
      → view_pet (pet_step op root) ks ≡ map_step op (view_pet root) ks
  unfolding pet_step
  view-pet_step (op_add_egress prefix egress multicast) root ks h =
      elim (Bool-cases (length egress == 0)) [
        | inl t ↦ rw t refl
        | inr t ↦ rw t (view-fill_update (pet_shape hash) (pet_laws hash) root ks prefix _)
      ]
  view-pet_step (op_remove_egress prefix egress) root ks h =
      elim (Bool-cases (length egress == 0)) [
        | inl t ↦ rw t refl
        | inr t ↦ rw t (view-remove_from prefix (drop_egress hash name_hash egress) root ks h refl)
      ]
  view-pet_step (op_add_next_hop prefix face_id cost) root ks h =
      view-fill_update (pet_shape hash) (pet_laws hash) root ks prefix _
  view-pet_step (op_remove_next_hop prefix face_id) root ks h =
      view-remove_from prefix (drop_next_hop face_id) root ks h refl
  view-pet_step (op_clean_up_face face_id) root ks h =
      view-clean (pet_shape hash) (pet_laws hash) root ks (drop_next_hop face_id) refl

  module _ (before : Name → Name → Bool) where
    entry-payload : (o : Option Pet) → entry_of hash name_hash before o ≡ payload_or none o
    entry-payload none = refl
    entry-payload (some n) = refl

    -- Lookups read the map: at the keys of the prefix, and at the longest prefix with an entry.
    pub find_exact_entry-view :
        (prefix : Name) (root : Pet)
        → HasDepths (pet_shape hash) 0 root
        → find_exact_entry hash name_hash before prefix root
          ≡ snapshot_of hash name_hash before (view_pet root (map hash prefix))
    unfolding find_exact_entry
    find_exact_entry-view prefix root h = ap (snapshot_of hash name_hash before) (
        entry-payload (find_exact (pet_shape hash) prefix root)
        ∙ find_exact-view (pet_shape hash) root prefix h)

    pub find_longest_prefix_entry-view :
        (name : Name) (root : Pet)
        → find_longest_prefix_entry hash name_hash before name root
          ≡ snapshot_of hash name_hash before
              (join hash name_hash before (longest has_entry (view_pet root) (map hash name) none))
    unfolding find_longest_prefix_entry
    find_longest_prefix_entry-view name root =
        ap (λ o. snapshot_of hash name_hash before (join hash name_hash before o))
          (first_up-find_path has_entry (pet_shape hash) refl root name [])
