-- ===== src/Table/Pet/Runs.antt =====
-- Any sequence of calls on an empty table.
use ndn_bier.Prelude.{ℕ, ◌≡◌, refl, ◌∙◌, ap, Bool, none, List, [], ◌∷◌, map}
use ndn_bier.Encoding.Name.{Component, Name}
use ndn_bier.Table.NameTree.View.{view}
use ndn_bier.Table.NameTree.Exact.{HasDepths}
use ndn_bier.Table.NameTree.Tidy.{IsTidy}
use ndn_bier.Table.NameTree.Longest.{longest, longest-cong}
use ndn_bier.Table.Pet.{
  Pet, new_pet, has_entry, find_exact_entry, find_longest_prefix_entry, snapshot_of, join,
}
use ndn_bier.Table.Pet.Refinement.{
  PetOp, op_add_egress, op_remove_egress, op_add_next_hop, op_remove_next_hop, op_clean_up_face,
  PetMap, view_pet, map_step, pet_step, view-pet_step, find_exact_entry-view,
  find_longest_prefix_entry-view,
}
use ndn_bier.Table.Pet.Invariant.{IsPet, pet_step-IsPet}

module _ (hash : Component → ℕ) (name_hash : Name → ℕ) where
  -- The calls in the order of the list, the last one at its head.
  unfoldable pub run_pet : List PetOp → Pet
  unfolding pet_step
  run_pet [] = new_pet
  run_pet (op ∷ ops) = pet_step hash name_hash op (run_pet ops)

  unfoldable pub run_map : List PetOp → PetMap
  run_map [] = λ ks. none
  run_map (op ∷ ops) = map_step hash name_hash op (run_map ops)

  new_pet-view : (ks : List ℕ) → view_pet hash name_hash new_pet ks ≡ none
  unfolding view
  new_pet-view [] = refl
  new_pet-view (k ∷ ks) = refl

  -- After any sequence of calls, the names in the tree are as long as their nodes are deep, no node
  -- but the root is without entry and without children, and every entry has an egress router or a next
  -- hop.
  pub run_pet-IsPet : (ops : List PetOp) → IsPet hash (run_pet ops)
  unfolding run_pet
  run_pet-IsPet [] =
      (unfold HasDepths in (refl, tt), unfold IsTidy in tt, λ ks. rw (new_pet-view ks) refl)
  run_pet-IsPet (op ∷ ops) = pet_step-IsPet hash name_hash op (run_pet ops) (run_pet-IsPet ops)

  map_step-cong :
      (op : PetOp) (m m' : PetMap) (ks : List ℕ)
      → m ks ≡ m' ks
      → map_step hash name_hash op m ks ≡ map_step hash name_hash op m' ks
  map_step-cong (op_add_egress prefix egress multicast) m m' ks e = rw e refl
  map_step-cong (op_remove_egress prefix egress) m m' ks e = rw e refl
  map_step-cong (op_add_next_hop prefix face_id cost) m m' ks e = rw e refl
  map_step-cong (op_remove_next_hop prefix face_id) m m' ks e = rw e refl
  map_step-cong (op_clean_up_face face_id) m m' ks e = rw e refl

  run_pet-view :
      (ops : List PetOp) (ks : List ℕ) → view_pet hash name_hash (run_pet ops) ks ≡ run_map ops ks
  unfolding run_pet run_map
  run_pet-view [] ks = new_pet-view ks
  run_pet-view (op ∷ ops) ks =
      view-pet_step hash name_hash op (run_pet ops) ks (run_pet-IsPet ops).0
      ∙ map_step-cong op _ (run_map ops) ks (run_pet-view ops ks)

  -- After any sequence of calls, an exact lookup is what the same calls on a map from sequences of
  -- component hashes to entries leave under the hashes of the prefix, and a longest-prefix lookup is
  -- what they leave under the longest prefix of the hashes of the name that has an entry.
  pub run_pet-lookups :
      (before : Name → Name → Bool) (ops : List PetOp) (name : Name)
      → (find_exact_entry hash name_hash before name (run_pet ops)
          ≡ snapshot_of hash name_hash before (run_map ops (map hash name)))
        × (find_longest_prefix_entry hash name_hash before name (run_pet ops)
            ≡ snapshot_of hash name_hash before
                (join hash name_hash before (longest has_entry (run_map ops) (map hash name) none)))
  run_pet-lookups before ops name = (
    find_exact_entry-view hash name_hash before name (run_pet ops) (run_pet-IsPet ops).0
        ∙ ap (snapshot_of hash name_hash before) (run_pet-view ops (map hash name)),
    find_longest_prefix_entry-view hash name_hash before name (run_pet ops)
        ∙ ap (λ o. snapshot_of hash name_hash before (join hash name_hash before o))
            (longest-cong has_entry _ (run_map ops) (map hash name) none (run_pet-view ops)),
  )
