-- ===== src/Table/Pet/Invariant.antt =====
-- What holds of the table after any of its operations.
use ndn_bier.Prelude.{
  ℕ, ◌≡◌, ◌≢◌, refl, sym, ◌∙◌, ap, subst, Bool, true, false, not, Option, none, some, List, [], ◌∷◌,
  map, length, ◌==◌, arith, Bool-cases, Option-cases, inl, inr,
}
use ndn_bier.Prelude.Maps.{Map, insert, delete}
use ndn_bier.Encoding.Name.{Component, Name}
use ndn_bier.Table.NameTree.{payload, find_exact, update_exact, fill_update}
use ndn_bier.Table.NameTree.View.{view, keys_equal, keys_equal_refl, view-update_exact, prune_full}
use ndn_bier.Table.NameTree.Exact.{
  HasDepths, fill_update-HasDepths, update_exact-HasDepths, prune-HasDepths, clean-HasDepths,
}
use ndn_bier.Table.NameTree.Tidy.{
  IsTidy, prune-update_exact-IsTidy, clean-IsTidy, fill_update-IsTidy,
}
use ndn_bier.Table.Pet.{
  PetEntryState, Pet, pet_shape, no_entry, put_egress, drop_egress, put_next_hop, drop_next_hop,
  remove_from, is_vacant, unless_vacant, get_or_create_entry,
}
use ndn_bier.Table.Pet.Refinement.{
  PetOp, op_add_egress, op_remove_egress, op_add_next_hop, op_remove_next_hop, op_clean_up_face,
  PetMap, pet_laws, view_pet, at_prefix, map_step, pet_step, view-pet_step, some_exact,
}

-- An entry has an egress router or a next hop.
abbrev pub is_live : Option PetEntryState → Bool
is_live none = true
is_live (some e) = not (is_vacant e)

-- Names are as long as their nodes are deep, no node but the root is without entry and without
-- children, and no entry is without egress routers and without next hops.
abbrev pub IsPet : (Component → ℕ) → Pet → Type 0
IsPet hash root =
    HasDepths (pet_shape hash) 0 root
    × IsTidy (pet_shape hash) root
    × ((ks : List ℕ) → is_live (view (pet_shape hash) ks root) ≡ true)

length-insert : {V : Type 0} (k : ℕ) (v : V) (m : Map V) → length (insert k v m) ≢ 0
unfolding insert
length-insert k v [] h = omega arith
length-insert k v (e ∷ m) h = ground arith

unless_vacant-is_live : (e : PetEntryState) → is_live (unless_vacant e) ≡ true
unless_vacant-is_live e = elim (Bool-cases (is_vacant e)) [
  | inl t ↦ rw t refl
  | inr t ↦ rw (t, t) refl
]

drop_next_hop-is_live :
    (face_id : ℕ) (o : Option PetEntryState) → is_live (drop_next_hop face_id o) ≡ true
drop_next_hop-is_live face_id none = refl
drop_next_hop-is_live face_id (some e) =
    unless_vacant-is_live (record e { next_hops = delete face_id e.next_hops })

put_next_hop-is_live :
    (prefix : Name) (face_id cost : ℕ) (o : Option PetEntryState)
    → is_live (put_next_hop prefix face_id cost o) ≡ true
put_next_hop-is_live prefix face_id cost o = ground (
  arith,
  length-insert face_id (record { face_id = face_id; cost = cost })
      (get_or_create_entry prefix o).next_hops,
)

module _ (hash : Component → ℕ) (name_hash : Name → ℕ) where
  drop_egress-is_live :
      (egress : Name) (o : Option PetEntryState)
      → is_live (drop_egress hash name_hash egress o) ≡ true
  drop_egress-is_live egress none = refl
  drop_egress-is_live egress (some e) =
      unless_vacant-is_live (record e { egress = delete (name_hash egress) e.egress })

  put_egress-is_live :
      (prefix egress : Name) (multicast : Bool) (o : Option PetEntryState)
      → is_live (put_egress hash name_hash prefix egress multicast o) ≡ true
  put_egress-is_live prefix egress multicast o =
      ground (arith, length-insert (name_hash egress) egress (get_or_create_entry prefix o).egress)

  at_prefix-is_live :
      (prefix : Name) (f : Option PetEntryState → Option PetEntryState) (m : PetMap) (ks : List ℕ)
      → ((o : Option PetEntryState) → is_live (f o) ≡ true)
      → is_live (m ks) ≡ true
      → is_live (at_prefix hash name_hash prefix f m ks) ≡ true
  at_prefix-is_live prefix f m ks hf hm =
      elim (Bool-cases (keys_equal (pet_shape hash) (map hash prefix) ks)) [
        | inl t ↦ rw t (hf (m ks))
        | inr t ↦ rw t hm
      ]

  map_step-is_live :
      (op : PetOp) (m : PetMap) (ks : List ℕ)
      → is_live (m ks) ≡ true
      → is_live (map_step hash name_hash op m ks) ≡ true
  map_step-is_live (op_add_egress prefix egress multicast) m ks h =
      elim (Bool-cases (length egress == 0)) [
        | inl t ↦ rw t h
        | inr t ↦ rw t (
            at_prefix-is_live prefix (put_egress hash name_hash prefix egress multicast) m ks
              (put_egress-is_live prefix egress multicast) h)
      ]
  map_step-is_live (op_remove_egress prefix egress) m ks h =
      elim (Bool-cases (length egress == 0)) [
        | inl t ↦ rw t h
        | inr t ↦ rw t (
            at_prefix-is_live prefix (drop_egress hash name_hash egress) m ks
              (drop_egress-is_live egress) h)
      ]
  map_step-is_live (op_add_next_hop prefix face_id cost) m ks h =
      at_prefix-is_live prefix (put_next_hop prefix face_id cost) m ks
        (put_next_hop-is_live prefix face_id cost) h
  map_step-is_live (op_remove_next_hop prefix face_id) m ks h =
      at_prefix-is_live prefix (drop_next_hop face_id) m ks (drop_next_hop-is_live face_id) h
  map_step-is_live (op_clean_up_face face_id) m ks h = drop_next_hop-is_live face_id (m ks)

  -- The parts of the invariant that are about the tree.
  abbrev IsTree : Pet → Type 0
  IsTree root = HasDepths (pet_shape hash) 0 root × IsTidy (pet_shape hash) root

  view-update_here :
      (prefix : Name) (drop : Option PetEntryState → Option PetEntryState) (root : Pet)
      → drop none ≡ none
      → view_pet hash name_hash (update_exact (pet_shape hash) prefix drop root) (map hash prefix)
        ≡ drop (view_pet hash name_hash root (map hash prefix))
  view-update_here prefix drop root e =
      view-update_exact (pet_shape hash) (pet_laws hash) root (map hash prefix) prefix drop e
      ∙ rw (keys_equal_refl (pet_shape hash) (pet_laws hash) (map hash prefix)) refl

  remove_from-IsTree :
      (prefix : Name) (drop : Option PetEntryState → Option PetEntryState) (root n : Pet)
      → drop none ≡ none
      → view_pet hash name_hash root (map hash prefix) ≡ payload n
      → IsTree root
      → IsTree (remove_from hash name_hash prefix drop (some n) root)
  remove_from-IsTree prefix drop root n e h t = elim (Option-cases (payload n)) [
    | inl absent ↦ rw absent t
    | inr (o, present) ↦ rw present (elim (Bool-cases (no_entry (drop (some o)))) [
      | inl gone ↦ rw gone (
        prune-HasDepths (pet_shape hash) _ 0 prefix
            (update_exact-HasDepths (pet_shape hash) root 0 prefix drop t.0),
        prune-update_exact-IsTidy (pet_shape hash) root prefix drop t.1,
      )
      | inr left ↦ rw left (
        update_exact-HasDepths (pet_shape hash) root 0 prefix drop t.0,
        subst (IsTidy (pet_shape hash))
            (prune_full (pet_shape hash) (pet_laws hash) _ prefix refl
              (ap no_entry (view-update_here prefix drop root e ∙ ap drop (h ∙ present)) ∙ left))
            (prune-update_exact-IsTidy (pet_shape hash) root prefix drop t.1),
      )
    ])
  ]

  removed-IsTree :
      (prefix : Name) (drop : Option PetEntryState → Option PetEntryState) (root : Pet)
      → drop none ≡ none
      → IsTree root
      → IsTree
          (remove_from hash name_hash prefix drop (find_exact (pet_shape hash) prefix root) root)
  removed-IsTree prefix drop root e t =
      elim (Option-cases (find_exact (pet_shape hash) prefix root)) [
        | inl missing ↦ rw missing t
        | inr (n, found) ↦ rw found (
            remove_from-IsTree prefix drop root n e
              (some_exact hash name_hash prefix root n t.0 found) t)
      ]

  put-IsTree :
      (prefix : Name) (put : Option PetEntryState → Option PetEntryState) (root : Pet)
      → ((o : Option PetEntryState) → no_entry (put o) ≡ false)
      → IsTree root
      → IsTree (fill_update (pet_shape hash) prefix put root)
  put-IsTree prefix put root full t = (
    fill_update-HasDepths (pet_shape hash) root 0 prefix put t.0,
    fill_update-IsTidy (pet_shape hash) put full root prefix t.1,
  )

  pet_step-IsTree :
      (op : PetOp) (root : Pet) → IsTree root → IsTree (pet_step hash name_hash op root)
  unfolding pet_step
  pet_step-IsTree (op_add_egress prefix egress multicast) root t =
      elim (Bool-cases (length egress == 0)) [
        | inl h ↦ rw h t
        | inr h ↦ rw h (put-IsTree prefix _ root (λ o. refl) t)
      ]
  pet_step-IsTree (op_remove_egress prefix egress) root t = elim (Bool-cases (length egress == 0)) [
    | inl h ↦ rw h t
    | inr h ↦ rw h (removed-IsTree prefix (drop_egress hash name_hash egress) root refl t)
  ]
  pet_step-IsTree (op_add_next_hop prefix face_id cost) root t =
      put-IsTree prefix _ root (λ o. refl) t
  pet_step-IsTree (op_remove_next_hop prefix face_id) root t =
      removed-IsTree prefix (drop_next_hop face_id) root refl t
  pet_step-IsTree (op_clean_up_face face_id) root t = (
    clean-HasDepths (pet_shape hash) root 0 (drop_next_hop face_id) t.0,
    clean-IsTidy (pet_shape hash) root (drop_next_hop face_id) t.1,
  )

  -- Every operation keeps the invariant.
  pub pet_step-IsPet :
      (op : PetOp) (root : Pet) → IsPet hash root → IsPet hash (pet_step hash name_hash op root)
  pet_step-IsPet op root h =
      let t = pet_step-IsTree op root (h.0, h.1) in
      (
        t.0,
        t.1,
        λ ks.
            subst (λ o. is_live o ≡ true) (sym (view-pet_step hash name_hash op root ks h.0))
              (map_step-is_live op (view_pet hash name_hash root) ks (h.2 ks)),
      )
