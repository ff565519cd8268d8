-- ===== src/Table/Rib/Routes.antt =====
-- What the RIB holds under the hashes of a name, after an operation.
use ndn_bier.Prelude.{
  ℕ, ◌≡◌, refl, sym, ◌∙◌, ap, subst, Bool, true, Option, none, some, List, [], ◌∷◌, map, length,
  ◌==◌, ==_iff, if◌then◌else◌, arith, Bool-cases, inl, inr,
}
use ndn_bier.Encoding.Name.{Component, Name}
use ndn_bier.Table.NameTree.{Children, Laws, node, leaf, child, find_exact}
use ndn_bier.Table.NameTree.View.{
  view, view_child, keys_equal, keys_equal_sound, view-fill_update, view-update_exact,
  view-prune_node, view-keep_unless_bare,
}
use ndn_bier.Table.NameTree.Exact.{payload_or, HasDepths, find_exact-view}
use ndn_bier.Table.Rib.{
  Route, RibTree, rib_shape, put_route, cut_route, cut_face, first_to_face, add_route, remove_route,
  remove_found, clean_node, clean_below, clean_up_face, clean_entry, keep_child, Cleaned,
  CleanedChildren,
}
use ndn_bier.Table.Rib.Changes.{
  IsOf, IsTo, IsPut, IsCut, ChangedIf, changed_if, put_route-IsPut, cut_route-IsCut, cut_face-IsCut,
}

no_routes : (routes : List Route) → (length routes == 0) ≡ true → routes ≡ []
no_routes [] h = refl
no_routes (r ∷ routes) h = absurd (ground arith)

rib_laws : (hash : Component → ℕ) → Laws (rib_shape hash)
rib_laws hash = record { same_iff = ==_iff; empty_fresh = no_routes }

cut_face-absent :
    (face_id : ℕ) (routes : List Route)
    → first_to_face face_id routes ≡ none
    → cut_face face_id routes ≡ routes
unfolding cut_face first_to_face
cut_face-absent face_id [] h = refl
cut_face-absent face_id (r ∷ routes) h = ground (arith, cut_face-absent face_id routes)

module _ (hash : Component → ℕ) where
  abbrev pub routes_under : RibTree → List ℕ → List Route
  routes_under rib ks = view (rib_shape hash) ks rib

  abbrev pub is_under : Name → List ℕ → Bool
  is_under name ks = keys_equal (rib_shape hash) (map hash name) ks

  cut_absent :
      (name : Name) (face_id origin : ℕ) (root : RibTree) (ks : List ℕ)
      → routes_under root (map hash name) ≡ []
      → routes_under root ks ≡ (
          if is_under name ks
          then cut_route face_id origin (routes_under root ks)
          else routes_under root ks)
  unfolding cut_route
  cut_absent name face_id origin root ks h = elim (Bool-cases (is_under name ks)) [
    | inl s ↦
        let here : routes_under root ks ≡ [] =
          subst (λ js. routes_under root js ≡ [])
            (keys_equal_sound (rib_shape hash) (rib_laws hash) _ ks s) h in
        rw (s, here) refl
    | inr d ↦ rw d refl
  ]

  view-remove_found :
      (name : Name) (face_id origin : ℕ) (o : Option RibTree) (root : RibTree) (ks : List ℕ)
      → HasDepths (rib_shape hash) 0 root
      → find_exact (rib_shape hash) name root ≡ o
      → routes_under (remove_found hash name face_id origin o root).rib ks ≡ (
          if is_under name ks
          then cut_route face_id origin (routes_under root ks)
          else routes_under root ks)
  view-remove_found name face_id origin none root ks h found =
      cut_absent name face_id origin root ks
        (sym (find_exact-view (rib_shape hash) root name h) ∙ ap (payload_or []) found)
  view-remove_found name face_id origin (some n) root ks h found =
      view-prune_node (rib_shape hash) (rib_laws hash) _ ks name
      ∙ view-update_exact (rib_shape hash) (rib_laws hash) root ks name (cut_route face_id origin)
          (unfold cut_route in refl)

  routes-add_and_remove :
      (name : Name) (route : Route) (root : RibTree) (ks : List ℕ)
      → HasDepths (rib_shape hash) 0 root
      → (routes_under (add_route hash name route root).rib ks ≡ (
          if is_under name ks
          then put_route route (routes_under root ks)
          else routes_under root ks))
        × (routes_under (remove_route hash name route.face_id route.origin root).rib ks ≡ (
            if is_under name ks
            then cut_route route.face_id route.origin (routes_under root ks)
            else routes_under root ks))
  unfolding add_route remove_route
  routes-add_and_remove name route root ks h = (
    view-fill_update (rib_shape hash) (rib_laws hash) root ks name (put_route route),
    view-remove_found name route.face_id route.origin _ root ks h refl,
  )

  -- In a table whose names are as long as their nodes are deep, an added route takes the place of the first
  -- one of its face and origin in the entry of its name, or comes last there if there is none; a removal
  -- takes the first route of the face and origin out of the entry, if there is one. The other routes keep
  -- their order, and no other entry changes.
  pub add_and_remove-routes :
      (name : Name) (route : Route) (root : RibTree) (ks : List ℕ)
      → HasDepths (rib_shape hash) 0 root
      → ChangedIf
          (is_under name ks)
          (IsPut route)
          (routes_under root ks)
          (routes_under (add_route hash name route root).rib ks)
        × ChangedIf
            (is_under name ks)
            (IsCut (IsOf route.face_id route.origin))
            (routes_under root ks)
            (routes_under (remove_route hash name route.face_id route.origin root).rib ks)
  add_and_remove-routes name route root ks h =
      let both = routes-add_and_remove name route root ks h in
      let old = routes_under root ks in
      (
        changed_if (is_under name ks) (IsPut route) (put_route route) old _
            (put_route-IsPut route old) both.0,
        changed_if (is_under name ks) (IsCut (IsOf route.face_id route.origin))
            (cut_route route.face_id route.origin) old _
            (cut_route-IsCut route.face_id route.origin old) both.1,
      )

  view-clean_entry :
      (face_id : ℕ) (up : List (List Route)) (name : Name) (routes : List Route)
      (below : CleanedChildren) (o : Option Route) (k : ℕ) (ks : List ℕ)
      → routes_under (clean_entry face_id up name routes below o).tree (k ∷ ks)
        ≡ view_child (rib_shape hash) k ks below.children
  unfolding view
  view-clean_entry face_id up name routes below none k ks = refl
  view-clean_entry face_id up name routes below (some r) k ks = refl

  view-clean_root :
      (face_id : ℕ) (up : List (List Route)) (name : Name) (routes : List Route)
      (below : CleanedChildren) (o : Option Route)
      → first_to_face face_id routes ≡ o
      → routes_under (clean_entry face_id up name routes below o).tree [] ≡ cut_face face_id routes
  unfolding view
  view-clean_root face_id up name routes below none e = sym (cut_face-absent face_id routes e)
  view-clean_root face_id up name routes below (some r) e = refl

  view-keep_child :
      (j : ℕ) (c : Cleaned) (rest : CleanedChildren) (k : ℕ) (ks : List ℕ)
      → view_child (rib_shape hash) k ks (keep_child hash j c rest).children ≡ (
          if j == k then routes_under c.tree ks else view_child (rib_shape hash) k ks rest.children)
  unfolding view
  view-keep_child j c rest k ks =
      ground
        (arith, view-keep_unless_bare (rib_shape hash) (rib_laws hash) c.tree rest.children j k ks)

  mutual
    unfolding view clean_node cut_face

    view-clean_node :
        (n : RibTree) (face_id : ℕ) (up : List (List Route)) (ks : List ℕ)
        → routes_under (clean_node hash face_id up n).tree ks ≡ cut_face face_id (routes_under n ks)
    view-clean_node (node name routes cs) face_id up [] =
        view-clean_root face_id up name routes _ _ refl
    view-clean_node (node name routes cs) face_id up (k ∷ ks) =
        view-clean_entry face_id up name routes _ (first_to_face face_id routes) k ks
        ∙ view-clean_below cs face_id (routes ∷ up) k ks

    view-clean_below :
        (cs : Children ℕ (List Route)) (face_id : ℕ) (up : List (List Route)) (k : ℕ) (ks : List ℕ)
        → view_child (rib_shape hash) k ks (clean_below hash face_id up cs).children
          ≡ cut_face face_id (view_child (rib_shape hash) k ks cs)
    view-clean_below leaf face_id up k ks = refl
    view-clean_below (child j n cs) face_id up k ks = ground (
      arith,
      view-keep_child j (clean_node hash face_id up n) (clean_below hash face_id up cs) k ks,
      view-clean_node n face_id up ks,
      view-clean_below cs face_id up k ks,
    )

  -- Cleaning up a face takes the first route to it out of every entry of the table that has one, and no
  -- other route: those before and after it stay, also the later routes to the same face.
  pub clean_up_face-routes :
      (face_id : ℕ) (root : RibTree) (ks : List ℕ)
      → IsCut
          (IsTo face_id)
          (routes_under root ks)
          (routes_under (clean_up_face hash face_id root).rib ks)
  unfolding clean_up_face
  clean_up_face-routes face_id root ks =
      subst (IsCut (IsTo face_id) (routes_under root ks)) (sym (view-clean_node root face_id [] ks))
        (cut_face-IsCut face_id (routes_under root ks))
