-- ===== src/Dv/Fib/Replay.antt =====
-- The commands of `UpdateH`, run by the forwarder one after another.
use ndn_bier.Prelude.{
  ℕ, ◌≡◌, ◌≢◌, inl, inr, refl, ◌∙◌, ap, Option, none, some, List, [], ◌∷◌, ◌++◌, leb, ◌==◌, ==_iff,
  if◌then◌else◌, arith, All, Bool-cases, subst,
}
use ndn_bier.Prelude.Maps.{Map, lookup, insert, delete, lookup-insert, lookup-delete}
use ndn_bier.Encoding.Name.{Name}
use ndn_bier.Dv.Fib.{
  FibEntry, Command, register, unregister, cost_pfx_infinity, unregisters, final_entries, registers,
}
use ndn_bier.Dv.Fib.Merge.{cost_at, prev_at, FacesDistinct, IsBounded}

-- The forwarder's routes for one name and the origin of the router: face to cost.
unfoldable pub run_command : Command → Map ℕ → Map ℕ
run_command (register name face cost) routes = insert face cost routes
run_command (unregister name face) routes = delete face routes

unfoldable pub run_commands : List Command → Map ℕ → Map ℕ
run_commands [] routes = routes
run_commands (c ∷ cs) routes = run_commands cs (run_command c routes)

abbrev pub cost_or_infinite : Option ℕ → ℕ
cost_or_infinite none = cost_pfx_infinity
cost_or_infinite (some cost) = cost

abbrev pub route_at : ℕ → Map ℕ → ℕ
route_at face routes = cost_or_infinite (lookup face routes)

pub run_commands-append :
    (cs ds : List Command) (routes : Map ℕ)
    → run_commands (cs ++ ds) routes ≡ run_commands ds (run_commands cs routes)
unfolding run_commands
run_commands-append [] ds routes = refl
run_commands-append (c ∷ cs) ds routes = run_commands-append cs ds (run_command c routes)

route_at-register :
    (name : Name) (face cost q : ℕ) (routes : Map ℕ)
    → route_at q (run_command (register name face cost) routes)
      ≡ (if face == q then cost else route_at q routes)
unfolding run_command
route_at-register name face cost q routes =
    ap cost_or_infinite (lookup-insert face q cost routes) ∙ ground arith

route_at-unregister :
    (name : Name) (face q : ℕ) (routes : Map ℕ)
    → route_at q (run_command (unregister name face) routes)
      ≡ (if face == q then cost_pfx_infinity else route_at q routes)
unfolding run_command
route_at-unregister name face q routes =
    ap cost_or_infinite (lookup-delete face q routes) ∙ ground arith

-- What the two passes leave for a face, from what it had.
abbrev pub dropped_at : ℕ → List FibEntry → ℕ → ℕ
dropped_at face [] old = old
dropped_at face (e ∷ es) old =
    if e.face_id == face
    then (if leb cost_pfx_infinity e.cost then cost_pfx_infinity else old)
    else dropped_at face es old

absent-unregisters :
    (name : Name) (q : ℕ) (es : List FibEntry) (routes : Map ℕ)
    → All (λ b. b.face_id ≢ q) es
    → route_at q (run_commands (unregisters name es) routes) ≡ route_at q routes
unfolding run_commands unregisters
absent-unregisters name q [] routes h = refl
absent-unregisters name q (e ∷ es) routes h = elim (Bool-cases (leb cost_pfx_infinity e.cost)) [
  | inl drop ↦ rw drop (
      absent-unregisters name q es (run_command (unregister name e.face_id) routes) h.1
      ∙ route_at-unregister name e.face_id q routes
      ∙ ground arith)
  | inr keep ↦ rw keep (absent-unregisters name q es routes h.1)
]

pub route_at-unregisters :
    (name : Name) (q : ℕ) (es : List FibEntry) (routes : Map ℕ)
    → FacesDistinct es
    → route_at q (run_commands (unregisters name es) routes) ≡ dropped_at q es (route_at q routes)
unfolding run_commands unregisters
route_at-unregisters name q [] routes d = refl
route_at-unregisters name q (e ∷ es) routes d = elim (Bool-cases (leb cost_pfx_infinity e.cost)) [
  | inl drop ↦
      let r = route_at-unregister name e.face_id q routes in
      elim (Bool-cases (e.face_id == q)) [
        | inl same ↦
            rw (drop, same)
              (absent-unregisters name q es _
                  (subst (λ x. All (λ b. b.face_id ≢ x) es) ((==_iff e.face_id q).0 same) d.0)
                ∙ r
                ∙ (rw same))
        | inr other ↦
            rw (drop, other)
              (route_at-unregisters name q es _ d.1 ∙ ap (dropped_at q es) (r ∙ (rw other)))
      ]
  | inr keep ↦ elim (Bool-cases (e.face_id == q)) [
    | inl same ↦
        rw (keep, same)
          (absent-unregisters name q es _
            (subst (λ x. All (λ b. b.face_id ≢ x) es) ((==_iff e.face_id q).0 same) d.0))
    | inr other ↦ rw (keep, other) (route_at-unregisters name q es routes d.1)
  ]
]

absent-registers :
    (name : Name) (q : ℕ) (es : List FibEntry) (routes : Map ℕ)
    → All (λ b. b.face_id ≢ q) es
    → route_at q (run_commands (registers name (final_entries es)) routes) ≡ route_at q routes
unfolding run_commands registers final_entries
absent-registers name q [] routes h = refl
absent-registers name q (e ∷ es) routes h = elim (Bool-cases (leb cost_pfx_infinity e.cost)) [
  | inl drop ↦ rw drop (absent-registers name q es routes h.1)
  | inr keep ↦ rw keep (elim (Bool-cases (e.cost == e.prev_cost)) [
    | inl same ↦ rw same (absent-registers name q es routes h.1)
    | inr changed ↦ rw changed (
        absent-registers name q es (run_command (register name e.face_id e.cost) routes) h.1
        ∙ route_at-register name e.face_id e.cost q routes
        ∙ ground arith)
  ])
]

-- The route of a face that has an entry, from what the first pass left.
abbrev pub settled_at : ℕ → List FibEntry → ℕ → ℕ
settled_at face [] old = old
settled_at face (e ∷ es) old =
    if e.face_id == face
    then (if leb cost_pfx_infinity e.cost
        then old
        else if e.cost == e.prev_cost
        then old
        else e.cost)
    else settled_at face es old

pub route_at-registers :
    (name : Name) (q : ℕ) (es : List FibEntry) (routes : Map ℕ)
    → FacesDistinct es
    → route_at q (run_commands (registers name (final_entries es)) routes)
      ≡ settled_at q es (route_at q routes)
unfolding run_commands registers final_entries
route_at-registers name q [] routes d = refl
route_at-registers name q (e ∷ es) routes d = elim (Bool-cases (e.face_id == q)) [
  | inl same ↦
      let absent = subst (λ x. All (λ b. b.face_id ≢ x) es) ((==_iff e.face_id q).0 same) d.0 in
      rw same (elim (Bool-cases (leb cost_pfx_infinity e.cost)) [
        | inl drop ↦ rw drop (absent-registers name q es routes absent)
        | inr keep ↦ rw keep (elim (Bool-cases (e.cost == e.prev_cost)) [
          | inl kept ↦ rw kept (absent-registers name q es routes absent)
          | inr changed ↦ rw changed (
              absent-registers name q es (run_command (register name e.face_id e.cost) routes)
                absent
              ∙ route_at-register name e.face_id e.cost q routes
              ∙ (rw same))
        ])
      ])
  | inr other ↦ rw other (elim (Bool-cases (leb cost_pfx_infinity e.cost)) [
    | inl drop ↦ rw drop (route_at-registers name q es routes d.1)
    | inr keep ↦ rw keep (elim (Bool-cases (e.cost == e.prev_cost)) [
      | inl kept ↦ rw kept (route_at-registers name q es routes d.1)
      | inr changed ↦ rw changed (
          route_at-registers name q es (run_command (register name e.face_id e.cost) routes) d.1
          ∙ ap (settled_at q es) (route_at-register name e.face_id e.cost q routes ∙ (rw other)))
    ])
  ])
]

-- From the old costs, both passes leave the new ones.
pub settled-cost_at :
    (q : ℕ) (es : List FibEntry) (old : ℕ)
    → IsBounded es
    → old ≡ prev_at q es
    → settled_at q es (dropped_at q es old) ≡ cost_at q es
unfolding prev_at cost_at
settled-cost_at q [] old h e = e
settled-cost_at q (x ∷ es) old h e = ground (arith, settled-cost_at q es old h.1)
