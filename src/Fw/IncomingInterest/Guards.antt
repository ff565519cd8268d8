-- ===== src/Fw/IncomingInterest/Guards.antt =====
-- What holds of an Interest that reaches the PIT.
use ndn_bier.Prelude.{
  ℕ, zero, suc, ◌+◌, ◌≡◌, refl, subst, false, ◌&&◌, Option, none, some, arith, Bool-cases,
  Option-cases, inl, inr, Bool, true, List, [], ◌∷◌, ◌++◌, ◌≢◌, All, Occurs, ◌⊎◌, sym, ◌∙◌, ap,
}
use ndn_bier.Prelude.Maps.{lookup}
use ndn_bier.Encoding.Name.{Name, is_prefix}
use ndn_bier.Encoding.Name.Prefix.{component_equal_refl, is_prefix_iff}
use ndn_bier.Table.NetworkRegion.{is_producer}
use ndn_bier.Table.DeadNonceList.{DeadNonceList, find}
use ndn_bier.Fw.Packet.{Pkt, Face, non_local, is_non_local}
use ndn_bier.Fw.Outgoing.{localhost, is_localhost}
use ndn_bier.Fw.IncomingInterest.{Env}
use ndn_bier.Fw.IncomingInterest.Check.{
  Check, dropped, dropped_counted, accepted, count_hop, hint_or, hint_loop, hint_name,
  with_hop_limit, check_nonce, check_scope, check_incoming,
}

-- One hop less, if hops are counted.
abbrev pub IsHopLess : Option ℕ → Option ℕ → Type 0
IsHopLess none h = h ≡ none
IsHopLess (some n) none = ⊥
IsHopLess (some n) (some h) = n ≡ h + 1

-- A region of the forwarder is a prefix of the name.
abbrev pub IsInRegion : List Name → Name → Type 0
IsInRegion regions name =
    (region : Name) × (rest : Name) × Occurs region regions × (name ≡ region ++ rest)

-- The name that the next hops are looked up for instead: the first of the hints, if there are any and none
-- of them is in a region of the forwarder, and else none.
abbrev pub IsHint : List Name → Option (List Name) → Option Name → Type 0
IsHint regions none hint = hint ≡ none
IsHint regions (some names) none =
    (names ≡ []) ⊎ ((fh : Name) × Occurs fh names × IsInRegion regions fh)
IsHint regions (some names) (some first) =
    ((rest : List Name) × (names ≡ first ∷ rest)) × All (λ fh. ¬ IsInRegion regions fh) names

-- The packet that goes on, from the packet that came in.
pub record IsAdmitted (env : Env) (d : DeadNonceList) (packet : Pkt) (given_nonce : Option ℕ)
    (face : Face) (on : Pkt) (hint : Option Name) : Type 0 where
  pub known_face : lookup packet.incoming_face_id env.faces ≡ some face
  pub hop : IsHopLess packet.interest.hop_limit_v on.interest.hop_limit_v
  pub in_scope : face.scope ≡ non_local → (rest : Name) → packet.name ≢ localhost ∷ rest
  pub nonce_set : given_nonce ≡ some on.interest.nonce_v
  pub alive :
      find env.name_hash env.dead_nonce_lifetime on.interest.name_v on.interest.nonce_v d ≡ false
  pub same_name : on.interest.name_v ≡ packet.interest.name_v
  pub hinted : IsHint env.regions packet.interest.forwarding_hint_v hint

producer-IsInRegion :
    (name : Name) (regions : List Name) → is_producer name regions ≡ true → IsInRegion regions name
unfolding is_producer
producer-IsInRegion name [] h = cc
producer-IsInRegion name (region ∷ regions) h = elim (Bool-cases (is_prefix region name)) [
  | inl p ↦ let found = (is_prefix_iff region name).0 p in (region, found.0, inl refl, found.1)
  | inr n ↦
      let later = producer-IsInRegion name regions (ground (arith, h, n)) in
      (later.0, later.1, inr later.2, later.3)
]

in_region_producer :
    (name : Name) (regions : List Name) → IsInRegion regions name → is_producer name regions ≡ true
unfolding is_producer
in_region_producer name [] (r, rest, o, e) = absurd o
in_region_producer name (region ∷ regions) (r, rest, inl same, e) =
    let p = (is_prefix_iff region name).1 (rest, e ∙ ap (λ x. x ++ rest) (sym same)) in rw p refl
in_region_producer name (region ∷ regions) (r, rest, inr later, e) =
    let q = in_region_producer name regions (r, rest, later, e) in ground (arith, q)

-- The first of a name and some others.
abbrev first_or : Option Name → List Name → Option Name
first_or (some name) names = some name
first_or none [] = none
first_or none (fh ∷ names) = some fh

first_or-hint_or :
    (given : Option Name) (fh : Name) (names : List Name)
    → first_or (hint_or given fh) names ≡ first_or given (fh ∷ names)
first_or-hint_or none fh names = refl
first_or-hint_or (some name) fh names = refl

hint_loop_cases :
    (regions names : List Name) (given : Option Name)
    → (((fh : Name) × Occurs fh names × IsInRegion regions fh)
        × (hint_loop regions names given ≡ none))
      ⊎ (All (λ fh. ¬ IsInRegion regions fh) names
          × (hint_loop regions names given ≡ first_or given names))
unfolding hint_loop
hint_loop_cases regions [] none = inr (tt, refl)
hint_loop_cases regions [] (some name) = inr (tt, refl)
hint_loop_cases regions (fh ∷ names) given = elim (Bool-cases (is_producer fh regions)) [
  | inl t ↦ rw t (inl ((fh, inl refl, producer-IsInRegion fh regions t), refl))
  | inr f ↦ rw f (elim (hint_loop_cases regions names (hint_or given fh)) [
    | inl (found, e) ↦ inl ((found.0, inr found.1, found.2), e)
    | inr (outside, e) ↦ inr (
      (λ r. apart (in_region_producer fh regions r) f, outside),
      e ∙ first_or-hint_or given fh names,
    )
  ])
]
  where
    apart : {b : Bool} → b ≡ true → b ≡ false → ⊥
    apart t f = cc

hint_name-IsHint :
    (regions : List Name) (hints : Option (List Name))
    → IsHint regions hints (hint_name regions hints)
hint_name-IsHint regions none = refl
hint_name-IsHint regions (some names) = elim (hint_loop_cases regions names none) [
  | inl (found, e) ↦ rw e (inr found)
  | inr (outside, e) ↦ rw e (first names outside)
]
  where
    first :
        (names : List Name)
        → All (λ fh. ¬ IsInRegion regions fh) names
        → IsHint regions (some names) (first_or none names)
    first [] outside = inl refl
    first (fh ∷ names) outside = ((names, refl), outside)

scope_kept :
    (face : Face) (name : Name)
    → (is_non_local face.scope && is_localhost name) ≡ false
    → face.scope ≡ non_local
    → (rest : Name) → name ≢ localhost ∷ rest
unfolding is_non_local is_localhost
scope_kept face name h far rest e = apart (rw (far, e, component_equal_refl localhost) at h)
  where
    apart : true ≡ false → ⊥
    apart f = cc

-- A check that fails lets nothing through.
abbrev IsAdmission : Env → DeadNonceList → Pkt → Option ℕ → Check → Type 0
IsAdmission env d packet given_nonce dropped = Unit
IsAdmission env d packet given_nonce dropped_counted = Unit
IsAdmission env d packet given_nonce (accepted face on hint) =
    IsAdmitted env d packet given_nonce face on hint

module _ (env : Env) (d : DeadNonceList) (packet : Pkt) (face : Face)
    (known : lookup packet.incoming_face_id env.faces ≡ some face) where
  nonce-IsAdmission :
      (h : Option ℕ) (given_nonce : Option ℕ)
      → IsHopLess packet.interest.hop_limit_v h
      → (is_non_local face.scope && is_localhost packet.name) ≡ false
      → IsAdmission env d packet given_nonce
          (check_nonce env d face (with_hop_limit h packet) given_nonce)
  unfolding check_nonce
  nonce-IsAdmission h none less scope = tt
  nonce-IsAdmission h (some n) less scope =
      elim (Bool-cases (find env.name_hash env.dead_nonce_lifetime packet.interest.name_v n d)) [
        | inl dead ↦ rw dead tt
        | inr alive ↦ rw alive (record {
          known_face = known;
          hop = less;
          in_scope = scope_kept face packet.name scope;
          nonce_set = refl;
          alive = alive;
          same_name = refl;
          hinted = hint_name-IsHint env.regions packet.interest.forwarding_hint_v;
        })
      ]

  scope-IsAdmission :
      (h : Option ℕ) (given_nonce : Option ℕ)
      → IsHopLess packet.interest.hop_limit_v h
      → IsAdmission env d packet given_nonce (check_scope env d face (some h) packet given_nonce)
  unfolding check_scope
  scope-IsAdmission h given_nonce less =
      elim (Bool-cases (is_non_local face.scope && is_localhost packet.name)) [
        | inl out ↦ rw out tt
        | inr within ↦ rw within (nonce-IsAdmission h given_nonce less within)
      ]

  hop-IsAdmission :
      (o : Option ℕ) (given_nonce : Option ℕ)
      → packet.interest.hop_limit_v ≡ o
      → IsAdmission env d packet given_nonce
          (check_scope env d face (count_hop o) packet given_nonce)
  hop-IsAdmission none given_nonce e = scope-IsAdmission none given_nonce (rw e refl)
  hop-IsAdmission (some zero) given_nonce e = unfold check_scope in tt
  hop-IsAdmission (some (suc n)) given_nonce e =
      scope-IsAdmission (some n) given_nonce (rw e (omega arith))

-- An Interest that reaches the PIT came on a face that exists, has one hop less left if its hops are
-- counted, does not have a name of /localhost from another host, has a nonce that is not dead for its
-- name, and keeps its name. It goes on with the first of its forwarding hints, unless it has none or one
-- of them is in a region of the forwarder.
pub check_incoming-IsAdmitted :
    (env : Env) (d : DeadNonceList) (packet : Pkt) (given_nonce : Option ℕ) (face : Face) (on : Pkt)
    (hint : Option Name)
    → check_incoming env d packet given_nonce ≡ accepted face on hint
    → IsAdmitted env d packet given_nonce face on hint
unfolding check_incoming
check_incoming-IsAdmitted env d packet given_nonce face on hint h =
    elim (Option-cases (lookup packet.incoming_face_id env.faces)) [
      | inl missing ↦ absurd (apart (rw missing at h))
      | inr (f, known) ↦
          subst (IsAdmission env d packet given_nonce) (rw known at h)
            (hop-IsAdmission env d packet f known packet.interest.hop_limit_v given_nonce refl)
    ]
  where
    apart : dropped ≡ accepted face on hint → ⊥
    apart e = cc
