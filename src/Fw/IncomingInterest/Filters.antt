-- ===== src/Fw/IncomingInterest/Filters.antt =====
-- Which next hops an Interest may take.
use ndn_bier.Prelude.{
  ◌≡◌, ◌≢◌, true, false, Option, List, [], ◌∷◌, arith, Bool-cases, inl, inr, ◌↔◌, ◌==◌, ==_iff,
  refl, sym, ap, subst, not, none, some,
}
use ndn_bier.Prelude.Lists.{Occurs}
use ndn_bier.Prelude.Maps.{lookup}
use ndn_bier.Encoding.Name.{Name}
use ndn_bier.Encoding.Name.Prefix.{component_equal_sound, component_equal_refl}
use ndn_bier.Table.NextHops.{FibNextHopEntry}
use ndn_bier.Table.PitEntry.{PitEntry, PitInRecord}
use ndn_bier.Fw.Packet.{Pkt, Face, Scope, unknown, non_local, is_local}
use ndn_bier.Fw.Lookup.{IsTagged, two_phase_lookup-IsTagged}
use ndn_bier.Fw.IncomingInterest.{Env, localhop, is_localhop}
use ndn_bier.Fw.IncomingInterest.Hops.{
  is_absent, is_local_scope, leaves_host, is_allowed_net, allowed_net, found_hops, net_candidates,
  lookup_name, local_faces_only,
}

-- A next hop that an Interest which came in on a face may take: another face, which is not waiting for
-- it, and a local one if the Interest came from another host with a name of /localhop.
pub record IsAllowed (env : Env) (face : Face) (packet : Pkt) (e : PitEntry) (nh : FibNextHopEntry)
    : Type 0 where
  pub elsewhere : nh.nexthop ≢ packet.incoming_face_id
  pub not_waiting : lookup nh.nexthop e.in_records ≡ none
  pub stays :
      face.scope ≢ is_local
      → (rest : Name) → packet.name ≡ localhop ∷ rest
      → (next : Face) → lookup nh.nexthop env.faces ≡ some next
      → next.scope ≡ is_local

absent_none : (o : Option PitInRecord) → is_absent o ≡ true → o ≡ none
absent_none none h = refl
absent_none (some r) h = cc

local_scope_iff : (s : Scope) → (is_local_scope s ≡ true) ↔ (s ≡ is_local)
local_scope_iff unknown = (λ e. cc, λ e. cc)
local_scope_iff non_local = (λ e. cc, λ e. cc)
local_scope_iff is_local = (λ e. refl, λ e. refl)

is_localhop-localhop : (name rest : Name) → name ≡ localhop ∷ rest → is_localhop name ≡ true
unfolding is_localhop
is_localhop-localhop name rest e = rw e (component_equal_refl localhop)

not_local : (s : Scope) → s ≢ is_local → is_local_scope s ≡ false
not_local s h = elim (Bool-cases (is_local_scope s)) [
  | inl t ↦ absurd (h ((local_scope_iff s).0 t))
  | inr f ↦ f
]

is_allowed_net-IsAllowed :
    (env : Env) (face : Face) (packet : Pkt) (e : PitEntry) (nh : FibNextHopEntry)
    → is_allowed_net env (local_faces_only face packet) packet.incoming_face_id e nh ≡ true
    → IsAllowed env face packet e nh
unfolding is_allowed_net
is_allowed_net-IsAllowed env face packet e nh h = record {
  elsewhere = ground (arith, h);
  not_waiting = absent_none (lookup nh.nexthop e.in_records) (ground (arith, h));
  stays = λ outside rest name next there.
      let only : local_faces_only face packet ≡ true =
        rw (not_local face.scope outside, is_localhop-localhop packet.name rest name) refl in
      let within : leaves_host (lookup nh.nexthop env.faces) ≡ false = ground (arith, h, only) in
      (local_scope_iff next.scope).0 (stays_in next.scope (rw there at within));
}
  where
    stays_in : (s : Scope) → not (is_local_scope s) ≡ false → is_local_scope s ≡ true
    stays_in s h = ground arith

localhop_name : (name : Name) → is_localhop name ≡ true → (rest : Name) × (name ≡ localhop ∷ rest)
unfolding is_localhop
localhop_name [] h = absurd (ground (arith, h))
localhop_name (c ∷ rest) h = (rest, ap (λ x. x ∷ rest) (component_equal_sound c localhop h))

only_local :
    (face : Face) (packet : Pkt)
    → local_faces_only face packet ≡ true
    → (face.scope ≢ is_local) × ((rest : Name) × (packet.name ≡ localhop ∷ rest))
only_local face packet t = (
  λ l. let local = (local_scope_iff face.scope).1 l in ground (arith, t, local),
  localhop_name packet.name (ground (arith, t)),
)

stays_home :
    (env : Env) (face : Face) (packet : Pkt) (e : PitEntry) (nh : FibNextHopEntry)
    → IsAllowed env face packet e nh
    → local_faces_only face packet ≡ true
    → (o : Option Face) → lookup nh.nexthop env.faces ≡ o
    → leaves_host o ≡ false
stays_home env face packet e nh a t none there = refl
stays_home env face packet e nh a t (some next) there =
    let (outside, (rest, name)) = only_local face packet t in
    rw ((local_scope_iff next.scope).1 (a.stays outside rest name next there)) refl

IsAllowed-is_allowed_net :
    (env : Env) (face : Face) (packet : Pkt) (e : PitEntry) (nh : FibNextHopEntry)
    → IsAllowed env face packet e nh
    → is_allowed_net env (local_faces_only face packet) packet.incoming_face_id e nh ≡ true
unfolding is_allowed_net
IsAllowed-is_allowed_net env face packet e nh a =
    let elsewhere : (nh.nexthop == packet.incoming_face_id) ≡ false =
      elim (Bool-cases (nh.nexthop == packet.incoming_face_id)) [
        | inl t ↦ absurd (a.elsewhere ((==_iff nh.nexthop packet.incoming_face_id).0 t))
        | inr f ↦ f
      ] in
    rw (elsewhere, a.not_waiting)
      (elim (Bool-cases (local_faces_only face packet)) [
        | inl t ↦
            rw (t, stays_home env face packet e nh a t (lookup nh.nexthop env.faces) refl) refl
        | inr f ↦ rw f refl
      ])

-- The candidates among some next hops are tagged as these are, and are those that may be taken.
abbrev pub AreCandidates :
    Env → Face → Pkt → PitEntry → List FibNextHopEntry → List FibNextHopEntry × List Name → Type 0
AreCandidates env face packet e found both =
    IsTagged env.find_pet env.find_next_hops both.0 both.1
    × ((nh : FibNextHopEntry)
        → Occurs nh both.0 ↔ (Occurs nh found × IsAllowed env face packet e nh))

allowed_net-AreCandidates :
    (env : Env) (face : Face) (packet : Pkt) (e : PitEntry) (nhs : List FibNextHopEntry)
    (ers : List Name)
    → IsTagged env.find_pet env.find_next_hops nhs ers
    → AreCandidates env face packet e nhs
        (allowed_net env (local_faces_only face packet) packet.incoming_face_id e nhs ers)
unfolding allowed_net
allowed_net-AreCandidates env face packet e [] [] h = (tt, λ nh. (λ o. absurd o, λ p. absurd p.0))
allowed_net-AreCandidates env face packet e [] (er ∷ ers) h = absurd h
allowed_net-AreCandidates env face packet e (nh ∷ nhs) [] h = absurd h
allowed_net-AreCandidates env face packet e (nh ∷ nhs) (er ∷ ers) h =
    let rest = allowed_net-AreCandidates env face packet e nhs ers h.1 in
    elim (Bool-cases
      (is_allowed_net env (local_faces_only face packet) packet.incoming_face_id e nh)) [
        | inl a ↦
            let allowed = is_allowed_net-IsAllowed env face packet e nh a in
            rw a (
              (h.0, rest.0),
              λ x. (
                λ o. elim o [
                  | inl same ↦ (inl same, subst (IsAllowed env face packet e) same allowed)
                  | inr n ↦ let p = (rest.1 x).0 n in (inr p.0, p.1)
                ],
                λ p. elim p.0 [ inl same ↦ inl same | inr n ↦ inr ((rest.1 x).1 (n, p.1)) ],
              ),
            )
        | inr d ↦ rw d (
          rest.0,
          λ x. (
            λ o. let p = (rest.1 x).0 o in (inr p.0, p.1),
            λ p. elim p.0 [
              | inl same ↦
                  let a =
                    IsAllowed-is_allowed_net env face packet e nh
                      (subst (IsAllowed env face packet e) (sym same) p.1) in
                  absurd (ground (arith, a, d))
              | inr n ↦ (rest.1 x).1 (n, p.1)
            ],
          ),
        )
      ]

-- The network next hops that a strategy may choose from are as many as the egress routers that come with
-- them, and each is one that the FIB has for its egress router. They are exactly those of the hops that
-- the lookup found that are not the face of the Interest, have no in-record, and, for a name of /localhop
-- from another host, do not lead to another host.
pub net_candidates-AreCandidates :
    (env : Env) (face : Face) (packet : Pkt) (hint : Option Name) (e : PitEntry)
    → AreCandidates env face packet e
        (found_hops env packet hint).next_net
        (net_candidates env face packet hint e)
unfolding net_candidates found_hops
net_candidates-AreCandidates env face packet hint e =
    allowed_net-AreCandidates env face packet e _ _ (
      two_phase_lookup-IsTagged env.find_pet env.find_next_hops (lookup_name packet hint)
        packet.egress_router env.router_name)
