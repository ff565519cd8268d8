-- ===== src/Fw/Strategy/BestRoute/Cheapest.antt =====
-- Which next hop best-route uses for a new Interest, and the egress router that it puts on it.
use ndn_bier.Prelude.{
  ℕ, ◌+◌, ◌≤◌, ◌<◌, ◌≡◌, refl, ◌∙◌, ◌⊎◌, inl, inr, Bool, true, false, List, [], ◌∷◌, Option, none,
  some, arith, Bool-cases, All, All-map_imp, Pairs, Occurs, ap, lt→ltb,
}
use ndn_bier.Prelude.Maps.{Map, lookup}
use ndn_bier.Encoding.Name.{Name}
use ndn_bier.Table.NextHops.{FibNextHopEntry, sort_by_cost}
use ndn_bier.Table.NextHops.Sorting.{
  CostLe, sort_by_cost-Pairs, All-sort_by_cost, Occurs-sort_by_cost,
}
use ndn_bier.Fw.Packet.{Pkt, Face}
use ndn_bier.Fw.Outgoing.{Egress, send_interest, may_send}
use ndn_bier.Fw.Outgoing.Sends.{usable, usable_face, send-refused, send-accepted}
use ndn_bier.Fw.Strategy.BestRoute.{
  get_elem?, tag, verdict, try_hop, visit_hop, pass, after_receive_interest,
}

module _ (faces : Map Face) (next_er : List Name) (packet : Pkt) (in_face : ℕ) where
  usable-tag :
      (i nexthop : ℕ)
      → usable faces (tag next_er i packet) nexthop in_face ≡ usable faces packet nexthop in_face
  unfolding usable may_send tag
  usable-tag i nexthop = same (get_elem? next_er i) (lookup nexthop faces)
    where
      same :
          (er : Option Name) (o : Option Face)
          → usable_face
              (elim er [ some e ↦ record packet { egress_router = e } | none ↦ packet ])
              in_face
              o
            ≡ usable_face packet in_face o
      same none none = refl
      same none (some face) = refl
      same (some e) none = refl
      same (some e) (some face) = refl

  abbrev pub IsUsable : FibNextHopEntry → Type 0
  IsUsable nh = usable faces packet nh.nexthop in_face ≡ true

  abbrev pub IsUnusable : FibNextHopEntry → Type 0
  IsUnusable nh = usable faces packet nh.nexthop in_face ≡ false

  -- The next hop costs no more than the other one, unless that may not be used.
  abbrev pub IsBestOf : FibNextHopEntry → FibNextHopEntry → Type 0
  IsBestOf nh o = IsUnusable o ⊎ (nh.cost ≤ o.cost)

-- The next hop has no out-record.
abbrev pub IsFresh : Egress → FibNextHopEntry → Type 0
IsFresh st nh = lookup nh.nexthop st.pit_entry.out_records ≡ none

swapped :
    (dear cheap : FibNextHopEntry)
    → cheap.cost < dear.cost
    → sort_by_cost (dear ∷ cheap ∷ []) ≡ cheap ∷ dear ∷ []
unfolding sort_by_cost
swapped dear cheap less = rw (lt→ltb cheap.cost dear.cost less)

module _ (thread_id : ℕ) (faces : Map Face) (now : ℕ) (packet : Pkt) (in_face : ℕ)
    (next_er : List Name) where
  abbrev pub sent_on : ℕ → FibNextHopEntry → Egress → Egress
  sent_on i nh st =
      (send_interest thread_id faces now (tag next_er i packet) nh.nexthop in_face st).1

  try_hop-unusable :
      (i : ℕ) (nh : FibNextHopEntry) (st : Egress)
      → usable faces packet nh.nexthop in_face ≡ false
      → try_hop thread_id faces now packet in_face next_er i nh st ≡ inl st
  unfolding try_hop
  try_hop-unusable i nh st h = rw (
      send-refused thread_id faces now (tag next_er i packet) nh.nexthop in_face st
        (usable-tag faces next_er packet in_face i nh.nexthop ∙ h))

  try_hop-usable :
      (i : ℕ) (nh : FibNextHopEntry) (st : Egress)
      → usable faces packet nh.nexthop in_face ≡ true
      → try_hop thread_id faces now packet in_face next_er i nh st ≡ inr (sent_on i nh st)
  unfolding try_hop
  try_hop-usable i nh st h =
      let (face, there, e) =
        send-accepted thread_id faces now (tag next_er i packet) nh.nexthop in_face st
          (usable-tag faces next_er packet in_face i nh.nexthop ∙ h) in
      rw (ap (λ r. r.0) e)

  visit_hop-fresh :
      (first : Bool) (i : ℕ) (nh : FibNextHopEntry) (st : Egress)
      → IsFresh st nh
      → visit_hop thread_id faces now packet in_face next_er first i nh st
        ≡ try_hop thread_id faces now packet in_face next_er i nh st
  unfolding visit_hop verdict
  visit_hop-fresh true i nh st h = rw (h, visit_hop)
  visit_hop-fresh false i nh st h = refl

  -- What a pass over fresh next hops in the order of cost does.
  abbrev PassResult : Bool → ℕ → List FibNextHopEntry → Egress → Type 0
  PassResult first i l st =
      (All (λ nh. usable faces packet nh.nexthop in_face ≡ false) l
        × (pass thread_id faces now packet in_face next_er first i l st ≡ inl st))
      ⊎ ((nh : FibNextHopEntry) × (k : ℕ) × Occurs nh l
          × (usable faces packet nh.nexthop in_face ≡ true)
          × All (IsBestOf faces next_er packet in_face nh) l
          × (pass thread_id faces now packet in_face next_er first i l st ≡ inr (sent_on k nh st)))

  pass-result :
      (first : Bool) (i : ℕ) (l : List FibNextHopEntry) (st : Egress)
      → Pairs CostLe l
      → All (IsFresh st) l
      → PassResult first i l st
  unfolding pass
  pass-result first i [] st s f = inl (tt, refl)
  pass-result first i (nh ∷ rest) st s f =
      elim (Bool-cases (usable faces packet nh.nexthop in_face)) [
        | inl ok ↦ inr (
          nh,
          i,
          inl refl,
          ok,
          (inr (omega arith), All-map_imp _ _ (λ o c. inr c) rest s.0),
          rw (visit_hop-fresh first i nh st f.0, try_hop-usable i nh st ok, pass),
        )
        | inr bad ↦
            let skip = visit_hop-fresh first i nh st f.0 ∙ try_hop-unusable i nh st bad in
            elim (pass-result first (i + 1) rest st s.1 f.1) [
              | inl (none_usable, e) ↦ inl ((bad, none_usable), rw (skip, pass) e)
              | inr (x, k, o, ok, best, e) ↦
                  inr (x, k, inr o, ok, (inl bad, best), rw (skip, pass) e)
            ]
      ]

  unusable-pass :
      (i : ℕ) (l : List FibNextHopEntry) (st : Egress)
      → All (λ nh. usable faces packet nh.nexthop in_face ≡ false) l
      → pass thread_id faces now packet in_face next_er false i l st ≡ inl st
  unfolding pass visit_hop
  unusable-pass i [] st h = refl
  unusable-pass i (nh ∷ rest) st h =
      rw (try_hop-unusable i nh st h.0, pass) (unusable-pass (i + 1) rest st h.1)

  -- With no out-record for any next hop, best-route either finds no next hop usable and changes
  -- nothing, or sends the Interest once, on a usable next hop that costs no more than any other
  -- usable one.
  pub best_route_cheapest :
      (nexthops : List FibNextHopEntry) (st : Egress)
      → All (IsFresh st) nexthops
      → let st' = after_receive_interest thread_id faces now packet in_face next_er nexthops st in
        (All (λ nh. usable faces packet nh.nexthop in_face ≡ false) nexthops × (st' ≡ st))
        ⊎ ((nh : FibNextHopEntry) × (k : ℕ) × Occurs nh nexthops
            × (usable faces packet nh.nexthop in_face ≡ true)
            × All (IsBestOf faces next_er packet in_face nh) nexthops
            × (st' ≡ sent_on k nh st))
  unfolding after_receive_interest
  best_route_cheapest nexthops st fresh =
      let sorted = sort_by_cost nexthops in
      elim (pass-result true 0 sorted st (sort_by_cost-Pairs nexthops)
        ((All-sort_by_cost (IsFresh st) nexthops).0 fresh)) [
          | inl (unusable, e) ↦ inl (
            (All-sort_by_cost _ nexthops).1 unusable,
            rw (e, after_receive_interest, unusable-pass 0 sorted st unusable),
          )
          | inr (nh, k, o, ok, best, e) ↦ inr (
            nh,
            k,
            Occurs-sort_by_cost nexthops nh o,
            ok,
            (All-sort_by_cost _ nexthops).1 best,
            rw (e, after_receive_interest),
          )
        ]

  -- The router tags are not sorted along with the next hops: where the second of two next hops is
  -- the cheaper one, has no out-record and may be used, its Interest is tagged with the egress
  -- router of the first.
  pub best_route_swapped_tag :
      (dear cheap : FibNextHopEntry) (dear_er cheap_er : Name) (st : Egress)
      → next_er ≡ dear_er ∷ cheap_er ∷ []
      → cheap.cost < dear.cost
      → IsFresh st cheap
      → usable faces packet cheap.nexthop in_face ≡ true
      → after_receive_interest thread_id faces now packet in_face next_er (dear ∷ cheap ∷ []) st
        ≡ (send_interest thread_id faces now
            (record packet { egress_router = dear_er })
            cheap.nexthop
            in_face
            st).1
  unfolding after_receive_interest
  best_route_swapped_tag dear cheap dear_er cheap_er st tags less fresh ok =
      let first : pass thread_id faces now packet in_face next_er true 0 (cheap ∷ dear ∷ []) st
          ≡ inr (sent_on 0 cheap st) =
        unfold pass in
        rw (visit_hop-fresh true 0 cheap st fresh, try_hop-usable 0 cheap st ok, pass) in
      let tagged : tag next_er 0 packet ≡ record packet { egress_router = dear_er } =
        unfold tag in rw (tags, tag) in
      rw (swapped dear cheap less, first, after_receive_interest)
        (ap (λ p. (send_interest thread_id faces now p cheap.nexthop in_face st).1) tagged)
