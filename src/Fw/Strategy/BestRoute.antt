-- ===== src/Fw/Strategy/BestRoute.antt =====
-- ndnd/fw/fw/bestroute.go. `nexthops` is sorted in place by cost; `next_er` keeps its order.
pub mod Cheapest
use ndn_bier.Prelude.{
  ℕ, zero, suc, ◌+◌, ◌*◌, ◌≤◌, ◌<◌, ◌≡◌, refl, ◌⊎◌, inl, inr, Bool, true, false, List, [], ◌∷◌,
  Option, none, some, arith, leb, ltb, ◌==◌, if◌then◌else◌, length,
}
use ndn_bier.Prelude.Maps.{Map, lookup}
use ndn_bier.Encoding.Name.{Name}
use ndn_bier.Table.NextHops.{FibNextHopEntry, sort_by_cost}
use ndn_bier.Table.PitEntry.{PitEntry, PitOutRecord, millisecond}
use ndn_bier.Fw.Packet.{Pkt, Face}
use ndn_bier.Fw.Outgoing.{Egress, send_interest}

abbrev pub best_route_suppression_time : ℕ
best_route_suppression_time = 400 * millisecond

abbrev pub get_elem? {ℓ} : {A : Type ℓ} → List A → ℕ → Option A
get_elem? [] i = none
get_elem? (x ∷ xs) zero = some x
get_elem? (x ∷ xs) (suc i) = get_elem? xs i

-- The packet as the i-th hop in the sorted order gets it.
unfoldable pub tag : List Name → ℕ → Pkt → Pkt
tag next_er i packet = elim (get_elem? next_er i) [
  | some er ↦ record packet { egress_router = er }
  | none ↦ packet
]

-- What the first pass does with a hop that has an out-record, or has none.
pub data Verdict : Type 0 where
  suppressed skipped tried : Verdict

module _ (thread_id : ℕ) (faces : Map Face) (now : ℕ) where
  unfoldable pub verdict : Option PitOutRecord → Verdict
  verdict none = tried
  verdict (some out) =
      if ltb now (out.latest_timestamp + best_route_suppression_time) then suppressed else skipped

  module _ (packet : Pkt) (in_face : ℕ) (next_er : List Name) where
    -- One hop: `inr` returns from the strategy, `inl` goes on. A packet that was not sent gets its
    -- old egress router back.
    unfoldable pub try_hop : ℕ → FibNextHopEntry → Egress → Egress ⊎ Egress
    try_hop i nh st =
        let (done, st') =
          send_interest thread_id faces now (tag next_er i packet) nh.nexthop in_face st in
        if done then inr st' else inl st'

    unfoldable pub visit_hop : Bool → ℕ → FibNextHopEntry → Egress → Egress ⊎ Egress
    visit_hop first i nh st =
        elim (if first then verdict (lookup nh.nexthop st.pit_entry.out_records) else tried) [
          | suppressed ↦ inr st
          | skipped ↦ inl st
          | tried ↦ try_hop i nh st
        ]

    unfoldable pub pass : Bool → ℕ → List FibNextHopEntry → Egress → Egress ⊎ Egress
    pass first i [] st = inl st
    pass first i (nh ∷ rest) st = elim (visit_hop first i nh st) [
      | inr st' ↦ inr st'
      | inl st' ↦ pass first (i + 1) rest st'
    ]

    unfoldable pub after_receive_interest : List FibNextHopEntry → Egress → Egress
    after_receive_interest nexthops st =
        let sorted = sort_by_cost nexthops in
        elim (pass true 0 sorted st) [
          | inr st' ↦ st'
          | inl st' ↦ elim (pass false 0 sorted st') [ inr st'' ↦ st'' | inl st'' ↦ st'' ]
        ]
