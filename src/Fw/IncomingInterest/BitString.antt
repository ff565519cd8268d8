-- ===== src/Fw/IncomingInterest/BitString.antt =====
-- The first BIER router: the bit-string that it puts on an Interest, and where the copies go.
use ndn_bier.Prelude.{
  ℕ, ◌%◌, ◌≡◌, ◌<◌, refl, ◌∙◌, ap, Bool, true, false, ◌||◌, Option, none, some, List, [], ◌∷◌,
  length, ◌==◌, arith, lt→ltb,
}
use ndn_bier.Prelude.Bits.{bit-zero}
use ndn_bier.Prelude.Maps.{Map, lookup}
use ndn_bier.Encoding.Name.{Name}
use ndn_bier.Table.NextHops.{FibNextHopEntry}
use ndn_bier.Bier.Bits.{Bytes, IsBytes, bier_set_bit}
use ndn_bier.Bier.Bits.Sets.{member, set_bit-IsBytes, member-set_bit}
use ndn_bier.Bier.Bift.{build_loop, build_bier_bit_string, get_neighbor_entries}
use ndn_bier.Bier.Bift.Masks.{HasMasks}
use ndn_bier.Bier.Bift.Invariant.{IsValid}
use ndn_bier.Fw.Packet.{Pkt}
use ndn_bier.Fw.Outgoing.{Egress}
use ndn_bier.Fw.Replication.Served.{SameElements}
use ndn_bier.Fw.Strategy.Bier.{IsReplicated, bier_interest_replicates}
use ndn_bier.Fw.IncomingInterest.{Env, StrategyKind, bier}
use ndn_bier.Fw.Replication.{is_bier_enabled}
use ndn_bier.Fw.IncomingInterest.Forward.{
  encode_bit_string, active_strategy, forward_net, run_strategy,
}

-- Some of the routers has that BFR-ID.
abbrev pub has_id : ℕ → Option ℕ → Bool
has_id q none = false
has_id q (some id) = id == q

unfoldable pub some_router_has : (Name → ℕ) → Map ℕ → List Name → ℕ → Bool
unfolding lookup
some_router_has hash router_bit [] q = false
some_router_has hash router_bit (er ∷ ers) q =
    has_id q (lookup (hash er) router_bit) || some_router_has hash router_bit ers q

set_known : Option ℕ → Bytes → Bytes
set_known o bs = elim o [ some id ↦ bier_set_bit bs id | none ↦ bs ]

set_known-IsBytes : (o : Option ℕ) (bs : Bytes) → IsBytes bs → IsBytes (set_known o bs)
unfolding set_known
set_known-IsBytes none bs h = h
set_known-IsBytes (some id) bs h = set_bit-IsBytes bs id h

member-set_known :
    (o : Option ℕ) (bs : Bytes) (q : ℕ)
    → IsBytes bs
    → member (set_known o bs) q ≡ (has_id q o || member bs q)
unfolding set_known
member-set_known none bs q h = refl
member-set_known (some id) bs q h = member-set_bit bs id q h

build_loop-IsBytes :
    (hash : Name → ℕ) (router_bit : Map ℕ) (ers : List Name) (bs : Bytes)
    → IsBytes bs
    → IsBytes (build_loop hash router_bit ers bs)
unfolding build_loop set_known
build_loop-IsBytes hash router_bit [] bs h = h
build_loop-IsBytes hash router_bit (er ∷ ers) bs h =
    build_loop-IsBytes hash router_bit ers _ (set_known-IsBytes (lookup (hash er) router_bit) bs h)

or_shuffle : (a b c : Bool) → (c || (a || b)) ≡ ((a || c) || b)
or_shuffle a b c = ground arith

member-build_loop :
    (hash : Name → ℕ) (router_bit : Map ℕ) (ers : List Name) (bs : Bytes) (q : ℕ)
    → IsBytes bs
    → member (build_loop hash router_bit ers bs) q
      ≡ (some_router_has hash router_bit ers q || member bs q)
unfolding build_loop some_router_has set_known
member-build_loop hash router_bit [] bs q h = refl
member-build_loop hash router_bit (er ∷ ers) bs q h =
    let o = lookup (hash er) router_bit in
    member-build_loop hash router_bit ers _ q (set_known-IsBytes o bs h)
    ∙ ap (λ b. some_router_has hash router_bit ers q || b) (member-set_known o bs q h)
    ∙ or_shuffle (has_id q o) (member bs q) (some_router_has hash router_bit ers q)

or_empty : (b : Bool) (q : ℕ) → (b || member [] q) ≡ b
or_empty b q = rw (bit-zero (q % 8)) (ground arith)

abbrev pub bits_for : Env → List Name → Bytes
bits_for env ers = build_bier_bit_string env.name_hash ers env.bift

abbrev pub with_bits : Env → List Name → Pkt → Pkt
with_bits env ers packet = record packet { bier = bits_for env ers }

encode-bits :
    (env : Env) (ers : List Name) (packet : Pkt)
    → is_bier_enabled env.bier_index ≡ true
    → 1 < length ers
    → packet.bier ≡ []
    → 0 < length (bits_for env ers)
    → encode_bit_string env ers packet ≡ with_bits env ers packet
unfolding encode_bit_string
encode-bits env ers packet enabled several plain some_bits =
    rw
      (
        enabled,
        lt→ltb 1 (length ers) several,
        plain,
        lt→ltb 0 (length (bits_for env ers)) some_bits,
      )
      refl

active-bier :
    (env : Env) (packet : Pkt) (strategy : Option StrategyKind)
    → 0 < length packet.bier
    → lookup (env.name_hash env.bier_strategy_name) env.strategies ≡ some bier
    → active_strategy env packet strategy ≡ some bier
unfolding active_strategy
active-bier env packet strategy some_bits there =
    rw (lt→ltb 0 (length packet.bier) some_bits, there) refl

module _ (env : Env) (valid : IsValid env.bift) (masks : HasMasks env.bift)
    (same : SameElements env.neighbors (get_neighbor_entries env.bift))
    (there : lookup (env.name_hash env.bier_strategy_name) env.strategies ≡ some bier) where
  -- Given a valid table with the masks of its next hops, its neighbors in any order, and the BIER
  -- strategy among the strategies, a router with BIER enabled that has network next hops for an
  -- Interest without a bit-string, and a list of two egress routers or more, some of which have
  -- BFR-IDs, gives the Interest the bit-string of exactly the BFR-IDs of the list, and replicates
  -- it: whatever strategy the name has, each of the BFR-IDs that is not its own and that it routes
  -- away from the incoming face is in exactly one copy, on the face that the table has for it, and no
  -- other BFR-ID is in any.
  pub forward_net-delivers :
      (strategy : Option StrategyKind) (packet : Pkt) (in_face : ℕ) (nh : FibNextHopEntry)
      (nhs : List FibNextHopEntry) (ers : List Name) (st : Egress)
      → is_bier_enabled env.bier_index ≡ true
      → 1 < length ers
      → packet.bier ≡ []
      → 0 < length (bits_for env ers)
      → ((q : ℕ)
          → member (bits_for env ers) q ≡ some_router_has env.name_hash env.bift.router_bit ers q)
        × ((st' : Egress) × (forward_net env strategy packet in_face (nh ∷ nhs) ers st ≡ some st')
            × IsReplicated env.bift env.thread_id env.faces env.now env.bier_index
                (with_bits env ers packet)
                in_face
                st
                st')
  unfolding forward_net run_strategy build_bier_bit_string
  forward_net-delivers strategy packet in_face nh nhs ers st enabled several plain some_bits =
      let bytes = build_loop-IsBytes env.name_hash env.bift.router_bit ers [] tt in
      (
        λ q. member-build_loop env.name_hash env.bift.router_bit ers [] q tt ∙ or_empty _ q,
        (
          _,
          rw
              (
                encode-bits env ers packet enabled several plain some_bits,
                active-bier env (with_bits env ers packet) strategy some_bits there,
              )
              refl,
          bier_interest_replicates env.bift valid masks env.neighbors same env.thread_id env.faces
              env.now env.bier_index (with_bits env ers packet) in_face (nh ∷ nhs) st some_bits
              bytes,
        ),
      )
