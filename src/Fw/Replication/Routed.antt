-- ===== src/Fw/Replication/Routed.antt =====
-- Replication over a whole table: who gets a copy of a packet, stated by the table's next hops.
use ndn_bier.Prelude.{
  ℕ, ◌<◌, ◌≡◌, refl, sym, ◌∙◌, ◌≢◌, inl, inr, Bool, true, not, ◌&&◌, List, arith, ==_iff,
  Bool-cases, All, All-map_imp, Occurs, All-Occurs, [], ◌∷◌,
}
use ndn_bier.Prelude.Int.{ℤ}
use ndn_bier.Bier.Bits.{Bytes, IsBytes, bier_is_zero}
use ndn_bier.Bier.Bits.Sets.{member}
use ndn_bier.Bier.Bift.{BiftState, BiftNeighborEntry, to_neighbor, get_neighbor_entries}
use ndn_bier.Bier.Bift.Masks.{HasMasks}
use ndn_bier.Bier.Bift.Neighbors.{get_neighbor_entries-IsTable, get_neighbor_entries-Found}
use ndn_bier.Bier.Bift.Invariant.{IsValid, hop, reaches-hop}
use ndn_bier.Fw.Packet.{Pkt}
use ndn_bier.Fw.Replication.{clone_pkt, clear_local, bier_replicate}
use ndn_bier.Fw.Replication.Packets.{
  IsClone, send_each, carriers, packets_of, send_all-packets_of, carriers-packets_of,
  clone_pkt-IsClone,
}
use ndn_bier.Fw.Replication.Plan.{plan, plan-is_zero, send_all, replicate_loop-plan}
use ndn_bier.Fw.Replication.Delivery.{
  to_nat, copies, serves, MasksAreBytes, copies-plan, IsCopy, plan-IsCopy,
}
use ndn_bier.Fw.Replication.Served.{
  SameElements, routed, is_local, clear_local-IsBytes, member-clear_local, serves-Occurs,
  serves-witness, Occurs-neighbor, IsNeighbor, All-neighbors, All-of_Occurs, Bool-ext,
}

-- A copy is for BFR-IDs of the packet, all of which the table sends to the face of the copy.
pub record IsRouted (b : BiftState) (in_face : ℕ) (bs : Bytes) (c : ℕ × Bytes) : Type 0 where
  pub onward : c.0 ≢ in_face
  pub up : 0 < c.0
  pub bytes : IsBytes c.1
  pub subset : (q : ℕ) → member c.1 q ≡ true → member bs q ≡ true
  pub routed_there : (q : ℕ) → member c.1 q ≡ true → hop b.entries q ≡ c.0

-- A packet for a face: a copy that carries some of the BFR-IDs of the packet, all of which the table
-- routes to that face, which is not the incoming one.
pub record IsDelivery (b : BiftState) (in_face : ℕ) (packet : Pkt) (p : ℕ × Pkt) : Type 0 where
  pub routed : IsRouted b in_face packet.bier (p.0, p.1.bier)
  pub clone : IsClone packet p.1

pub packets_of-IsDelivery :
    (b : BiftState) (in_face : ℕ) (packet : Pkt) (cs : List (ℕ × Bytes))
    → All (IsRouted b in_face packet.bier) cs
    → All (IsDelivery b in_face packet) (packets_of packet cs)
packets_of-IsDelivery b in_face packet [] h = tt
packets_of-IsDelivery b in_face packet (c ∷ cs) h = (
  record { routed = unfold clone_pkt in h.0; clone = clone_pkt-IsClone packet c.1 },
  packets_of-IsDelivery b in_face packet cs h.1,
)

module _ (b : BiftState) (valid : IsValid b) (masks : HasMasks b) (ns : List BiftNeighborEntry)
    (same : SameElements ns (get_neighbor_entries b)) where
  IsNeighbor-of_Occurs : (n : BiftNeighborEntry) → Occurs n ns → IsNeighbor b.entries n
  IsNeighbor-of_Occurs n o =
      All-Occurs (IsNeighbor b.entries) (get_neighbor_entries b) n
        (unfold get_neighbor_entries in
          All-neighbors b.entries _ (get_neighbor_entries-IsTable b masks).masks)
        (same.sound n o)

  pub neighbors-MasksAreBytes : MasksAreBytes ns
  neighbors-MasksAreBytes = All-of_Occurs _ ns (λ n o. (IsNeighbor-of_Occurs n o).1.bytes)

  -- A bit in the mask of a neighbor is a BFR-ID whose next hop is the neighbor's face.
  pub served-hop :
      (n : BiftNeighborEntry) (q : ℕ)
      → Occurs n ns
      → member n.fbm q ≡ true
      → (0 < n.face_id) × (hop b.entries q ≡ n.face_id)
  served-hop n q o m =
      let (up, mask) = IsNeighbor-of_Occurs n o in
      (
        up,
        (==_iff _ _).0
            (sym (reaches-hop b.entries n.face_id q valid.distinct up) ∙ sym (mask.exact q) ∙ m),
      )

  -- Given a valid table with the masks of its next hops, and its neighbors in any order, some
  -- neighbor other than the incoming face has a bit in its mask exactly when the table routes that
  -- BFR-ID away from the incoming face.
  pub serves-routed : (in_face q : ℕ) → serves in_face ns q ≡ routed b in_face q
  serves-routed in_face q = Bool-ext _ _ forth back
    where
      forth : serves in_face ns q ≡ true → routed b in_face q ≡ true
      forth h =
          let (n, o, away, m) = serves-witness in_face ns q h in
          let (up, e) = served-hop n q o m in rw e (ground arith)

      back : routed b in_face q ≡ true → serves in_face ns q ≡ true
      back h =
          let face = hop b.entries q in
          let up : 0 < face = ground arith in
          let away : face ≢ in_face = ground arith in
          let r = reaches-hop b.entries face q valid.distinct up ∙ (==_iff face face).1 refl in
          let (fbm, found) = get_neighbor_entries-Found b face q masks up r in
          let o =
            same.complete (to_neighbor (face, fbm))
              (unfold get_neighbor_entries in Occurs-neighbor _ face fbm found) in
          serves-Occurs in_face ns (to_neighbor (face, fbm)) q o away
            ((IsNeighbor-of_Occurs (to_neighbor (face, fbm)) o).1.exact q ∙ r)

  deliver :
      (in_face : ℕ) (bs : Bytes) (c : ℕ × Bytes) → IsCopy in_face ns bs c → IsRouted b in_face bs c
  deliver in_face bs c i = record {
    onward = i.onward;
    up = rw (← i.face) (IsNeighbor-of_Occurs i.neighbor i.known).0;
    bytes = i.bytes;
    subset = i.subset;
    routed_there = λ q m. (served-hop i.neighbor q i.known (i.served q m)).1 ∙ i.face;
  }

  weaken :
      (in_face : ℕ) (index : ℤ) (bs : Bytes) (c : ℕ × Bytes)
      → IsBytes bs
      → IsRouted b in_face (clear_local index bs) c
      → IsRouted b in_face bs c
  weaken in_face index bs c h d = record {
    onward = d.onward;
    up = d.up;
    bytes = d.bytes;
    subset = λ q m.
        right (not (is_local index q)) _ (sym (member-clear_local index bs q h) ∙ d.subset q m);
    routed_there = d.routed_there;
  }
    where
      right : (x y : Bool) → (x && y) ≡ true → y ≡ true
      right x y e = ground arith

  module _ {S : Type 0} (send : Pkt → ℕ → ℕ → S → Bool × S) (packet : Pkt) (in_face : ℕ)
      (index : ℤ) where
    bier_replicate-plan :
        (s : S)
        → IsBytes packet.bier
        → bier_replicate send packet in_face index ns s
          ≡ send_all send packet in_face (plan in_face ns (clear_local index packet.bier)) s
    unfolding bier_replicate send_all
    bier_replicate-plan s h =
        let bs = clear_local index packet.bier in
        let hb = clear_local-IsBytes index packet.bier h in
        elim (Bool-cases (bier_is_zero bs)) [
          | inl zero ↦ rw (zero, plan-is_zero in_face ns bs hb zero)
          | inr bits ↦ rw bits (replicate_loop-plan send packet in_face ns bs s hb)
        ]

    -- The same of the masks that are planned.
    pub bier_replicate_planned :
        IsBytes packet.bier
        → (cs : List (ℕ × Bytes)) × ((s : S)
            → bier_replicate send packet in_face index ns s ≡ send_all send packet in_face cs s)
          × ((q : ℕ)
              → copies q cs
                ≡ to_nat ((not (is_local index q) && member packet.bier q) && routed b in_face q))
          × All (IsRouted b in_face packet.bier) cs
    bier_replicate_planned h =
        let bs = clear_local index packet.bier in
        let hb = clear_local-IsBytes index packet.bier h in
        (
          plan in_face ns bs,
          λ s. bier_replicate-plan s h,
          λ q.
              copies-plan in_face ns bs q neighbors-MasksAreBytes
              ∙ (rw (member-clear_local index packet.bier q h, serves-routed in_face q)),
          All-map_imp _ _ (λ c i. weaken in_face index packet.bier c h (deliver in_face bs c i)) _
              (plan-IsCopy in_face ns bs neighbors-MasksAreBytes hb),
        )

    -- Given a valid table with the masks of its next hops, its neighbors in any order, and a
    -- packet whose bit-string is made of bytes, replication sends a list of packets, whatever
    -- sending does with them: each BFR-ID of the packet that is not the local one and that the
    -- table routes away from the incoming face is in the bit-string of exactly one of them, every
    -- other BFR-ID is in none, every one goes to the face that the table has for all BFR-IDs of its
    -- bit-string, and but for that bit-string, its token, its next hop and its egress router it is
    -- the packet.
    pub bier_replicate_delivers :
        IsBytes packet.bier
        → (ps : List (ℕ × Pkt)) × ((s : S)
            → bier_replicate send packet in_face index ns s ≡ send_each send in_face ps s)
          × ((q : ℕ)
              → carriers q ps
                ≡ to_nat ((not (is_local index q) && member packet.bier q) && routed b in_face q))
          × All (IsDelivery b in_face packet) ps
    bier_replicate_delivers h =
        let (cs, run, once, right) = bier_replicate_planned h in
        (
          packets_of packet cs,
          λ s. run s ∙ send_all-packets_of send packet in_face cs s,
          λ q. carriers-packets_of packet q cs ∙ once q,
          packets_of-IsDelivery b in_face packet cs right,
        )
