-- ===== src/Fw/Replication/Plan.antt =====
-- The copies that the replication loop makes, as a list that does not depend on what sending does,
-- and what each copy carries.
use ndn_bier.Prelude.{
  ℕ, ◌≡◌, refl, ◌∙◌, ◌⊎◌, inl, inr, Bool, true, ◌||◌, List, [], ◌∷◌, arith, ◌==◌, if◌then◌else◌,
  Bool-cases,
}
use ndn_bier.Bier.Bits.{Bytes, IsBytes, bier_and, bier_and_not, bier_is_zero}
use ndn_bier.Bier.Bits.Sets.{
  member-and, and-IsBytes, and_not-IsBytes, is_zero-member, not_zero-member,
}
use ndn_bier.Bier.Bift.{BiftNeighborEntry}
use ndn_bier.Fw.Packet.{Pkt}
use ndn_bier.Fw.Replication.{clone_pkt, replicate_step, replicate_loop}

-- A neighbor gets no copy of a working mask.
abbrev pub skips : ℕ → Bytes → BiftNeighborEntry → Bool
skips in_face bs n = n.face_id == in_face || bier_is_zero (bier_and bs n.fbm)

-- The faces and masks of the copies, in order.
unfoldable pub plan : ℕ → List BiftNeighborEntry → Bytes → List (ℕ × Bytes)
plan in_face [] bs = []
plan in_face (n ∷ ns) bs =
    let rest = plan in_face ns (if skips in_face bs n then bs else bier_and_not bs n.fbm) in
    if skips in_face bs n then rest else (n.face_id, bier_and bs n.fbm) ∷ rest

-- The copies are sent one after another.
unfoldable pub send_all {ℓ} :
    {S : Type ℓ} (send : Pkt → ℕ → ℕ → S → Bool × S) (packet : Pkt) (in_face : ℕ)
    → List (ℕ × Bytes)
    → S
    → S
send_all send packet in_face [] s = s
send_all send packet in_face (c ∷ cs) s =
    send_all send packet in_face cs (send (clone_pkt packet c.1) c.0 in_face s).1

and-is_zero : (a b : Bytes) → IsBytes a → bier_is_zero a ≡ true → bier_is_zero (bier_and a b) ≡ true
and-is_zero a b h z = elim (Bool-cases (bier_is_zero (bier_and a b))) [
  | inl zero ↦ zero
  | inr some_bit ↦
      let (p, e) = not_zero-member (bier_and a b) (and-IsBytes a b h) some_bit in
      ground (arith, member-and a b p, is_zero-member a p z)
]

pub plan-is_zero :
    (in_face : ℕ) (ns : List BiftNeighborEntry) (bs : Bytes)
    → IsBytes bs
    → bier_is_zero bs ≡ true
    → plan in_face ns bs ≡ []
unfolding plan
plan-is_zero in_face [] bs h z = refl
plan-is_zero in_face (n ∷ ns) bs h z =
    let skip : skips in_face bs n ≡ true = rw (and-is_zero bs n.fbm h z) (ground arith) in
    rw skip (plan-is_zero in_face ns bs h z)

module _ {ℓ} {S : Type ℓ} (send : Pkt → ℕ → ℕ → S → Bool × S) (packet : Pkt) (in_face : ℕ) where
  continue : List BiftNeighborEntry → (Bytes × S) ⊎ S → S
  continue ns (inl r) = replicate_loop send packet in_face ns r.0 r.1
  continue ns (inr s) = s

  replicate_loop-of_step :
      (n : BiftNeighborEntry) (ns : List BiftNeighborEntry) (bs : Bytes) (s : S)
      (r : (Bytes × S) ⊎ S)
      → replicate_step send packet in_face n bs s ≡ r
      → replicate_loop send packet in_face (n ∷ ns) bs s ≡ continue ns r
  unfolding replicate_loop continue
  replicate_loop-of_step n ns bs s (inl r) e = rw (e, replicate_loop)
  replicate_loop-of_step n ns bs s (inr r) e = rw (e, replicate_loop)

  -- On a working mask of bytes the loop, with its early exit, sends exactly the planned copies,
  -- whatever sending does.
  pub replicate_loop-plan :
      (ns : List BiftNeighborEntry) (bs : Bytes) (s : S)
      → IsBytes bs
      → replicate_loop send packet in_face ns bs s
        ≡ send_all send packet in_face (plan in_face ns bs) s
  unfolding plan send_all continue
  replicate_loop-plan [] bs s h = unfold replicate_loop in refl
  replicate_loop-plan (n ∷ ns) bs s h = elim (Bool-cases (n.face_id == in_face)) [
    | inl back ↦
        replicate_loop-of_step n ns bs s (inl (bs, s)) (unfold replicate_step in rw back)
        ∙ (rw back (replicate_loop-plan ns bs s h))
    | inr onward ↦ elim (Bool-cases (bier_is_zero (bier_and bs n.fbm))) [
      | inl no_bit ↦
          replicate_loop-of_step n ns bs s (inl (bs, s))
            (unfold replicate_step in rw (onward, no_bit))
          ∙ (rw (onward, no_bit) (replicate_loop-plan ns bs s h))
      | inr bits ↦
          let s' = (send (clone_pkt packet (bier_and bs n.fbm)) n.face_id in_face s).1 in
          let bs' = bier_and_not bs n.fbm in
          let h' = and_not-IsBytes bs n.fbm h in
          elim (Bool-cases (bier_is_zero bs')) [
            | inl done ↦
                replicate_loop-of_step n ns bs s (inr s')
                  (unfold replicate_step in rw (onward, bits, done))
                ∙ (rw (onward, bits, plan-is_zero in_face ns bs' h' done))
            | inr more ↦
                replicate_loop-of_step n ns bs s (inl (bs', s'))
                  (unfold replicate_step in rw (onward, bits, more))
                ∙ (rw (onward, bits) (replicate_loop-plan ns bs' s' h'))
          ]
    ]
  ]
