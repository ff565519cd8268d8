-- ===== src/Fw/IncomingInterest/Check.antt =====
-- What `processIncomingInterest` of ndnd/fw/fw/thread.go checks before it asks the PIT.
use ndn_bier.Prelude.{ℕ, zero, suc, ◌&&◌, Option, none, some, List, [], ◌∷◌, if◌then◌else◌}
use ndn_bier.Prelude.Maps.{lookup}
use ndn_bier.Encoding.Name.{Name}
use ndn_bier.Table.DeadNonceList.{DeadNonceList, find}
use ndn_bier.Table.NetworkRegion.{is_producer}
use ndn_bier.Fw.Packet.{Pkt, Face, is_non_local}
use ndn_bier.Fw.Outgoing.{is_localhost}
use ndn_bier.Fw.IncomingInterest.{Env}

-- The hop limit after the check: none where the Interest is dropped.
abbrev pub count_hop : Option ℕ → Option (Option ℕ)
count_hop none = some none
count_hop (some zero) = none
count_hop (some (suc h)) = some (some h)

-- The first hint that is no region of ours, unless one of them is.
abbrev pub hint_or : Option Name → Name → Option Name
hint_or none name = some name
hint_or (some first) name = some first

unfoldable pub hint_loop : List Name → List Name → Option Name → Option Name
unfolding is_producer
hint_loop regions [] fh_name = fh_name
hint_loop regions (fh ∷ rest) fh_name =
    let next = hint_loop regions rest (hint_or fh_name fh) in
    if is_producer fh regions then none else next

abbrev pub hint_name : List Name → Option (List Name) → Option Name
hint_name regions none = none
hint_name regions (some names) = hint_loop regions names none

abbrev pub name_or_empty : Option Name → Name
name_or_empty none = []
name_or_empty (some name) = name

-- Why a packet is dropped before the PIT, or that it is not; whether it was counted.
pub data Check : Type 0 where
  dropped : Check
  dropped_counted : Check
  accepted : Face → Pkt → Option Name → Check

abbrev pub with_hop_limit : Option ℕ → Pkt → Pkt
with_hop_limit h packet = record packet { interest = record packet.interest { hop_limit_v = h } }

abbrev pub with_nonce : ℕ → Pkt → Pkt
with_nonce nonce packet = record packet { interest = record packet.interest { nonce_v = nonce } }

unfoldable pub check_nonce : Env → DeadNonceList → Face → Pkt → Option ℕ → Check
unfolding find hint_loop
check_nonce env d face packet none = dropped_counted
check_nonce env d face packet (some given_nonce) =
    if find env.name_hash env.dead_nonce_lifetime packet.interest.name_v given_nonce d
    then dropped_counted
    else accepted face (with_nonce given_nonce packet)
        (hint_name env.regions packet.interest.forwarding_hint_v)

unfoldable pub check_scope : Env → DeadNonceList → Face → Option (Option ℕ) → Pkt → Option ℕ → Check
unfolding check_nonce is_localhost is_non_local
check_scope env d face none packet given_nonce = dropped
check_scope env d face (some hop_limit) packet given_nonce =
    if is_non_local face.scope && is_localhost packet.name
    then dropped
    else check_nonce env d face (with_hop_limit hop_limit packet) given_nonce

abbrev pub check_face : Env → DeadNonceList → Option Face → Pkt → Option ℕ → Check
check_face env d none packet given_nonce = dropped
check_face env d (some face) packet given_nonce =
    check_scope env d face (count_hop packet.interest.hop_limit_v) packet given_nonce

unfoldable pub check_incoming : Env → DeadNonceList → Pkt → Option ℕ → Check
unfolding check_scope lookup
check_incoming env d packet given_nonce =
    check_face env d (lookup packet.incoming_face_id env.faces) packet given_nonce
