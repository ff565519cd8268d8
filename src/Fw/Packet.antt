-- ===== src/Fw/Packet.antt =====
-- Packets and faces as the forwarding pipelines see them: ndnd/fw/defn/pkt.go, fw_packet.go,
-- scope.go, link_type.go and ndnd/fw/dispatch. Times are nanoseconds.
use ndn_bier.Prelude.{ℕ, Bool, Option, List}
use ndn_bier.Encoding.Name.{Name}
use ndn_bier.Bier.Bits.{Bytes}

-- An Interest past the check for its nonce, so that `NonceV.Unwrap()` does not panic.
pub record FwInterest : Type 0 where
  pub name_v : Name
  pub can_be_prefix_v : Bool
  pub must_be_fresh_v : Bool
  pub forwarding_hint_v : Option (List Name)
  pub nonce_v : ℕ
  pub interest_lifetime_v : Option ℕ
  pub hop_limit_v : Option ℕ

-- A packet whose `L3.Interest` is set. An absent name or bit-string is empty: the code looks at
-- their lengths only.
pub record Pkt : Type 0 where
  pub name : Name
  pub interest : FwInterest
  pub raw : Bytes
  pub pit_token : Bytes
  pub congestion_mark : Option ℕ
  pub incoming_face_id : ℕ
  pub next_hop_face_id : Option ℕ
  pub egress_router : Name
  pub bier : Bytes

pub data Scope : Type 0 where
  unknown non_local is_local : Scope

pub data LinkType : Type 0 where
  point_to_point multi_access ad_hoc : LinkType

pub record Face : Type 0 where
  pub face_id : ℕ
  pub scope : Scope
  pub link_type : LinkType

unfoldable pub is_non_local : Scope → Bool
is_non_local non_local = Bool.true
is_non_local other = Bool.false

unfoldable pub is_ad_hoc : LinkType → Bool
is_ad_hoc ad_hoc = Bool.true
is_ad_hoc other = Bool.false
