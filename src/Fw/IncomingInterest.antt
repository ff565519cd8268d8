-- ===== src/Fw/IncomingInterest.antt =====
-- `processIncomingInterest` of ndnd/fw/fw/thread.go: what a thread has and what it reads. Check is about
-- what happens before the PIT, Hops about the next hops, Forward about their use, Process is the whole.
-- A strategy that is not in the table of strategies is nil in the code, and calling it panics: the result
-- is none then. The nonce of an Interest may be missing; past the check for it, it is the nonce of the
-- packet.
pub mod Check
pub mod Hops
pub mod Forward
pub mod Process
pub mod Filters
pub mod BitString
pub mod Guards
use ndn_bier.Prelude.{
  ℕ, zero, suc, ◌+◌, ◌-◌, Bool, true, false, ◌&&◌, ◌||◌, not, Option, none, some, List, [], ◌∷◌,
  ◌++◌, length, ltb, leb, ◌==◌, if◌then◌else◌,
}
use ndn_bier.Prelude.Int.{ℤ, pos, negsuc}
use ndn_bier.Prelude.Maps.{Map, lookup}
use ndn_bier.Encoding.Name.{Component, Name, component_equal}
use ndn_bier.Bier.Bits.{Bytes, bier_clear_bit, bier_is_zero}
use ndn_bier.Bier.Bift.{BiftState, BiftNeighborEntry, build_bier_bit_string}
use ndn_bier.Table.NextHops.{FibNextHopEntry}
use ndn_bier.Table.Pet.{PetNextHop, PetEntry}
use ndn_bier.Table.PitEntry.{PitEntry, PitInRecord, insert_in_record, set_expiration_time}
use ndn_bier.Table.DeadNonceList.{DeadNonceList, find, insert_nonce}
use ndn_bier.Table.NetworkRegion.{is_producer}
use ndn_bier.Table.PitCs.{PitCsTree, CsEntry}
use ndn_bier.Table.PitCs.Pit.{Inserted, insert_interest, write_entry}
use ndn_bier.Table.PitCs.Cs.{find_matching_data_from_cs}
use ndn_bier.Fw.Packet.{Pkt, FwInterest, Face, Scope, is_local, is_non_local}
use ndn_bier.Fw.Outgoing.{DataPkt, OutPkt, Egress, is_localhost, process_outgoing_interest}
use ndn_bier.Fw.Lookup.{Lookup, two_phase_lookup}
use ndn_bier.Fw.Strategy.BestRoute.{after_receive_interest}
use ndn_bier.Fw.Strategy.Multicast.{multicast_after_receive_interest, bier_after_receive_interest}
use ndn_bier.Fw.Strategy.Replies.{after_content_store_hit}

pub data StrategyKind : Type 0 where
  best_route multicast bier : StrategyKind

-- What a thread has for itself.
pub record Thread : Type 0 where
  pub pit_cs : PitCsTree
  pub dead_nonce_list : DeadNonceList
  pub n_in_interests : ℕ
  pub n_in_data : ℕ
  pub n_cs_hits : ℕ
  pub n_cs_misses : ℕ
  pub n_out_interests : ℕ
  pub n_out_data : ℕ
  pub n_satisfied_interests : ℕ
  pub sent : List OutPkt

-- What it reads: the tables that all threads share, the configuration, the time, and the functions of
-- packages that the code calls (hashes, and the parser that the build generates).
pub record Env : Type 0 where
  pub thread_id : ℕ
  pub faces : Map Face
  pub now : ℕ
  pub regions : List Name
  pub dead_nonce_lifetime : ℕ
  pub cs_serve : Bool
  pub cs_admit : Bool
  pub cs_capacity : ℕ
  pub bier_index : ℤ
  pub bift : BiftState
  pub neighbors : List BiftNeighborEntry
  pub router_name : Option Name
  pub find_pet : Name → Option PetEntry
  pub find_next_hops : Name → List FibNextHopEntry
  pub find_strategy : Name → Name
  pub strategies : Map StrategyKind
  pub bier_strategy_name : Name
  pub component_hash : Component → ℕ
  pub name_hash : Name → ℕ
  pub parse_data : Bytes → Option DataPkt

-- "localhop"
abbrev pub localhop : Component
localhop = record { typ = 8; val = b'l' ∷ b'o' ∷ b'c' ∷ b'a' ∷ b'l' ∷ b'h' ∷ b'o' ∷ b'p' ∷ [] }

-- `packet.Name.At(0).Equal(enc.LOCALHOP)`
unfoldable pub is_localhop : Name → Bool
unfolding component_equal
is_localhop [] = false
is_localhop (c ∷ rest) = component_equal c localhop

-- The bits that are left when this router has delivered for itself.
abbrev pub clear_own_bit : ℤ → Bytes → Bytes
clear_own_bit (pos id) bs = bier_clear_bit bs id
clear_own_bit (negsuc n) bs = bs

-- The PIT entry goes out to the pipelines, and back into the table.
abbrev pub to_egress : PitEntry → Thread → Egress
to_egress e t = record {
  pit_entry = e;
  n_out_interests = t.n_out_interests;
  n_out_data = t.n_out_data;
  n_satisfied_interests = t.n_satisfied_interests;
  sent = t.sent;
}

abbrev pub from_egress : Env → Egress → Thread → Thread
from_egress env st t = record t {
  pit_cs = write_entry env.component_hash st.pit_entry t.pit_cs;
  n_out_interests = st.n_out_interests;
  n_out_data = st.n_out_data;
  n_satisfied_interests = st.n_satisfied_interests;
  sent = st.sent;
}
