-- ===== src/Table/PitEntry.antt =====
-- One entry of the PIT with its in- and out-records: ndnd/fw/table/pit-cs.go. The pools of records
-- only save allocations. `now` is the time of the call.
use ndn_bier.Prelude.{ℕ, ◌+◌, ◌*◌, Bool, true, false, Option, none, some, []}
use ndn_bier.Prelude.Maps.{Map, lookup, insert, delete}
use ndn_bier.Encoding.Name.{Name}
use ndn_bier.Bier.Bits.{Bytes}
use ndn_bier.Fw.Packet.{FwInterest}

pub record PitInRecord : Type 0 where
  pub face : ℕ
  pub latest_timestamp : ℕ
  pub latest_nonce : ℕ
  pub expiration_time : ℕ
  pub pit_token : Bytes

pub record PitOutRecord : Type 0 where
  pub face : ℕ
  pub latest_timestamp : ℕ
  pub latest_nonce : ℕ
  pub expiration_time : ℕ

pub record PitEntry : Type 0 where
  pub encname : Name
  pub can_be_prefix : Bool
  pub must_be_fresh : Bool
  pub forwarding_hint_new : Name
  pub in_records : Map PitInRecord
  pub out_records : Map PitOutRecord
  pub expiration_time : ℕ
  pub satisfied : Bool
  pub token : ℕ

abbrev pub millisecond : ℕ
millisecond = 1_000_000

-- `interest.Lifetime().GetOr(time.Millisecond * 4000)`
unfoldable pub lifetime : FwInterest → ℕ
lifetime interest = elim interest.interest_lifetime_v [ some t ↦ t | none ↦ millisecond * 4000 ]

-- The record, whether there was one already, and then the nonce that it had. An old record keeps
-- its token.
unfoldable pub refresh_in_record :
    FwInterest → ℕ → Bytes → ℕ → Option PitInRecord → PitInRecord × Bool × ℕ
refresh_in_record interest face pit_token now none = (
  record {
    face = face;
    latest_timestamp = now;
    latest_nonce = interest.nonce_v;
    expiration_time = now + lifetime interest;
    pit_token = pit_token;
  },
  false,
  0,
)
refresh_in_record interest face pit_token now (some old) = (
  record old {
    latest_timestamp = now;
    latest_nonce = interest.nonce_v;
    expiration_time = now + lifetime interest;
  },
  true,
  old.latest_nonce,
)

unfoldable pub insert_in_record :
    FwInterest → ℕ → Bytes → ℕ → PitEntry → PitEntry × PitInRecord × Bool × ℕ
insert_in_record interest face pit_token now e =
    let r = refresh_in_record interest face pit_token now (lookup face e.in_records) in
    (record e { in_records = insert face r.0 e.in_records }, r.0, r.1, r.2)

unfoldable pub refresh_out_record : FwInterest → ℕ → ℕ → Option PitOutRecord → PitOutRecord
refresh_out_record interest face now none = record {
  face = face;
  latest_timestamp = now;
  latest_nonce = interest.nonce_v;
  expiration_time = now + lifetime interest;
}
refresh_out_record interest face now (some old) = record old {
  latest_timestamp = now;
  latest_nonce = interest.nonce_v;
  expiration_time = now + lifetime interest;
}

unfoldable pub insert_out_record : FwInterest → ℕ → ℕ → PitEntry → PitEntry
insert_out_record interest face now e = record e {
  out_records =
      insert face (refresh_out_record interest face now (lookup face e.out_records)) e.out_records;
}

unfoldable pub remove_in_record : ℕ → PitEntry → PitEntry
remove_in_record face e = record e { in_records = delete face e.in_records }

unfoldable pub remove_out_record : ℕ → PitEntry → PitEntry
remove_out_record face e = record e { out_records = delete face e.out_records }

unfoldable pub clear_in_records : PitEntry → PitEntry
clear_in_records e = record e { in_records = [] }

unfoldable pub clear_out_records : PitEntry → PitEntry
clear_out_records e = record e { out_records = [] }

unfoldable pub set_expiration_time : ℕ → PitEntry → PitEntry
set_expiration_time t e = record e { expiration_time = t }

unfoldable pub set_satisfied : Bool → PitEntry → PitEntry
set_satisfied is_satisfied e = record e { satisfied = is_satisfied }
