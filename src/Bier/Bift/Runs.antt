-- ===== src/Bier/Bift/Runs.antt =====
-- The tables that the operations build from the empty one, in any order.
use ndn_bier.Prelude.{ℕ, List}
use ndn_bier.Encoding.Name.{Name}
use ndn_bier.Table.NextHops.{FibNextHopEntry}
use ndn_bier.Bier.Bift.{
  BiftState, empty, register_router, update_next_hop, rebuild_fbm, build_from_fib_pet,
}
use ndn_bier.Bier.Bift.Masks.{HasMasks, rebuild_fbm-HasMasks}
use ndn_bier.Bier.Bift.Invariant.{
  IsValid, register_router-IsValid, update_next_hop-IsValid, rebuild_fbm-IsValid,
}
use ndn_bier.Bier.Bift.Refresh.{build_from_fib_pet-IsValid}

-- One call of a method. A refresh reads the FIB as it is at that time.
pub data Step (hash : Name → ℕ) : BiftState → BiftState → Type 0 where
  register : (b : BiftState) (name : Name) (id : ℕ) → Step hash b (register_router hash name id b)
  update : (b : BiftState) (id face : ℕ) → Step hash b (update_next_hop id face b)
  rebuild : (b : BiftState) → Step hash b (rebuild_fbm b)
  refresh :
      (b : BiftState) (find : Name → List FibNextHopEntry) → Step hash b (build_from_fib_pet find b)

pub data Reach (hash : Name → ℕ) (start : BiftState) : BiftState → Type 0 where
  here : Reach hash start start
  next : {b c : BiftState} → Reach hash start b → Step hash b c → Reach hash start c

Step-IsValid : {hash : Name → ℕ} {b c : BiftState} → Step hash b c → IsValid b → IsValid c
Step-IsValid {hash} (register b name id) v = register_router-IsValid hash name id b v
Step-IsValid (update b id face) v = update_next_hop-IsValid id face b v
Step-IsValid (rebuild b) v = rebuild_fbm-IsValid b v
Step-IsValid (refresh b find) v = build_from_fib_pet-IsValid find b v

empty-IsValid : IsValid empty
empty-IsValid = record { distinct = tt; keyed = tt }

-- Whatever calls of the methods built the table from the empty one, it has one entry for a BFR-ID,
-- under that number, and after one more rebuild it is still so, with every entry that has a next
-- hop having the mask of its face.
pub Reach-IsValid :
    {hash : Name → ℕ} {b : BiftState}
    → Reach hash empty b
    → IsValid b × IsValid (rebuild_fbm b) × HasMasks (rebuild_fbm b)
Reach-IsValid {hash} {b} r = let v = valid r in (v, rebuild_fbm-IsValid b v, rebuild_fbm-HasMasks b)
  where
    valid : {hash : Name → ℕ} {b : BiftState} → Reach hash empty b → IsValid b
    valid here = empty-IsValid
    valid (next r s) = Step-IsValid s (valid r)
