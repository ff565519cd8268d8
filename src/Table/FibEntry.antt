-- ===== src/Table/FibEntry.antt =====
-- What both FIB-strategy tables keep for a name (`baseFibStrategyEntry` of
-- ndnd/fw/table/fib-strategy.go), and the loops by which they change the next hops. The strategy is none
-- where the code has nil.
use ndn_bier.Prelude.{
  ℕ, Bool, true, false, ◌&&◌, Option, none, some, List, [], ◌∷◌, length, ltb, ◌==◌, if◌then◌else◌,
}
use ndn_bier.Encoding.Name.{Name}
use ndn_bier.Table.NextHops.{FibNextHopEntry}

pub record FibValue : Type 0 where
  pub nexthops : List FibNextHopEntry
  pub strategy : Option Name

abbrev pub no_value : FibValue
no_value = record { nexthops = []; strategy = none }

abbrev pub is_unset : Option Name → Bool
is_unset none = true
is_unset (some name) = false

abbrev pub is_set : Option Name → Bool
is_set none = false
is_set (some name) = true

abbrev pub has_next_hops : FibValue → Bool
has_next_hops v = ltb 0 (length v.nexthops)

abbrev pub has_strategy : FibValue → Bool
has_strategy v = is_set v.strategy

abbrev pub no_information : FibValue → Bool
no_information v = length v.nexthops == 0 && is_unset v.strategy

-- Updates the next hop if there is one to that face, and else appends it.
unfoldable pub put_hop : ℕ → ℕ → List FibNextHopEntry → List FibNextHopEntry
put_hop nexthop cost [] = record { nexthop = nexthop; cost = cost } ∷ []
put_hop nexthop cost (nh ∷ nhs) =
    if nh.nexthop == nexthop then record nh { cost = cost } ∷ nhs else nh ∷ put_hop nexthop cost nhs

-- The first next hop to that face goes, and those behind it move up.
unfoldable pub cut_hop : ℕ → List FibNextHopEntry → List FibNextHopEntry
cut_hop nexthop [] = []
cut_hop nexthop (nh ∷ nhs) = if nh.nexthop == nexthop then nhs else nh ∷ cut_hop nexthop nhs

abbrev pub but_last : List FibNextHopEntry → List FibNextHopEntry
but_last [] = []
but_last (nh ∷ []) = []
but_last (nh ∷ x ∷ nhs) = nh ∷ but_last (x ∷ nhs)

abbrev pub last_or : FibNextHopEntry → List FibNextHopEntry → FibNextHopEntry
last_or d [] = d
last_or d (nh ∷ nhs) = last_or nh nhs

abbrev pub without_head : List FibNextHopEntry → List FibNextHopEntry
without_head [] = []
without_head (nh ∷ nhs) = last_or nh nhs ∷ but_last (nh ∷ nhs)

-- The first next hop to that face goes, and the last one takes its place.
unfoldable pub swap_out_hop : ℕ → List FibNextHopEntry → List FibNextHopEntry
swap_out_hop nexthop [] = []
swap_out_hop nexthop (nh ∷ nhs) =
    if nh.nexthop == nexthop then without_head nhs else nh ∷ swap_out_hop nexthop nhs

abbrev pub put_value_hop : ℕ → ℕ → FibValue → FibValue
put_value_hop nexthop cost v = record v { nexthops = put_hop nexthop cost v.nexthops }

abbrev pub cut_value_hop : ℕ → FibValue → FibValue
cut_value_hop nexthop v = record v { nexthops = cut_hop nexthop v.nexthops }

abbrev pub swap_out_value_hop : ℕ → FibValue → FibValue
swap_out_value_hop nexthop v = record v { nexthops = swap_out_hop nexthop v.nexthops }

abbrev pub clear_value_hops : FibValue → FibValue
clear_value_hops v = record v { nexthops = [] }

abbrev pub set_value_strategy : Option Name → FibValue → FibValue
set_value_strategy strategy v = record v { strategy = strategy }
