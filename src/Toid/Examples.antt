-- ===== src/Toid/Examples.antt =====
-- Runs of the packing at concrete ids, and the laws at ids that meet their hypotheses.
use soroban_tools.Prelude.{ℕ, ◌≡◌, refl, ◌<◌, ◌⊎◌, ◌↔◌, some, arith}
use soroban_tools.Toid.{Toid, new, to_u64, from_u64, to_paging_token}
use soroban_tools.Toid.Laws.{Fits, to_u64_order, from_u64-to_u64_iff}

to_u64_runs : to_u64 (new 3 5 7) ≡ 12884922375
unfolding to_u64 new
to_u64_runs = refl

to_paging_token_runs : to_paging_token (new 3 5 7) ≡ "0000000012884922375"
unfolding to_paging_token new
to_paging_token_runs = refl

abbrev some_id : Toid
some_id = record { ledger_sequence = 3; transaction_order = 5; operation_order = 7 }

abbrev later_id : Toid
later_id = record { ledger_sequence = 4; transaction_order = 0; operation_order = 0 }

some_id-Fits : Fits some_id
some_id-Fits = omega arith

to_u64_order_example :
    (to_u64 some_id < to_u64 later_id)
    ↔ ((◌<◌ 3 4) ⊎ ((◌≡◌ {A = ℕ} 3 4) × ((◌<◌ 5 0) ⊎ ((◌≡◌ {A = ℕ} 5 0) × (◌<◌ 7 0)))))
to_u64_order_example = to_u64_order some_id later_id some_id-Fits (omega arith)

from_u64-to_u64_iff_example :
    (from_u64 (to_u64 some_id) ≡ some some_id) ↔ ((◌≡◌ {A = ℕ} 3 0) × (◌<◌ 5 256))
from_u64-to_u64_iff_example = from_u64-to_u64_iff some_id some_id-Fits
