-- ===== src/VectorClock.antt =====
-- `vc_init` and `vc_snapshot` of src/vector_clock.c. The clock is the list of its entries.
use view_sync.Prelude.{ℕ, Option, some, List, replicate, ◌==◌, if◌then◌else◌}
use view_sync.Prelude.Outcome.{Result, result_ok, result_err, invalid_size}

unfoldable pub vc_init : ℕ → Result (List ℕ)
vc_init size = if size == 0 then result_err invalid_size else result_ok (replicate size 0)

-- A copy of the entries.
unfoldable pub vc_snapshot : List ℕ → Option (List ℕ)
vc_snapshot vclock = some vclock
