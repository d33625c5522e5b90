-- ===== src/Worker.antt =====
-- The program of the repository: main.c. Five processes, each a member of the group.
pub mod Setup
pub mod Sync
pub mod Loop
pub mod Rounds
pub mod Printed
use view_sync.Prelude.{ℕ, zero, suc, ◌+◌, ◌%◌, ◌^◌, Bool, some, List, [], ◌∷◌, ◌==◌, if◌then◌else◌}
use view_sync.Prelude.Outcome.{Outcome, done, ◌>>=◌, result_unwrap}
use view_sync.State.{Cbcast}
use view_sync.Peer.{cbc_add_peer}
use view_sync.Init.{cbc_init}

-- NUM_WORKERS and BASE_PORT.
abbrev pub num_workers : ℕ
num_workers = 5

abbrev pub base_port : ℕ
base_port = 12345

-- "127.0.0.1".
abbrev pub loopback : List ℕ
loopback = 49 ∷ 50 ∷ 55 ∷ 46 ∷ 48 ∷ 46 ∷ 48 ∷ 46 ∷ 49 ∷ []

-- The port of a worker, as it is passed: a `uint16_t`.
abbrev pub port_of : ℕ → ℕ
port_of i = (base_port + i) % 2 ^ 16

-- The loop over the other workers from `j` on, with `n` rounds left.
unfoldable pub add_peers : (List ℕ → ℕ) → ℕ → ℕ → ℕ → Cbcast → Outcome Cbcast
add_peers inet_addr zero j i cbc = done cbc
add_peers inet_addr (suc n) j i cbc = do
  cbc' ←
      if j == i
      then done cbc
      else result_unwrap (cbc_add_peer inet_addr cbc j (some loopback) (port_of j))
  add_peers inet_addr n (suc j) i cbc'

-- What a forked process does before `worker_process`. An error ends it.
unfoldable pub join : Bool → (ℕ → Bool) → (List ℕ → ℕ) → ℕ → Outcome Cbcast
unfolding add_peers
join socket_ok bind_ok inet_addr i = do
  result ← cbc_init socket_ok bind_ok i num_workers (port_of i)
  cbc ← result_unwrap result
  add_peers inet_addr num_workers 0 i cbc
