-- ===== src/Init.antt =====
-- `cbc_init` of src/cbcast/init.c. Whether `socket` succeeds and whether `bind` does at a port are
-- parameters.
use view_sync.Prelude.{ℕ, Bool, true, false, none, List, [], leb, ◌==◌, if◌then◌else◌}
use view_sync.Prelude.Outcome.{
  Outcome, done, Result, result_ok, result_err, invalid_arguments, no_socket, no_bind,
  result_unwrap, ◌>>=◌,
}
use view_sync.State.{Stats, Cbcast, cbc_state_normal}
use view_sync.VectorClock.{vc_init}

-- `calloc` clears the counters.
abbrev pub no_stats : Stats
no_stats = record {
  recv_msg_count = 0;
  delivered_msg_count = 0;
  sent_msg_count = 0;
  dropped_msg_count = 0;
  sent_ack_count = 0;
  dropped_ack_count = 0;
  sent_retransmit_req_count = 0;
  dropped_retransmit_req_count = 0;
  sent_retransmit_count = 0;
  dropped_retransmit_count = 0;
  delivery_queue_size = 0;
  sent_msg_buffer_size = 0;
  held_msg_buffer_size = 0;
  vector_clock_snapshot = none;
  num_peers = 0;
}

-- The arrays are NULL, which is empty.
abbrev pub fresh : ℕ → List ℕ → Cbcast
fresh pid vclock = record {
  pid = pid;
  state = cbc_state_normal;
  vclock = vclock;
  peers = [];
  send_queue = [];
  sent_msg_buffer = [];
  held_msg_buffer = [];
  delivery_queue = [];
  stats = no_stats;
}

-- `socket`, then `bind`.
abbrev pub opened : Bool → Bool → Cbcast → Result Cbcast
opened false bound cbc = result_err no_socket
opened true false cbc = result_err no_bind
opened true true cbc = result_ok cbc

module _ (socket_ok : Bool) (bind_ok : ℕ → Bool) where
  unfoldable pub cbc_init : ℕ → ℕ → ℕ → Outcome (Result Cbcast)
  unfolding vc_init
  cbc_init pid max_p port =
      if max_p == 0
      then done (result_err invalid_arguments)
      else if leb max_p pid
      then done (result_err invalid_arguments)
      else do
        vclock ← result_unwrap (vc_init max_p)
        done (opened socket_ok (bind_ok port) (fresh pid vclock))
