-- ===== src/Worker/Printed.antt =====
-- The number of sent messages that a worker prints at its end: main.c.
use view_sync.Prelude.{
  ℕ, ◌^◌, ◌<◌, ◌≡◌, ◌≢◌, ap, ◌∙◌, Bool, true, List, map, length, get_or, get_elem?-in,
}
use view_sync.Prelude.Outcome.{done}
use view_sync.State.{Cbcast}
use view_sync.Peer.{inaddr_none}
use view_sync.System.{System, opening, Reach}
use view_sync.System.Parts.{length-sent_parts}
use view_sync.System.Invariant.{Reach-Invariant}
use view_sync.Worker.{num_workers, loopback, port_of, join}
use view_sync.Worker.Setup.{worker_addr, worker_addr-distinct, workers-Invariant}
use view_sync.Worker.Loop.{FinalState, received_line, sent_line, final_state}

-- In the group of the five workers, started as the program starts them with every socket and port
-- to be had, and giving payloads as long as it says and with a zero byte among their bytes, a worker
-- that has sent fewer than 2 ^ 16 payloads prints its state without a fault,
-- and the number of sent messages there is the number of calls of `cbc_send` that have returned
-- without an error.
pub final_state-said :
    (inet_addr : List ℕ → ℕ) (rand : ℕ → ℕ → ℕ) (bind_ok : ℕ → Bool) (members : ℕ → Cbcast)
    (s : System) (i : ℕ)
    → inet_addr loopback ≢ inaddr_none
    → ((k : ℕ) → k < num_workers → bind_ok (port_of k) ≡ true)
    → ((k : ℕ) → k < num_workers → join true bind_ok inet_addr k ≡ done (members k))
    → Reach inet_addr rand (worker_addr inet_addr) num_workers (opening members) s
    → i < num_workers
    → length (s.said i) < 2 ^ 16
    → (d : FinalState) × (final_state (s.nodes i).cbc ≡ done d)
      × (d.sent_messages ≡ length (s.said i))
unfolding final_state
final_state-said inet_addr rand bind_ok members s i resolves bound joined reached small few =
    let good =
      Reach-Invariant inet_addr rand (worker_addr inet_addr) num_workers
        (worker_addr-distinct inet_addr) (opening members) s
        (workers-Invariant inet_addr rand bind_ok members resolves bound joined) reached i small in
    let h = good.healthy.cbc in
    let cbc = (s.nodes i).cbc in
    (
      record {
        sent_messages = get_or cbc.vclock cbc.pid 0;
        delivery_queue = map received_line cbc.delivery_queue;
        held_buffer = map received_line cbc.held_msg_buffer;
        sent_buffer = map sent_line cbc.sent_msg_buffer;
      },
      rw (get_elem?-in cbc.vclock cbc.pid 0 (rw (h.own) (h.inside))),
      ap (λ k. get_or cbc.vclock k 0) h.own
          ∙ h.clock (rw (length-sent_parts (s.said i)) few)
          ∙ length-sent_parts (s.said i),
    )
