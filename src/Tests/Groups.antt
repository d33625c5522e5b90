-- ===== src/Tests/Groups.antt =====
-- Groups of members that send to each other.
use view_sync.Prelude.{
  ℕ, zero, suc, ◌+◌, ◌≤◌, ◌<◌, ◌≡◌, ◌≢◌, refl, true, some, List, [], ◌∷◌, ◌++◌, map, length, take,
  get_or, get_elem?, ap, replicate, All, arith,
}
use view_sync.Prelude.Outcome.{Outcome, done, Result, result_ok}
use view_sync.Message.{
  SockAddr, cbc_msg_create, cbc_outgoing_msg_create, cbc_received_msg_create, cbc_sent_msg_create,
}
use view_sync.Message.Wire.{cbc_msg_serialize, cbc_msg_deserialize, read_header}
use view_sync.State.{Peer, cbc_peer_alive, Cbcast}
use view_sync.Init.{fresh}
use view_sync.Send.{cbc_send, handle_old_messages}
use view_sync.Send.Loops.{IsShiftable}
use view_sync.Send.Thread.{Packet, send_round, broadcast}
use view_sync.Receive.Thread.{recv_round, handle_datagram}
use view_sync.Receive.Data.{handle_data_msg}
use view_sync.Receive.{check_msg_causality, ack_received_message, queue_control}
use view_sync.Peer.{inaddr_none, cbc_peer_find_by_addr, cbc_peer_get_addr_copy}
use view_sync.Worker.{num_workers, loopback}
use view_sync.Worker.Loop.{FinalState, final_state}
use view_sync.Worker.Printed.{final_state-said}
use view_sync.Worker.Setup.{worker_addr, others, join_lem, workers-payloads}
use view_sync.Node.{Node, recv_thread_runs, send_thread_runs, arrives, start, step}
use view_sync.System.{
  System, update, works, sends, delivers, receive_thread, send_thread, opening, initial, Reach,
  begin, later, payloads_from, terminated,
}
use view_sync.System.Worlds.{KnowsFor}
use view_sync.System.Parts.{sent_part}
use view_sync.System.Fifo.{Reach-payloads}
use view_sync.Tests.Data.{inet_addr, rand}

abbrev addr_of_member : ℕ → SockAddr
addr_of_member k = record { sin_port = 6000 + k; s_addr = 7 }

abbrev peer : ℕ → Peer
peer k = record { pid = k; pos = 0; addr = addr_of_member k; state = cbc_peer_alive }

-- Members 0 and 1, which know each other.
abbrev peers : ℕ → List Peer
peers zero = peer 1 ∷ []
peers (suc k) = peer 0 ∷ []

abbrev rands : ℕ → ℕ → ℕ
rands i = rand

abbrev result_of : Outcome (Result Cbcast) → Cbcast
result_of (done (result_ok c)) = c
result_of _ = fresh 0 []

-- Member 0 sends a byte.
abbrev at_first : System
at_first = initial inet_addr rands addr_of_member 2 peers

abbrev sent_cbc : Cbcast
sent_cbc = result_of (cbc_send (at_first.nodes 0).cbc (some (104 ∷ 0 ∷ [])) 1)

sent_lem : cbc_send (at_first.nodes 0).cbc (some (104 ∷ 0 ∷ [])) 1 ≡ done (result_ok sent_cbc)
unfolding cbc_send cbc_msg_create cbc_outgoing_msg_create handle_old_messages
sent_lem = refl

abbrev said_first : System
said_first = record {
  nodes = update at_first.nodes 0 (record (at_first.nodes 0) { cbc = sent_cbc });
  said = update at_first.said 0 (at_first.said 0 ++ ((104 ∷ []) ∷ []));
}

abbrev node_of : Outcome Node → Node
node_of (done n) = n
node_of _ = start (fresh 0 [])

abbrev sender : Node
sender = node_of (step inet_addr rand (said_first.nodes 0) send_thread_runs)

sender_lem : step inet_addr rand (said_first.nodes 0) send_thread_runs ≡ done sender
unfolding step send_round cbc_send cbc_msg_create cbc_outgoing_msg_create handle_old_messages
    cbc_msg_serialize broadcast cbc_sent_msg_create
sender_lem = refl

abbrev sent_first : System
sent_first = record said_first { nodes = update said_first.nodes 0 sender }

-- It reaches member 1, which delivers it.
abbrev packet : Packet
packet = record { dest = addr_of_member 1; bytes = 1 ∷ 0 ∷ 0 ∷ 0 ∷ 1 ∷ 0 ∷ 1 ∷ 0 ∷ 104 ∷ 0 ∷ [] }

packet_lem : get_elem? (sent_first.nodes 0).sent 0 ≡ some packet
unfolding step send_round cbc_send cbc_msg_create cbc_outgoing_msg_create handle_old_messages
    cbc_msg_serialize broadcast cbc_sent_msg_create
packet_lem = refl

abbrev reached : Node
reached = record (at_first.nodes 1) {
  inbox = record { source = addr_of_member 0; bytes = packet.bytes } ∷ [];
}

reached_lem :
    step inet_addr rand
      (sent_first.nodes 1)
      (arrives (record { source = addr_of_member 0; bytes = packet.bytes }))
    ≡ done reached
unfolding step
reached_lem = refl

abbrev arrived_first : System
arrived_first = record sent_first { nodes = update sent_first.nodes 1 reached }

abbrev receiver : Node
receiver = node_of (step inet_addr rand reached recv_thread_runs)

receiver_lem : step inet_addr rand reached recv_thread_runs ≡ done receiver
unfolding step recv_round handle_datagram read_header cbc_peer_find_by_addr cbc_msg_deserialize
    handle_data_msg cbc_received_msg_create check_msg_causality ack_received_message queue_control
    cbc_msg_create cbc_peer_get_addr_copy cbc_outgoing_msg_create
receiver_lem = refl

abbrev delivered_first : System
delivered_first = record arrived_first { nodes = update arrived_first.nodes 1 receiver }

delivered_first-Reach : Reach inet_addr rands addr_of_member 2 at_first delivered_first
delivered_first-Reach =
    later
      (later
        (later
          (later begin
            (sends 0 (104 ∷ 0 ∷ []) 1 sent_cbc (omega arith) (omega arith) refl sent_lem))
          (works 0 send_thread_runs sender (omega arith) send_thread sender_lem))
        (delivers 0 1 0 packet reached (omega arith) (omega arith) packet_lem refl reached_lem))
      (works 1 recv_thread_runs receiver (omega arith) receive_thread receiver_lem)

apart : (a b : ℕ) → a < 2 → b < 2 → addr_of_member a ≡ addr_of_member b → a ≡ b
apart a b h k e = omega (arith, ap (λ (s : SockAddr). s.sin_port) e)

peers_known :
    (k : ℕ)
    → k < 2
    → All (λ p. IsShiftable p.pid × KnowsFor addr_of_member 2 k p.pid p.addr) (peers k)
peers_known zero h = ((omega arith, (omega arith, refl, omega arith)), tt)
peers_known (suc k) h = ((omega arith, (omega arith, refl, omega arith)), tt)

Reach-payloads_example :
    (get_or (delivered_first.nodes 1).cbc.vclock 0 0 ≤ length (delivered_first.said 0))
    × (payloads_from 0
          ((delivered_first.nodes 1).taken ++ (delivered_first.nodes 1).cbc.delivery_queue)
        ≡ take
            (get_or (delivered_first.nodes 1).cbc.vclock 0 0)
            (map terminated (delivered_first.said 0)))
Reach-payloads_example =
    Reach-payloads inet_addr rands addr_of_member 2 peers delivered_first 0 1 apart peers_known
      delivered_first-Reach (omega arith) (omega arith) (omega arith) (omega arith, tt)

-- The byte is there.
byte_delivered :
    payloads_from 0 (delivered_first.nodes 1).cbc.delivery_queue ≡ some (104 ∷ 0 ∷ []) ∷ []
unfolding step recv_round handle_datagram read_header cbc_peer_find_by_addr cbc_msg_deserialize
    handle_data_msg cbc_received_msg_create check_msg_causality ack_received_message queue_control
    cbc_msg_create cbc_peer_get_addr_copy cbc_outgoing_msg_create
byte_delivered = refl

-- The workers, and the first of them sends a byte.
abbrev workers : ℕ → Cbcast
workers k = record (fresh k (replicate num_workers 0)) { peers = others inet_addr num_workers 0 k }

resolves : inet_addr loopback ≢ inaddr_none
resolves e = omega (arith, e)

abbrev worker_sent : Cbcast
worker_sent = result_of (cbc_send (workers 0) (some (104 ∷ 0 ∷ [])) 1)

worker_sent_lem : cbc_send (workers 0) (some (104 ∷ 0 ∷ [])) 1 ≡ done (result_ok worker_sent)
unfolding cbc_send cbc_msg_create cbc_outgoing_msg_create handle_old_messages
worker_sent_lem = refl

abbrev worker_said : System
worker_said = record {
  nodes = update (opening workers).nodes 0 (start worker_sent);
  said = update (opening workers).said 0 ((104 ∷ []) ∷ []);
}

worker_said-Reach :
    Reach inet_addr rands (worker_addr inet_addr) num_workers (opening workers) worker_said
worker_said-Reach =
    later begin
      (sends 0 (104 ∷ 0 ∷ []) 1 worker_sent (omega arith) (omega arith) refl worker_sent_lem)

workers-payloads_example :
    (get_or (worker_said.nodes 1).cbc.vclock 0 0 ≤ length (worker_said.said 0))
    × (payloads_from 0 ((worker_said.nodes 1).taken ++ (worker_said.nodes 1).cbc.delivery_queue)
        ≡ take
            (get_or (worker_said.nodes 1).cbc.vclock 0 0)
            (map terminated (map sent_part (worker_said.said 0))))
workers-payloads_example =
    workers-payloads inet_addr rands (λ port. true) workers worker_said 0 1 resolves
      (λ k small. refl) (λ k small. join_lem inet_addr resolves (λ port. true) k small refl)
      worker_said-Reach (omega arith) (omega arith) (omega arith)

final_state-said_example :
    (d : FinalState) × (final_state (worker_said.nodes 0).cbc ≡ done d)
    × (d.sent_messages ≡ length (worker_said.said 0))
final_state-said_example =
    final_state-said inet_addr rands (λ port. true) workers worker_said 0 resolves (λ k small. refl)
      (λ k small. join_lem inet_addr resolves (λ port. true) k small refl) worker_said-Reach
      (omega arith) (omega arith)
