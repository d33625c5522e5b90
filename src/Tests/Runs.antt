-- ===== src/Tests/Runs.antt =====
-- A member's history, and the theorems about delivery at it.
use view_sync.Prelude.{length, ◌≡◌, ◌≢◌, All, refl, some, List, [], ◌∷◌, ◌++◌, get_or, arith, true}
use view_sync.Prelude.Outcome.{Outcome, done, fault, spin, result_ok}
use view_sync.Message.{
  cbc_msg_create, create_msg_with_header, cbc_outgoing_msg_create, cbc_received_msg_create,
}
use view_sync.Message.Wire.{cbc_msg_deserialize, read_header}
use view_sync.Init.{fresh, cbc_init}
use view_sync.Peer.{
  cbc_add_peer, create_peer, find_by_addr, cbc_peer_find_by_addr, addr_of, cbc_peer_get_addr_copy,
}
use view_sync.Receive.{
  check_msg_causality, ack_received_message, request_retransmission, queue_control, cbc_receive,
}
use view_sync.Receive.Data.{
  handle_data_msg, deliver_held, deliver_rounds, deliverable, try_deliver_held_msgs,
}
use view_sync.Receive.Thread.{recv_round, handle_datagram}
use view_sync.Node.{Node, Event, adds_peer, receives, arrives, recv_thread_runs, start, step, run}
use view_sync.Delivery.Order.{clocks_from, up_to}
use view_sync.Delivery.Run.{run-Fifo}
use view_sync.Member.Run.{IsInContract, run-Safe}
use view_sync.Delivery.Held.{IsUnique, handle_data_msg-IsUnique}
use view_sync.State.{Cbcast}
use view_sync.Tests.Data.{
  member, second, from_one, inet_addr, rand, second_bytes, first_again_bytes, datagram,
}

-- The second message of member 1 arrives before the first, which is sent again.
abbrev events : List Event
events =
    adds_peer 1 (some []) 6000
    ∷ arrives (datagram second_bytes)
    ∷ recv_thread_runs
    ∷ arrives (datagram first_again_bytes)
    ∷ recv_thread_runs
    ∷ receives
    ∷ []

abbrev node_of : Outcome Node → Node
node_of (done n) = n
node_of _ = start (fresh 0 [])

begins : cbc_init true (λ port. true) 0 2 5000 ≡ done (result_ok (fresh 0 (0 ∷ 0 ∷ [])))
unfolding cbc_init
begins = refl

-- What the events make of the member.
abbrev history : Node
history = node_of (run inet_addr rand (start (fresh 0 (0 ∷ 0 ∷ []))) events)

runs : run inet_addr rand (start (fresh 0 (0 ∷ 0 ∷ []))) events ≡ done history
unfolding run step cbc_add_peer create_peer recv_round handle_datagram read_header
    cbc_msg_deserialize cbc_peer_find_by_addr find_by_addr handle_data_msg cbc_received_msg_create
    check_msg_causality ack_received_message request_retransmission queue_control cbc_msg_create
    create_msg_with_header cbc_outgoing_msg_create cbc_peer_get_addr_copy addr_of
    try_deliver_held_msgs deliver_rounds deliver_held deliverable cbc_receive
runs = refl

-- Both are delivered, in order; the user has the first.
two_delivered :
    (clocks_from 1 history.taken ≡ 1 ∷ [])
    × (clocks_from 1 history.cbc.delivery_queue ≡ 2 ∷ [])
    × (length history.cbc.send_queue ≡ 3)
unfolding run step cbc_add_peer create_peer recv_round handle_datagram read_header
    cbc_msg_deserialize cbc_peer_find_by_addr find_by_addr handle_data_msg cbc_received_msg_create
    check_msg_causality ack_received_message request_retransmission queue_control cbc_msg_create
    create_msg_with_header cbc_outgoing_msg_create cbc_peer_get_addr_copy addr_of
    try_deliver_held_msgs deliver_rounds deliver_held deliverable cbc_receive
two_delivered = (refl, refl, refl)

run-Fifo_example :
    clocks_from 1 (history.taken ++ history.cbc.delivery_queue)
    ≡ up_to (get_or history.cbc.vclock 1 0)
run-Fifo_example =
    run-Fifo true (λ port. true) inet_addr rand 0 2 5000 (fresh 0 (0 ∷ 0 ∷ [])) events history 1
      begins runs (omega arith)

events-IsInContract : All (IsInContract 0) events
events-IsInContract = ((omega arith, omega arith), (tt, (tt, (tt, (tt, (tt, tt))))))

run-Safe_example :
    (run inet_addr rand (start (fresh 0 (0 ∷ 0 ∷ []))) events ≢ fault)
    × (run inet_addr rand (start (fresh 0 (0 ∷ 0 ∷ []))) events ≢ spin)
run-Safe_example =
    run-Safe true (λ port. true) inet_addr rand 0 2 5000 (fresh 0 (0 ∷ 0 ∷ [])) events begins
      events-IsInContract

-- A copy of the second message is held already.
abbrev holding : Cbcast
holding = record member { held_msg_buffer = from_one second ∷ [] }

abbrev cbc_of : Outcome Cbcast → Cbcast
cbc_of (done cbc) = cbc
cbc_of _ = member

-- What a second copy makes of the member.
abbrev copied : Cbcast
copied = cbc_of (handle_data_msg holding second 1)

holding-IsUnique : IsUnique holding.held_msg_buffer
holding-IsUnique clock pid = ground arith

copy_handled : handle_data_msg holding second 1 ≡ done copied
unfolding handle_data_msg cbc_received_msg_create check_msg_causality ack_received_message
    request_retransmission queue_control cbc_msg_create create_msg_with_header
    cbc_outgoing_msg_create cbc_peer_get_addr_copy addr_of
copy_handled = refl

handle_data_msg-IsUnique_example : IsUnique copied.held_msg_buffer
handle_data_msg-IsUnique_example =
    handle_data_msg-IsUnique holding copied second 1 holding-IsUnique copy_handled
