-- ===== src/Memory/Receiving.antt =====
-- The handlers of src/cbcast/receive.c with the blocks that they allocate and free.
use view_sync.Prelude.{
  ℕ, zero, suc, Option, none, some, List, [], ◌∷◌, ◌++◌, map, length, get_elem?, get_or, set,
  arrdelswap, find_index, ◌==◌, if◌then◌else◌,
}
use view_sync.Prelude.Outcome.{Outcome, done, exit, spin, result_unwrap, deref, ◌>>=◌}
use view_sync.Message.{Kind, cbc_ack, cbc_retransmit_req, Message, is_retransmit, set_clock}
use view_sync.Peer.{uint16_max}
use view_sync.Receive.{
  Causality, causality_error, causality_deliver, causality_hold, check_msg_causality, inc64,
}
use view_sync.Receive.Data.{deliverable, already_held}
use view_sync.Memory.Heap.{Heap}
use view_sync.Memory.Objects.{
  MessagePtr, AddrPtr, OutgoingPtr, ReceivedPtr, received_value, cbc_msg_create_in,
  cbc_outgoing_msg_create_in, cbc_received_msg_create_in, cbc_received_msg_free,
}
use view_sync.Memory.Context.{Context, with_heap}
use view_sync.Memory.Reads.{looked, received_blocks, reads_all}
use view_sync.Memory.Peers.{get_addr_copy_in}

-- The caller gets the first message, and the object with it.
abbrev pub receive_from_in : Context → List ReceivedPtr → Option ReceivedPtr × Context
receive_from_in st [] = (none, st)
receive_from_in st (p ∷ rest) = (
  some p,
  record st {
    delivery_queue = rest;
    stats = record (st.stats) { delivered_msg_count = inc64 st.stats.delivered_msg_count };
  },
)

unfoldable pub cbc_receive_in : Context → Option ReceivedPtr × Context
cbc_receive_in st = receive_from_in st st.delivery_queue

-- A loop over an array of pointers reads what they point to.
abbrev pub looks : Context → List ℕ → Outcome Context
looks st blocks = do h ← reads_all st.heap blocks; done (with_heap st h)

abbrev pub set_clock_in : MessagePtr → ℕ → MessagePtr
set_clock_in p clock = record p { message = set_clock p.message clock }

abbrev pub enqueue_in : Context → Heap → OutgoingPtr → Context
enqueue_in st h out = record st { heap = h; send_queue = st.send_queue ++ (out ∷ []) }

-- With no address the call returns, and nothing points to the message any more.
abbrev pub queue_to_in : Context → Heap → MessagePtr → Option AddrPtr → Outcome Context
queue_to_in st h p none =
    done (record st { heap = h; lost_messages = st.lost_messages ++ (p ∷ []) })
queue_to_in st h p (some a) = do
  let (made, h') = cbc_outgoing_msg_create_in h p (some a)
  out ← result_unwrap made
  done (enqueue_in st h' out)

unfoldable pub queue_control_in : Context → Kind → ℕ → ℕ → Outcome Context
queue_control_in st kind clock pid = do
  (made, h₁) ← cbc_msg_create_in st.heap kind none 0
  p ← result_unwrap made
  (addr, h₂) ← get_addr_copy_in h₁ st.peers pid
  queue_to_in st h₂ (set_clock_in p clock) addr

unfoldable pub ack_received_message_in : Context → ℕ → ℕ → Outcome Context
unfolding queue_control_in
ack_received_message_in st ack_clock pid =
    if ack_clock == uint16_max then exit else queue_control_in st cbc_ack ack_clock pid

unfoldable pub request_retransmission_in : Context → ℕ → Outcome Context
unfolding queue_control_in
request_retransmission_in st pid = if pid == uint16_max then exit else do
  clock ← deref (get_elem? st.vclock pid)
  queue_control_in st cbc_retransmit_req (inc64 clock) pid

abbrev pub deliver_in : Context → ReceivedPtr → ℕ → Context
deliver_in st p pid = record st {
  delivery_queue = st.delivery_queue ++ (p ∷ []);
  vclock = set st.vclock pid (inc64 (get_or st.vclock pid 0));
}

-- `try_deliver_held_msgs`: the pointer moves from one array to the other.
abbrev pub deliver_at_in : Context → ℕ → ℕ → Option ReceivedPtr → Option Context
deliver_at_in st pid i none = none
deliver_at_in st pid i (some p) =
    some (record (deliver_in st p pid) { held_msg_buffer = arrdelswap st.held_msg_buffer i })

abbrev pub deliver_found_in : Context → ℕ → Option ℕ → Option Context
deliver_found_in st pid none = none
deliver_found_in st pid (some i) = deliver_at_in st pid i (get_elem? st.held_msg_buffer i)

unfoldable pub deliver_held_in : Context → ℕ → Option Context
deliver_held_in st pid =
    deliver_found_in st pid
      (find_index (deliverable st.vclock pid) (map received_value st.held_msg_buffer))

unfoldable pub deliver_rounds_in : ℕ → Context → ℕ → Outcome Context
unfolding deliver_held_in
deliver_rounds_in zero st pid = spin
deliver_rounds_in (suc fuel) st pid = do
  st' ← looks st (looked received_blocks st.held_msg_buffer)
  elim (deliver_held_in st' pid) [ none ↦ done st' | some st'' ↦ deliver_rounds_in fuel st'' pid ]

unfoldable pub try_deliver_held_msgs_in : Context → ℕ → Outcome Context
unfolding deliver_rounds_in
try_deliver_held_msgs_in st pid = deliver_rounds_in (suc (length st.held_msg_buffer)) st pid

abbrev pub free_received_in : Context → ReceivedPtr → Outcome Context
free_received_in st p = do h ← cbc_received_msg_free st.heap p; done (with_heap st h)

abbrev pub hold_in : Context → ReceivedPtr → Context
hold_in st p = record st { held_msg_buffer = st.held_msg_buffer ++ (p ∷ []) }

-- What is read of the message is allocated until it is freed.
abbrev pub handle_by_in : Causality → Context → Message → ReceivedPtr → ℕ → Outcome Context
handle_by_in causality_error st msg p pid =
    if is_retransmit msg.header.kind
    then (do
      acked ← ack_received_message_in st msg.header.clock pid
      seen ← looks acked (received_blocks p)
      free_received_in seen p)
    else exit
handle_by_in causality_deliver st msg p pid = do
  acked ← ack_received_message_in st msg.header.clock pid
  let delivered = deliver_in acked p pid
  if is_retransmit msg.header.kind then try_deliver_held_msgs_in delivered pid else done delivered
handle_by_in causality_hold st msg p pid = do
  acked ← ack_received_message_in st msg.header.clock pid
  seen ← looks acked (looked received_blocks (p ∷ acked.held_msg_buffer))
  held ←
      if already_held (map received_value seen.held_msg_buffer) msg.header.clock pid
      then free_received_in seen p
      else done (hold_in seen p)
  request_retransmission_in held pid

unfoldable pub handle_data_msg_in : Context → MessagePtr → ℕ → Outcome Context
handle_data_msg_in st p pid = do
  let (made, h) = cbc_received_msg_create_in st.heap p pid
  rcvd ← result_unwrap made
  st' ← looks (with_heap st h) (received_blocks rcvd)
  handle_by_in (check_msg_causality st.vclock pid p.message.header.clock) st' p.message rcvd pid
