-- ===== src/Receive/Data.antt =====
-- `handle_data_msg` and `try_deliver_held_msgs` of src/cbcast/receive.c.
use view_sync.Prelude.{
  ℕ, zero, suc, Bool, ◌&&◌, Option, none, some, List, [], ◌∷◌, ◌++◌, length, get_elem?, arrdelswap,
  find_index, exists_in, ◌==◌, if◌then◌else◌,
}
use view_sync.Prelude.Outcome.{Outcome, done, exit, spin, result_unwrap, ◌>>=◌}
use view_sync.Message.{Message, ReceivedMessage, is_retransmit, cbc_received_msg_create}
use view_sync.State.{Cbcast}
use view_sync.Receive.{
  Causality, causality_error, causality_deliver, causality_hold, check_msg_causality, is_deliver,
  deliver, ack_received_message, request_retransmission,
}

-- The test of the inner loop: the next message of this sender.
unfoldable pub deliverable : List ℕ → ℕ → ReceivedMessage → Bool
unfolding check_msg_causality
deliverable vclock pid held =
    (held.sender_pid == pid)
    && is_deliver (check_msg_causality vclock pid held.message.header.clock)

-- The held message at an index is delivered, and the last one takes its place.
abbrev pub deliver_at : Cbcast → ℕ → ℕ → Option ReceivedMessage → Option Cbcast
deliver_at cbc pid i none = none
deliver_at cbc pid i (some held) =
    some (record (deliver cbc held pid) { held_msg_buffer = arrdelswap cbc.held_msg_buffer i })

abbrev pub deliver_found : Cbcast → ℕ → Option ℕ → Option Cbcast
deliver_found cbc pid none = none
deliver_found cbc pid (some i) = deliver_at cbc pid i (get_elem? cbc.held_msg_buffer i)

-- The `for` loop: the first held message that can be delivered is, and the loop breaks; `none` if
-- there is no such message.
unfoldable pub deliver_held : Cbcast → ℕ → Option Cbcast
deliver_held cbc pid =
    deliver_found cbc pid (find_index (deliverable cbc.vclock pid) cbc.held_msg_buffer)

-- The `do` loop, on fuel.
unfoldable pub deliver_rounds : ℕ → Cbcast → ℕ → Outcome Cbcast
deliver_rounds zero cbc pid = spin
deliver_rounds (suc fuel) cbc pid = elim (deliver_held cbc pid) [
  | none ↦ done cbc
  | some cbc' ↦ deliver_rounds fuel cbc' pid
]

-- Each round takes a message out of the buffer, so its length and one more round are enough.
unfoldable pub try_deliver_held_msgs : Cbcast → ℕ → Outcome Cbcast
unfolding deliver_rounds
try_deliver_held_msgs cbc pid = deliver_rounds (suc (length cbc.held_msg_buffer)) cbc pid

-- The scan for a held copy of the message.
abbrev pub already_held : List ReceivedMessage → ℕ → ℕ → Bool
already_held held clock pid =
    exists_in (λ h. (h.message.header.clock == clock) && (h.sender_pid == pid)) held

abbrev pub hold : Cbcast → ReceivedMessage → Cbcast
hold cbc rcvd = record cbc { held_msg_buffer = cbc.held_msg_buffer ++ (rcvd ∷ []) }

abbrev pub handle_by : Causality → Cbcast → Message → ReceivedMessage → ℕ → Outcome Cbcast
handle_by causality_error cbc msg rcvd pid =
    if is_retransmit msg.header.kind then ack_received_message cbc msg.header.clock pid else exit
handle_by causality_deliver cbc msg rcvd pid = do
  acked ← ack_received_message cbc msg.header.clock pid
  let delivered = deliver acked rcvd pid
  if is_retransmit msg.header.kind then try_deliver_held_msgs delivered pid else done delivered
handle_by causality_hold cbc msg rcvd pid = do
  acked ← ack_received_message cbc msg.header.clock pid
  let held =
      if already_held acked.held_msg_buffer msg.header.clock pid then acked else hold acked rcvd
  request_retransmission held pid

unfoldable pub handle_data_msg : Cbcast → Message → ℕ → Outcome Cbcast
handle_data_msg cbc msg pid = do
  rcvd ← result_unwrap (cbc_received_msg_create msg pid)
  handle_by (check_msg_causality cbc.vclock pid msg.header.clock) cbc msg rcvd pid
