-- ===== src/Memory/Arriving.antt =====
-- Acks, retransmissions and one round of `cbc_recv_thread` of src/cbcast/receive.c with the blocks
-- that they allocate and free.
use Prim.Native.Nat.{min}
use view_sync.Prelude.{
  ℕ, ◌+◌, not, Option, none, some, List, [], ◌∷◌, ◌++◌, map, length, get_elem?, set, take, ltb,
  arrdel, find_index, ◌==◌, if◌then◌else◌,
}
use view_sync.Prelude.Outcome.{
  Outcome, done, exit, Result, result_ok, result_err, result_unwrap, deref, ◌>>=◌,
}
use view_sync.Prelude.Bits.{shl_one}
use view_sync.Message.{
  Kind, cbc_data, cbc_ack, cbc_retransmit_req, cbc_retransmit, unknown, Message, is_ack,
}
use view_sync.Message.Wire.{header_size, read_header}
use view_sync.Peer.{uint16_max, cbc_peer_find_by_addr}
use view_sync.Receive.Acks.{with_ack, has_clock, fully_acked}
use view_sync.Receive.Thread.{Datagram}
use view_sync.Memory.Heap.{calloc, free}
use view_sync.Memory.Objects.{
  MessagePtr, SentPtr, sent_value, cbc_msg_create_in, cbc_msg_deserialize_in, cbc_msg_free,
  cbc_outgoing_msg_create_in, cbc_sent_msg_free,
}
use view_sync.Memory.Context.{Context, forget, with_heap}
use view_sync.Memory.Reads.{message_blocks, looked, sent_blocks, peer_blocks}
use view_sync.Memory.Peers.{get_addr_copy_in}
use view_sync.Memory.Receiving.{looks, set_clock_in, enqueue_in, handle_data_msg_in}

abbrev pub with_ack_in : ℕ → SentPtr → SentPtr
with_ack_in mask p = record p { ack_bitmap = (with_ack mask (sent_value p)).ack_bitmap }

-- A fully acked message is freed and deleted.
unfoldable pub ack_at_in : Context → ℕ → Option ℕ → Outcome Context
unfolding shl_one
ack_at_in st pid none = done st
ack_at_in st pid (some i) = do
  p ← deref (get_elem? st.sent_msg_buffer i)
  mask ← shl_one pid
  let acked = with_ack_in mask p
  let freed : Outcome Context = do
    h ← cbc_sent_msg_free st.heap acked
    done (record st { heap = h; sent_msg_buffer = arrdel st.sent_msg_buffer i })
  if fully_acked (sent_value acked)
      then freed
      else done (record st { sent_msg_buffer = set st.sent_msg_buffer i acked })

unfoldable pub register_ack_in : Context → Message → ℕ → Outcome Context
unfolding ack_at_in
register_ack_in st ack pid = if not (is_ack ack.header.kind) then exit else do
  st' ← looks st (looked sent_blocks st.sent_msg_buffer)
  ack_at_in st' pid (find_index (has_clock ack.header.clock) (map sent_value st'.sent_msg_buffer))

unfoldable pub retransmit_at_in : Context → Message → ℕ → Option ℕ → Outcome Context
retransmit_at_in st req pid none = done st
retransmit_at_in st req pid (some i) = do
  sent ← deref (get_elem? st.sent_msg_buffer i)
  let m = sent.message.message
  (made, h₁) ← cbc_msg_create_in st.heap cbc_retransmit m.payload m.header.len
  p ← result_unwrap made
  (addr, h₂) ← get_addr_copy_in h₁ st.peers pid
  let (made', h₃) = cbc_outgoing_msg_create_in h₂ (set_clock_in p req.header.clock) addr
  out ← result_unwrap made'
  done (enqueue_in st h₃ out)

unfoldable pub queue_retransmission_in : Context → Message → ℕ → Outcome Context
unfolding retransmit_at_in
queue_retransmission_in st req pid = if pid == uint16_max then exit else do
  st' ← looks st (looked sent_blocks st.sent_msg_buffer)
  retransmit_at_in st' req pid
      (find_index (has_clock req.header.clock) (map sent_value st'.sent_msg_buffer))

abbrev pub free_message_in : Context → MessagePtr → Outcome Context
free_message_in st p = do h ← cbc_msg_free st.heap p; done (with_heap st h)

-- What a handler reads of the message is allocated until it returns. A message of no known kind is
-- not freed.
abbrev pub dispatch_in : Kind → Context → MessagePtr → ℕ → Outcome Context
dispatch_in cbc_data st p pid = handle_data_msg_in st p pid
dispatch_in cbc_retransmit st p pid = handle_data_msg_in st p pid
dispatch_in cbc_ack st p pid = do
  st' ← register_ack_in st p.message pid
  seen ← looks st' (message_blocks p)
  free_message_in seen p
dispatch_in cbc_retransmit_req st p pid = do
  st' ← queue_retransmission_in st p.message pid
  seen ← looks st' (message_blocks p)
  free_message_in seen p
dispatch_in (unknown c) st p pid = done (record st { lost_messages = st.lost_messages ++ (p ∷ []) })

-- The buffer is freed on every path.
abbrev pub free_buffer_in : Context → ℕ → Outcome Context
free_buffer_in st buffer = do h ← free st.heap buffer; done (with_heap st h)

abbrev pub dispatch_result_in : Result MessagePtr → Context → ℕ → Outcome Context
dispatch_result_in (result_err e) st pid = done st
dispatch_result_in (result_ok p) st pid = do
  st' ← looks st (message_blocks p)
  dispatch_in p.message.header.kind st' p pid

-- `recvfrom` fills the buffer, and what is read of it is the header and the message.
unfoldable pub handle_datagram_in : Context → Datagram → Outcome Context
handle_datagram_in st d =
    let size = header_size + (read_header d.bytes).len in
    let (buffer, h) = calloc st.heap in
    let st₁ = with_heap st h in
    if not (min (length d.bytes) size == size) then free_buffer_in st₁ buffer else do
      st₂ ← looks st₁ (buffer ∷ looked peer_blocks st₁.peers)
      let pid = cbc_peer_find_by_addr (forget st₂) d.source
      let parsed : Outcome Context = do
        (result, h₃) ← cbc_msg_deserialize_in st₂.heap buffer (take size d.bytes)
        st₃ ← free_buffer_in (with_heap st₂ h₃) buffer
        dispatch_result_in result st₃ pid
      if pid == uint16_max then free_buffer_in st₂ buffer else parsed

unfoldable pub recv_round_in : Context → List Datagram → Outcome (Context × List Datagram)
unfolding handle_datagram_in
recv_round_in st [] = done (st, [])
recv_round_in st (d ∷ ds) =
    if ltb (min (length d.bytes) header_size) header_size
    then done (st, d ∷ ds)
    else do st' ← handle_datagram_in st d; done (st', ds)
