-- ===== src/Memory/Sending.antt =====
-- One round of `cbc_send_thread` of src/cbcast/send.c with its blocks.
use view_sync.Prelude.{ℕ, suc, Option, none, some, List, [], ◌∷◌, ◌++◌}
use view_sync.Prelude.Outcome.{Outcome, done, result_unwrap, ◌>>=◌}
use view_sync.Message.{Kind, cbc_data, unknown}
use view_sync.Message.Wire.{cbc_msg_serialize}
use view_sync.Send.Thread.{Packet, Broadcast, broadcast, is_dropped, send_control}
use view_sync.Memory.Heap.{free_if}
use view_sync.Memory.Objects.{
  MessagePtr, OutgoingPtr, outgoing_value, new_payload, cbc_outgoing_msg_free,
  cbc_sent_msg_create_in,
}
use view_sync.Memory.Context.{Context, forget, with_heap}
use view_sync.Memory.Reads.{block_if, outgoing_blocks, looked, peer_blocks}
use view_sync.Memory.Receiving.{looks}

-- A sent message takes the data over, and `outgoing->message` is set to NULL.
abbrev pub hand_over_in :
    Context → OutgoingPtr → Broadcast → Outcome (Context × Option MessagePtr × List Packet × ℕ)
hand_over_in st out b = do
  let (made, h) = cbc_sent_msg_create_in st.heap out.message b.ack_target
  sent ← result_unwrap made
  done (
    record st { heap = h; sent_msg_buffer = st.sent_msg_buffer ++ (sent ∷ []) },
    none,
    b.packets,
    b.draws,
  )

module _ (rand : ℕ → ℕ) where
  -- The bytes and the peers' addresses are read; the counters change.
  abbrev pub broadcast_in : Context → Option ℕ → Option (List ℕ) → ℕ → Outcome (Context × Broadcast)
  broadcast_in st buffer bytes draws = do
    st' ← looks st (block_if buffer ++ looked peer_blocks st.peers)
    (cbc, b) ← broadcast rand (forget st') bytes draws
    done (record st' { stats = cbc.stats }, b)

  abbrev pub control_in :
      Kind
      → Context
      → OutgoingPtr
      → Option ℕ
      → Option (List ℕ)
      → ℕ
      → Outcome (Context × Option MessagePtr × List Packet × ℕ)
  control_in kind st out buffer bytes draws = do
    st' ← looks st (block_if buffer ++ outgoing_blocks out)
    let (cbc, packets) =
        send_control kind (forget st') (outgoing_value out) bytes (is_dropped (rand draws))
    done (record st' { stats = cbc.stats }, some out.message, packets, suc draws)

  -- The `switch`, with `outgoing->message` as it leaves it.
  abbrev pub send_as_in :
      Kind
      → Context
      → OutgoingPtr
      → Option ℕ
      → Option (List ℕ)
      → ℕ
      → Outcome (Context × Option MessagePtr × List Packet × ℕ)
  send_as_in cbc_data st out buffer bytes draws = do
    (st', b) ← broadcast_in st buffer bytes (suc draws)
    hand_over_in st' out b
  send_as_in (unknown c) st out buffer bytes draws = done (st, some out.message, [], suc draws)
  send_as_in kind st out buffer bytes draws = control_in kind st out buffer bytes draws

  -- The bytes are a block until the end of the round, which `sendto` reads.
  abbrev pub send_first_in : Context → List OutgoingPtr → ℕ → Outcome (Context × List Packet × ℕ)
  send_first_in st [] draws = done (st, [], draws)
  send_first_in st (out ∷ rest) draws = do
    st₁ ← looks st (outgoing_blocks out)
    bytes ← cbc_msg_serialize out.message.message
    let (buffer, h) = new_payload st₁.heap bytes
    (st₂, message, packets, draws') ←
        send_as_in out.message.message.header.kind (record st₁ { heap = h; send_queue = rest }) out
          buffer bytes draws
    h₁ ← free_if st₂.heap buffer
    h₂ ← cbc_outgoing_msg_free h₁ out.at message out.addr
    done (with_heap st₂ h₂, packets, draws')

  unfoldable pub send_round_in : Context → ℕ → Outcome (Context × List Packet × ℕ)
  unfolding cbc_sent_msg_create_in cbc_outgoing_msg_free
  send_round_in st draws = send_first_in st st.send_queue draws
