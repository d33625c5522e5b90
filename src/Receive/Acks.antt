-- ===== src/Receive/Acks.antt =====
-- `register_ack` and `queue_retransmission` of src/cbcast/receive.c.
use Prim.Native.Nat.{bit_or}
use view_sync.Prelude.{
  ℕ, not, Option, none, some, Bool, get_elem?, set, arrdel, find_index, ◌==◌, if◌then◌else◌,
}
use view_sync.Prelude.Outcome.{Outcome, done, exit, result_unwrap, deref, ◌>>=◌}
use view_sync.Prelude.Bits.{shl_one}
use view_sync.Message.{
  Message, SentMessage, is_ack, cbc_retransmit, set_clock, cbc_msg_create, cbc_outgoing_msg_create,
}
use view_sync.State.{Cbcast}
use view_sync.Peer.{uint16_max, cbc_peer_get_addr_copy}
use view_sync.Receive.{enqueue}

-- `sent_msg->ack_bitmap |= 1 << pid`, with the shifted bit at hand.
abbrev pub with_ack : ℕ → SentMessage → SentMessage
with_ack mask s = record s { ack_bitmap = bit_or s.ack_bitmap mask }

abbrev pub fully_acked : SentMessage → Bool
fully_acked s = s.ack_bitmap == s.ack_target

abbrev pub has_clock : ℕ → SentMessage → Bool
has_clock clock s = s.message.header.clock == clock

-- The message at an index is acked, and leaves the buffer when all have acked it.
unfoldable pub ack_at : Cbcast → ℕ → Option ℕ → Outcome Cbcast
unfolding shl_one
ack_at cbc pid none = done cbc
ack_at cbc pid (some i) = do
  sent ← deref (get_elem? cbc.sent_msg_buffer i)
  mask ← shl_one pid
  let acked = with_ack mask sent
  done (record cbc {
    sent_msg_buffer =
        if fully_acked acked then arrdel cbc.sent_msg_buffer i else set cbc.sent_msg_buffer i acked;
  })

-- The ack is for the first message with its clock. With none, it may be a second ack.
unfoldable pub register_ack : Cbcast → Message → ℕ → Outcome Cbcast
unfolding ack_at
register_ack cbc ack pid =
    if not (is_ack ack.header.kind)
    then exit
    else ack_at cbc pid (find_index (has_clock ack.header.clock) cbc.sent_msg_buffer)

-- The message at an index is sent again to the peer that asks for it.
unfoldable pub retransmit_at : Cbcast → Message → ℕ → Option ℕ → Outcome Cbcast
retransmit_at cbc req pid none = done cbc
retransmit_at cbc req pid (some i) = do
  sent ← deref (get_elem? cbc.sent_msg_buffer i)
  made ← cbc_msg_create cbc_retransmit sent.message.payload sent.message.header.len
  msg ← result_unwrap made
  out ←
      result_unwrap
        (cbc_outgoing_msg_create (set_clock msg req.header.clock) (cbc_peer_get_addr_copy cbc pid))
  done (enqueue cbc out)

unfoldable pub queue_retransmission : Cbcast → Message → ℕ → Outcome Cbcast
unfolding retransmit_at
queue_retransmission cbc req pid =
    if pid == uint16_max
    then exit
    else retransmit_at cbc req pid (find_index (has_clock req.header.clock) cbc.sent_msg_buffer)
