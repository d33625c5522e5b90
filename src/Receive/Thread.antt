-- ===== src/Receive/Thread.antt =====
-- `cbc_recv_thread` of src/cbcast/receive.c: one round of its loop. The datagrams that wait at the
-- socket are a list; `recvfrom` returns no error, and cuts a datagram to the buffer.
use Prim.Native.Nat.{min}
use view_sync.Prelude.{
  ℕ, zero, suc, ◌+◌, some, List, [], ◌∷◌, length, take, ltb, not, ◌==◌, if◌then◌else◌,
}
use view_sync.Prelude.Outcome.{Outcome, done, Result, result_ok, result_err, ◌>>=◌}
use view_sync.Message.{
  Kind, cbc_data, cbc_ack, cbc_retransmit_req, cbc_retransmit, unknown, Message, SockAddr,
}
use view_sync.Message.Wire.{header_size, read_header, cbc_msg_deserialize}
use view_sync.State.{Cbcast}
use view_sync.Peer.{uint16_max, cbc_peer_find_by_addr}
use view_sync.Receive.Data.{handle_data_msg}
use view_sync.Receive.Acks.{register_ack, queue_retransmission}

pub record Datagram : Type 0 where
  pub source : SockAddr
  pub bytes : List ℕ

-- The `switch` on the kind.
abbrev pub dispatch : Kind → Cbcast → Message → ℕ → Outcome Cbcast
dispatch cbc_data cbc msg pid = handle_data_msg cbc msg pid
dispatch cbc_retransmit cbc msg pid = handle_data_msg cbc msg pid
dispatch cbc_ack cbc msg pid = register_ack cbc msg pid
dispatch cbc_retransmit_req cbc msg pid = queue_retransmission cbc msg pid
dispatch (unknown c) cbc msg pid = done cbc

abbrev pub dispatch_result : Result Message → Cbcast → ℕ → Outcome Cbcast
dispatch_result (result_err e) cbc pid = done cbc
dispatch_result (result_ok msg) cbc pid = dispatch msg.header.kind cbc msg pid

-- A datagram that has been taken off the socket.
unfoldable pub handle_datagram : Cbcast → Datagram → Outcome Cbcast
handle_datagram cbc d =
    let size = header_size + (read_header d.bytes).len in
    if not (min (length d.bytes) size == size)
    then done cbc
    else if cbc_peer_find_by_addr cbc d.source == uint16_max
    then done cbc
    else do
      result ← cbc_msg_deserialize (some (take size d.bytes))
      dispatch_result result cbc (cbc_peer_find_by_addr cbc d.source)

-- The header is peeked at first, which leaves the datagram at the socket.
unfoldable pub recv_round : Cbcast → List Datagram → Outcome (Cbcast × List Datagram)
recv_round cbc [] = done (cbc, [])
recv_round cbc (d ∷ ds) =
    if ltb (min (length d.bytes) header_size) header_size
    then done (cbc, d ∷ ds)
    else do cbc' ← handle_datagram cbc d; done (cbc', ds)

-- The first rounds of the `for (;;)`, while nothing more arrives.
unfoldable pub recv_rounds : ℕ → Cbcast → List Datagram → Outcome (Cbcast × List Datagram)
unfolding recv_round
recv_rounds zero cbc inbox = done (cbc, inbox)
recv_rounds (suc n) cbc inbox = do (cbc', inbox') ← recv_round cbc inbox; recv_rounds n cbc' inbox'
