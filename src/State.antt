-- ===== src/State.antt =====
-- The state of one member of the group: `struct CBcast` and its parts, include/cbcast.h.
use view_sync.Prelude.{ℕ, Option, List}
use view_sync.Message.{SockAddr, OutgoingMessage, SentMessage, ReceivedMessage}

pub data PeerState : Type 0 where
  cbc_peer_alive cbc_peer_dead : PeerState

pub record Peer : Type 0 where
  pub pid : ℕ
  pub pos : ℕ
  pub addr : SockAddr
  pub state : PeerState

pub data CbcastState : Type 0 where
  cbc_state_normal cbc_disconnected : CbcastState

pub record Stats : Type 0 where
  pub recv_msg_count : ℕ
  pub delivered_msg_count : ℕ
  pub sent_msg_count : ℕ
  pub dropped_msg_count : ℕ
  pub sent_ack_count : ℕ
  pub dropped_ack_count : ℕ
  pub sent_retransmit_req_count : ℕ
  pub dropped_retransmit_req_count : ℕ
  pub sent_retransmit_count : ℕ
  pub dropped_retransmit_count : ℕ
  pub delivery_queue_size : ℕ
  pub sent_msg_buffer_size : ℕ
  pub held_msg_buffer_size : ℕ
  pub vector_clock_snapshot : Option (List ℕ)
  pub num_peers : ℕ

-- Locks, threads and the socket have no value here. `vclock` is `vclock->clock`, of `vclock->len`
-- entries.
pub record Cbcast : Type 0 where
  pub pid : ℕ
  pub state : CbcastState
  pub vclock : List ℕ
  pub peers : List Peer
  pub send_queue : List OutgoingMessage
  pub sent_msg_buffer : List SentMessage
  pub held_msg_buffer : List ReceivedMessage
  pub delivery_queue : List ReceivedMessage
  pub stats : Stats
