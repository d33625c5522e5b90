-- ===== src/Tests/Data.antt =====
-- The members, messages and datagrams of the tests.
use view_sync.Prelude.{ℕ, none, some, List, [], ◌∷◌}
use view_sync.Message.{
  Kind, cbc_data, cbc_ack, cbc_retransmit, Message, SockAddr, ReceivedMessage, SentMessage,
}
use view_sync.State.{Peer, cbc_peer_alive, Cbcast}
use view_sync.Receive.Thread.{Datagram}
use view_sync.Init.{fresh}

-- Every text is the address 7, and nothing is dropped.
abbrev pub inet_addr : List ℕ → ℕ
inet_addr text = 7

abbrev pub rand : ℕ → ℕ
rand k = 50

abbrev pub home : SockAddr
home = record { sin_port = 6000; s_addr = 7 }

abbrev pub peer_one : Peer
peer_one = record { pid = 1; pos = 0; addr = home; state = cbc_peer_alive }

-- Member 0 of 2, which knows member 1.
abbrev pub member : Cbcast
member = record (fresh 0 (0 ∷ 0 ∷ [])) { peers = peer_one ∷ [] }

abbrev pub one_byte : Kind → ℕ → Message
one_byte k clock = record {
  header = record { kind = k; clock = clock; len = 1 };
  payload = some (104 ∷ 0 ∷ []);
}

abbrev pub ack_of : ℕ → Message
ack_of clock = record { header = record { kind = cbc_ack; clock = clock; len = 0 }; payload = none }

abbrev pub first_again : Message
first_again = one_byte cbc_retransmit 1

abbrev pub second : Message
second = one_byte cbc_data 2

abbrev pub datagram : List ℕ → Datagram
datagram bytes = record { source = home; bytes = bytes }

abbrev pub second_bytes : List ℕ
second_bytes = 1 ∷ 0 ∷ 0 ∷ 0 ∷ 2 ∷ 0 ∷ 1 ∷ 0 ∷ 104 ∷ 0 ∷ []

abbrev pub first_again_bytes : List ℕ
first_again_bytes = 4 ∷ 0 ∷ 0 ∷ 0 ∷ 1 ∷ 0 ∷ 1 ∷ 0 ∷ 104 ∷ 0 ∷ []

abbrev pub from_one : Message → ReceivedMessage
from_one m = record { message = m; sender_pid = 1 }

-- Sent, for members 1 and 2; 2 has acked.
abbrev pub half_acked : SentMessage
half_acked = record { message = second; ack_target = 6; ack_bitmap = 4 }

-- Sent, and acked by all.
abbrev pub all_acked : SentMessage
all_acked = record { message = one_byte cbc_data 1; ack_target = 2; ack_bitmap = 2 }
