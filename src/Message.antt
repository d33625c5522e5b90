-- ===== src/Message.antt =====
-- Messages and their envelopes: include/cbcast.h and src/cbcast/message.c.
-- A byte is a number; a `char *` buffer is the list of its accessible bytes, or `none` for NULL.
pub mod Wire
pub mod Laws
pub mod Headers
pub mod RoundTrip
use view_sync.Prelude.{
  ℕ, ◌+◌, ◌%◌, ◌^◌, ◌<◌, ◌≡◌, Bool, true, false, not, ◌&&◌, Option, none, some, List, [], ◌∷◌, ◌++◌,
  length, take, ltb, ◌==◌, if◌then◌else◌,
}
use view_sync.Prelude.Outcome.{
  Outcome, done, exit, fault, Result, result_ok, result_err, invalid_payload, null_address,
}

-- `enum CBcastMessageType`. The field holds what came off the wire, which may be none of the four.
pub data Kind : Type 0 where
  cbc_data cbc_ack cbc_retransmit_req cbc_retransmit : Kind
  unknown : ℕ → Kind

pub record Header : Type 0 where
  pub kind : Kind
  pub clock : ℕ
  pub len : ℕ

pub record Message : Type 0 where
  pub header : Header
  pub payload : Option (List ℕ)

-- The fields of `struct sockaddr_in` that the program sets: the port, before `htons` turns its
-- bytes, and the address.
pub record SockAddr : Type 0 where
  pub sin_port : ℕ
  pub s_addr : ℕ

pub record ReceivedMessage : Type 0 where
  pub message : Message
  pub sender_pid : ℕ

pub record OutgoingMessage : Type 0 where
  pub message : Message
  pub addr : Option SockAddr
  pub socket_flags : ℕ

pub record SentMessage : Type 0 where
  pub message : Message
  pub ack_target : ℕ
  pub ack_bitmap : ℕ

abbrev pub is_data : Kind → Bool
is_data cbc_data = true
is_data _ = false

abbrev pub is_ack : Kind → Bool
is_ack cbc_ack = true
is_ack _ = false

abbrev pub is_retransmit : Kind → Bool
is_retransmit cbc_retransmit = true
is_retransmit _ = false

-- `msg->header->clock = clock`, a store into a `uint16_t`.
abbrev pub set_clock : Message → ℕ → Message
set_clock m c = record m { header = record (m.header) { clock = c % 2 ^ 16 } }

unfoldable pub create_msg_with_header : Kind → Result Message
create_msg_with_header k =
    result_ok (record { header = record { kind = k; clock = 0; len = 0 }; payload = none })

-- The copy ends in a null byte. `memcpy` reads `payload_len` bytes.
unfoldable pub create_msg_with_payload : Kind → Option (List ℕ) → ℕ → Outcome (Result Message)
create_msg_with_payload k none n = done (result_err invalid_payload)
create_msg_with_payload k (some payload) n =
    if n == 0
    then done (result_err invalid_payload)
    else if ltb (length payload) n
    then fault
    else done (
        result_ok (record {
          header = record { kind = k; clock = 0; len = n };
          payload = some (take n payload ++ 0 ∷ []);
        }))

-- The parameter `payload_len` is a `uint16_t`: a longer length is cut to 16 bits by the call.
unfoldable pub cbc_msg_create : Kind → Option (List ℕ) → ℕ → Outcome (Result Message)
unfolding create_msg_with_header create_msg_with_payload
cbc_msg_create cbc_ack payload n = done (create_msg_with_header cbc_ack)
cbc_msg_create cbc_retransmit_req payload n = done (create_msg_with_header cbc_retransmit_req)
cbc_msg_create cbc_data payload n = create_msg_with_payload cbc_data payload (n % 2 ^ 16)
cbc_msg_create cbc_retransmit payload n =
    create_msg_with_payload cbc_retransmit payload (n % 2 ^ 16)
cbc_msg_create (unknown c) payload n = exit

unfoldable pub cbc_outgoing_msg_create : Message → Option SockAddr → Result OutgoingMessage
cbc_outgoing_msg_create m (some a) =
    result_ok (record { message = m; addr = some a; socket_flags = 0 })
cbc_outgoing_msg_create m none =
    if not (is_data m.header.kind)
    then result_err null_address
    else result_ok (record { message = m; addr = none; socket_flags = 0 })

-- The parameter `ack_target` is a `uint16_t`, the field a `uint64_t`.
unfoldable pub cbc_sent_msg_create : Message → ℕ → Result SentMessage
cbc_sent_msg_create m target =
    result_ok (record { message = m; ack_target = target % 2 ^ 16; ack_bitmap = 0 })

unfoldable pub cbc_received_msg_create : Message → ℕ → Result ReceivedMessage
cbc_received_msg_create m pid = result_ok (record { message = m; sender_pid = pid })
