-- ===== src/Memory/Objects.antt =====
-- The blocks of the structures of include/cbcast.h, and the functions of src/cbcast/message.c and
-- src/vector_clock.c that allocate and free them. A pointer is the addresses of its blocks with
-- what they hold, which the functions of Message compute.
use view_sync.Prelude.{ℕ, ◌+◌, Option, none, some, List}
use view_sync.Prelude.Outcome.{Outcome, done, Result, result_ok, result_err, ◌>>=◌}
use view_sync.Message.{
  Kind, Message, SockAddr, OutgoingMessage, SentMessage, ReceivedMessage, cbc_msg_create,
  cbc_outgoing_msg_create, cbc_sent_msg_create, cbc_received_msg_create,
}
use view_sync.Message.Wire.{cbc_msg_deserialize}
use view_sync.Memory.Heap.{Heap, calloc, free, free_if, reads, one, one_if}

-- `cbcast_msg_t *`.
pub record MessagePtr : Type 0 where
  pub at : ℕ
  pub header : ℕ
  pub payload : Option ℕ
  pub message : Message

-- `struct sockaddr_in *`.
pub record AddrPtr : Type 0 where
  pub at : ℕ
  pub addr : SockAddr

-- `cbcast_outgoing_msg_t *`. `socket_flags` is always 0.
pub record OutgoingPtr : Type 0 where
  pub at : ℕ
  pub message : MessagePtr
  pub addr : Option AddrPtr

-- `cbcast_sent_msg_t *`.
pub record SentPtr : Type 0 where
  pub at : ℕ
  pub message : MessagePtr
  pub ack_target : ℕ
  pub ack_bitmap : ℕ

-- `cbcast_received_msg_t *`.
pub record ReceivedPtr : Type 0 where
  pub at : ℕ
  pub message : MessagePtr
  pub sender_pid : ℕ

-- What the pointers point to.
abbrev pub addr_value : Option AddrPtr → Option SockAddr
addr_value none = none
addr_value (some p) = some p.addr

abbrev pub outgoing_value : OutgoingPtr → OutgoingMessage
outgoing_value p = record {
  message = p.message.message;
  addr = addr_value p.addr;
  socket_flags = 0;
}

abbrev pub sent_value : SentPtr → SentMessage
sent_value p = record {
  message = p.message.message;
  ack_target = p.ack_target;
  ack_bitmap = p.ack_bitmap;
}

abbrev pub received_value : ReceivedPtr → ReceivedMessage
received_value p = record { message = p.message.message; sender_pid = p.sender_pid }

-- How often an address is among the blocks of an object.
unfoldable pub message_weight : MessagePtr → ℕ → ℕ
message_weight p a = one p.at a + (one p.header a + one_if p.payload a)

unfoldable pub addr_weight : Option AddrPtr → ℕ → ℕ
addr_weight none a = 0
addr_weight (some p) a = one p.at a

unfoldable pub outgoing_weight : OutgoingPtr → ℕ → ℕ
outgoing_weight p a = one p.at a + (message_weight p.message a + addr_weight p.addr a)

unfoldable pub sent_weight : SentPtr → ℕ → ℕ
sent_weight p a = one p.at a + message_weight p.message a

unfoldable pub received_weight : ReceivedPtr → ℕ → ℕ
received_weight p a = one p.at a + message_weight p.message a

-- A payload is a block if there is one.
abbrev pub new_payload : Heap → Option (List ℕ) → Option ℕ × Heap
new_payload h none = (none, h)
new_payload h (some bytes) = let (a, h') = calloc h in (some a, h')

abbrev pub put_message : Heap → Result Message → Result MessagePtr × Heap
put_message h (result_err e) = (result_err e, h)
put_message h (result_ok m) =
    let (header, h₁) = calloc h in
    let (at, h₂) = calloc h₁ in
    let (payload, h₃) = new_payload h₂ m.payload in
    (result_ok (record { at = at; header = header; payload = payload; message = m }), h₃)

-- The payload is looked at before anything is allocated.
unfoldable pub cbc_msg_create_in :
    Heap → Kind → Option (List ℕ) → ℕ → Outcome (Result MessagePtr × Heap)
cbc_msg_create_in h kind payload n = do
  made ← cbc_msg_create kind payload n
  done (put_message h made)

-- With the message's and the header's block allocated: an error frees both.
abbrev pub finish_message : Heap → ℕ → ℕ → Result Message → Outcome (Result MessagePtr × Heap)
finish_message h at header (result_err e) = do
  h₁ ← free h header
  h₂ ← free h₁ at
  done (result_err e, h₂)
finish_message h at header (result_ok m) =
    let (payload, h') = new_payload h m.payload in
    done (result_ok (record { at = at; header = header; payload = payload; message = m }), h')

-- The bytes are read from the block `buffer`.
unfoldable pub cbc_msg_deserialize_in : Heap → ℕ → List ℕ → Outcome (Result MessagePtr × Heap)
cbc_msg_deserialize_in h buffer bytes = do
  let (at, h₁) = calloc h
  let (header, h₂) = calloc h₁
  h₃ ← reads h₂ buffer
  result ← cbc_msg_deserialize (some bytes)
  finish_message h₃ at header result

unfoldable pub cbc_msg_free : Heap → MessagePtr → Outcome Heap
cbc_msg_free h p = do
  h₁ ← reads h p.at
  h₂ ← free h₁ p.header
  h₃ ← free_if h₂ p.payload
  free h₃ p.at

abbrev pub message_free_if : Heap → Option MessagePtr → Outcome Heap
message_free_if h none = done h
message_free_if h (some p) = cbc_msg_free h p

abbrev pub addr_free_if : Heap → Option AddrPtr → Outcome Heap
addr_free_if h none = done h
addr_free_if h (some p) = free h p.at

abbrev pub put_outgoing :
    Heap → MessagePtr → Option AddrPtr → Result OutgoingMessage → Result OutgoingPtr × Heap
put_outgoing h m addr (result_err e) = (result_err e, h)
put_outgoing h m addr (result_ok out) =
    let (at, h') = calloc h in (result_ok (record { at = at; message = m; addr = addr }), h')

-- The object takes over the message and the address.
unfoldable pub cbc_outgoing_msg_create_in :
    Heap → MessagePtr → Option AddrPtr → Result OutgoingPtr × Heap
cbc_outgoing_msg_create_in h m addr =
    put_outgoing h m addr (cbc_outgoing_msg_create m.message (addr_value addr))

-- `message` and `addr` are the fields at the time of the call.
unfoldable pub cbc_outgoing_msg_free : Heap → ℕ → Option MessagePtr → Option AddrPtr → Outcome Heap
unfolding cbc_msg_free
cbc_outgoing_msg_free h at message addr = do
  h₁ ← reads h at
  h₂ ← message_free_if h₁ message
  h₃ ← addr_free_if h₂ addr
  free h₃ at

abbrev pub put_sent : Heap → MessagePtr → Result SentMessage → Result SentPtr × Heap
put_sent h m (result_err e) = (result_err e, h)
put_sent h m (result_ok sent) =
    let (at, h') = calloc h in
    (
      result_ok (record {
        at = at;
        message = m;
        ack_target = sent.ack_target;
        ack_bitmap = sent.ack_bitmap;
      }),
      h',
    )

unfoldable pub cbc_sent_msg_create_in : Heap → MessagePtr → ℕ → Result SentPtr × Heap
cbc_sent_msg_create_in h m target = put_sent h m (cbc_sent_msg_create m.message target)

unfoldable pub cbc_sent_msg_free : Heap → SentPtr → Outcome Heap
unfolding cbc_msg_free
cbc_sent_msg_free h p = do h₁ ← reads h p.at; h₂ ← cbc_msg_free h₁ p.message; free h₂ p.at

abbrev pub put_received : Heap → MessagePtr → Result ReceivedMessage → Result ReceivedPtr × Heap
put_received h m (result_err e) = (result_err e, h)
put_received h m (result_ok rcvd) =
    let (at, h') = calloc h in
    (result_ok (record { at = at; message = m; sender_pid = rcvd.sender_pid }), h')

unfoldable pub cbc_received_msg_create_in : Heap → MessagePtr → ℕ → Result ReceivedPtr × Heap
cbc_received_msg_create_in h m pid = put_received h m (cbc_received_msg_create m.message pid)

unfoldable pub cbc_received_msg_free : Heap → ReceivedPtr → Outcome Heap
unfolding cbc_msg_free
cbc_received_msg_free h p = do h₁ ← reads h p.at; h₂ ← cbc_msg_free h₁ p.message; free h₂ p.at

-- The clock's block and that of its entries.
unfoldable pub vc_free : Heap → ℕ → ℕ → Outcome Heap
vc_free h at clock = do h₁ ← reads h at; h₂ ← free h₁ clock; free h₂ at
