-- ===== src/Member.antt =====
-- A well-formed member: what holds of the state (`struct CBcast`, include/cbcast.h) between the
-- calls and the rounds of the threads.
pub mod Peers
pub mod Control
pub mod Deliver
pub mod Incoming
pub mod Outgoing
pub mod Sending
pub mod Node
pub mod Start
pub mod Run
use view_sync.Prelude.{ℕ, ◌+◌, ◌<◌, ◌≡◌, Option, some, List, length, get_or, take, All}
use view_sync.Prelude.Outcome.{done, result_ok}
use view_sync.Message.{
  Kind, cbc_data, cbc_ack, cbc_retransmit_req, cbc_retransmit, unknown, Message, SockAddr,
  OutgoingMessage, ReceivedMessage,
}
use view_sync.Message.Wire.{header_size, read_header, cbc_msg_deserialize}
use view_sync.Message.Laws.{IsMessage}
use view_sync.State.{Cbcast}
use view_sync.Send.Total.{IsSoundFor}

-- What is known of one member of a group: its id, of the clock and the payload of its own messages,
-- of the ids and addresses of its peers, of the sender, clock and payload of what it receives, and
-- of its own clock.
pub record Promises : Type 1 where
  pub self : ℕ
  pub Says : ℕ → Option (List ℕ) → Type 0
  pub Knows : ℕ → SockAddr → Type 0
  pub Comes : ℕ → ℕ → Option (List ℕ) → Type 0
  pub Own : ℕ → Type 0

-- The messages that carry a payload.
abbrev pub CarriesAs : (ℕ → Option (List ℕ) → Type 0) → Kind → ℕ → Option (List ℕ) → Type 0
CarriesAs P cbc_data clock payload = P clock payload
CarriesAs P cbc_retransmit clock payload = P clock payload
CarriesAs P cbc_ack clock payload = Unit
CarriesAs P cbc_retransmit_req clock payload = Unit
CarriesAs P (unknown c) clock payload = Unit

abbrev pub Carries : (ℕ → Option (List ℕ) → Type 0) → Message → Type 0
Carries P m = CarriesAs P m.header.kind m.header.clock m.payload

abbrev pub IsSendable : (ℕ → Option (List ℕ) → Type 0) → OutgoingMessage → Type 0
IsSendable P out = IsMessage out.message × Carries P out.message

-- A datagram whose header and payload, as the receive thread cuts them, are such a message.
abbrev pub Speaks : (ℕ → Option (List ℕ) → Type 0) → List ℕ → Type 0
Speaks P bytes =
    (m : Message)
    → cbc_msg_deserialize (some (take (header_size + (read_header bytes).len) bytes))
      ≡ done (result_ok m)
    → Carries P m

module _ (w : Promises) where
  abbrev pub Came : ReceivedMessage → Type 0
  Came m = w.Comes m.sender_pid m.message.header.clock m.message.payload

  pub record IsHealthy (cbc : Cbcast) : Type 0 where
    pub own : cbc.pid ≡ w.self
    pub inside : w.self < length cbc.vclock
    pub clock : w.Own (get_or cbc.vclock w.self 0)
    pub sound : IsSoundFor w.Says w.Knows cbc
    pub outgoing : All (IsSendable w.Says) cbc.send_queue
    pub held : All Came cbc.held_msg_buffer
    pub queue : All Came cbc.delivery_queue
