-- ===== src/Receive/Branches.antt =====
-- What `handle_data_msg` does on each branch, and when it ends the process.
use view_sync.Prelude.{
  Bool, ◌++◌, exists_in, ◌&&◌, ◌==◌, set, [], ◌∷◌, ◌%◌, ℕ, ◌+◌, ◌-◌, ◌^◌, ◌≤◌, ◌<◌, ◌≡◌, ◌≢◌, ◌↔◌,
  refl, ap, ◌∙◌, inl, inr, true, false, Bool-cases, some, List, length, get_elem?, get_or,
  if◌then◌else◌, length-set, get_or-set_self, arith,
}
use view_sync.Prelude.Outcome.{done, exit}
use view_sync.Message.{
  cbc_data, cbc_ack, cbc_retransmit_req, Message, ReceivedMessage, is_retransmit,
  cbc_received_msg_create,
}
use view_sync.State.{Cbcast}
use view_sync.Peer.{uint16_max, cbc_peer_get_addr_copy}
use view_sync.Receive.{
  Causality, causality_error, causality_deliver, causality_hold, check_msg_causality, inc64,
  is_deliver, deliver, ack_received_message,
}
use view_sync.Receive.Data.{deliverable, handle_by, handle_data_msg}
use view_sync.Delivery.Order.{check_msg_causality-deliver}
use view_sync.Receive.Rounds.{deliverable_of_next, try_deliver_held_msgs_total, Delivered}
use view_sync.Receive.Control.{
  with_control, with_control-core, ack_received_message_lem, request_retransmission_lem,
}

-- With a sender's clock that has room to step, `check_msg_causality` answers to deliver exactly for
-- a sender within the clock and the next number, and to hold exactly for such a sender and a later
-- number.
pub check_msg_causality_lem :
    (vclock : List ℕ) (pid clock : ℕ)
    → get_or vclock pid 0 < 2 ^ 64 - 1
    → ((check_msg_causality vclock pid clock ≡ causality_deliver)
        ↔ ((pid < length vclock) × (clock ≡ get_or vclock pid 0 + 1)))
      × ((check_msg_causality vclock pid clock ≡ causality_hold)
          ↔ ((pid < length vclock) × (get_or vclock pid 0 + 1 < clock)))
unfolding check_msg_causality
check_msg_causality_lem vclock pid clock small =
    (((λ h. ground arith), (λ h. ground arith)), ((λ h. ground arith), (λ h. ground arith)))

ack-last : (cbc : Cbcast) (pid : ℕ) → ack_received_message cbc uint16_max pid ≡ exit
unfolding ack_received_message
ack-last cbc pid = refl

last_clock_by :
    (k : Causality) (cbc : Cbcast) (msg : Message) (rcvd : ReceivedMessage) (pid : ℕ)
    → ack_received_message cbc msg.header.clock pid ≡ exit
    → handle_by k cbc msg rcvd pid ≡ exit
last_clock_by causality_error cbc msg rcvd pid a =
    elim (Bool-cases (is_retransmit msg.header.kind)) [ inl r ↦ rw r a | inr r ↦ rw r ]
last_clock_by causality_deliver cbc msg rcvd pid a = rw a
last_clock_by causality_hold cbc msg rcvd pid a = rw a

-- A data message or a retransmission, which are what `handle_data_msg` is called with, ends the
-- process that handles it when its clock is 65535, whatever the state and the sender.
pub last_clock_exits :
    (cbc : Cbcast) (msg : Message) (pid : ℕ)
    → msg.header.clock ≡ uint16_max
    → handle_data_msg cbc msg pid ≡ exit
unfolding handle_data_msg cbc_received_msg_create
last_clock_exits cbc msg pid e =
    last_clock_by (check_msg_causality cbc.vclock pid msg.header.clock) cbc msg
      (record { message = msg; sender_pid = pid }) pid
      (ap (λ c. ack_received_message cbc c pid) e ∙ ack-last cbc pid)

pub stale-error :
    (vclock : List ℕ) (pid clock : ℕ)
    → get_or vclock pid 0 < 2 ^ 64 - 1
    → clock ≤ get_or vclock pid 0
    → check_msg_causality vclock pid clock ≡ causality_error
unfolding check_msg_causality
stale-error vclock pid clock small old = ground arith

-- A data message whose clock is not above its sender's, with room for that to step, ends the
-- process of whoever receives it.
pub stale_data_exits :
    (cbc : Cbcast) (msg : Message) (pid : ℕ)
    → msg.header.kind ≡ cbc_data
    → get_or cbc.vclock pid 0 < 2 ^ 64 - 1
    → msg.header.clock ≤ get_or cbc.vclock pid 0
    → handle_data_msg cbc msg pid ≡ exit
unfolding handle_data_msg cbc_received_msg_create
stale_data_exits cbc msg pid e small old =
    rw (stale-error cbc.vclock pid msg.header.clock small old, ap is_retransmit e)

-- A message at the end of the delivery queue, with its sender's clock stepped.
abbrev pub with_delivery : Cbcast → ReceivedMessage → ℕ → Cbcast
with_delivery cbc rcvd pid = record cbc {
  delivery_queue = cbc.delivery_queue ++ (rcvd ∷ []);
  vclock = set cbc.vclock pid ((get_or cbc.vclock pid 0 + 1) % 2 ^ 64);
}

-- The state with the ack of a message queued for its sender, if the sender is still a peer.
abbrev pub with_ack_for : Cbcast → Message → ℕ → Cbcast
with_ack_for cbc msg pid =
    with_control cbc cbc_ack msg.header.clock (cbc_peer_get_addr_copy cbc pid)

abbrev pub received : Message → ℕ → ReceivedMessage
received msg pid = record { message = msg; sender_pid = pid }

-- A message of a clock and a sender is among some.
abbrev pub is_held : List ReceivedMessage → ℕ → ℕ → Bool
is_held held clock pid =
    exists_in (λ h. (h.message.header.clock == clock) && (h.sender_pid == pid)) held

-- The same with the message held, unless a copy is.
abbrev pub kept : Cbcast → Message → ℕ → Cbcast
kept cbc msg pid =
    let acked = with_ack_for cbc msg pid in
    if is_held acked.held_msg_buffer msg.header.clock pid
    then acked
    else record acked { held_msg_buffer = acked.held_msg_buffer ++ (received msg pid ∷ []) }

pub kept-vclock : (cbc : Cbcast) (msg : Message) (pid : ℕ) → (kept cbc msg pid).vclock ≡ cbc.vclock
kept-vclock cbc msg pid =
    let acked = with_ack_for cbc msg pid in
    let same =
      (with_control-core cbc cbc_ack msg.header.clock (cbc_peer_get_addr_copy cbc pid)).0 in
    elim (Bool-cases (is_held acked.held_msg_buffer msg.header.clock pid)) [
      | inl e ↦ rw e same
      | inr e ↦ rw e same
    ]

module _ (cbc : Cbcast) (msg : Message) (pid : ℕ) (ackable : msg.header.clock ≢ uint16_max) where
  -- A retransmission of a message that is not new is acked again, and that is all.
  pub handle_data_msg-again :
      check_msg_causality cbc.vclock pid msg.header.clock ≡ causality_error
      → is_retransmit msg.header.kind ≡ true
      → handle_data_msg cbc msg pid ≡ done (with_ack_for cbc msg pid)
  unfolding handle_data_msg cbc_received_msg_create
  handle_data_msg-again e r = rw (e, r) (ack_received_message_lem cbc msg.header.clock pid ackable)

  -- The next data message of a sender is acked and delivered, and its sender's clock steps. The
  -- held messages are not looked at.
  pub handle_data_msg-deliver :
      check_msg_causality cbc.vclock pid msg.header.clock ≡ causality_deliver
      → is_retransmit msg.header.kind ≡ false
      → handle_data_msg cbc msg pid
        ≡ done (deliver (with_ack_for cbc msg pid) (received msg pid) pid)
  unfolding handle_data_msg cbc_received_msg_create
  handle_data_msg-deliver e r = rw (e, ack_received_message_lem cbc msg.header.clock pid ackable, r)

  -- A retransmission that is next is acked and delivered, and then the held messages of its sender
  -- that follow are, until none is left that can be: the call always returns.
  pub handle_data_msg-fill :
      check_msg_causality cbc.vclock pid msg.header.clock ≡ causality_deliver
      → is_retransmit msg.header.kind ≡ true
      → (cbc' : Cbcast) × (handle_data_msg cbc msg pid ≡ done cbc')
        × Delivered pid (deliver (with_ack_for cbc msg pid) (received msg pid) pid) cbc'
  unfolding handle_data_msg cbc_received_msg_create
  handle_data_msg-fill e r =
      let after =
        try_deliver_held_msgs_total (deliver (with_ack_for cbc msg pid) (received msg pid) pid)
          pid in
      (
        after.0,
        rw (e, ack_received_message_lem cbc msg.header.clock pid ackable, r) after.1,
        after.2,
      )

  -- A message ahead of its time is acked, held unless a copy is, and the next one is asked for.
  pub handle_data_msg-hold :
      check_msg_causality cbc.vclock pid msg.header.clock ≡ causality_hold
      → pid ≢ uint16_max
      → pid < length (kept cbc msg pid).vclock
      → handle_data_msg cbc msg pid
        ≡ done (
            with_control
              (kept cbc msg pid)
              cbc_retransmit_req
              (inc64 (get_or (kept cbc msg pid).vclock pid 0))
              (cbc_peer_get_addr_copy (kept cbc msg pid) pid))
  unfolding handle_data_msg cbc_received_msg_create
  handle_data_msg-hold e known inside =
      rw (e, ack_received_message_lem cbc msg.header.clock pid ackable)
        (request_retransmission_lem (kept cbc msg pid) pid known inside)

-- When a data message is delivered, and not with the last clock, a held message of the same sender
-- with the clock after it stays behind: afterwards it is next, and still in its place in the held
-- buffer.
pub data_delivery_strands :
    (cbc : Cbcast) (msg : Message) (pid i : ℕ) (h : ReceivedMessage)
    → msg.header.kind ≡ cbc_data
    → msg.header.clock < uint16_max
    → check_msg_causality cbc.vclock pid msg.header.clock ≡ causality_deliver
    → get_elem? cbc.held_msg_buffer i ≡ some h
    → h.sender_pid ≡ pid
    → h.message.header.clock ≡ msg.header.clock + 1
    → (cbc' : Cbcast) × (handle_data_msg cbc msg pid ≡ done cbc')
      × (get_elem? cbc'.held_msg_buffer i ≡ some h)
      × (deliverable cbc'.vclock pid h ≡ true)
data_delivery_strands cbc msg pid i h k small next at from follows = (
  deliver acked (received msg pid) pid,
  handle_data_msg-deliver cbc msg pid (omega arith) next (ap is_retransmit k),
  rw (same.1) at,
  deliverable_of_next _ pid h from (rw (length-set acked.vclock pid _) inside)
      (ap inc64 (get_or-set_self acked.vclock pid _ 0 inside ∙ now) ∙ omega arith),
)
  where
    acked : Cbcast
    acked = with_ack_for cbc msg pid

    same :
        (acked.vclock ≡ cbc.vclock)
        × (acked.held_msg_buffer ≡ cbc.held_msg_buffer)
        × (acked.delivery_queue ≡ cbc.delivery_queue)
    same = with_control-core cbc cbc_ack msg.header.clock (cbc_peer_get_addr_copy cbc pid)

    may : (pid < length acked.vclock) × (inc64 (get_or acked.vclock pid 0) ≡ msg.header.clock)
    may = check_msg_causality-deliver acked.vclock pid msg.header.clock (
        ap (λ v. is_deliver (check_msg_causality v pid msg.header.clock)) (same.0)
        ∙ ap is_deliver next)

    inside : pid < length acked.vclock
    inside = may.0

    now : inc64 (get_or acked.vclock pid 0) ≡ msg.header.clock
    now = may.1
