-- ===== src/Member/Control.antt =====
-- Acks and requests for retransmission in a well-formed member: src/cbcast/receive.c.
use view_sync.Prelude.{
  ℕ, ◌^◌, ◌<◌, ◌≡◌, refl, sym, ap, subst, ◌∙◌, inl, inr, not, Bool-cases, Option, none, some, List,
  [], ◌∷◌, length, get_or, set, arrdel, ◌==◌, All, All-append, All-elem, Found, find_index-Found,
  ==_iff, arith,
}
use view_sync.Prelude.Outcome.{done, exit, result_unwrap, ◌>>=◌}
use view_sync.Prelude.Keep.{All-set, All-arrdel}
use view_sync.Prelude.Safe.{Safe, fine, left, Safe-bind, Returns-Safe}
use view_sync.Message.{
  Kind, cbc_ack, cbc_retransmit_req, cbc_retransmit, Message, SockAddr, OutgoingMessage,
  SentMessage, is_ack, set_clock, cbc_outgoing_msg_create,
}
use native.Mathlib.Decide.{ℕ_discrete}
use view_sync.Message.Laws.{IsMessage}
use view_sync.State.{Cbcast}
use view_sync.Peer.{uint16_max, cbc_peer_get_addr_copy}
use view_sync.Receive.{enqueue, inc64, ack_received_message, request_retransmission}
use view_sync.Receive.Acks.{
  with_ack, fully_acked, has_clock, ack_at, register_ack, retransmit_at, queue_retransmission,
}
use view_sync.Receive.Control.{
  control_msg, with_control, ack_received_message_lem, request_retransmission_lem,
}
use view_sync.Send.Loops.{IsShiftable, shl_one_lem}
use view_sync.Send.Resend.{IsResendable, IsAgain, IsAgainOf-IsAgain, cbc_msg_create-again}
use view_sync.Member.{Promises, CarriesAs, Carries, IsSendable, IsHealthy}

ack-IsMessage : (clock : ℕ) → IsMessage (control_msg cbc_ack clock)
ack-IsMessage clock = record {
  clock_fits = omega arith;
  len_fits = omega arith;
  shape = (refl, refl);
}

req-IsMessage : (clock : ℕ) → IsMessage (control_msg cbc_retransmit_req clock)
req-IsMessage clock = record {
  clock_fits = omega arith;
  len_fits = omega arith;
  shape = (refl, refl);
}

ack_last :
    (cbc : Cbcast) (clock pid : ℕ) → clock ≡ uint16_max → ack_received_message cbc clock pid ≡ exit
unfolding ack_received_message
ack_last cbc clock pid e = ap (λ c. ack_received_message cbc c pid) e ∙ refl

pub IsAgain-IsSendable :
    (P : ℕ → Option (List ℕ) → Type 0) (out : OutgoingMessage) → IsAgain P out → IsSendable P out
IsAgain-IsSendable P out (k, m, says) =
    (m, subst (λ j. CarriesAs P j out.message.header.clock out.message.payload) (sym k) says)

module _ (w : Promises) where
  pub enqueue-IsHealthy :
      (cbc : Cbcast) (out : OutgoingMessage)
      → IsSendable w.Says out
      → IsHealthy w cbc
      → IsHealthy w (enqueue cbc out)
  enqueue-IsHealthy cbc out s h = record {
    own = h.own;
    inside = h.inside;
    clock = h.clock;
    sound = record { known = h.sound.known; resendable = h.sound.resendable };
    outgoing = All-append (IsSendable w.Says) cbc.send_queue (out ∷ []) h.outgoing (s, tt);
    held = h.held;
    queue = h.queue;
  }

  with_control-IsHealthy :
      (cbc : Cbcast) (k : Kind) (clock : ℕ) (o : Option SockAddr)
      → IsMessage (control_msg k clock) × Carries w.Says (control_msg k clock)
      → IsHealthy w cbc
      → IsHealthy w (with_control cbc k clock o)
  with_control-IsHealthy cbc k clock none c h = h
  with_control-IsHealthy cbc k clock (some addr) c h = enqueue-IsHealthy cbc _ c h

  with_control-vclock :
      (cbc : Cbcast) (k : Kind) (clock : ℕ) (o : Option SockAddr)
      → (with_control cbc k clock o).vclock ≡ cbc.vclock
  with_control-vclock cbc k clock none = refl
  with_control-vclock cbc k clock (some addr) = refl

  -- The vector clock stays as it is.
  abbrev pub IsAfter : Cbcast → Cbcast → Type 0
  IsAfter cbc c = IsHealthy w c × (c.vclock ≡ cbc.vclock)

  pub ack_received_message-Safe :
      (cbc : Cbcast) (clock pid : ℕ)
      → IsHealthy w cbc
      → Safe (IsAfter cbc) (ack_received_message cbc clock pid)
  ack_received_message-Safe cbc clock pid h = elim (ℕ_discrete clock uint16_max) [
    | yes last ↦ rw (ack_last cbc clock pid last) left
    | no other ↦ rw (ack_received_message_lem cbc clock pid other) (
        fine (
          with_control-IsHealthy cbc cbc_ack clock (cbc_peer_get_addr_copy cbc pid)
              (ack-IsMessage clock, tt) h,
          with_control-vclock cbc cbc_ack clock (cbc_peer_get_addr_copy cbc pid),
        ))
  ]

  pub request_retransmission-Safe :
      (cbc : Cbcast) (pid : ℕ)
      → IsShiftable pid
      → pid < length cbc.vclock
      → IsHealthy w cbc
      → Safe (IsHealthy w) (request_retransmission cbc pid)
  request_retransmission-Safe cbc pid small inside h =
      rw (request_retransmission_lem cbc pid (omega arith) inside) (
        fine (
          with_control-IsHealthy cbc cbc_retransmit_req (inc64 (get_or cbc.vclock pid 0))
            (cbc_peer_get_addr_copy cbc pid) (req-IsMessage _, tt) h))

  with_sent-IsHealthy :
      (cbc : Cbcast) (buffer : List SentMessage)
      → All (IsResendable w.Says) buffer
      → IsHealthy w cbc
      → IsHealthy w (record cbc { sent_msg_buffer = buffer })
  with_sent-IsHealthy cbc buffer r h = record {
    own = h.own;
    inside = h.inside;
    clock = h.clock;
    sound = record { known = h.sound.known; resendable = r };
    outgoing = h.outgoing;
    held = h.held;
    queue = h.queue;
  }

  ack_at-Safe :
      (cbc : Cbcast) (clock pid : ℕ) (o : Option ℕ)
      → IsShiftable pid
      → Found (has_clock clock) cbc.sent_msg_buffer o
      → IsHealthy w cbc
      → Safe (IsHealthy w) (ack_at cbc pid o)
  unfolding ack_at
  ack_at-Safe cbc clock pid none small found h = fine h
  ack_at-Safe cbc clock pid (some i) small (s, at, pass) h =
      let all = h.sound.resendable in
      let one = All-elem (IsResendable w.Says) cbc.sent_msg_buffer i s all at in
      rw (at, shl_one_lem pid small)
        (elim (Bool-cases (fully_acked (with_ack (2 ^ pid) s))) [
          | inl full ↦ rw full (
              fine (
                with_sent-IsHealthy cbc (arrdel cbc.sent_msg_buffer i)
                  (All-arrdel (IsResendable w.Says) cbc.sent_msg_buffer i all) h))
          | inr part ↦ rw part (
              fine (
                with_sent-IsHealthy cbc (set cbc.sent_msg_buffer i (with_ack (2 ^ pid) s))
                  (All-set (IsResendable w.Says) cbc.sent_msg_buffer i (with_ack (2 ^ pid) s) one
                    all)
                  h))
        ])

  pub register_ack-Safe :
      (cbc : Cbcast) (ack : Message) (pid : ℕ)
      → IsShiftable pid
      → IsHealthy w cbc
      → Safe (IsHealthy w) (register_ack cbc ack pid)
  unfolding register_ack
  register_ack-Safe cbc ack pid small h = elim (Bool-cases (not (is_ack ack.header.kind))) [
    | inl other ↦ rw other left
    | inr ok ↦ rw ok (
        ack_at-Safe cbc ack.header.clock pid _ small
          (find_index-Found (has_clock ack.header.clock) cbc.sent_msg_buffer) h)
  ]

  retransmit_at-Safe :
      (cbc : Cbcast) (req : Message) (pid : ℕ) (o : Option ℕ)
      → Found (has_clock req.header.clock) cbc.sent_msg_buffer o
      → IsHealthy w cbc
      → Safe (IsHealthy w) (retransmit_at cbc req pid o)
  unfolding retransmit_at cbc_outgoing_msg_create
  retransmit_at-Safe cbc req pid none found h = fine h
  retransmit_at-Safe cbc req pid (some i) (s, at, pass) h =
      let one = All-elem (IsResendable w.Says) cbc.sent_msg_buffer i s h.sound.resendable at in
      rw at (
        Safe-bind
          (Returns-Safe (cbc_msg_create-again s.message.payload s.message.header.len one.0 one.1))
          λ res (m, e, k, p, l).
            rw e
              (answered s m one (sym ((==_iff _ _).0 pass)) k p l (cbc_peer_get_addr_copy cbc pid)))
    where
      answered :
          (s : SentMessage) (m : Message)
          → IsResendable w.Says s
          → req.header.clock ≡ s.message.header.clock
          → m.header.kind ≡ cbc_retransmit
          → m.payload ≡ s.message.payload
          → m.header.len ≡ s.message.header.len
          → (a : Option SockAddr)
          → Safe (IsHealthy w) (
              result_unwrap (cbc_outgoing_msg_create (set_clock m req.header.clock) a) >>= λ out.
              done (enqueue cbc out))
      answered s m one same k p l none = rw k left
      answered s m one same k p l (some addr) =
          let out : OutgoingMessage = record {
            message = set_clock m req.header.clock;
            addr = some addr;
            socket_flags = 0;
          } in
          fine (
            enqueue-IsHealthy cbc out
              (IsAgain-IsSendable w.Says out
                (IsAgainOf-IsAgain w.Says s m req.header.clock one same k p l (some addr)))
              h)

  pub queue_retransmission-Safe :
      (cbc : Cbcast) (req : Message) (pid : ℕ)
      → IsHealthy w cbc
      → Safe (IsHealthy w) (queue_retransmission cbc req pid)
  unfolding queue_retransmission
  queue_retransmission-Safe cbc req pid h = elim (Bool-cases (pid == uint16_max)) [
    | inl none_known ↦ rw none_known left
    | inr ok ↦ rw ok (
        retransmit_at-Safe cbc req pid _
          (find_index-Found (has_clock req.header.clock) cbc.sent_msg_buffer) h)
  ]
