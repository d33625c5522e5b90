-- ===== src/Member/Deliver.antt =====
-- Data messages in a well-formed member: `handle_data_msg` of src/cbcast/receive.c.
use view_sync.Prelude.{
  ℕ, suc, ◌<◌, ◌≡◌, ◌≢◌, refl, sym, subst, inl, inr, Bool-cases, some, List, [], ◌∷◌, ◌++◌, length,
  get_or, get_elem?, All, All-append, All-elem, All-arrdelswap, length-set, get_or-set_ne, arith,
}
use view_sync.Prelude.Outcome.{Ensures, Ensures-elim}
use view_sync.Prelude.Safe.{Safe, fine, left, Safe-bind, Safe-map}
use view_sync.Message.{Message, ReceivedMessage, is_retransmit, cbc_received_msg_create}
use view_sync.State.{Cbcast}
use view_sync.Receive.{
  Causality, causality_error, causality_deliver, causality_hold, check_msg_causality, deliver,
  inc64,
}
use view_sync.Receive.Data.{already_held, hold, handle_by, handle_data_msg, try_deliver_held_msgs}
use view_sync.Receive.Rounds.{after_held, deliver_rounds_inv, try_deliver_held_msgs_total}
use view_sync.Send.Loops.{IsShiftable}
use view_sync.Member.{Promises, Came, IsHealthy}
use view_sync.Member.Control.{ack_received_message-Safe, request_retransmission-Safe}

-- A message that is held has a clock in reach.
hold_inside :
    (vclock : List ℕ) (pid clock : ℕ)
    → check_msg_causality vclock pid clock ≡ causality_hold
    → pid < length vclock
unfolding check_msg_causality
hold_inside vclock pid clock e = ground arith

module _ (w : Promises) where
  deliver-IsHealthy :
      (cbc : Cbcast) (m : ReceivedMessage) (pid : ℕ)
      → pid ≢ w.self
      → Came w m
      → IsHealthy w cbc
      → IsHealthy w (deliver cbc m pid)
  deliver-IsHealthy cbc m pid apart came h = record {
    own = h.own;
    inside = omega (arith, h.inside, length-set cbc.vclock pid (inc64 (get_or cbc.vclock pid 0)));
    clock = subst w.Own (sym (get_or-set_ne cbc.vclock pid w.self _ 0 apart)) h.clock;
    sound = record { known = h.sound.known; resendable = h.sound.resendable };
    outgoing = h.outgoing;
    held = h.held;
    queue = All-append (Came w) cbc.delivery_queue (m ∷ []) h.queue (came, tt);
  }

  with_held-IsHealthy :
      (cbc : Cbcast) (held : List ReceivedMessage)
      → All (Came w) held
      → IsHealthy w cbc
      → IsHealthy w (record cbc { held_msg_buffer = held })
  with_held-IsHealthy cbc held a h = record {
    own = h.own;
    inside = h.inside;
    clock = h.clock;
    sound = record { known = h.sound.known; resendable = h.sound.resendable };
    outgoing = h.outgoing;
    held = a;
    queue = h.queue;
  }

  after_held-IsHealthy :
      (cbc : Cbcast) (pid i : ℕ) (m : ReceivedMessage)
      → pid ≢ w.self
      → get_elem? cbc.held_msg_buffer i ≡ some m
      → IsHealthy w cbc
      → IsHealthy w (after_held cbc pid i m)
  after_held-IsHealthy cbc pid i m apart at h =
      with_held-IsHealthy (deliver cbc m pid) _
        (All-arrdelswap (Came w) cbc.held_msg_buffer i h.held)
        (deliver-IsHealthy cbc m pid apart (All-elem (Came w) cbc.held_msg_buffer i m h.held at) h)

  try_deliver_held_msgs-Safe :
      (cbc : Cbcast) (pid : ℕ)
      → pid ≢ w.self
      → IsHealthy w cbc
      → Safe (IsHealthy w) (try_deliver_held_msgs cbc pid)
  try_deliver_held_msgs-Safe cbc pid apart h =
      let (c, e, _) = try_deliver_held_msgs_total cbc pid in
      rw e (fine (Ensures-elim (subst (Ensures (IsHealthy w)) e kept)))
    where
      kept : Ensures (IsHealthy w) (try_deliver_held_msgs cbc pid)
      kept =
          unfold try_deliver_held_msgs in
          deliver_rounds_inv (IsHealthy w) pid
            (λ c i m at may g. after_held-IsHealthy c pid i m apart at g)
            (suc (length cbc.held_msg_buffer)) cbc h

  handle_by-Safe :
      (k : Causality) (cbc : Cbcast) (m : ReceivedMessage)
      → check_msg_causality cbc.vclock m.sender_pid m.message.header.clock ≡ k
      → IsShiftable m.sender_pid
      → m.sender_pid ≢ w.self
      → Came w m
      → IsHealthy w cbc
      → Safe (IsHealthy w) (handle_by k cbc m.message m m.sender_pid)
  handle_by-Safe causality_error cbc m e small apart came h =
      elim (Bool-cases (is_retransmit m.message.header.kind)) [
        | inl r ↦ rw r (
            Safe-map (λ c g. g.0)
              (ack_received_message-Safe w cbc m.message.header.clock m.sender_pid h))
        | inr r ↦ rw r left
      ]
  handle_by-Safe causality_deliver cbc m e small apart came h =
      Safe-bind (ack_received_message-Safe w cbc m.message.header.clock m.sender_pid h)
        λ acked (g, _).
          let after = deliver-IsHealthy acked m m.sender_pid apart came g in
          elim (Bool-cases (is_retransmit m.message.header.kind)) [
            | inl r ↦
                rw r (
                  try_deliver_held_msgs-Safe (deliver acked m m.sender_pid) m.sender_pid apart
                    after)
            | inr r ↦ rw r (fine after)
          ]
  handle_by-Safe causality_hold cbc m e small apart came h =
      Safe-bind (ack_received_message-Safe w cbc m.message.header.clock m.sender_pid h)
        λ acked (g, same).
          let again = already_held acked.held_msg_buffer m.message.header.clock m.sender_pid in
          let inside = hold_inside cbc.vclock m.sender_pid m.message.header.clock e in
          let here : m.sender_pid < length acked.vclock = rw same inside in
          elim (Bool-cases again) [
            | inl r ↦ rw r (request_retransmission-Safe w acked m.sender_pid small here g)
            | inr r ↦ rw r (
                request_retransmission-Safe w (hold acked m) m.sender_pid small here (
                  with_held-IsHealthy acked (acked.held_msg_buffer ++ (m ∷ []))
                    (All-append (Came w) acked.held_msg_buffer (m ∷ []) g.held (came, tt)) g))
          ]

  pub handle_data_msg-Safe :
      (cbc : Cbcast) (msg : Message) (pid : ℕ)
      → IsShiftable pid
      → pid ≢ w.self
      → w.Comes pid msg.header.clock msg.payload
      → IsHealthy w cbc
      → Safe (IsHealthy w) (handle_data_msg cbc msg pid)
  unfolding handle_data_msg cbc_received_msg_create
  handle_data_msg-Safe cbc msg pid small apart came h =
      handle_by-Safe _ cbc (record { message = msg; sender_pid = pid }) refl small apart came h
