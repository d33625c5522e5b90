-- ===== src/Member/Sending.antt =====
-- `cbc_send` of src/cbcast/send.c in a well-formed member.
use view_sync.Prelude.{
  ℕ, ◌%◌, ◌^◌, ◌≤◌, ◌<◌, ◌≡◌, sym, ap, subst, ◌∙◌, inl, inr, false, Bool-cases, Option, some, List,
  [], ◌∷◌, ◌++◌, length, get_or, set, take, ltb, ◌==◌, All, All-append, arith, get_elem?-in,
  length-set, get_or-set_self,
}
use view_sync.Prelude.Outcome.{
  invalid_payload, done, Result, result_ok, result_err, Ensures, Ensures-elim, Returns,
}
use view_sync.Prelude.Safe.{Safe, fine, Safe-bind, Returns-Safe}
use view_sync.Message.{
  Kind, cbc_data, cbc_ack, cbc_retransmit_req, cbc_retransmit, unknown, Message, cbc_msg_create,
  cbc_outgoing_msg_create,
}
use view_sync.Message.Laws.{IsMessage}
use view_sync.State.{Cbcast}
use view_sync.Receive.{enqueue}
use view_sync.Delivery.{Core, core, Frame}
use view_sync.Delivery.SendFrame.{handle_old_messages-Frame}
use view_sync.Send.{cbc_send, send_msg, handle_old_messages}
use view_sync.Send.Resend.{All-imp, IsResendable, Resends}
use view_sync.Send.Total.{IsSoundFor, handle_old_messages-IsSound}
use view_sync.Send.Sent.{IsText, data_msg, to_all, next_own}
use native.Mathlib.Decide.{dec_lt}
use view_sync.Receive.Arrival.{data_msg-IsMessage}
use view_sync.Member.{Promises, CarriesAs, Carries, IsSendable, Came, IsHealthy}
use view_sync.Member.Control.{IsAgain-IsSendable}

module _ (w : Promises) where
  handle_old_messages-Safe :
      (cbc : Cbcast) → IsHealthy w cbc → Safe (IsHealthy w) (handle_old_messages cbc)
  handle_old_messages-Safe cbc h = Returns-Safe (
    after.0,
    after.1,
    record {
      own = ap (λ (c : Core). c.pid) same ∙ h.own;
      inside = rw clocks h.inside;
      clock = rw clocks h.clock;
      sound = after.2.0;
      outgoing = subst (All (IsSendable w.Says)) (sym (after.2.1.1)) (
          All-append (IsSendable w.Says) cbc.send_queue after.2.1.0 h.outgoing
            (All-imp after.2.1.0 (IsAgain-IsSendable w.Says) after.2.1.2));
      held = subst (All (Came w)) (sym (ap (λ (c : Core). c.held) same)) h.held;
      queue = subst (All (Came w)) (sym (ap (λ (c : Core). c.queue) same)) h.queue;
    },
  )
    where
      after :
          Returns
            (λ c. IsSoundFor w.Says w.Knows c × Resends w.Says cbc.send_queue c)
            (handle_old_messages cbc)
      after = handle_old_messages-IsSound w.Says w.Knows cbc h.sound (rw (h.own) h.inside)

      same : core after.0 ≡ core cbc
      same = Ensures-elim (subst (Ensures (Frame cbc)) after.1 (handle_old_messages-Frame cbc))

      clocks : after.0.vclock ≡ cbc.vclock
      clocks = ap (λ (c : Core). c.vclock) same

pub CarriesAs-map :
    (P Q : ℕ → Option (List ℕ) → Type 0) (k : Kind) (clock : ℕ) (p : Option (List ℕ))
    → ((c : ℕ) (q : Option (List ℕ)) → P c q → Q c q)
    → CarriesAs P k clock p
    → CarriesAs Q k clock p
CarriesAs-map P Q cbc_data clock p f h = f clock p h
CarriesAs-map P Q cbc_retransmit clock p f h = f clock p h
CarriesAs-map P Q cbc_ack clock p f h = tt
CarriesAs-map P Q cbc_retransmit_req clock p f h = tt
CarriesAs-map P Q (unknown c) clock p f h = tt

-- The text of a payload of the length that is sent.
abbrev pub text_of : List ℕ → ℕ → List ℕ
text_of payload len = take (len % 2 ^ 16) payload

-- The same member after it has said something more: what it said before it still says.
module _ (w : Promises) (Says' : ℕ → Option (List ℕ) → Type 0) (Own' : ℕ → Type 0)
    (more : (c : ℕ) (p : Option (List ℕ)) → w.Says c p → Says' c p) where
  abbrev pub later : Promises
  later = record w { Says = Says'; Own = Own' }

  -- The own clock steps and the message with it is queued.
  ticked-IsHealthy :
      (cbc : Cbcast) (msg : Message)
      → IsMessage msg
      → Carries Says' msg
      → Own' (next_own cbc)
      → IsHealthy w cbc
      → IsHealthy later
          (enqueue (record cbc { vclock = set cbc.vclock cbc.pid (next_own cbc) }) (to_all msg))
  ticked-IsHealthy cbc msg ok says own h = record {
    own = h.own;
    inside = omega (arith, h.inside, length-set cbc.vclock cbc.pid (next_own cbc));
    clock =
        subst Own'
          (sym (
            ap (λ i. get_or (set cbc.vclock cbc.pid (next_own cbc)) i 0) (sym h.own)
            ∙ get_or-set_self cbc.vclock cbc.pid (next_own cbc) 0 (rw (h.own) h.inside)))
          own;
    sound = record {
      known = h.sound.known;
      resendable =
          All-imp cbc.sent_msg_buffer
            (λ s. λ (r : IsResendable w.Says s). (r.0, r.1, r.2, more _ _ r.3)) h.sound.resendable;
    };
    outgoing =
        All-append (IsSendable Says') cbc.send_queue _
          (All-imp cbc.send_queue
            (λ out. λ (s : IsSendable w.Says out). (
              s.0,
              CarriesAs-map w.Says Says' out.message.header.kind out.message.header.clock
                  out.message.payload more s.1,
            ))
            h.outgoing)
          ((ok, says), tt);
    held = h.held;
    queue = h.queue;
  }

  -- What is left when the call returns.
  abbrev pub Sends : Result Cbcast → Type 0
  Sends (result_err e) = Unit
  Sends (result_ok c) = IsHealthy later c

  module _ (cbc : Cbcast) (payload : List ℕ) (len : ℕ) (enough : len % 2 ^ 16 ≤ length payload)
      (text : IsText payload)
      (says : Says' (next_own cbc % 2 ^ 16) (some (text_of payload len ++ 0 ∷ [])))
      (own : Own' (next_own cbc)) (h : IsHealthy w cbc) where
    abbrev msg : ℕ → Message
    msg clock = data_msg payload (len % 2 ^ 16) clock

    queued : Cbcast
    queued =
        enqueue (record cbc { vclock = set cbc.vclock cbc.pid (next_own cbc) })
          (to_all (msg (next_own cbc)))

    send_msg-Safe : 0 < len % 2 ^ 16 → Safe (IsHealthy later) (send_msg cbc payload (msg 0))
    unfolding cbc_outgoing_msg_create queued
    send_msg-Safe pos =
        rw (get_elem?-in cbc.vclock cbc.pid 0 (rw (h.own) h.inside), text)
          (handle_old_messages-Safe later queued (
            ticked-IsHealthy cbc (msg (next_own cbc))
              (data_msg-IsMessage payload (len % 2 ^ 16) (next_own cbc) pos (omega arith) enough)
              says own h))

    created :
        0 < len % 2 ^ 16 → cbc_msg_create cbc_data (some payload) len ≡ done (result_ok (msg 0))
    unfolding cbc_msg_create
    created pos =
        let nonzero : (len % 2 ^ 16 == 0) ≡ false = ground arith in
        let whole : ltb (length payload) (len % 2 ^ 16) ≡ false = ground arith in
        rw (nonzero, whole)

    empty :
        len % 2 ^ 16 ≡ 0
        → cbc_msg_create cbc_data (some payload) len ≡ done (result_err invalid_payload)
    unfolding cbc_msg_create
    empty e = rw e

    -- Sending a payload.
    pub cbc_send-Safe : Safe Sends (cbc_send cbc (some payload) len)
    unfolding cbc_send
    cbc_send-Safe = elim (Bool-cases (len == 0)) [
      | inl e ↦ rw e (fine tt)
      | inr e ↦ rw e (elim (Bool-cases (length cbc.peers == 0)) [
        | inl z ↦ rw z (fine tt)
        | inr z ↦ rw z (elim (dec_lt 0 (len % 2 ^ 16)) [
          | no cut ↦ rw (empty (omega arith)) (fine tt)
          | yes pos ↦ rw (created pos) (Safe-bind (send_msg-Safe pos) λ c g. fine g)
        ])
      ])
    ]
