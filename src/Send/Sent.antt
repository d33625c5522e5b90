-- ===== src/Send/Sent.antt =====
-- `cbc_send` of src/cbcast/send.c in a well-formed member.
use view_sync.Prelude.{
  true, exists_in, ℕ, ◌≡◌, ◌≤◌, ◌<◌, ◌^◌, ◌%◌, ap, subst, false, none, some, List, [], ◌∷◌, ◌++◌,
  length, take, ltb, set, get_or, ◌==◌, arith, length-set, get_elem?-in,
}
use view_sync.Prelude.Outcome.{done, result_ok, Returns, Ensures, Ensures-elim}
use view_sync.Message.{Message, OutgoingMessage, cbc_data, cbc_msg_create, cbc_outgoing_msg_create}
use view_sync.State.{Cbcast}
use view_sync.Receive.{enqueue, inc64}
use view_sync.Send.{cbc_send, handle_old_messages}
use view_sync.Delivery.{core, Frame}
use view_sync.Delivery.SendFrame.{handle_old_messages-Frame}
use view_sync.Send.Resend.{Resends}
use view_sync.Send.Total.{Anything, Anyone, IsSound, handle_old_messages-IsSound}

-- The data message of a payload, with a clock.
abbrev pub data_msg : List ℕ → ℕ → ℕ → Message
data_msg payload len clock = record {
  header = record { kind = cbc_data; clock = clock % 2 ^ 16; len = len };
  payload = some (take len payload ++ 0 ∷ []);
}

abbrev pub to_all : Message → OutgoingMessage
to_all m = record { message = m; addr = none; socket_flags = 0 }

-- The own clock after a message is sent.
abbrev pub next_own : Cbcast → ℕ
next_own cbc = inc64 (get_or cbc.vclock cbc.pid 0)

-- What sending a payload does to the member.
pub record Sent (payload : List ℕ) (len : ℕ) (cbc cbc' : Cbcast) : Type 0 where
  pub ticked : cbc'.vclock ≡ set cbc.vclock cbc.pid (next_own cbc)
  pub untaken : cbc'.delivery_queue ≡ cbc.delivery_queue
  pub queued :
      Resends Anything (cbc.send_queue ++ (to_all (data_msg payload len (next_own cbc)) ∷ [])) cbc'
  pub sound : IsSound cbc'

pub cbc_msg_create-data :
    (payload : List ℕ) (len : ℕ)
    → 0 < len
    → len < 2 ^ 16
    → len ≤ length payload
    → cbc_msg_create cbc_data (some payload) len ≡ done (result_ok (data_msg payload len 0))
unfolding cbc_msg_create
cbc_msg_create-data payload len pos fits enough =
    let cut : len % 2 ^ 16 ≡ len = omega arith in
    let nonzero : (len == 0) ≡ false = ground arith in
    let whole : ltb (length payload) len ≡ false = ground arith in rw (cut, nonzero, whole)

-- A payload with a zero byte in it can be printed.
abbrev pub IsText : List ℕ → Type 0
IsText payload = exists_in (λ b. b == 0) payload ≡ true

-- In a member whose peers' ids are below 31, whose sent messages have the payload that their
-- header says and a clock and length of 16 bits, and whose id is within its clock, sending a
-- payload of up to 65535 bytes, with a zero byte in it or behind them, to at least one peer returns without an error. The own clock steps,
-- the message is put into the send queue with it, and after it nothing but retransmissions. The
-- delivery queue does not change, and the member stays such a member.
pub cbc_send-Sent :
    (cbc : Cbcast) (payload : List ℕ) (len : ℕ)
    → IsSound cbc
    → 0 < length cbc.peers
    → cbc.pid < length cbc.vclock
    → 0 < len
    → len < 2 ^ 16
    → len ≤ length payload
    → IsText payload
    → (cbc' : Cbcast) × (cbc_send cbc (some payload) len ≡ done (result_ok cbc'))
      × Sent payload len cbc cbc'
unfolding cbc_send cbc_outgoing_msg_create
cbc_send-Sent cbc payload len sound any own pos fits enough text = (
  after.0,
  rw (
    nonzero,
    some_left,
    cbc_msg_create-data payload len pos fits enough,
    get_elem?-in cbc.vclock cbc.pid 0 own,
    text,
    after.1,
  ),
  record {
    ticked = ap (λ c. c.vclock) same;
    untaken = ap (λ c. c.queue) same;
    queued = after.2.1;
    sound = after.2.0;
  },
)
  where
    queued : Cbcast
    queued =
        enqueue (record cbc { vclock = set cbc.vclock cbc.pid (next_own cbc) })
          (to_all (data_msg payload len (next_own cbc)))

    after :
        Returns (λ c. IsSound c × Resends Anything queued.send_queue c) (handle_old_messages queued)
    after =
        handle_old_messages-IsSound Anything Anyone queued
          (record { known = sound.known; resendable = sound.resendable })
          (rw (length-set cbc.vclock cbc.pid (next_own cbc)) own)

    same : core after.0 ≡ core queued
    same = Ensures-elim (subst (Ensures (Frame queued)) after.1 (handle_old_messages-Frame queued))

    nonzero : (len == 0) ≡ false
    nonzero = ground arith

    some_left : (length cbc.peers == 0) ≡ false
    some_left = ground arith
