-- ===== src/Receive/Rounds.antt =====
-- `try_deliver_held_msgs`: what one round does, a rule for its loop, and how it ends.
use mathlib.Core.List.{Perm, append_assoc, append-nil}
use mathlib.Core.List.Perm
use view_sync.Prelude.Deleting.{arrdelswap-Perm}
use view_sync.Prelude.{
  ℕ, zero, suc, ◌<◌, ◌≡◌, ◌≢◌, refl, sym, ap, ◌∙◌, set, get_or, List, ◌++◌, ◌⊎◌, inl, inr, true,
  false, Option, none, some, [], ◌∷◌, length, get_elem?, arrdelswap, find_index-Found, Found, All,
  length-arrdelswap, arith,
}
use view_sync.Prelude.Outcome.{done, Ensures, returned, spun}
use view_sync.Message.{ReceivedMessage}
use view_sync.State.{Cbcast}
use view_sync.Receive.{deliver, inc64, check_msg_causality}
use view_sync.Receive.Data.{
  deliverable, deliver_held, deliver_found, deliver_rounds, try_deliver_held_msgs,
}

-- No held message passes the test.
abbrev IsStuck : Cbcast → ℕ → Type 0
IsStuck cbc pid = All (λ h. deliverable cbc.vclock pid h ≡ false) cbc.held_msg_buffer

-- No held message of the sender has the clock that is next.
abbrev pub IsSettled : Cbcast → ℕ → Type 0
IsSettled cbc pid =
    All
      (λ h.
        h.sender_pid ≡ pid
        → pid < length cbc.vclock
        → inc64 (get_or cbc.vclock pid 0) ≢ h.message.header.clock)
      cbc.held_msg_buffer

pub deliverable_of_next :
    (vclock : List ℕ) (pid : ℕ) (h : ReceivedMessage)
    → h.sender_pid ≡ pid
    → pid < length vclock
    → inc64 (get_or vclock pid 0) ≡ h.message.header.clock
    → deliverable vclock pid h ≡ true
unfolding deliverable
deliverable_of_next vclock pid h from inside next = ground arith

none-next :
    (vclock : List ℕ) (pid : ℕ) (hs : List ReceivedMessage)
    → All (λ h. deliverable vclock pid h ≡ false) hs
    → All
        (λ h.
          h.sender_pid ≡ pid
          → pid < length vclock
          → inc64 (get_or vclock pid 0) ≢ h.message.header.clock)
        hs
none-next vclock pid [] stuck = tt
none-next vclock pid (h ∷ hs) stuck = (
  λ from inside next.
      let yes : true ≡ false = sym (deliverable_of_next vclock pid h from inside next) ∙ stuck.0 in
      cc,
  none-next vclock pid hs stuck.1,
)

-- The state after the held message at an index is delivered.
abbrev pub after_held : Cbcast → ℕ → ℕ → ReceivedMessage → Cbcast
after_held cbc pid i m = record (deliver cbc m pid) {
  held_msg_buffer = arrdelswap cbc.held_msg_buffer i;
}

abbrev Round : Cbcast → ℕ → Option Cbcast → Type 0
Round cbc pid r =
    ((r ≡ none) × IsStuck cbc pid)
    ⊎ ((i : ℕ) × (m : ReceivedMessage) × (get_elem? cbc.held_msg_buffer i ≡ some m)
        × (deliverable cbc.vclock pid m ≡ true)
        × (r ≡ some (after_held cbc pid i m)))

deliver_found-Round :
    (cbc : Cbcast) (pid : ℕ) (o : Option ℕ)
    → Found (deliverable cbc.vclock pid) cbc.held_msg_buffer o
    → Round cbc pid (deliver_found cbc pid o)
deliver_found-Round cbc pid none settled = inl (refl, settled)
deliver_found-Round cbc pid (some i) (m, e, may) = inr (i, m, e, may, rw e)

pub deliver_held-Round : (cbc : Cbcast) (pid : ℕ) → Round cbc pid (deliver_held cbc pid)
unfolding deliver_held
deliver_held-Round cbc pid =
    deliver_found-Round cbc pid _
      (find_index-Found (deliverable cbc.vclock pid) cbc.held_msg_buffer)

-- A property that each delivery keeps holds after the loop.
pub deliver_rounds_inv :
    (P : Cbcast → Type 0) (pid : ℕ)
    → ((cbc : Cbcast) (i : ℕ) (m : ReceivedMessage)
        → get_elem? cbc.held_msg_buffer i ≡ some m
        → deliverable cbc.vclock pid m ≡ true
        → P cbc
        → P (after_held cbc pid i m))
    → (fuel : ℕ) (cbc : Cbcast) → P cbc
    → Ensures P (deliver_rounds fuel cbc pid)
unfolding deliver_rounds
deliver_rounds_inv P pid keep zero cbc p = spun
deliver_rounds_inv P pid keep (suc fuel) cbc p = elim (deliver_held-Round cbc pid) [
  | inl (e, _) ↦ rw (e, deliver_rounds) (returned p)
  | inr (i, m, at, may, e) ↦
      rw (e, deliver_rounds)
        (deliver_rounds_inv P pid keep fuel (after_held cbc pid i m) (keep cbc i m at may p))
]

-- The clock after some more messages of a sender.
abbrev pub steps : ℕ → List ℕ → List ReceivedMessage → List ℕ
steps pid vclock [] = vclock
steps pid vclock (m ∷ ms) = steps pid (set vclock pid (inc64 (get_or vclock pid 0))) ms

-- Messages of a sender, each with the clock that follows.
abbrev pub AreNext : ℕ → List ℕ → List ReceivedMessage → Type 0
AreNext pid vclock [] = Unit
AreNext pid vclock (m ∷ ms) =
    (m.sender_pid ≡ pid)
    × (m.message.header.clock ≡ inc64 (get_or vclock pid 0))
    × AreNext pid (set vclock pid (inc64 (get_or vclock pid 0))) ms

-- What the loop does: it moves some held messages of the sender, with the clocks that follow, to
-- the end of the delivery queue and out of the held buffer, and steps the sender's clock with each.
-- Nothing more can be delivered then, and nothing else has changed.
pub record Delivered (pid : ℕ) (cbc cbc' : Cbcast) : Type 0 where
  pub moved : List ReceivedMessage
  pub next : AreNext pid cbc.vclock moved
  pub split : Perm (moved ++ cbc'.held_msg_buffer) cbc.held_msg_buffer
  pub same : cbc' ≡ record cbc {
    delivery_queue = cbc.delivery_queue ++ moved;
    vclock = steps pid cbc.vclock moved;
    held_msg_buffer = cbc'.held_msg_buffer;
  }
  pub settled : IsSettled cbc' pid

deliverable-next :
    (vclock : List ℕ) (pid : ℕ) (m : ReceivedMessage)
    → deliverable vclock pid m ≡ true
    → (m.sender_pid ≡ pid) × (m.message.header.clock ≡ inc64 (get_or vclock pid 0))
unfolding deliverable check_msg_causality
deliverable-next vclock pid m h = (ground arith, ground arith)

-- A delivery before others.
Delivered-first :
    (pid i : ℕ) (cbc cbc' : Cbcast) (m : ReceivedMessage)
    → get_elem? cbc.held_msg_buffer i ≡ some m
    → deliverable cbc.vclock pid m ≡ true
    → Delivered pid (after_held cbc pid i m) cbc'
    → Delivered pid cbc cbc'
Delivered-first pid i cbc cbc' m at may d =
    let (from, clock) = deliverable-next cbc.vclock pid m may in
    record {
      moved = m ∷ d.moved;
      next = (from, clock, d.next);
      split = Perm.trans (Perm.cons m d.split) (arrdelswap-Perm cbc.held_msg_buffer i m at);
      same =
          d.same
          ∙ ap
              (λ q. record cbc {
                delivery_queue = q;
                vclock = steps pid cbc.vclock (m ∷ d.moved);
                held_msg_buffer = cbc'.held_msg_buffer;
              })
              (append_assoc cbc.delivery_queue (m ∷ []) d.moved);
      settled = d.settled;
    }

deliver_rounds_total :
    (fuel pid : ℕ) (cbc : Cbcast)
    → length cbc.held_msg_buffer < fuel
    → (cbc' : Cbcast) × (deliver_rounds fuel cbc pid ≡ done cbc') × Delivered pid cbc cbc'
unfolding deliver_rounds
deliver_rounds_total zero pid cbc h = absurd (omega arith)
deliver_rounds_total (suc fuel) pid cbc h = elim (deliver_held-Round cbc pid) [
  | inl (e, settled) ↦ (
    cbc,
    rw (e, deliver_rounds),
    record {
      moved = [];
      next = tt;
      split = Perm.refl cbc.held_msg_buffer;
      same = ap (λ q. record cbc { delivery_queue = q }) (sym (append-nil cbc.delivery_queue));
      settled = none-next cbc.vclock pid cbc.held_msg_buffer settled;
    },
  )
  | inr (i, m, at, may, e) ↦
      let shrink = length-arrdelswap cbc.held_msg_buffer i m at in
      let rest = deliver_rounds_total fuel pid (after_held cbc pid i m) (omega (arith, shrink)) in
      (rest.0, rw (e, deliver_rounds) (rest.1), Delivered-first pid i cbc rest.0 m at may rest.2)
]

-- The loop of `try_deliver_held_msgs` always ends; then no held message of the sender can be
-- delivered. The messages that it has moved to the end of the delivery queue are the sender's, with
-- the clocks that follow, and together with those that are still held they are the ones that were
-- held before. The sender's clock has stepped once for each, and nothing else has changed.
pub try_deliver_held_msgs_total :
    (cbc : Cbcast) (pid : ℕ)
    → (cbc' : Cbcast) × (try_deliver_held_msgs cbc pid ≡ done cbc') × Delivered pid cbc cbc'
unfolding try_deliver_held_msgs
try_deliver_held_msgs_total cbc pid =
    deliver_rounds_total (suc (length cbc.held_msg_buffer)) pid cbc (omega arith)
