-- ===== src/Delivery/Order.antt =====
-- The order of delivery: each sender's messages by their clocks, from 1 on, none twice and none
-- left out, as an invariant of what `handle_data_msg` changes.
use view_sync.Prelude.{
  ℕ, zero, suc, ◌^◌, ◌≤◌, ◌<◌, ◌≡◌, ◌≢◌, refl, sym, ap, subst, ◌∙◌, true, List, [], ◌∷◌, ◌++◌,
  length, get_or, set, ◌==◌, if◌then◌else◌, arith, All, get_or-set_self, get_or-set_ne,
}
use mathlib.Core.List.{append_assoc, append-nil}
use native.Mathlib.Decide.{ℕ_discrete}
use view_sync.Message.{ReceivedMessage}
use view_sync.Receive.{check_msg_causality, is_deliver, inc64}
use view_sync.Delivery.{Core}

-- The clocks of one sender's messages, in order.
abbrev pub clocks_from : ℕ → List ReceivedMessage → List ℕ
clocks_from p [] = []
clocks_from p (m ∷ ms) =
    if m.sender_pid == p then m.message.header.clock ∷ clocks_from p ms else clocks_from p ms

-- 1, 2, …, n.
abbrev pub up_to : ℕ → List ℕ
up_to zero = []
up_to (suc n) = up_to n ++ (suc n ∷ [])

abbrev pub IsSmall : ReceivedMessage → Type 0
IsSmall m = m.message.header.clock < 2 ^ 16

-- `log` is what the user has taken from the delivery queue already. Nothing is said of the
-- member's own id, `self`, whose clock counts the messages that it sends.
-- No clock of another has fallen below `base`.
pub record Fifo (self : ℕ) (base : ℕ → ℕ) (log : List ReceivedMessage) (c : Core) : Type 0 where
  pub own : c.pid ≡ self
  pub in_order : (p : ℕ) → p ≢ self → clocks_from p (log ++ c.queue) ≡ up_to (get_or c.vclock p 0)
  pub at_least : (p : ℕ) → p ≢ self → base p ≤ get_or c.vclock p 0
  pub clock_small : (p : ℕ) → p ≢ self → get_or c.vclock p 0 < 2 ^ 16
  pub held_small : All IsSmall c.held

pub clocks_from-append :
    (p : ℕ) (xs ys : List ReceivedMessage)
    → clocks_from p (xs ++ ys) ≡ clocks_from p xs ++ clocks_from p ys
clocks_from-append p [] ys = refl
clocks_from-append p (m ∷ xs) ys = ground (arith, clocks_from-append p xs ys)

-- When a message may be delivered: its sender has a clock, which is one less.
pub check_msg_causality-deliver :
    (vclock : List ℕ) (pid clock : ℕ)
    → is_deliver (check_msg_causality vclock pid clock) ≡ true
    → (pid < length vclock) × (inc64 (get_or vclock pid 0) ≡ clock)
unfolding check_msg_causality
check_msg_causality-deliver vclock pid clock h = ground arith

abbrev pub delivered : Core → ReceivedMessage → ℕ → Core
delivered c m pid = record c {
  vclock = set c.vclock pid (inc64 (get_or c.vclock pid 0));
  queue = c.queue ++ (m ∷ []);
}

module _ (self : ℕ) (base : ℕ → ℕ) (log : List ReceivedMessage) (c : Core) (m : ReceivedMessage)
    (pid : ℕ) (from : m.sender_pid ≡ pid)
    (may : is_deliver (check_msg_causality c.vclock pid m.message.header.clock) ≡ true)
    (small : IsSmall m) (f : Fifo self base log c) where
  in_reach : pid < length c.vclock
  in_reach = (check_msg_causality-deliver c.vclock pid m.message.header.clock may).0

  -- The sender's clock becomes the message's, which is the next number.
  next_clock : pid ≢ self → m.message.header.clock ≡ suc (get_or c.vclock pid 0)
  next_clock other = omega (
    arith,
    (check_msg_causality-deliver c.vclock pid m.message.header.clock may).1,
    f.clock_small pid other,
  )

  clock_self : get_or (delivered c m pid).vclock pid 0 ≡ m.message.header.clock
  clock_self =
      get_or-set_self c.vclock pid _ 0 in_reach
      ∙ (check_msg_causality-deliver c.vclock pid m.message.header.clock may).1

  clock_other : (p : ℕ) → pid ≢ p → get_or (delivered c m pid).vclock p 0 ≡ get_or c.vclock p 0
  clock_other p apart = get_or-set_ne c.vclock pid p _ 0 apart

  delivered-split :
      (p : ℕ)
      → p ≢ self
      → clocks_from p (log ++ (c.queue ++ (m ∷ [])))
        ≡ up_to (get_or c.vclock p 0) ++ clocks_from p (m ∷ [])
  delivered-split p other =
      ap (clocks_from p) (sym (append_assoc log c.queue (m ∷ [])))
      ∙ clocks_from-append p (log ++ c.queue) (m ∷ [])
      ∙ ap (λ t. t ++ clocks_from p (m ∷ [])) (f.in_order p other)

  own_clock : m.sender_pid ≡ pid → clocks_from pid (m ∷ []) ≡ m.message.header.clock ∷ []
  own_clock e = ground arith

  no_clock : (p : ℕ) → pid ≢ p → clocks_from p (m ∷ []) ≡ []
  no_clock p apart = ground arith

  delivered-in_order :
      (p : ℕ)
      → p ≢ self
      → clocks_from p (log ++ (c.queue ++ (m ∷ []))) ≡ up_to (get_or (delivered c m pid).vclock p 0)
  delivered-in_order p other = elim (ℕ_discrete pid p) [
    | yes e ↦
        subst
          (λ q.
            clocks_from q (log ++ (c.queue ++ (m ∷ [])))
            ≡ up_to (get_or (delivered c m pid).vclock q 0))
          e
          (delivered-split pid (away e)
            ∙ ap (λ t. up_to (get_or c.vclock pid 0) ++ t)
                (own_clock from ∙ ap (λ n. n ∷ []) (next_clock (away e)))
            ∙ sym (ap up_to (clock_self ∙ next_clock (away e))))
    | no apart ↦
        delivered-split p other
        ∙ ap (λ t. up_to (get_or c.vclock p 0) ++ t) (no_clock p apart)
        ∙ append-nil _
        ∙ sym (ap up_to (clock_other p apart))
  ]
    where
      away : pid ≡ p → pid ≢ self
      away e h = other (sym e ∙ h)

  delivered-clock_small : (p : ℕ) → p ≢ self → get_or (delivered c m pid).vclock p 0 < 2 ^ 16
  delivered-clock_small p other = elim (ℕ_discrete pid p) [
    | yes e ↦
        subst (λ q. get_or (delivered c m pid).vclock q 0 < 2 ^ 16) e (omega (arith, clock_self))
    | no apart ↦ omega (arith, clock_other p apart, f.clock_small p other)
  ]

  delivered-at_least : (p : ℕ) → p ≢ self → base p ≤ get_or (delivered c m pid).vclock p 0
  delivered-at_least p other = elim (ℕ_discrete pid p) [
    | yes e ↦
        subst (λ q. base q ≤ get_or (delivered c m pid).vclock q 0) e
          (omega (
            arith,
            clock_self,
            next_clock (λ h. other (sym e ∙ h)),
            f.at_least pid (λ h. other (sym e ∙ h)),
          ))
    | no apart ↦ omega (arith, clock_other p apart, f.at_least p other)
  ]

  pub delivered-Fifo : Fifo self base log (delivered c m pid)
  delivered-Fifo = record {
    own = f.own;
    in_order = delivered-in_order;
    at_least = delivered-at_least;
    clock_small = delivered-clock_small;
    held_small = f.held_small;
  }
