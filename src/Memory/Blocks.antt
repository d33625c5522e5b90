-- ===== src/Memory/Blocks.antt =====
-- What is allocated after an object is made or freed.
use view_sync.Prelude.{ℕ, ◌+◌, ◌<◌, ◌≡◌, refl, Option, none, some, ==_refl, arith}
use view_sync.Prelude.Outcome.{◌>>=◌, Returns, Returns-bind}
use view_sync.Memory.Heap.{
  Heap, free, reads, one, one_if, Holds, Holds-as, free-Holds, free_if-Holds, reads-Holds,
}
use view_sync.Memory.Objects.{
  MessagePtr, AddrPtr, OutgoingPtr, SentPtr, ReceivedPtr, message_weight, addr_weight,
  outgoing_weight, sent_weight, received_weight, cbc_msg_free, message_free_if, addr_free_if,
  cbc_outgoing_msg_free, cbc_sent_msg_free, cbc_received_msg_free, vc_free,
}

pub one_self : (x : ℕ) → one x x ≡ 1
one_self x = rw (==_refl x) refl

-- An object's first block is read, or is freed.
pub reads_first :
    (h : Heap) (x : ℕ) (n : ℕ → ℕ)
    → Holds h (λ a. one x a + n a)
    → Returns (λ h'. Holds h' (λ a. one x a + n a)) (reads h x)
reads_first h x n holds = reads-Holds h x _ (omega (arith, one_self x)) holds

pub cbc_msg_free-Holds :
    (h : Heap) (p : MessagePtr) (n : ℕ → ℕ)
    → Holds h (λ a. message_weight p a + n a)
    → Returns (λ h'. Holds h' n) (cbc_msg_free h p)
unfolding cbc_msg_free message_weight
cbc_msg_free-Holds h p n holds =
    let there : 0 < message_weight p p.at + n p.at = omega (arith, one_self p.at) in
    Returns-bind (reads-Holds h p.at (λ a. message_weight p a + n a) there holds) λ h₁ o₁.
      Returns-bind
        (free-Holds h₁ p.header (λ a. one_if p.payload a + (one p.at a + n a))
          (Holds-as h₁ _ _ (λ a. omega arith) o₁))
        λ h₂ o₂.
          Returns-bind (free_if-Holds h₂ p.payload (λ a. one p.at a + n a) o₂)
            λ h₃ o₃. free-Holds h₃ p.at n o₃

abbrev pub weight_if : Option MessagePtr → ℕ → ℕ
weight_if none a = 0
weight_if (some p) a = message_weight p a

message_free_if-Holds :
    (h : Heap) (o : Option MessagePtr) (n : ℕ → ℕ)
    → Holds h (λ a. weight_if o a + n a)
    → Returns (λ h'. Holds h' n) (message_free_if h o)
message_free_if-Holds h none n holds = (h, refl, Holds-as h _ n (λ a. omega arith) holds)
message_free_if-Holds h (some p) n holds = cbc_msg_free-Holds h p n holds

addr_free_if-Holds :
    (h : Heap) (o : Option AddrPtr) (n : ℕ → ℕ)
    → Holds h (λ a. addr_weight o a + n a)
    → Returns (λ h'. Holds h' n) (addr_free_if h o)
unfolding addr_weight
addr_free_if-Holds h none n holds = (h, refl, Holds-as h _ n (λ a. omega arith) holds)
addr_free_if-Holds h (some p) n holds = free-Holds h p.at n holds

-- The object goes with the message that it points to then.
pub cbc_outgoing_msg_free-left :
    (h : Heap) (at : ℕ) (o : Option MessagePtr) (addr : Option AddrPtr) (n : ℕ → ℕ)
    → Holds h (λ a. one at a + (weight_if o a + (addr_weight addr a + n a)))
    → Returns (λ h'. Holds h' n) (cbc_outgoing_msg_free h at o addr)
unfolding cbc_outgoing_msg_free
cbc_outgoing_msg_free-left h at o addr n holds =
    Returns-bind (reads_first h at (λ a. weight_if o a + (addr_weight addr a + n a)) holds) λ h₁ o₁.
      Returns-bind
        (message_free_if-Holds h₁ o (λ a. addr_weight addr a + (one at a + n a))
          (Holds-as h₁ _ _ (λ a. omega arith) o₁))
        λ h₂ o₂.
          Returns-bind (addr_free_if-Holds h₂ addr (λ a. one at a + n a) o₂)
            λ h₃ o₃. free-Holds h₃ at n o₃

pub cbc_outgoing_msg_free-Holds :
    (h : Heap) (p : OutgoingPtr) (n : ℕ → ℕ)
    → Holds h (λ a. outgoing_weight p a + n a)
    → Returns (λ h'. Holds h' n) (cbc_outgoing_msg_free h p.at (some p.message) p.addr)
unfolding outgoing_weight
cbc_outgoing_msg_free-Holds h p n holds =
    cbc_outgoing_msg_free-left h p.at (some p.message) p.addr n
      (Holds-as h _ _ (λ a. omega arith) holds)

-- A structure that holds a message.
holder_free-Holds :
    (h : Heap) (at : ℕ) (m : MessagePtr) (n : ℕ → ℕ)
    → Holds h (λ a. (one at a + message_weight m a) + n a)
    → Returns (λ h'. Holds h' n) (do h₁ ← reads h at; h₂ ← cbc_msg_free h₁ m; free h₂ at)
holder_free-Holds h at m n holds =
    Returns-bind
      (reads_first h at (λ a. message_weight m a + n a) (Holds-as h _ _ (λ a. omega arith) holds))
      λ h₁ o₁.
        Returns-bind
          (cbc_msg_free-Holds h₁ m (λ a. one at a + n a) (Holds-as h₁ _ _ (λ a. omega arith) o₁))
          λ h₂ o₂. free-Holds h₂ at n o₂

pub cbc_sent_msg_free-Holds :
    (h : Heap) (p : SentPtr) (n : ℕ → ℕ)
    → Holds h (λ a. sent_weight p a + n a)
    → Returns (λ h'. Holds h' n) (cbc_sent_msg_free h p)
unfolding cbc_sent_msg_free sent_weight
cbc_sent_msg_free-Holds h p n holds = holder_free-Holds h p.at p.message n holds

pub cbc_received_msg_free-Holds :
    (h : Heap) (p : ReceivedPtr) (n : ℕ → ℕ)
    → Holds h (λ a. received_weight p a + n a)
    → Returns (λ h'. Holds h' n) (cbc_received_msg_free h p)
unfolding cbc_received_msg_free received_weight
cbc_received_msg_free-Holds h p n holds = holder_free-Holds h p.at p.message n holds

pub vc_free-Holds :
    (h : Heap) (at clock : ℕ) (n : ℕ → ℕ)
    → Holds h (λ a. one at a + (one clock a + n a))
    → Returns (λ h'. Holds h' n) (vc_free h at clock)
unfolding vc_free
vc_free-Holds h at clock n holds =
    Returns-bind (reads_first h at (λ a. one clock a + n a) holds) λ h₁ o₁.
      Returns-bind
        (free-Holds h₁ clock (λ a. one at a + n a) (Holds-as h₁ _ _ (λ a. omega arith) o₁))
        λ h₂ o₂. free-Holds h₂ at n o₂
