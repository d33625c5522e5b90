-- ===== src/Memory/Reads.antt =====
-- Loops that read what an array of pointers points to. A loop that breaks is said to read them all.
use view_sync.Prelude.{ℕ, ◌+◌, ◌<◌, ◌≤◌, ◌≡◌, refl, Option, none, some, List, [], ◌∷◌, ◌++◌, arith}
use view_sync.Prelude.Outcome.{Outcome, done, ◌>>=◌, Returns}
use view_sync.Memory.Heap.{Heap, reads, one_if, often, Holds, exists-often, total}
use view_sync.Memory.Objects.{
  AddrPtr, OutgoingPtr, addr_weight, outgoing_weight, MessagePtr, SentPtr, ReceivedPtr,
  message_weight, sent_weight, received_weight,
}
use view_sync.Memory.Context.{PeerPtr, peer_weight}

-- The blocks that are read.
abbrev pub block_if : Option ℕ → List ℕ
block_if none = []
block_if (some a) = a ∷ []

-- With the payload.
abbrev pub message_blocks : MessagePtr → List ℕ
message_blocks p = p.at ∷ p.header ∷ block_if p.payload

abbrev pub addr_blocks : Option AddrPtr → List ℕ
addr_blocks none = []
addr_blocks (some a) = a.at ∷ []

abbrev pub outgoing_blocks : OutgoingPtr → List ℕ
outgoing_blocks p = p.at ∷ (message_blocks p.message ++ addr_blocks p.addr)

abbrev pub sent_blocks : SentPtr → List ℕ
sent_blocks p = p.at ∷ message_blocks p.message

abbrev pub received_blocks : ReceivedPtr → List ℕ
received_blocks p = p.at ∷ message_blocks p.message

abbrev pub peer_blocks : PeerPtr → List ℕ
peer_blocks p = p.at ∷ p.addr ∷ []

abbrev pub looked : {A : Type 0} → (A → List ℕ) → List A → List ℕ
looked blocks [] = []
looked blocks (x ∷ xs) = blocks x ++ looked blocks xs

unfoldable pub reads_all : Heap → List ℕ → Outcome Heap
reads_all h [] = done h
reads_all h (x ∷ xs) = do h' ← reads h x; reads_all h' xs

pub often-append : (xs ys : List ℕ) (b : ℕ) → often b (xs ++ ys) ≡ often b ys + often b xs
often-append [] zs b = omega arith
often-append (y ∷ ys) zs b = let rest = often-append ys zs b in omega (rest, arith)

pub reads_all_lem :
    (h : Heap) (xs : List ℕ)
    → ((a : ℕ) → 0 < often a xs → 0 < often a h.live)
    → reads_all h xs ≡ done h
unfolding reads_all reads
reads_all_lem h [] live = refl
reads_all_lem h (x ∷ xs) live =
    rw (exists-often x h.live (live x (ground arith)))
      (reads_all_lem h xs (λ a some. live a (omega (arith, some))))

pub reads_all-Holds :
    (h : Heap) (xs : List ℕ) (n : ℕ → ℕ)
    → ((a : ℕ) → often a xs ≤ n a)
    → Holds h n
    → Returns (λ h'. Holds h' n) (reads_all h xs)
reads_all-Holds h xs n among holds =
    (h, reads_all_lem h xs (λ a pos. omega (arith, pos, among a, holds.same a)), holds)

often-looked :
    {A : Type 0} (blocks : A → List ℕ) (weight : A → ℕ → ℕ)
    → ((x : A) (a : ℕ) → often a (blocks x) ≤ weight x a)
    → (xs : List A) (a : ℕ) → often a (looked blocks xs) ≤ total weight a xs
often-looked blocks weight less [] a = omega arith
often-looked blocks weight less (x ∷ xs) a = omega (
  arith,
  less x a,
  often-looked blocks weight less xs a,
  often-append (blocks x) (looked blocks xs) a,
)

pub often-block_if : (o : Option ℕ) (a : ℕ) → often a (block_if o) ≡ one_if o a
often-block_if none a = refl
often-block_if (some b) a = omega arith

pub often-message : (p : MessagePtr) (a : ℕ) → often a (message_blocks p) ≤ message_weight p a
unfolding message_weight
often-message p a = omega (arith, often-block_if p.payload a)

often-addr : (o : Option AddrPtr) (a : ℕ) → often a (addr_blocks o) ≡ addr_weight o a
unfolding addr_weight
often-addr none a = refl
often-addr (some p) a = omega arith

pub often-outgoing : (p : OutgoingPtr) (a : ℕ) → often a (outgoing_blocks p) ≤ outgoing_weight p a
unfolding outgoing_weight
often-outgoing p a = omega (
  arith,
  often-message p.message a,
  often-addr p.addr a,
  often-append (message_blocks p.message) (addr_blocks p.addr) a,
)

pub often-one_received :
    (p : ReceivedPtr) (a : ℕ) → often a (received_blocks p) ≤ received_weight p a
unfolding received_weight
often-one_received p a = omega (arith, often-message p.message a)

pub often-sent :
    (xs : List SentPtr) (a : ℕ) → often a (looked sent_blocks xs) ≤ total sent_weight a xs
unfolding sent_weight
often-sent = often-looked sent_blocks sent_weight (λ x a. omega (arith, often-message x.message a))

pub often-received :
    (xs : List ReceivedPtr) (a : ℕ)
    → often a (looked received_blocks xs) ≤ total received_weight a xs
often-received = often-looked received_blocks received_weight often-one_received

pub often-peers :
    (xs : List PeerPtr) (a : ℕ) → often a (looked peer_blocks xs) ≤ total peer_weight a xs
unfolding peer_weight
often-peers = often-looked peer_blocks peer_weight (λ x a. omega arith)
