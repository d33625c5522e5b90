-- ===== src/System/Fifo.antt =====
-- The promise of the broadcast to the users of a group.
use view_sync.Prelude.{
  ℕ, ◌^◌, ◌≤◌, ◌<◌, ◌≡◌, ◌≢◌, ap, ◌∙◌, subst, arith, List, ◌++◌, map, length, take, get_or, All,
  All-append, refl,
}
use view_sync.Message.{SockAddr, ReceivedMessage}
use view_sync.State.{Peer}
use view_sync.Send.Loops.{IsShiftable}
use view_sync.Send.Resend.{All-imp}
use view_sync.Member.{Came}
use view_sync.System.{System, initial, Reach, payloads_from, terminated}
use view_sync.System.Parts.{sent_parts, IsShort, sent_part-short, length-sent_parts}
use view_sync.System.Said.{Said, AllSaid, payloads_lem}
use view_sync.System.Worlds.{KnowsFor, world}
use view_sync.System.Invariant.{Invariant, Reach-Invariant}
use view_sync.System.Opening.{opening-Invariant}

Came-AllSaid :
    (addr : ℕ → SockAddr) (size : ℕ) (said : ℕ → List (List ℕ)) (i j : ℕ)
    (ms : List ReceivedMessage)
    → All (Came (world addr size said j)) ms
    → AllSaid i (said i) ms
Came-AllSaid addr size said i j ms h =
    All-imp ms
      (λ m. λ (c : Came (world addr size said j) m).
        λ same. subst (λ k. Said (said k) m.message.header.clock m.message.payload) same c)
      h

-- What a user has of another member's payloads, in a group that has started well.
pub keeps-payloads :
    (inet_addr : List ℕ → ℕ) (rand : ℕ → ℕ → ℕ) (addr : ℕ → SockAddr) (size : ℕ) (from s : System)
    (i j : ℕ)
    → ((a b : ℕ) → a < size → b < size → addr a ≡ addr b → a ≡ b)
    → Invariant inet_addr rand addr size from
    → Reach inet_addr rand addr size from s
    → j < size
    → i ≢ j
    → length (s.said i) < 2 ^ 16
    → (get_or (s.nodes j).cbc.vclock i 0 ≤ length (s.said i))
      × (payloads_from i ((s.nodes j).taken ++ (s.nodes j).cbc.delivery_queue)
          ≡ take (get_or (s.nodes j).cbc.vclock i 0) (map terminated (sent_parts s.said i)))
keeps-payloads inet_addr rand addr size from s i j distinct starts reached inside other few =
    let good = Reach-Invariant inet_addr rand addr size distinct from s starts reached j inside in
    let (le, is) =
      payloads_lem i (get_or (s.nodes j).cbc.vclock i 0) (sent_parts s.said i)
        ((s.nodes j).taken ++ (s.nodes j).cbc.delivery_queue)
        (rw (length-sent_parts (s.said i)) few)
        (Came-AllSaid addr size (sent_parts s.said) i j _ (
          All-append (Came (world addr size (sent_parts s.said) j)) (s.nodes j).taken _
            good.healthy.taken good.healthy.cbc.queue))
        (good.ordered.in_order i other) in
    (omega (arith, le, length-sent_parts (s.said i)), is)

-- In a group of members with different addresses, each initialised with `size` clocks and knowing
-- from the start the others of the group that it sends to, by their ids, below 31, and addresses,
-- whose users give payloads as long as they say and with a zero byte among their bytes, and
-- whose datagrams the network loses, delays, repeats and reorders as it likes, and whose calls and
-- threads take turns in any order: the payloads from another member that a member's user has taken
-- or can take are the first ones that were sent there, in the order in which they were sent, each
-- once, unchanged and with a zero byte behind, as many as the member's clock for the sender says.
-- The sender is taken to have sent fewer than 2 ^ 16, of fewer than 2 ^ 16 bytes each.
pub Reach-payloads :
    (inet_addr : List ℕ → ℕ) (rand : ℕ → ℕ → ℕ) (addr : ℕ → SockAddr) (size : ℕ)
    (peers : ℕ → List Peer) (s : System) (i j : ℕ)
    → ((a b : ℕ) → a < size → b < size → addr a ≡ addr b → a ≡ b)
    → ((k : ℕ)
        → k < size
        → All (λ p. IsShiftable p.pid × KnowsFor addr size k p.pid p.addr) (peers k))
    → Reach inet_addr rand addr size (initial inet_addr rand addr size peers) s
    → j < size
    → i ≢ j
    → length (s.said i) < 2 ^ 16
    → All IsShort (s.said i)
    → (get_or (s.nodes j).cbc.vclock i 0 ≤ length (s.said i))
      × (payloads_from i ((s.nodes j).taken ++ (s.nodes j).cbc.delivery_queue)
          ≡ take (get_or (s.nodes j).cbc.vclock i 0) (map terminated (s.said i)))
Reach-payloads inet_addr rand addr size peers s i j distinct known reached inside other few short =
    let (le, is) =
      keeps-payloads inet_addr rand addr size (initial inet_addr rand addr size peers) s i j
        distinct (opening-Invariant inet_addr rand addr size _ peers (λ k inside. refl) known)
        reached inside other few in
    (
      le,
      is
          ∙ ap (λ ts. take (get_or (s.nodes j).cbc.vclock i 0) (map terminated ts))
              (sent_part-short (s.said i) short),
    )
