-- ===== src/System.antt =====
-- A group of members over the network: each runs as in Node, and a datagram is any packet that a
-- member has sent to the receiver's address, whenever and however often the network delivers it.
-- `addr` is where the members' sockets are bound, `rand` gives each process its own `rand()`.
pub mod Said
pub mod Parts
pub mod Worlds
pub mod Invariant
pub mod Opening
pub mod Fifo
use view_sync.Prelude.{
  ℕ, ◌%◌, ◌^◌, ◌≤◌, ◌<◌, ◌≡◌, take, Option, some, List, [], ◌∷◌, ◌++◌, length, get_elem?, replicate,
  ◌==◌, if◌then◌else◌,
}
use view_sync.Prelude.Outcome.{done, result_ok}
use view_sync.Message.{SockAddr, ReceivedMessage}
use view_sync.State.{Peer, Cbcast}
use view_sync.Init.{fresh}
use view_sync.Receive.Thread.{Datagram}
use view_sync.Send.{cbc_send}
use view_sync.Send.Thread.{Packet}
use view_sync.Node.{Node, Event, receives, arrives, recv_thread_runs, send_thread_runs, start, step}
use view_sync.Send.Sent.{IsText}

-- `said` is what the user of each member has sent with success: the payloads as the user gave them,
-- whatever of them the code puts into its messages.
pub record System : Type 0 where
  pub nodes : ℕ → Node
  pub said : ℕ → List (List ℕ)

abbrev pub update {ℓ} : {A : Type ℓ} → (ℕ → A) → ℕ → A → ℕ → A
update f i a j = if j == i then a else f j

-- The steps of a member by itself.
pub data IsWork : Event → Type 0 where
  takes : IsWork receives
  receive_thread : IsWork recv_thread_runs
  send_thread : IsWork send_thread_runs

-- The members before any of them has done anything.
abbrev pub opening : (ℕ → Cbcast) → System
opening members = record { nodes = λ i. start (members i); said = λ i. [] }

module _ (inet_addr : List ℕ → ℕ) (rand : ℕ → ℕ → ℕ) (addr : ℕ → SockAddr) (size : ℕ) where
  pub data Step (s : System) : System → Type 0 where
    works :
        (j : ℕ) (e : Event) (n : Node)
        → j < size
        → IsWork e
        → step inet_addr (rand j) (s.nodes j) e ≡ done n
        → Step s (record s { nodes = update s.nodes j n })
    -- The user gives a payload of the length that it says, which can be printed.
    sends :
        (j : ℕ) (payload : List ℕ) (len : ℕ) (cbc : Cbcast)
        → j < size
        → len ≤ length payload
        → IsText payload
        → cbc_send (s.nodes j).cbc (some payload) len ≡ done (result_ok cbc)
        → Step s (record {
          nodes = update s.nodes j (record (s.nodes j) { cbc = cbc });
          said = update s.said j (s.said j ++ (take len payload ∷ []));
        })
    delivers :
        (i j k : ℕ) (p : Packet) (n : Node)
        → i < size
        → j < size
        → get_elem? (s.nodes i).sent k ≡ some p
        → p.dest ≡ addr j
        → step inet_addr
            (rand j)
            (s.nodes j)
            (arrives (record { source = addr i; bytes = p.bytes }))
          ≡ done n
        → Step s (record s { nodes = update s.nodes j n })

  -- Every member has been initialised and knows some peers.
  abbrev pub initial : (ℕ → List Peer) → System
  initial peers = opening (λ i. record (fresh i (replicate size 0)) { peers = peers i })

  pub data Reach (from : System) : System → Type 0 where
    begin : Reach from from
    later : {s t : System} → Reach from s → Step s t → Reach from t

-- The payloads of one sender's messages, in order.
abbrev pub payloads_from : ℕ → List ReceivedMessage → List (Option (List ℕ))
payloads_from p [] = []
payloads_from p (m ∷ ms) =
    if m.sender_pid == p then m.message.payload ∷ payloads_from p ms else payloads_from p ms

-- A text as it is put into a message.
abbrev pub terminated : List ℕ → Option (List ℕ)
terminated t = some (t ++ 0 ∷ [])
