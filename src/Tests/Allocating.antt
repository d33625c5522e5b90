-- ===== src/Tests/Allocating.antt =====
-- Histories with blocks, and a member that waits for an ack, at concrete inputs.
use view_sync.Prelude.{ℕ, ◌+◌, ◌≡◌, refl, true, some, none, List, [], ◌∷◌, All, arith}
use view_sync.Prelude.Outcome.{done, fault, Returns}
use view_sync.Prelude.Safe.{Safe}
use view_sync.Prelude.Bits.{shl_one}
use view_sync.State.{cbc_state_normal}
use view_sync.Init.{no_stats}
use view_sync.Node.{
  Event, adds_peer, removes_peer, sends, receives, arrives, recv_thread_runs, send_thread_runs,
}
use view_sync.Send.Dead.{handle_dead_peers}
use view_sync.Member.Run.{IsInContract}
use view_sync.Memory.Heap.{Heap, reads, one, Holds, Holds-as, calloc-Holds}
use view_sync.Memory.Objects.{message_weight, sent_weight, SentPtr}
use view_sync.Memory.Matches.{Matches}
use view_sync.Memory.Context.{PeerPtr, peer_weight, Context, forget, Owned}
use view_sync.Memory.Arriving.{register_ack_in}
use view_sync.Memory.Aging.{handle_dead_peers_in}
use view_sync.Memory.Buries.{Buried, handle_dead_peers_in-Buried}
use view_sync.Memory.Dangles.{register_ack_in-dangles}
use view_sync.Memory.Process.{life_in}
use view_sync.Memory.Story.{Freed, life_in-Safe}
use view_sync.Tests.Data.{
  inet_addr, rand, peer_one, second, second_bytes, first_again_bytes, ack_of, datagram,
}

abbrev nothing : ℕ → ℕ
nothing a = 0

-- Nothing is allocated.
abbrev empty : Heap
empty = record { next = 0; live = [] }

empty-Holds : Holds empty nothing
empty-Holds = record { same = λ a. refl; once = λ a. omega arith; fresh = λ a far. refl }

-- A message is sent and acked; the peer's second message comes before the first, which is sent
-- again; the user takes one of them.
abbrev history : List Event
history =
    adds_peer 1 (some []) 6000
    ∷ sends (some (65 ∷ 66 ∷ 0 ∷ [])) 2
    ∷ send_thread_runs
    ∷ arrives (datagram (2 ∷ 0 ∷ 0 ∷ 0 ∷ 1 ∷ 0 ∷ 0 ∷ 0 ∷ []))
    ∷ recv_thread_runs
    ∷ arrives (datagram second_bytes)
    ∷ recv_thread_runs
    ∷ arrives (datagram first_again_bytes)
    ∷ recv_thread_runs
    ∷ send_thread_runs
    ∷ receives
    ∷ removes_peer 1
    ∷ []

contract : All (IsInContract 0) history
contract = (
  (omega arith, λ e. omega (arith, e)),
  ((omega arith, refl), (tt, (tt, (tt, (tt, (tt, (tt, (tt, (tt, (tt, (tt, tt))))))))))),
)

life_in-Safe_example :
    Safe (Freed nothing) (life_in inet_addr rand true (λ port. true) empty 0 2 5000 history)
life_in-Safe_example =
    life_in-Safe true (λ port. true) inet_addr rand empty nothing 0 2 5000 history empty-Holds
      contract

-- A member that has sent a message to members 1 and 2 and waits for the ack of 1.
abbrev waiting_message : SentPtr
waiting_message = record {
  at = 7;
  message = record { at = 5; header = 4; payload = some 6; message = second };
  ack_target = 6;
  ack_bitmap = 4;
}

abbrev peer_at : PeerPtr
peer_at = record { at = 8; addr = 9; peer = peer_one }

abbrev waiting : Context
waiting = record {
  heap = record { next = 10; live = 9 ∷ 8 ∷ 7 ∷ 6 ∷ 5 ∷ 4 ∷ 3 ∷ 2 ∷ 1 ∷ 0 ∷ [] };
  at = 0;
  vclock_at = 2;
  clock_at = 3;
  stats_at = 1;
  snapshot = none;
  pid = 0;
  state = cbc_state_normal;
  vclock = 2 ∷ 0 ∷ [];
  stats = no_stats;
  peers = peer_at ∷ [];
  send_queue = [];
  sent_msg_buffer = waiting_message ∷ [];
  held_msg_buffer = [];
  delivery_queue = [];
  lost_messages = [];
  lost_sent = [];
}

-- Ten allocations.
ten : Holds waiting.heap (λ a.
    one 9 a
    + (one 8 a
        + (one 7 a
            + (one 6 a
                + (one 5 a + (one 4 a + (one 3 a + (one 2 a + (one 1 a + (one 0 a + 0))))))))))
ten = calloc-Holds _ _ (
    calloc-Holds _ _ (
      calloc-Holds _ _ (
        calloc-Holds _ _ (
          calloc-Holds _ _ (
            calloc-Holds _ _ (
              calloc-Holds _ _
                (calloc-Holds _ _ (calloc-Holds _ _ (calloc-Holds empty nothing empty-Holds)))))))))

waiting-Owned : Owned nothing waiting
unfolding message_weight sent_weight peer_weight
waiting-Owned = Holds-as waiting.heap _ _ (λ a. omega arith) ten

handle_dead_peers_in-Buried_example :
    Matches
      (Buried nothing waiting)
      (handle_dead_peers_in waiting (1 ∷ []))
      (handle_dead_peers (forget waiting) (1 ∷ []))
handle_dead_peers_in-Buried_example =
    handle_dead_peers_in-Buried nothing waiting (1 ∷ []) waiting-Owned

shifts : shl_one 1 ≡ done 2
unfolding shl_one
shifts = refl

register_ack_in-dangles_example :
    Returns (λ st. reads st.heap 7 ≡ fault) (register_ack_in waiting (ack_of 2) 1)
register_ack_in-dangles_example =
    register_ack_in-dangles nothing waiting (ack_of 2) 1 2 0 waiting_message waiting-Owned refl refl
      refl shifts refl
