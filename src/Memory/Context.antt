-- ===== src/Memory/Context.antt =====
-- `struct CBcast` of include/cbcast.h with the addresses of its blocks, and `cbc_init` and
-- `cbc_free` of src/cbcast/init.c. The locks, and the arrays of stb_ds themselves, are not blocks.
use view_sync.Prelude.{
  ℕ, ◌+◌, ◌≡◌, Bool, true, false, Option, none, some, List, [], ◌∷◌, map, leb, ◌==◌, if◌then◌else◌,
}
use view_sync.Prelude.Outcome.{
  Outcome, done, Result, result_ok, result_err, invalid_arguments, no_socket, no_bind,
  result_unwrap, ◌>>=◌,
}
use view_sync.State.{Peer, CbcastState, cbc_state_normal, Stats, Cbcast}
use view_sync.VectorClock.{vc_init}
use view_sync.Init.{no_stats}
use view_sync.Memory.Heap.{Heap, calloc, free, free_if, reads, one, one_if, Holds, total}
use view_sync.Memory.Objects.{
  MessagePtr, OutgoingPtr, SentPtr, ReceivedPtr, message_weight, outgoing_weight, sent_weight,
  received_weight, outgoing_value, sent_value, received_value, cbc_outgoing_msg_free,
  cbc_sent_msg_free, cbc_received_msg_free, vc_free,
}

-- `cbcast_peer_t *`.
pub record PeerPtr : Type 0 where
  pub at : ℕ
  pub addr : ℕ
  pub peer : Peer

unfoldable pub peer_weight : PeerPtr → ℕ → ℕ
peer_weight p a = one p.at a + one p.addr a

-- `lost_messages` and `lost_sent` are what no pointer of the program reaches any more.
pub record Context : Type 0 where
  pub heap : Heap
  pub at : ℕ
  pub vclock_at : ℕ
  pub clock_at : ℕ
  pub stats_at : ℕ
  pub snapshot : Option ℕ
  pub pid : ℕ
  pub state : CbcastState
  pub vclock : List ℕ
  pub stats : Stats
  pub peers : List PeerPtr
  pub send_queue : List OutgoingPtr
  pub sent_msg_buffer : List SentPtr
  pub held_msg_buffer : List ReceivedPtr
  pub delivery_queue : List ReceivedPtr
  pub lost_messages : List MessagePtr
  pub lost_sent : List SentPtr

-- The state without the addresses.
abbrev pub forget : Context → Cbcast
forget st = record {
  pid = st.pid;
  state = st.state;
  vclock = st.vclock;
  peers = map (λ p. p.peer) st.peers;
  send_queue = map outgoing_value st.send_queue;
  sent_msg_buffer = map sent_value st.sent_msg_buffer;
  held_msg_buffer = map received_value st.held_msg_buffer;
  delivery_queue = map received_value st.delivery_queue;
  stats = st.stats;
}

-- How often an address is among what the context reaches.
abbrev pub reached : Context → ℕ → ℕ
reached st a =
    one st.at a
    + (one st.vclock_at a
        + (one st.clock_at a
            + (one st.stats_at a
                + (one_if st.snapshot a
                    + (total peer_weight a st.peers
                        + (total outgoing_weight a st.send_queue
                            + (total sent_weight a st.sent_msg_buffer
                                + (total received_weight a st.held_msg_buffer
                                    + total received_weight a st.delivery_queue))))))))

abbrev pub lost : Context → ℕ → ℕ
lost st a = total message_weight a st.lost_messages + total sent_weight a st.lost_sent

-- Every block is reached from one place, is lost, or is one of the others that `e` counts.
abbrev pub Owned : (ℕ → ℕ) → Context → Type 0
Owned e st = Holds st.heap (λ a. e a + (reached st a + lost st a))

-- The context with its blocks, and its state.
abbrev pub Agrees : (ℕ → ℕ) → Context → Cbcast → Type 0
Agrees e st cbc = (forget st ≡ cbc) × Owned e st

abbrev pub with_heap : Context → Heap → Context
with_heap st h = record st { heap = h }

module _ {A : Type 0} (release : Heap → A → Outcome Heap) where
  -- `for (int i = 0; i < arrlen(xs); i++) release(xs[i])`.
  abbrev pub free_each : Heap → List A → Outcome Heap
  free_each h [] = done h
  free_each h (x ∷ xs) = do h' ← release h x; free_each h' xs

abbrev pub free_peer : Heap → PeerPtr → Outcome Heap
free_peer h p = do h₁ ← reads h p.at; h₂ ← free h₁ p.addr; free h₂ p.at

abbrev pub free_outgoing : Heap → OutgoingPtr → Outcome Heap
free_outgoing h p = cbc_outgoing_msg_free h p.at (some p.message) p.addr

unfoldable pub cbc_free : Context → Outcome Heap
unfolding cbc_outgoing_msg_free cbc_sent_msg_free cbc_received_msg_free vc_free
cbc_free st = do
  h₀ ← reads st.heap st.at
  h₁ ← vc_free h₀ st.vclock_at st.clock_at
  h₂ ← free_each free_peer h₁ st.peers
  h₃ ← free_each free_outgoing h₂ st.send_queue
  h₄ ← free_each cbc_sent_msg_free h₃ st.sent_msg_buffer
  h₅ ← free_each cbc_received_msg_free h₄ st.held_msg_buffer
  h₆ ← free_each cbc_received_msg_free h₅ st.delivery_queue
  h₇ ← reads h₆ st.stats_at
  h₈ ← free_if h₇ st.snapshot
  h₉ ← free h₈ st.stats_at
  free h₉ st.at

-- `cbc_init` after its arguments are checked. When the socket fails, the clock and the context are
-- freed, and the block of the statistics is not.
abbrev pub open_in :
    Bool → Bool → Heap → ℕ → ℕ → ℕ → ℕ → ℕ → List ℕ → Outcome (Result Context × Heap)
open_in false bound h at stats_at vclock_at clock_at pid vclock = do
  h₁ ← vc_free h vclock_at clock_at
  h₂ ← free h₁ at
  done (result_err no_socket, h₂)
open_in true false h at stats_at vclock_at clock_at pid vclock = do
  h₁ ← vc_free h vclock_at clock_at
  h₂ ← free h₁ at
  done (result_err no_bind, h₂)
open_in true true h at stats_at vclock_at clock_at pid vclock = done (
  result_ok (record {
    heap = h;
    at = at;
    vclock_at = vclock_at;
    clock_at = clock_at;
    stats_at = stats_at;
    snapshot = none;
    pid = pid;
    state = cbc_state_normal;
    vclock = vclock;
    stats = no_stats;
    peers = [];
    send_queue = [];
    sent_msg_buffer = [];
    held_msg_buffer = [];
    delivery_queue = [];
    lost_messages = [];
    lost_sent = [];
  }),
  h,
)

-- The context and, inside it or beside an error, what is allocated then.
unfoldable pub cbc_init_in : Bool → (ℕ → Bool) → Heap → ℕ → ℕ → ℕ → Outcome (Result Context × Heap)
unfolding vc_init vc_free
cbc_init_in socket_ok bind_ok h pid max_p port =
    if max_p == 0
    then done (result_err invalid_arguments, h)
    else if leb max_p pid
    then done (result_err invalid_arguments, h)
    else do
      let (at, h₁) = calloc h
      let (stats_at, h₂) = calloc h₁
      let (vclock_at, h₃) = calloc h₂
      let (clock_at, h₄) = calloc h₃
      vclock ← result_unwrap (vc_init max_p)
      open_in socket_ok (bind_ok port) h₄ at stats_at vclock_at clock_at pid vclock
