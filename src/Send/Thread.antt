-- ===== src/Send/Thread.antt =====
-- `broadcast` and one round of `cbc_send_thread`, src/cbcast/send.c.
-- `rand k` is the answer of the k-th call of `rand()`. Packets that are sent are returned.
use Prim.Native.Nat.{bit_or}
use view_sync.Prelude.{
  ℕ, suc, ◌+◌, ◌%◌, ◌^◌, Bool, true, false, Option, none, some, List, [], ◌∷◌, ◌++◌, ltb,
  if◌then◌else◌,
}
use view_sync.Prelude.Outcome.{Outcome, done, fault, result_unwrap, ◌>>=◌}
use view_sync.Prelude.Bits.{shl_one}
use view_sync.Message.{
  Kind, cbc_data, cbc_ack, cbc_retransmit_req, cbc_retransmit, unknown, SockAddr, OutgoingMessage,
  cbc_sent_msg_create,
}
use view_sync.Message.Wire.{cbc_msg_serialize}
use view_sync.State.{Peer, PeerState, cbc_peer_alive, cbc_peer_dead, Stats, Cbcast}
use view_sync.Receive.{inc64}

pub record Packet : Type 0 where
  pub dest : SockAddr
  pub bytes : List ℕ

-- NETWORK_SIMULATION_DROP, in percent.
abbrev pub network_simulation_drop : ℕ
network_simulation_drop = 10

abbrev pub is_dropped : ℕ → Bool
is_dropped r = ltb (r % 100) network_simulation_drop

abbrev pub is_alive : PeerState → Bool
is_alive cbc_peer_alive = true
is_alive cbc_peer_dead = false

-- NULL is sent with size 0.
abbrev pub bytes_of : Option (List ℕ) → List ℕ
bytes_of none = []
bytes_of (some bytes) = bytes

-- The locals of `broadcast`, the packets, and the number of calls of `rand()` so far.
pub record Broadcast : Type 0 where
  pub ack_target : ℕ
  pub packets : List Packet
  pub n_sent : ℕ
  pub n_dropped : ℕ
  pub draws : ℕ

abbrev pub sent_to : Peer → Option (List ℕ) → ℕ → Broadcast → Broadcast
sent_to p bytes mask b = record b {
  ack_target = bit_or b.ack_target mask;
  packets = b.packets ++ (record { dest = p.addr; bytes = bytes_of bytes } ∷ []);
  n_sent = b.n_sent + 1;
  draws = suc b.draws;
}

abbrev pub dropped_to : ℕ → Broadcast → Broadcast
dropped_to mask b = record b {
  ack_target = bit_or b.ack_target mask;
  n_dropped = b.n_dropped + 1;
  draws = suc b.draws;
}

module _ (rand : ℕ → ℕ) where
  -- A drop prints the header, through `msg_bytes`.
  unfoldable pub offer : Peer → Option (List ℕ) → Broadcast → Outcome Broadcast
  unfolding shl_one
  offer p bytes b = do
    mask ← shl_one p.pid
    if is_dropped (rand b.draws)
        then elim bytes [ none ↦ fault | some _ ↦ done (dropped_to mask b) ]
        else done (sent_to p bytes mask b)

  unfoldable pub broadcast_to : List Peer → Option (List ℕ) → Broadcast → Outcome Broadcast
  unfolding offer
  broadcast_to [] bytes b = done b
  broadcast_to (p ∷ ps) bytes b = do
    b' ← if is_alive p.state then offer p bytes b else done b
    broadcast_to ps bytes b'

  unfoldable pub broadcast : Cbcast → Option (List ℕ) → ℕ → Outcome (Cbcast × Broadcast)
  unfolding broadcast_to
  broadcast cbc bytes draws = do
    b ←
        broadcast_to cbc.peers bytes
          (record { ack_target = 0; packets = []; n_sent = 0; n_dropped = 0; draws = draws })
    done (
      record cbc {
        stats = record (cbc.stats) {
          sent_msg_count = (cbc.stats.sent_msg_count + b.n_sent) % 2 ^ 64;
          dropped_msg_count = (cbc.stats.dropped_msg_count + b.n_dropped) % 2 ^ 64;
        };
      },
      b,
    )

-- `sendto` with a NULL address sends nothing.
abbrev pub sendto : Option SockAddr → Option (List ℕ) → List Packet
sendto none bytes = []
sendto (some addr) bytes = record { dest = addr; bytes = bytes_of bytes } ∷ []

abbrev pub with_stats : Cbcast → Stats → Cbcast
with_stats cbc s = record cbc { stats = s }

-- The counters of the control messages. A retransmission counts as an ack.
abbrev pub count_dropped : Kind → Stats → Stats
count_dropped cbc_ack s = record s { dropped_ack_count = inc64 s.dropped_ack_count }
count_dropped cbc_retransmit_req s = record s {
  dropped_retransmit_req_count = inc64 s.dropped_retransmit_req_count;
}
count_dropped cbc_retransmit s = record s { dropped_ack_count = inc64 s.dropped_ack_count }
count_dropped _ s = s

abbrev pub count_sent : Kind → Stats → Stats
count_sent cbc_ack s = record s { sent_ack_count = inc64 s.sent_ack_count }
count_sent cbc_retransmit_req s = record s {
  sent_retransmit_req_count = inc64 s.sent_retransmit_req_count;
}
count_sent cbc_retransmit s = record s { sent_ack_count = inc64 s.sent_ack_count }
count_sent _ s = s

abbrev pub send_control :
    Kind → Cbcast → OutgoingMessage → Option (List ℕ) → Bool → Cbcast × List Packet
send_control kind cbc out bytes true = (with_stats cbc (count_dropped kind cbc.stats), [])
send_control kind cbc out bytes false =
    (with_stats cbc (count_sent kind cbc.stats), sendto out.addr bytes)

module _ (rand : ℕ → ℕ) where
  -- The `switch` on the kind, after `will_drop` has been drawn.
  abbrev pub send_as :
      Kind → Cbcast → OutgoingMessage → Option (List ℕ) → ℕ → Outcome (Cbcast × List Packet × ℕ)
  send_as cbc_data cbc out bytes draws = do
    (cbc', b) ← broadcast rand cbc bytes (suc draws)
    sent ← result_unwrap (cbc_sent_msg_create out.message b.ack_target)
    done (record cbc' { sent_msg_buffer = cbc'.sent_msg_buffer ++ (sent ∷ []) }, b.packets, b.draws)
  send_as (unknown c) cbc out bytes draws = done (cbc, [], suc draws)
  send_as kind cbc out bytes draws =
      let (cbc', packets) = send_control kind cbc out bytes (is_dropped (rand draws)) in
      done (cbc', packets, suc draws)

  -- One round. With an empty queue the thread waits.
  abbrev pub send_first : Cbcast → List OutgoingMessage → ℕ → Outcome (Cbcast × List Packet × ℕ)
  send_first cbc [] draws = done (cbc, [], draws)
  send_first cbc (out ∷ rest) draws = do
    bytes ← cbc_msg_serialize out.message
    send_as out.message.header.kind (record cbc { send_queue = rest }) out bytes draws

  unfoldable pub send_round : Cbcast → ℕ → Outcome (Cbcast × List Packet × ℕ)
  send_round cbc draws = send_first cbc cbc.send_queue draws
