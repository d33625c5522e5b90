-- ===== src/Send/Old.antt =====
-- Sent messages that grow old unacked: `find_old_messages`, `filter_dead_messages`,
-- `find_unacked_peers` and `retransmit_messages` of src/cbcast/send.c.
use Prim.Native.Nat.{bit_and}
use mathlib.Core.List.{reverse}
use view_sync.Prelude.{
  ℕ, zero, suc, ◌+◌, ◌-◌, ◌%◌, ◌^◌, Bool, not, ◌&&◌, none, some, List, [], ◌∷◌, ◌++◌, length,
  get_elem?, arrdel, keep, find_index, leb, ◌==◌, if◌then◌else◌,
}
use view_sync.Prelude.Outcome.{Outcome, done, spin, result_unwrap, deref, ◌>>=◌}
use view_sync.Prelude.Bits.{shl_one}
use view_sync.Message.{
  SentMessage, cbc_retransmit, set_clock, cbc_msg_create, cbc_outgoing_msg_create,
}
use view_sync.State.{Peer, Cbcast}
use view_sync.Peer.{cbc_peer_get_addr_copy}
use view_sync.Receive.{enqueue}
use view_sync.Receive.Acks.{fully_acked}

-- CBC_OLD_MSG_THRESHOLD and CBC_DEAD_MSG_THRESHOLD.
abbrev pub old_msg_threshold : ℕ
old_msg_threshold = 2

abbrev pub dead_msg_threshold : ℕ
dead_msg_threshold = 6

-- The difference of two `uint16_t` clocks, cut to 16 bits.
abbrev pub msg_age : ℕ → SentMessage → ℕ
msg_age current s = (current + 2 ^ 16 - s.message.header.clock) % 2 ^ 16

-- The own clock, cut to 16 bits by the return type.
unfoldable pub get_current_clock : Cbcast → Outcome ℕ
get_current_clock cbc = do clock ← deref (get_elem? cbc.vclock cbc.pid); done (clock % 2 ^ 16)

abbrev pub is_old : ℕ → SentMessage → Bool
is_old current s = leb old_msg_threshold (msg_age current s) && not (fully_acked s)

unfoldable pub find_old_messages : Cbcast → ℕ → List SentMessage
find_old_messages cbc current = keep (is_old current) cbc.sent_msg_buffer

abbrev pub is_dead_msg : ℕ → SentMessage → Bool
is_dead_msg current s = leb dead_msg_threshold (msg_age current s)

-- The `do` loop on fuel: each round moves the first dead message over and starts again. The pair
-- is `dead_msgs` and what is left of `old_msgs`.
unfoldable pub filter_rounds :
    ℕ → ℕ → List SentMessage → List SentMessage → Outcome (List SentMessage × List SentMessage)
filter_rounds zero current dead old = spin
filter_rounds (suc fuel) current dead old = elim (find_index (is_dead_msg current) old) [
  | none ↦ done (dead, old)
  | some i ↦ do
    s ← deref (get_elem? old i)
    filter_rounds fuel current (dead ++ (s ∷ [])) (arrdel old i)
]

unfoldable pub filter_dead_messages :
    ℕ → List SentMessage → Outcome (List SentMessage × List SentMessage)
unfolding filter_rounds
filter_dead_messages current old = filter_rounds (suc (length old)) current [] old

-- The ids of the peers whose bit is clear, in the order of the peers.
unfoldable pub unacked_of : List Peer → ℕ → Outcome (List ℕ)
unfolding shl_one
unacked_of [] bitmap = done []
unacked_of (p ∷ ps) bitmap = do
  mask ← shl_one p.pid
  rest ← unacked_of ps bitmap
  done (if bit_and bitmap mask == 0 then p.pid ∷ rest else rest)

unfoldable pub find_unacked_peers : Cbcast → SentMessage → Outcome (List ℕ)
unfolding unacked_of
find_unacked_peers cbc s = unacked_of cbc.peers s.ack_bitmap

-- One copy of the message for each target.
unfoldable pub queue_retransmit_messages : Cbcast → SentMessage → List ℕ → Outcome Cbcast
queue_retransmit_messages cbc s [] = done cbc
queue_retransmit_messages cbc s (pid ∷ pids) = do
  made ← cbc_msg_create cbc_retransmit s.message.payload s.message.header.len
  msg ← result_unwrap made
  out ← result_unwrap (
      cbc_outgoing_msg_create (set_clock msg s.message.header.clock)
        (cbc_peer_get_addr_copy cbc pid))
  queue_retransmit_messages (enqueue cbc out) s pids

-- The list is taken from its end: here it is turned round. A message that no peer lacks ends the
-- whole loop.
unfoldable pub retransmit_from_end : Cbcast → List SentMessage → Outcome Cbcast
unfolding find_unacked_peers queue_retransmit_messages
retransmit_from_end cbc [] = done cbc
retransmit_from_end cbc (s ∷ rest) = do
  targets ← find_unacked_peers cbc s
  let go_on : Outcome Cbcast = do
    cbc' ← queue_retransmit_messages cbc s targets
    retransmit_from_end cbc' rest
  if length targets == 0 then done cbc else go_on

unfoldable pub retransmit_messages : Cbcast → List SentMessage → Outcome Cbcast
unfolding retransmit_from_end
retransmit_messages cbc old = retransmit_from_end cbc (reverse old)
