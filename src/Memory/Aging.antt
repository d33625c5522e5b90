-- ===== src/Memory/Aging.antt =====
-- `cbc_send` and what it does about old messages, src/cbcast/send.c, with the blocks. The values
-- that the pointers of `old_msgs` point to are at hand as in Send; the pointers are read.
use mathlib.Core.List.{reverse}
use view_sync.Prelude.{
  ℕ, zero, suc, Option, none, some, List, [], ◌∷◌, ◌++◌, map, length, get_elem?, set, arrdel, keep,
  find_index, ◌==◌, if◌then◌else◌,
}
use view_sync.Prelude.Outcome.{
  Outcome, done, exit, spin, Error, Result, result_ok, result_err, invalid_arguments, no_peers,
  result_unwrap, deref, ◌>>=◌,
}
use view_sync.Message.{SentMessage, cbc_data, cbc_retransmit}
use view_sync.Receive.{inc64}
use view_sync.Receive.Acks.{fully_acked}
use view_sync.Send.{print_payload}
use view_sync.Send.Old.{get_current_clock, is_old, filter_dead_messages, find_unacked_peers}
use view_sync.Send.Dead.{
  find_dead_peers, mark_peer, mark_acked, mark_all, must_disconnect, disconnect_if,
}
use view_sync.Memory.Objects.{
  MessagePtr, SentPtr, sent_value, cbc_msg_create_in, cbc_outgoing_msg_create_in,
}
use view_sync.Memory.Context.{PeerPtr, Context, forget, with_heap}
use view_sync.Memory.Reads.{looked, sent_blocks}
use view_sync.Memory.Peers.{get_addr_copy_in}
use view_sync.Memory.Receiving.{looks, set_clock_in, enqueue_in}

-- The address is copied before the message is made.
unfoldable pub queue_retransmit_messages_in : Context → SentMessage → List ℕ → Outcome Context
queue_retransmit_messages_in st s [] = done st
queue_retransmit_messages_in st s (pid ∷ pids) = do
  (addr, h₁) ← get_addr_copy_in st.heap st.peers pid
  (made, h₂) ← cbc_msg_create_in h₁ cbc_retransmit s.message.payload s.message.header.len
  p ← result_unwrap made
  let (made', h₃) = cbc_outgoing_msg_create_in h₂ (set_clock_in p s.message.header.clock) addr
  out ← result_unwrap made'
  queue_retransmit_messages_in (enqueue_in st h₃ out) s pids

unfoldable pub retransmit_from_end_in : Context → List SentMessage → Outcome Context
unfolding queue_retransmit_messages_in
retransmit_from_end_in st [] = done st
retransmit_from_end_in st (s ∷ rest) = do
  targets ← find_unacked_peers (forget st) s
  let go_on : Outcome Context = do
    st' ← queue_retransmit_messages_in st s targets
    retransmit_from_end_in st' rest
  if length targets == 0 then done st else go_on

unfoldable pub retransmit_messages_in : Context → List SentMessage → Outcome Context
unfolding retransmit_from_end_in
retransmit_messages_in st old = retransmit_from_end_in st (reverse old)

unfoldable pub mark_all_in : List ℕ → List SentPtr → Outcome (List SentPtr)
mark_all_in dead [] = done []
mark_all_in dead (p ∷ rest) = do
  s ← mark_acked dead (sent_value p)
  rest' ← mark_all_in dead rest
  done (record p { ack_bitmap = s.ack_bitmap } ∷ rest')

abbrev pub option_list : {A : Type 0} → Option A → List A
option_list none = []
option_list (some x) = x ∷ []

-- What is deleted from the buffer is not freed: the second list is what has been.
unfoldable pub purge_rounds_in :
    ℕ → List SentPtr → List SentPtr → Outcome (List SentPtr × List SentPtr)
purge_rounds_in zero buffer gone = spin
purge_rounds_in (suc fuel) buffer gone = elim (find_index fully_acked (map sent_value buffer)) [
  | none ↦ done (buffer, gone)
  | some i ↦ purge_rounds_in fuel (arrdel buffer i) (gone ++ option_list (get_elem? buffer i))
]

abbrev pub mark_peer_in : List ℕ → PeerPtr → PeerPtr
mark_peer_in dead p = record p { peer = mark_peer dead p.peer }

unfoldable pub handle_dead_peers_in : Context → List ℕ → Outcome Context
unfolding mark_all_in purge_rounds_in
handle_dead_peers_in st [] = exit
handle_dead_peers_in st (d ∷ ds) = if length st.peers == 0 then exit else do
  let left = disconnect_if (must_disconnect (length st.peers) (length (d ∷ ds))) (forget st)
  marked ← mark_all_in (d ∷ ds) st.sent_msg_buffer
  (buffer, gone) ← purge_rounds_in (suc (length marked)) marked []
  done (record st {
    state = left.state;
    peers = map (mark_peer_in (d ∷ ds)) st.peers;
    sent_msg_buffer = buffer;
    lost_sent = st.lost_sent ++ gone;
  })

unfoldable pub give_up_in :
    Context → List SentMessage → List ℕ → Outcome (Context × List SentMessage)
unfolding handle_dead_peers_in
give_up_in st old [] = done (st, old)
give_up_in st old (d ∷ ds) = do
  st' ← handle_dead_peers_in st (d ∷ ds)
  old' ← mark_all (d ∷ ds) old
  done (st', old')

abbrev pub handle_dead_messages_in :
    Context → List SentMessage → List SentMessage → Outcome (Context × List SentMessage)
handle_dead_messages_in st [] old = done (st, old)
handle_dead_messages_in st (s ∷ ss) old = do
  dead_peers ← find_dead_peers (forget st) (s ∷ ss)
  give_up_in st old dead_peers

-- The pointers of `old_msgs` are read again after the dead peers are handled.
abbrev pub handle_old_found_in : Context → ℕ → List SentPtr → Outcome Context
handle_old_found_in st current [] = done st
handle_old_found_in st current (p ∷ ps) = do
  (dead_msgs, old) ← filter_dead_messages current (map sent_value (p ∷ ps))
  (st', old') ← handle_dead_messages_in st dead_msgs old
  st'' ← looks st' (looked sent_blocks (p ∷ ps))
  retransmit_messages_in st'' old'

unfoldable pub handle_old_messages_in : Context → Outcome Context
unfolding give_up_in retransmit_messages_in
handle_old_messages_in st =
    if length st.sent_msg_buffer == 0 then done st else if length st.peers == 0 then done st else do
      current ← get_current_clock (forget st)
      st' ← looks st (looked sent_blocks st.sent_msg_buffer)
      handle_old_found_in st' current
          (keep (λ p. is_old current (sent_value p)) st'.sent_msg_buffer)

abbrev pub send_msg_in : Context → List ℕ → MessagePtr → Outcome Context
send_msg_in st payload p = do
  clock ← deref (get_elem? st.vclock st.pid)
  let ticked = record st { vclock = set st.vclock st.pid (inc64 clock) }
  let (made, h) = cbc_outgoing_msg_create_in st.heap (set_clock_in p (inc64 clock)) none
  out ← result_unwrap made
  shown ← print_payload payload
  handle_old_messages_in (enqueue_in ticked h out)

abbrev pub send_result_in : Context → List ℕ → Result MessagePtr → Outcome (Context × Option Error)
send_result_in st payload (result_err e) = done (st, some e)
send_result_in st payload (result_ok p) = do st' ← send_msg_in st payload p; done (st', none)

-- The context and the error, if there is one.
unfoldable pub cbc_send_in : Context → Option (List ℕ) → ℕ → Outcome (Context × Option Error)
unfolding handle_old_messages_in
cbc_send_in st none len = done (st, some invalid_arguments)
cbc_send_in st (some payload) len =
    if len == 0
    then done (st, some invalid_arguments)
    else if length st.peers == 0
    then done (st, some no_peers)
    else do
      (made, h) ← cbc_msg_create_in st.heap cbc_data (some payload) len
      send_result_in (with_heap st h) payload made
