-- ===== src/Send.antt =====
-- The sending side: src/cbcast/send.c. `cbc_send` runs in the caller's thread.
pub mod Old
pub mod Dead
pub mod Thread
pub mod Loops
pub mod GiveUp
pub mod Targets
pub mod Resend
pub mod Total
pub mod Sent
use view_sync.Prelude.{
  ℕ, ◌+◌, ◌%◌, ◌^◌, Option, none, some, List, [], ◌∷◌, ◌++◌, length, get_elem?, set, exists_in,
  ◌==◌, if◌then◌else◌,
}
use view_sync.Prelude.Outcome.{
  Outcome, done, fault, Result, result_ok, result_err, invalid_arguments, no_peers, result_unwrap,
  deref, ◌>>=◌,
}
use view_sync.Message.{
  Message, SentMessage, cbc_data, set_clock, cbc_msg_create, cbc_outgoing_msg_create,
}
use view_sync.State.{Cbcast}
use view_sync.Receive.{enqueue, inc64}
use Old.{get_current_clock, find_old_messages, filter_dead_messages, retransmit_messages}
use Dead.{find_dead_peers, handle_dead_peers, mark_all}

-- The peers that lack a dead message are given up. `old_msgs` holds pointers to messages of
-- `sent_msg_buffer`: the bits that `handle_dead_peers` sets there are set in them too.
unfoldable pub give_up : Cbcast → List SentMessage → List ℕ → Outcome (Cbcast × List SentMessage)
give_up cbc old [] = done (cbc, old)
give_up cbc old (d ∷ ds) = do
  cbc' ← handle_dead_peers cbc (d ∷ ds)
  old' ← mark_all (d ∷ ds) old
  done (cbc', old')

abbrev pub handle_dead_messages :
    Cbcast → List SentMessage → List SentMessage → Outcome (Cbcast × List SentMessage)
handle_dead_messages cbc [] old = done (cbc, old)
handle_dead_messages cbc (s ∷ ss) old = do
  dead_peers ← find_dead_peers cbc (s ∷ ss)
  give_up cbc old dead_peers

abbrev pub handle_old_found : Cbcast → ℕ → List SentMessage → Outcome Cbcast
handle_old_found cbc current [] = done cbc
handle_old_found cbc current (s ∷ ss) = do
  (dead_msgs, old) ← filter_dead_messages current (s ∷ ss)
  (cbc', old') ← handle_dead_messages cbc dead_msgs old
  retransmit_messages cbc' old'

unfoldable pub handle_old_messages : Cbcast → Outcome Cbcast
unfolding give_up
handle_old_messages cbc =
    if length cbc.sent_msg_buffer == 0
    then done cbc
    else if length cbc.peers == 0
    then done cbc
    else do
      current ← get_current_clock cbc
      handle_old_found cbc current (find_old_messages cbc current)

-- `printf` with `%s` reads the payload up to a zero byte, which must be among its bytes.
abbrev pub print_payload : List ℕ → Outcome (List ℕ)
print_payload payload = if exists_in (λ b. b == 0) payload then done payload else fault

-- The message takes the stepped own clock, is queued, and the old ones are looked after.
abbrev pub send_msg : Cbcast → List ℕ → Message → Outcome Cbcast
send_msg cbc payload msg = do
  clock ← deref (get_elem? cbc.vclock cbc.pid)
  let ticked = record cbc { vclock = set cbc.vclock cbc.pid (inc64 clock) }
  out ← result_unwrap (cbc_outgoing_msg_create (set_clock msg (inc64 clock)) none)
  shown ← print_payload payload
  handle_old_messages (enqueue ticked out)

abbrev pub send_result : Cbcast → List ℕ → Result Message → Outcome (Result Cbcast)
send_result cbc payload (result_err e) = done (result_err e)
send_result cbc payload (result_ok msg) = do cbc' ← send_msg cbc payload msg; done (result_ok cbc')

-- The new state, or the error, which leaves the state as it was.
unfoldable pub cbc_send : Cbcast → Option (List ℕ) → ℕ → Outcome (Result Cbcast)
cbc_send cbc none len = done (result_err invalid_arguments)
cbc_send cbc (some payload) len =
    if len == 0
    then done (result_err invalid_arguments)
    else if length cbc.peers == 0
    then done (result_err no_peers)
    else do made ← cbc_msg_create cbc_data (some payload) len; send_result cbc payload made
