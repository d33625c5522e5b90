-- ===== src/Send/Dead.antt =====
-- Peers that are given up: `find_dead_peers` and `handle_dead_peers` of src/cbcast/send.c.
use view_sync.Prelude.{
  ℕ, zero, suc, ◌+◌, ◌/◌, Bool, true, false, Option, none, some, List, [], ◌∷◌, ◌++◌, map, length,
  arrdel, find_index, ltb, ◌==◌, if◌then◌else◌,
}
use view_sync.Prelude.Outcome.{Outcome, done, exit, spin, ◌>>=◌}
use view_sync.Prelude.Bits.{shl_one}
use view_sync.Message.{SentMessage}
use view_sync.State.{Peer, cbc_peer_dead, Cbcast, cbc_disconnected}
use view_sync.Receive.Acks.{with_ack, fully_acked}
use view_sync.Send.Old.{find_unacked_peers}

-- `arrfind`: the first index of the value; `none` is the -1.
unfoldable pub arrfind : List ℕ → ℕ → Option ℕ
arrfind arr fd = find_index (λ x. x == fd) arr

abbrev pub found : Option ℕ → Bool
found none = false
found (some i) = true

-- The targets that are not among the dead yet are put there.
unfoldable pub add_dead : List ℕ → List ℕ → List ℕ
unfolding arrfind
add_dead dead [] = dead
add_dead dead (t ∷ ts) = add_dead (if found (arrfind dead t) then dead else dead ++ (t ∷ [])) ts

-- A message that every peer has acked ends the search with NULL, which is the empty array.
unfoldable pub collect_dead : Cbcast → List ℕ → List SentMessage → Outcome (List ℕ)
unfolding add_dead
collect_dead cbc dead [] = done dead
collect_dead cbc dead (s ∷ rest) = do
  targets ← find_unacked_peers cbc s
  elim targets [ [] ↦ done [] | t ∷ ts ↦ collect_dead cbc (add_dead dead (t ∷ ts)) rest ]

unfoldable pub find_dead_peers : Cbcast → List SentMessage → Outcome (List ℕ)
unfolding collect_dead
find_dead_peers cbc dead_msgs = collect_dead cbc [] dead_msgs

abbrev pub mark_peer : List ℕ → Peer → Peer
mark_peer dead p =
    if found (find_index (λ x. x == p.pid) dead) then record p { state = cbc_peer_dead } else p

-- The bits of the dead peers are set, as if they had acked.
unfoldable pub mark_acked : List ℕ → SentMessage → Outcome SentMessage
unfolding shl_one
mark_acked [] s = done s
mark_acked (d ∷ ds) s = do mask ← shl_one d; mark_acked ds (with_ack mask s)

unfoldable pub mark_all : List ℕ → List SentMessage → Outcome (List SentMessage)
unfolding mark_acked
mark_all dead [] = done []
mark_all dead (s ∷ rest) = do s' ← mark_acked dead s; rest' ← mark_all dead rest; done (s' ∷ rest')

-- The `do` loop on fuel: each round deletes the first fully acked message.
unfoldable pub purge_rounds : ℕ → List SentMessage → Outcome (List SentMessage)
purge_rounds zero buffer = spin
purge_rounds (suc fuel) buffer = elim (find_index fully_acked buffer) [
  | none ↦ done buffer
  | some i ↦ purge_rounds fuel (arrdel buffer i)
]

unfoldable pub purge_acked : List SentMessage → Outcome (List SentMessage)
unfolding purge_rounds
purge_acked buffer = purge_rounds (suc (length buffer)) buffer

-- `remaining_peers < 1` and `remaining_peers < total_peers / 2`, on `int`s.
abbrev pub must_disconnect : ℕ → ℕ → Bool
must_disconnect total dead = if ltb total (dead + 1) then true else ltb total (total / 2 + dead)

abbrev pub disconnect_if : Bool → Cbcast → Cbcast
disconnect_if b cbc = if b then record cbc { state = cbc_disconnected } else cbc

unfoldable pub handle_dead_peers : Cbcast → List ℕ → Outcome Cbcast
unfolding mark_all purge_acked
handle_dead_peers cbc [] = exit
handle_dead_peers cbc (d ∷ ds) = if length cbc.peers == 0 then exit else do
  let left = disconnect_if (must_disconnect (length cbc.peers) (length (d ∷ ds))) cbc
  marked ← mark_all (d ∷ ds) cbc.sent_msg_buffer
  buffer ← purge_acked marked
  done (record left { peers = map (mark_peer (d ∷ ds)) cbc.peers; sent_msg_buffer = buffer })
