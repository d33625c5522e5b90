-- ===== src/Tests/Sending.antt =====
-- The sending side and the peers at concrete members and messages.
use view_sync.Prelude.{
  ℕ, ◌+◌, ◌≡◌, refl, none, some, [], ◌∷◌, ◌^◌, length, keep, arith, if◌then◌else◌, ◌%◌,
}
use view_sync.Prelude.Outcome.{done, result_ok}
use view_sync.Prelude.Bits.{bit}
use view_sync.Prelude.Keep.{keep_not}
use view_sync.Init.{fresh}
use view_sync.State.{Cbcast}
use view_sync.Peer.{cbc_add_peer, cbc_peer_find_by_addr, cbc_peer_get_addr_copy, cbc_remove_peer}
use view_sync.Peer.Laws.{find_by_addr-add, get_addr_copy-remove}
use view_sync.Receive.Acks.{fully_acked}
use view_sync.Receive.Acked.{with_sent}
use view_sync.Send.Old.{filter_dead_messages, is_dead_msg, find_unacked_peers}
use view_sync.Send.Dead.{purge_acked}
use view_sync.Send.Thread.{broadcast_to}
use view_sync.Send.Loops.{
  filter_dead_messages_lem, purge_acked_lem, find_unacked_peers_lem, lacking,
}
use view_sync.Send.Targets.{is_target, n_alive, nothing_sent, broadcast_to-Reaches}
use view_sync.Send.{cbc_send}
use view_sync.Send.Total.{IsSound}
use view_sync.Send.Sent.{Sent, cbc_send-Sent}
use view_sync.Tests.Data.{inet_addr, rand, home, peer_one, member, half_acked, all_acked}

broadcast_to-Reaches_example :
    (b : _) × (broadcast_to rand (peer_one ∷ []) (some (1 ∷ [])) (nothing_sent 0) ≡ done b)
    × ((j : ℕ) → bit b.ack_target j ≡ (if is_target j (peer_one ∷ []) then 1 else 0))
    × (b.n_sent + b.n_dropped ≡ n_alive (peer_one ∷ []))
    × (length b.packets ≡ b.n_sent)
broadcast_to-Reaches_example =
    broadcast_to-Reaches rand (1 ∷ []) (peer_one ∷ []) 0 (omega arith, tt)

filter_dead_messages_lem_example :
    filter_dead_messages 8 (half_acked ∷ [])
    ≡ done (keep (is_dead_msg 8) (half_acked ∷ []), keep_not (is_dead_msg 8) (half_acked ∷ []))
filter_dead_messages_lem_example = filter_dead_messages_lem 8 (half_acked ∷ [])

purge_acked_lem_example :
    purge_acked (all_acked ∷ half_acked ∷ [])
    ≡ done (keep_not fully_acked (all_acked ∷ half_acked ∷ []))
purge_acked_lem_example = purge_acked_lem (all_acked ∷ half_acked ∷ [])

find_unacked_peers_lem_example :
    find_unacked_peers member half_acked ≡ done (lacking 4 (peer_one ∷ []))
find_unacked_peers_lem_example = find_unacked_peers_lem member half_acked (omega arith, tt)

added : cbc_add_peer inet_addr (fresh 0 (0 ∷ 0 ∷ [])) 1 (some []) 6000 ≡ result_ok member
unfolding cbc_add_peer
added = refl

find_by_addr-add_example : cbc_peer_find_by_addr member home ≡ 1 % 2 ^ 16
find_by_addr-add_example = find_by_addr-add inet_addr (fresh 0 (0 ∷ 0 ∷ [])) member 1 6000 [] added

get_addr_copy-remove_example :
    (cbc_peer_get_addr_copy (cbc_remove_peer member 1) 1 ≡ none)
    × (cbc_peer_get_addr_copy (cbc_remove_peer member 1) 2 ≡ cbc_peer_get_addr_copy member 2)
get_addr_copy-remove_example = get_addr_copy-remove member 1 2 (tt, tt) (omega arith)

-- One message is not acked by member 1 yet.
abbrev busy : Cbcast
busy = with_sent member (half_acked ∷ [])

busy-IsSound : IsSound busy
busy-IsSound = record {
  known = ((omega arith, tt), tt);
  resendable = (((104 ∷ [], refl, refl, omega arith), omega arith, omega arith, tt), tt);
}

cbc_send-Sent_example :
    (cbc' : Cbcast) × (cbc_send busy (some (104 ∷ 105 ∷ 0 ∷ [])) 2 ≡ done (result_ok cbc'))
    × Sent (104 ∷ 105 ∷ 0 ∷ []) 2 busy cbc'
cbc_send-Sent_example =
    cbc_send-Sent busy (104 ∷ 105 ∷ 0 ∷ []) 2 busy-IsSound (omega arith) (omega arith) (omega arith)
      (omega arith) (omega arith) refl
