-- ===== src/Memory/Resends.antt =====
-- Old messages are sent again: what is allocated, and what is computed.
use mathlib.Core.List.{reverse}
use view_sync.Prelude.{
  ℕ, ◌+◌, ◌≡◌, refl, ap, ap₂, inl, inr, Bool-cases, Option, List, [], ◌∷◌, length, ◌==◌, arith,
}
use view_sync.Prelude.Outcome.{Outcome, result_unwrap, ◌>>=◌}
use view_sync.Message.{
  Message, SockAddr, SentMessage, cbc_retransmit, set_clock, cbc_outgoing_msg_create,
}
use view_sync.State.{Cbcast}
use view_sync.Peer.{cbc_peer_get_addr_copy}
use view_sync.Receive.{enqueue}
use view_sync.Send.Old.{
  find_unacked_peers, queue_retransmit_messages, retransmit_from_end, retransmit_messages,
}
use view_sync.Memory.Heap.{Heap, Holds}
use view_sync.Memory.Objects.{
  MessagePtr, AddrPtr, message_weight, addr_weight, addr_value, cbc_outgoing_msg_create_in,
}
use view_sync.Memory.Matches.{Matches-as, Matches, both, Matches-same, Matches-heap}
use view_sync.Memory.Makes.{cbc_msg_create_in-Made, cbc_outgoing_msg_create_in-Made}
use view_sync.Memory.Context.{Context, forget, Owned, Agrees}
use view_sync.Memory.Peers.{get_addr_copy_in-Copied}
use view_sync.Memory.Receiving.{set_clock_in, enqueue_in}
use view_sync.Memory.Controls.{Matches-then, beside, enqueue_in-Agrees, set_clock_in-Holds}
use view_sync.Memory.Aging.{
  queue_retransmit_messages_in, retransmit_from_end_in, retransmit_messages_in,
}

module _ (e : ℕ → ℕ) where
  -- A copy is queued, and the call goes on.
  queue_copy :
      (st : Context) (h : Heap) (p : MessagePtr) (addr : Option AddrPtr) (m : Message)
      (found : Option SockAddr) (clock : ℕ) (f : Context → Outcome Context)
      (g : Cbcast → Outcome Cbcast)
      → p.message ≡ m
      → addr_value addr ≡ found
      → Holds h (λ a. message_weight p a + (addr_weight addr a + beside e st a))
      → ((st' : Context) → Owned e st' → Matches (Agrees e) (f st') (g (forget st')))
      → Matches
          (Agrees e)
          (let (made, h') = cbc_outgoing_msg_create_in h (set_clock_in p clock) addr in
            result_unwrap made >>= λ out. f (enqueue_in st h' out))
          (result_unwrap (cbc_outgoing_msg_create (set_clock m clock) found) >>= λ out.
            g (enqueue (forget st) out))
  queue_copy st h p addr m found clock f g same copied holds next =
      Matches-as
        (ap₂
          (λ x y. result_unwrap (cbc_outgoing_msg_create (set_clock x clock) y) >>= λ out.
            g (enqueue (forget st) out))
          same copied)
        (cbc_outgoing_msg_create_in-Made h (beside e st) (set_clock_in p clock) addr
          (set_clock_in-Holds h p clock (λ a. addr_weight addr a + beside e st a) holds)
          λ q h' v (is, o).
            let (eq, o') = enqueue_in-Agrees e st h' q v is o in
            Matches-as (ap g eq) (next (enqueue_in st h' q) o'))

  queue_retransmit_messages_in-Agrees :
      (st : Context) (s : SentMessage) (pids : List ℕ)
      → Owned e st
      → Matches
          (Agrees e)
          (queue_retransmit_messages_in st s pids)
          (queue_retransmit_messages (forget st) s pids)
  unfolding queue_retransmit_messages_in queue_retransmit_messages cbc_peer_get_addr_copy
  queue_retransmit_messages_in-Agrees st s [] owned = both (refl, owned)
  queue_retransmit_messages_in-Agrees st s (pid ∷ pids) owned =
      Matches-heap
        (get_addr_copy_in-Copied st.heap st.peers pid (beside e st) (λ a. omega arith) owned)
        λ (addr, h₁) (found, o₁).
          cbc_msg_create_in-Made h₁ (λ a. addr_weight addr a + beside e st a) cbc_retransmit
            s.message.payload s.message.header.len o₁
            λ p h₂ m (same, o₂).
              queue_copy st h₂ p addr m _ s.message.header.clock _
                (λ c. queue_retransmit_messages c s pids) same found o₂
                λ st' o'. queue_retransmit_messages_in-Agrees st' s pids o'

  retransmit_from_end_in-Agrees :
      (st : Context) (old : List SentMessage)
      → Owned e st
      → Matches (Agrees e) (retransmit_from_end_in st old) (retransmit_from_end (forget st) old)
  unfolding retransmit_from_end_in retransmit_from_end
  retransmit_from_end_in-Agrees st [] owned = both (refl, owned)
  retransmit_from_end_in-Agrees st (s ∷ rest) owned =
      Matches-same (find_unacked_peers (forget st) s) λ targets.
        elim (Bool-cases (length targets == 0)) [
          | inl z ↦ rw z (both (refl, owned))
          | inr z ↦ rw z (
              Matches-then e e _ (λ c. retransmit_from_end c rest)
                (queue_retransmit_messages_in-Agrees st s targets owned)
                λ st' o. retransmit_from_end_in-Agrees st' rest o)
        ]

  pub retransmit_messages_in-Agrees :
      (st : Context) (old : List SentMessage)
      → Owned e st
      → Matches (Agrees e) (retransmit_messages_in st old) (retransmit_messages (forget st) old)
  unfolding retransmit_messages_in retransmit_messages
  retransmit_messages_in-Agrees st old owned = retransmit_from_end_in-Agrees st (reverse old) owned
