-- ===== src/Memory/Transmits.antt =====
-- One round of the send thread: what is allocated and freed, and what is computed.
use view_sync.Prelude.{
  ℕ, suc, ◌+◌, ◌≤◌, ◌≡◌, refl, ap, ap₂, ◌∙◌, Bool, true, false, Option, none, some, List, [], ◌∷◌,
  ◌++◌, map, arith,
}
use view_sync.Prelude.Outcome.{Outcome, done, exit, fault, spin, result_unwrap, ◌>>=◌}
use mathlib.Core.List.{map-append}
use view_sync.Message.{
  Kind, cbc_data, cbc_ack, cbc_retransmit_req, cbc_retransmit, unknown, Message,
  cbc_sent_msg_create,
}
use view_sync.Message.Wire.{cbc_msg_serialize}
use view_sync.State.{Cbcast, Stats}
use view_sync.Send.Thread.{
  Packet, Broadcast, broadcast, is_dropped, send_control, send_as, send_first, send_round,
}
use view_sync.Memory.Heap.{
  Heap, free_if, one, one_if, Holds, Holds-as, calloc-Holds, free_if-Holds, total, total-append,
}
use view_sync.Memory.Objects.{
  MessagePtr, OutgoingPtr, addr_weight, outgoing_weight, sent_weight, outgoing_value, sent_value,
  new_payload, cbc_outgoing_msg_free,
}
use view_sync.Memory.Blocks.{weight_if, cbc_outgoing_msg_free-left}
use view_sync.Memory.Matches.{
  Matches-as, Matches, both, ends, breaks, loops, Matches-bind, Matches-last_step, Matches-same,
  Matches-heap,
}
use view_sync.Memory.Makes.{cbc_sent_msg_create_in-Made}
use view_sync.Memory.Context.{Context, forget, Owned, Agrees, with_heap}
use view_sync.Memory.Reads.{
  outgoing_blocks, often-outgoing, block_if, often-block_if, often-append, looked, peer_blocks,
  often-peers,
}
use view_sync.Memory.Controls.{beside}
use view_sync.Memory.Looks.{looks_lem, Matches-looks}
use view_sync.Memory.Sending.{
  broadcast_in, control_in, hand_over_in, send_as_in, send_first_in, send_round_in,
}

module _ (rand : ℕ → ℕ) where
  -- The context and the results of a broadcast.
  abbrev Counted : (ℕ → ℕ) → Context × Broadcast → Cbcast × Broadcast → Type 0
  Counted e (st, b) (cbc, b') = Agrees e st cbc × (b ≡ b')

  counted :
      (e : ℕ → ℕ) (st : Context) (m : Outcome Broadcast) (counts : Broadcast → Stats)
      → Owned e st
      → Matches
          (Counted e)
          (m
            >>= (λ b. done (record (forget st) { stats = counts b }, b))
            >>= (λ (cbc, b). done (record st { stats = cbc.stats }, b)))
          (m >>= λ b. done (record (forget st) { stats = counts b }, b))
  counted e st (done b) counts owned = both ((refl, owned), refl)
  counted e st exit counts owned = ends
  counted e st fault counts owned = breaks
  counted e st spin counts owned = loops

  broadcast_in-Counted :
      (e : ℕ → ℕ) (st : Context) (buffer : Option ℕ) (bytes : Option (List ℕ)) (draws : ℕ)
      → ((a : ℕ) → one_if buffer a ≤ e a)
      → Owned e st
      → Matches
          (Counted e)
          (broadcast_in rand st buffer bytes draws)
          (broadcast rand (forget st) bytes draws)
  unfolding broadcast
  broadcast_in-Counted e st buffer bytes draws there owned =
      rw
        (looks_lem e st (block_if buffer ++ looked peer_blocks st.peers)
          (λ a. omega (
            arith,
            there a,
            often-peers st.peers a,
            often-block_if buffer a,
            often-append (block_if buffer) (looked peer_blocks st.peers) a,
          ))
          owned)
        (counted e st _ _ owned)

  -- The context and the packets that the round sends.
  abbrev pub Rounded : (ℕ → ℕ) → Context × List Packet × ℕ → Cbcast × List Packet × ℕ → Type 0
  Rounded e (st, packets, draws) (cbc, packets', draws') =
      Agrees e st cbc × (packets ≡ packets') × (draws ≡ draws')

  module _ (e : ℕ → ℕ) where
    -- What the switch leaves of the object is at hand.
    abbrev Switched :
        OutgoingPtr
        → Context × Option MessagePtr × List Packet × ℕ
        → Cbcast × List Packet × ℕ
        → Type 0
    Switched out (st, message, packets, draws) (cbc, packets', draws') =
        Agrees (λ a. one out.at a + (weight_if message a + (addr_weight out.addr a + e a))) st cbc
        × (packets ≡ packets')
        × (draws ≡ draws')

    abbrev handed_over : Cbcast → Message → Broadcast → Outcome (Cbcast × List Packet × ℕ)
    handed_over cbc m b = do
      sent ← result_unwrap (cbc_sent_msg_create m b.ack_target)
      done (record cbc { sent_msg_buffer = cbc.sent_msg_buffer ++ (sent ∷ []) }, b.packets, b.draws)

    control_in-Switched :
        (kind : Kind) (st : Context) (out : OutgoingPtr) (bytes : Option (List ℕ)) (draws : ℕ)
        (dropped : Bool)
        → Owned (λ a. outgoing_weight out a + e a) st
        → Switched out
            (
              record st {
                stats = (send_control kind (forget st) (outgoing_value out) bytes dropped).0.stats;
              },
              some out.message,
              (send_control kind (forget st) (outgoing_value out) bytes dropped).1,
              suc draws,
            )
            (
              (send_control kind (forget st) (outgoing_value out) bytes dropped).0,
              (send_control kind (forget st) (outgoing_value out) bytes dropped).1,
              suc draws,
            )
    unfolding outgoing_weight
    control_in-Switched kind st out bytes draws true owned =
        ((refl, Holds-as st.heap _ _ (λ a. omega arith) owned), refl, refl)
    control_in-Switched kind st out bytes draws false owned =
        ((refl, Holds-as st.heap _ _ (λ a. omega arith) owned), refl, refl)

    hand_over_in-Switched :
        (st : Context) (out : OutgoingPtr) (b : Broadcast)
        → Owned (λ a. outgoing_weight out a + e a) st
        → Matches
            (Switched out)
            (hand_over_in st out b)
            (handed_over (forget st) out.message.message b)
    unfolding outgoing_weight
    hand_over_in-Switched st out b owned =
        cbc_sent_msg_create_in-Made st.heap
          (λ a. one out.at a + (addr_weight out.addr a + beside e st a)) out.message b.ack_target
          (Holds-as st.heap _ _ (λ a. omega arith) owned)
          λ q h v (same, o).
            let new = record st { heap = h; sent_msg_buffer = st.sent_msg_buffer ++ (q ∷ []) } in
            both {a = (new, none, b.packets, b.draws)} (
              (
                ap (λ qs. record (forget st) { sent_msg_buffer = qs })
                      (map-append sent_value st.sent_msg_buffer (q ∷ []))
                    ∙ ap
                        (λ x. record (forget st) {
                          sent_msg_buffer = (forget st).sent_msg_buffer ++ (x ∷ []);
                        })
                        same,
                Holds-as h _ _
                    (λ a. omega (arith, total-append sent_weight a st.sent_msg_buffer (q ∷ []))) o,
              ),
              refl,
              refl,
            )

    control_in-Matches :
        (kind : Kind) (st : Context) (out : OutgoingPtr) (buffer : Option ℕ)
        (bytes : Option (List ℕ)) (draws : ℕ)
        → ((a : ℕ) → one_if buffer a ≤ e a)
        → Owned (λ a. outgoing_weight out a + e a) st
        → Matches (Switched out) (control_in rand kind st out buffer bytes draws) (
            done (
              (send_control kind
                  (forget st)
                  (outgoing_value out)
                  bytes
                  (is_dropped (rand draws))).0,
              (send_control kind
                  (forget st)
                  (outgoing_value out)
                  bytes
                  (is_dropped (rand draws))).1,
              suc draws,
            ))
    control_in-Matches kind st out buffer bytes draws there owned =
        Matches-looks _ st (block_if buffer ++ outgoing_blocks out) _
          (λ a. omega (
            arith,
            there a,
            often-outgoing out a,
            often-block_if buffer a,
            often-append (block_if buffer) (outgoing_blocks out) a,
          ))
          owned (both (control_in-Switched kind st out bytes draws (is_dropped (rand draws)) owned))

    send_as_in-Switched :
        (kind : Kind) (st : Context) (out : OutgoingPtr) (buffer : Option ℕ)
        (bytes : Option (List ℕ)) (draws : ℕ)
        → ((a : ℕ) → one_if buffer a ≤ e a)
        → Owned (λ a. outgoing_weight out a + e a) st
        → Matches
            (Switched out)
            (send_as_in rand kind st out buffer bytes draws)
            (send_as rand kind (forget st) (outgoing_value out) bytes draws)
    unfolding outgoing_weight
    send_as_in-Switched cbc_data st out buffer bytes draws there owned =
        Matches-bind
          (broadcast_in-Counted (λ a. outgoing_weight out a + e a) st buffer bytes (suc draws)
            (λ a. omega (arith, there a)) owned)
          λ (st', b) (cbc', b') ((same, o), is).
            Matches-as (ap₂ (λ x y. handed_over x out.message.message y) same is)
              (hand_over_in-Switched st' out b o)
    send_as_in-Switched cbc_ack st out buffer bytes draws there owned =
        control_in-Matches cbc_ack st out buffer bytes draws there owned
    send_as_in-Switched cbc_retransmit_req st out buffer bytes draws there owned =
        control_in-Matches cbc_retransmit_req st out buffer bytes draws there owned
    send_as_in-Switched cbc_retransmit st out buffer bytes draws there owned =
        control_in-Matches cbc_retransmit st out buffer bytes draws there owned
    send_as_in-Switched (unknown c) st out buffer bytes draws there owned =
        both ((refl, Holds-as st.heap _ _ (λ a. omega arith) owned), refl, refl)

    finish :
        (out : OutgoingPtr) (buffer : Option ℕ) (st : Context) (message : Option MessagePtr)
        (packets : List Packet) (draws : ℕ) (v : Cbcast × List Packet × ℕ)
        → Owned
            (λ a.
              one out.at a
              + (weight_if message a + (addr_weight out.addr a + (one_if buffer a + e a))))
            st
        → (forget st ≡ v.0) × (packets ≡ v.1) × (draws ≡ v.2)
        → Matches
            (Rounded e)
            (do
              h₁ ← free_if st.heap buffer
              h₂ ← cbc_outgoing_msg_free h₁ out.at message out.addr
              done (with_heap st h₂, packets, draws))
            (done v)
    finish out buffer st message packets draws v owned (same, is, is') =
        Matches-heap
          (free_if-Holds st.heap buffer
            (λ a. one out.at a + (weight_if message a + (addr_weight out.addr a + beside e st a)))
            (Holds-as st.heap _ _ (λ a. omega arith) owned))
          λ h₁ o₁.
            Matches-heap (cbc_outgoing_msg_free-left h₁ out.at message out.addr (beside e st) o₁)
              λ h₂ o₂. both {a = (with_heap st h₂, packets, draws)} ((same, o₂), is, is')

    new_payload-Holds :
        (h : Heap) (n : ℕ → ℕ) (o : Option (List ℕ))
        → Holds h n
        → Holds (new_payload h o).1 (λ a. one_if (new_payload h o).0 a + n a)
    new_payload-Holds h n none holds = Holds-as h _ _ (λ a. omega arith) holds
    new_payload-Holds h n (some bytes) holds = calloc-Holds h n holds

  send_first_in-Rounded :
      (e : ℕ → ℕ) (st : Context) (queue : List OutgoingPtr) (draws : ℕ)
      → st.send_queue ≡ queue
      → Owned e st
      → Matches
          (Rounded e)
          (send_first_in rand st queue draws)
          (send_first rand (forget st) (map outgoing_value queue) draws)
  unfolding outgoing_weight
  send_first_in-Rounded e st [] draws is owned = both ((refl, owned), refl, refl)
  send_first_in-Rounded e st (out ∷ rest) draws is owned =
      let all : (a : ℕ)
          → total outgoing_weight a st.send_queue
            ≡ outgoing_weight out a + total outgoing_weight a rest =
        λ a. ap (total outgoing_weight a) is in
      rw
        (looks_lem e st (outgoing_blocks out) (λ a. omega (arith, all a, often-outgoing out a))
          owned)
        (Matches-same (cbc_msg_serialize out.message.message) λ bytes.
          let (buffer, h) = new_payload st.heap bytes in
          let st₁ = record st { heap = h; send_queue = rest } in
          let o₁ : Owned (λ a. outgoing_weight out a + (one_if buffer a + e a)) st₁ =
            Holds-as h _ _ (λ a. omega (arith, all a))
              (new_payload-Holds e st.heap _ bytes owned) in
          Matches-last_step
            (send_as_in-Switched (λ a. one_if buffer a + e a) out.message.message.header.kind st₁
              out buffer bytes draws (λ a. omega arith) o₁)
            λ (st₂, message, packets, draws') v ((same, o), is, is').
              finish e out buffer st₂ message packets draws' v o (same, is, is'))

  pub send_round_in-Rounded :
      (e : ℕ → ℕ) (st : Context) (draws : ℕ)
      → Owned e st
      → Matches (Rounded e) (send_round_in rand st draws) (send_round rand (forget st) draws)
  unfolding send_round_in send_round
  send_round_in-Rounded e st draws owned = send_first_in-Rounded e st st.send_queue draws refl owned
