-- ===== src/Memory/Sends.antt =====
-- `cbc_send`: what is allocated, and what is computed.
use view_sync.Prelude.{
  ℕ, ◌+◌, ◌≤◌, ◌≡◌, refl, ap, ap₂, inl, inr, Bool, Bool-cases, Option, none, some, List, [], ◌∷◌,
  map, length, get_elem?, set, keep, ◌==◌, arith,
}
use view_sync.Prelude.Outcome.{Result, result_ok, deref}
use view_sync.Message.{Message, SentMessage, cbc_data}
use view_sync.State.{Cbcast}
use view_sync.Receive.{inc64}
use view_sync.Send.Old.{
  get_current_clock, is_old, find_old_messages, filter_dead_messages, retransmit_messages,
}
use view_sync.Send.Dead.{find_dead_peers, mark_all}
use view_sync.Send.{
  print_payload, give_up, handle_dead_messages, handle_old_found, handle_old_messages, send_msg,
  send_result, cbc_send,
}
use view_sync.Memory.Heap.{Heap, Holds-as, total}
use view_sync.Memory.Objects.{
  MessagePtr, SentPtr, message_weight, addr_weight, sent_weight, sent_value,
}
use view_sync.Memory.Matches.{Matches, both, Matches-as, Matches-bind, Matches-same}
use view_sync.Memory.Makes.{
  Parsed, parsed, not_parsed, cbc_msg_create_in-Parsed, cbc_outgoing_msg_create_in-Made,
}
use view_sync.Memory.Values.{length-map, map-keep}
use view_sync.Memory.Context.{PeerPtr, Context, forget, Owned, Agrees, with_heap}
use view_sync.Memory.Reads.{looked, sent_blocks, often-sent}
use view_sync.Memory.Peers.{Answers}
use view_sync.Memory.Receiving.{set_clock_in, enqueue_in}
use view_sync.Memory.Controls.{beside, enqueue_in-Agrees, set_clock_in-Holds}
use view_sync.Memory.Looks.{Matches-looks}
use view_sync.Memory.Buries.{sent_blocks_of, Buried, handle_dead_peers_in-Buried}
use view_sync.Memory.Resends.{retransmit_messages_in-Agrees}
use view_sync.Memory.Aging.{
  give_up_in, handle_dead_messages_in, handle_old_found_in, handle_old_messages_in, send_msg_in,
  send_result_in, cbc_send_in,
}

total-keep :
    (p : SentPtr → Bool) (ps : List SentPtr) (a : ℕ)
    → total sent_weight a (keep p ps) ≤ total sent_weight a ps
total-keep p [] a = omega arith
total-keep p (x ∷ ps) a = elim (Bool-cases (p x)) [
  | inl z ↦ rw z (omega (arith, total-keep p ps a))
  | inr z ↦ rw z (omega (arith, total-keep p ps a))
]

module _ (e : ℕ → ℕ) where
  -- The state, and the messages that are left to be sent again.
  abbrev GaveUp : Context → Context × List SentMessage → Cbcast × List SentMessage → Type 0
  GaveUp st (st', old) (cbc, old') = Buried e st st' cbc × (old ≡ old')

  give_up_in-GaveUp :
      (st : Context) (old : List SentMessage) (dead : List ℕ)
      → Owned e st
      → Matches (GaveUp st) (give_up_in st old dead) (give_up (forget st) old dead)
  unfolding give_up_in give_up
  give_up_in-GaveUp st old [] owned = both (((refl, owned), λ a. refl), refl)
  give_up_in-GaveUp st old (d ∷ ds) owned =
      Matches-bind (handle_dead_peers_in-Buried e st (d ∷ ds) owned)
        λ st' cbc is. Matches-same (mark_all (d ∷ ds) old) λ old'. both (is, refl)

  handle_dead_messages_in-GaveUp :
      (st : Context) (dead old : List SentMessage)
      → Owned e st
      → Matches
          (GaveUp st)
          (handle_dead_messages_in st dead old)
          (handle_dead_messages (forget st) dead old)
  handle_dead_messages_in-GaveUp st [] old owned = both (((refl, owned), λ a. refl), refl)
  handle_dead_messages_in-GaveUp st (s ∷ ss) old owned =
      Matches-same (find_dead_peers (forget st) (s ∷ ss))
        λ dead. give_up_in-GaveUp st old dead owned

  -- The old messages are still allocated when they are read again.
  handle_old_found_in-Agrees :
      (st : Context) (current : ℕ) (ps : List SentPtr)
      → ((a : ℕ) → total sent_weight a ps ≤ sent_blocks_of st a)
      → Owned e st
      → Matches
          (Agrees e)
          (handle_old_found_in st current ps)
          (handle_old_found (forget st) current (map sent_value ps))
  handle_old_found_in-Agrees st current [] among owned = both (refl, owned)
  handle_old_found_in-Agrees st current (p ∷ ps) among owned =
      Matches-same (filter_dead_messages current (map sent_value (p ∷ ps))) λ (dead, old).
        Matches-bind (handle_dead_messages_in-GaveUp st dead old owned)
          λ (st', left) (cbc, left') (((same, o), kept), is).
            Matches-as (ap₂ retransmit_messages same is) (
              Matches-looks e st' (looked sent_blocks (p ∷ ps)) _
                (λ a. omega (arith, often-sent (p ∷ ps) a, among a, kept a)) o
                (retransmit_messages_in-Agrees e st' left o))

  handle_old_messages_in-Agrees :
      (st : Context)
      → Owned e st
      → Matches (Agrees e) (handle_old_messages_in st) (handle_old_messages (forget st))
  unfolding handle_old_messages_in handle_old_messages find_old_messages
  handle_old_messages_in-Agrees st owned =
      rw (length-map (λ (p : PeerPtr). p.peer) st.peers, length-map sent_value st.sent_msg_buffer)
        (elim (Bool-cases (length st.sent_msg_buffer == 0)) [
          | inl z ↦ rw z (both (refl, owned))
          | inr z ↦ elim (Bool-cases (length st.peers == 0)) [
            | inl y ↦ rw (z, y) (both (refl, owned))
            | inr y ↦
                rw (z, y)
                  (Matches-same (get_current_clock (forget st)) λ current.
                    Matches-looks e st _ _ (λ a. omega (arith, often-sent st.sent_msg_buffer a))
                      owned
                      (Matches-as
                        (ap (handle_old_found (forget st) current)
                          (map-keep sent_value (is_old current) st.sent_msg_buffer))
                        (handle_old_found_in-Agrees st current _
                          (λ a. omega (
                            arith,
                            total-keep (λ p. is_old current (sent_value p)) st.sent_msg_buffer a,
                          ))
                          owned)))
          ]
        ])

  send_msg_in-Agrees :
      (st : Context) (payload : List ℕ) (p : MessagePtr)
      → Owned (λ a. message_weight p a + e a) st
      → Matches (Agrees e) (send_msg_in st payload p) (send_msg (forget st) payload p.message)
  unfolding addr_weight
  send_msg_in-Agrees st payload p owned = Matches-same (deref (get_elem? st.vclock st.pid)) λ clock.
      let ticked = record st { vclock = set st.vclock st.pid (inc64 clock) } in
      cbc_outgoing_msg_create_in-Made st.heap (beside e ticked) (set_clock_in p (inc64 clock)) none
        (set_clock_in-Holds st.heap p (inc64 clock) (λ a. 0 + beside e ticked a)
          (Holds-as st.heap _ _ (λ a. omega arith) owned))
        λ q h v (is, o).
          let (eq, o') = enqueue_in-Agrees e ticked h q v is o in
          Matches-same (print_payload payload) λ shown.
            Matches-as (ap handle_old_messages eq)
              (handle_old_messages_in-Agrees (enqueue_in ticked h q) o')

  send_result_in-Answers :
      (st : Context) (payload : List ℕ) (r : Result MessagePtr × Heap) (v : Result Message)
      → Parsed (beside e st) r v
      → Matches
          (Answers e (forget st))
          (send_result_in (with_heap st r.1) payload r.0)
          (send_result (forget st) payload v)
  send_result_in-Answers st payload _ _ (parsed {p = p} {h = h} (same, o)) =
      Matches-as (ap (λ m. send_result (forget st) payload (result_ok m)) same) (
        Matches-bind
          (send_msg_in-Agrees (with_heap st h) payload p (Holds-as h _ _ (λ a. omega arith) o))
          λ st' cbc is. both (is, refl))
  send_result_in-Answers st payload _ _ (not_parsed o) = both ((refl, o), refl)

  pub cbc_send_in-Answers :
      (st : Context) (payload : Option (List ℕ)) (len : ℕ)
      → Owned e st
      → Matches
          (Answers e (forget st))
          (cbc_send_in st payload len)
          (cbc_send (forget st) payload len)
  unfolding cbc_send_in cbc_send
  cbc_send_in-Answers st none len owned = both ((refl, owned), refl)
  cbc_send_in-Answers st (some payload) len owned =
      rw (length-map (λ (p : PeerPtr). p.peer) st.peers) (elim (Bool-cases (len == 0)) [
        | inl z ↦ rw z (both ((refl, owned), refl))
        | inr z ↦ elim (Bool-cases (length st.peers == 0)) [
          | inl y ↦ rw (z, y) (both ((refl, owned), refl))
          | inr y ↦
              rw (z, y)
                (Matches-bind
                  (cbc_msg_create_in-Parsed st.heap (beside e st) cbc_data (some payload) len owned)
                  λ r v is. send_result_in-Answers st payload r v is)
        ]
      ])
