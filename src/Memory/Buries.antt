-- ===== src/Memory/Buries.antt =====
-- Dead peers are given up: the sent messages that are deleted then keep their blocks.
use view_sync.Prelude.{
  ℕ, zero, suc, ◌+◌, ◌≡◌, refl, sym, ap, ap₂, ◌∙◌, inl, inr, true, false, Bool, Bool-cases, Option,
  none, some, List, [], ◌∷◌, ◌++◌, map, length, get_elem?, arrdel, find_index, ◌==◌, arith,
}
use view_sync.Prelude.Outcome.{
  Outcome, Ensures, returned, exited, faulted, spun, Ensures-then, ◌>>=◌,
}
use view_sync.Prelude.Bits.{shl_one}
use view_sync.Message.{SentMessage}
use view_sync.State.{Peer, Cbcast}
use view_sync.Receive.Acks.{with_ack, fully_acked}
use view_sync.Send.Dead.{
  mark_peer, mark_acked, mark_all, purge_rounds, purge_acked, must_disconnect, disconnect_if,
  handle_dead_peers,
}
use view_sync.Memory.Heap.{Holds-as, total, total-append}
use view_sync.Memory.Objects.{SentPtr, sent_weight, sent_value}
use view_sync.Memory.Matches.{
  Matches-as, Matches, both, ends, breaks, loops, Matches-bind, Matches-map,
}
use view_sync.Memory.Values.{length-map, map-arrdel}
use view_sync.Memory.Context.{PeerPtr, peer_weight, Context, forget, Owned, Agrees}
use view_sync.Memory.Aging.{
  mark_all_in, option_list, purge_rounds_in, mark_peer_in, handle_dead_peers_in,
}

-- Marking changes the bits alone.
mark_acked-Same :
    (dead : List ℕ) (s : SentMessage)
    → Ensures (λ s'. record s { ack_bitmap = s'.ack_bitmap } ≡ s') (mark_acked dead s)
unfolding mark_acked
mark_acked-Same [] s = returned refl
mark_acked-Same (d ∷ ds) s = Ensures-then (shl_one d) λ mask. mark_acked-Same ds (with_ack mask s)

Matches-Ensures :
    {A B C : Type 0} {R : A → B → Type 0} {P : C → Type 0} {m : Outcome C} {f : C → Outcome A}
    {g : C → Outcome B}
    → Ensures P m
    → ((c : C) → P c → Matches R (f c) (g c))
    → Matches R (m >>= f) (m >>= g)
Matches-Ensures (returned p) k = k _ p
Matches-Ensures exited k = ends
Matches-Ensures faulted k = breaks
Matches-Ensures spun k = loops

-- The same messages, with the same blocks.
abbrev Marked : List SentPtr → List SentPtr → List SentMessage → Type 0
Marked ps ps' vs =
    (map sent_value ps' ≡ vs) × ((a : ℕ) → total sent_weight a ps' ≡ total sent_weight a ps)

mark_all_in-Marked :
    (dead : List ℕ) (ps : List SentPtr)
    → Matches (Marked ps) (mark_all_in dead ps) (mark_all dead (map sent_value ps))
unfolding mark_all_in mark_all sent_weight
mark_all_in-Marked dead [] = both (refl, λ a. refl)
mark_all_in-Marked dead (p ∷ rest) = Matches-Ensures (mark_acked-Same dead (sent_value p)) λ s same.
    Matches-bind (mark_all_in-Marked dead rest)
      λ rest' vs (is, weights). both (ap₂ ◌∷◌ same is, λ a. omega (arith, weights a))

-- What has gone is what was deleted.
abbrev Purged :
    List SentPtr → List SentPtr → List SentPtr × List SentPtr → List SentMessage → Type 0
Purged ps gone (kept, gone') vs =
    (map sent_value kept ≡ vs)
    × ((a : ℕ)
        → total sent_weight a kept + total sent_weight a gone'
          ≡ total sent_weight a ps + total sent_weight a gone)

total-taken :
    (a : ℕ) (ps : List SentPtr) (i : ℕ)
    → total sent_weight a (arrdel ps i) + total sent_weight a (option_list (get_elem? ps i))
      ≡ total sent_weight a ps
total-taken a [] i = omega arith
total-taken a (p ∷ ps) zero = omega arith
total-taken a (p ∷ ps) (suc i) = omega (arith, total-taken a ps i)

purge_round :
    (fuel : ℕ) (ps gone : List SentPtr) (o : Option ℕ)
    → ((ps' gone' : List SentPtr)
        → Matches
            (Purged ps' gone')
            (purge_rounds_in fuel ps' gone')
            (purge_rounds fuel (map sent_value ps')))
    → find_index fully_acked (map sent_value ps) ≡ o
    → Matches
        (Purged ps gone)
        (purge_rounds_in (suc fuel) ps gone)
        (purge_rounds (suc fuel) (map sent_value ps))
unfolding purge_rounds_in purge_rounds
purge_round fuel ps gone none later e =
    rw (e, purge_rounds_in, purge_rounds) (both (refl, λ a. refl))
purge_round fuel ps gone (some i) later e =
    let taken = option_list (get_elem? ps i) in
    rw (e, purge_rounds_in, purge_rounds)
      (Matches-as (ap (purge_rounds fuel) (map-arrdel sent_value ps i)) (
        Matches-map
          (λ r vs (same, weights). (
            same,
            λ a.
                omega (arith, weights a, total-taken a ps i, total-append sent_weight a gone taken),
          ))
          (later (arrdel ps i) (gone ++ taken))))

purge_rounds_in-Purged :
    (fuel : ℕ) (ps gone : List SentPtr)
    → Matches
        (Purged ps gone)
        (purge_rounds_in fuel ps gone)
        (purge_rounds fuel (map sent_value ps))
unfolding purge_rounds_in purge_rounds
purge_rounds_in-Purged zero ps gone = loops
purge_rounds_in-Purged (suc fuel) ps gone =
    purge_round fuel ps gone _ (purge_rounds_in-Purged fuel) refl

peers_marked :
    (dead : List ℕ) (ps : List PeerPtr)
    → map (λ p. p.peer) (map (mark_peer_in dead) ps) ≡ map (mark_peer dead) (map (λ p. p.peer) ps)
peers_marked dead [] = refl
peers_marked dead (p ∷ ps) = ap (◌∷◌ (mark_peer dead p.peer)) (peers_marked dead ps)

total-marked :
    (dead : List ℕ) (ps : List PeerPtr) (a : ℕ)
    → total peer_weight a (map (mark_peer_in dead) ps) ≡ total peer_weight a ps
unfolding peer_weight
total-marked dead [] a = refl
total-marked dead (p ∷ ps) a = omega (arith, total-marked dead ps a)

-- The blocks of sent messages, in the buffer or lost.
abbrev pub sent_blocks_of : Context → ℕ → ℕ
sent_blocks_of st a = total sent_weight a st.sent_msg_buffer + total sent_weight a st.lost_sent

-- The state agrees, and no sent message is freed.
abbrev pub Buried : (ℕ → ℕ) → Context → Context → Cbcast → Type 0
Buried e st st' cbc = Agrees e st' cbc × ((a : ℕ) → sent_blocks_of st' a ≡ sent_blocks_of st a)

disconnected_state :
    (b : Bool) (st : Context) (ps : List Peer) (buffer : List SentMessage)
    → record (forget (record st { state = (disconnect_if b (forget st)).state })) {
      peers = ps;
      sent_msg_buffer = buffer;
    }
      ≡ record (disconnect_if b (forget st)) { peers = ps; sent_msg_buffer = buffer }
disconnected_state true st ps buffer = refl
disconnected_state false st ps buffer = refl

purge_acked-Purged :
    (ps : List SentPtr) (vs : List SentMessage)
    → map sent_value ps ≡ vs
    → Matches (Purged ps []) (purge_rounds_in (suc (length ps)) ps []) (purge_acked vs)
unfolding purge_acked
purge_acked-Purged ps vs is =
    Matches-as
      (ap (λ n. purge_rounds (suc n) (map sent_value ps)) (sym (length-map sent_value ps))
        ∙ ap purge_acked is)
      (purge_rounds_in-Purged (suc (length ps)) ps [])

abbrev left_by : List ℕ → Context → Cbcast
left_by dead st = disconnect_if (must_disconnect (length st.peers) (length dead)) (forget st)

-- Giving peers up does with the pointers what Send computes. No block of a sent message is freed
-- then: a message that leaves the buffer keeps its blocks, and no pointer reaches them any more.
pub handle_dead_peers_in-Buried :
    (e : ℕ → ℕ) (st : Context) (dead : List ℕ)
    → Owned e st
    → Matches (Buried e st) (handle_dead_peers_in st dead) (handle_dead_peers (forget st) dead)
unfolding handle_dead_peers_in handle_dead_peers purge_acked
handle_dead_peers_in-Buried e st [] owned = ends
handle_dead_peers_in-Buried e st (d ∷ ds) owned =
    rw (length-map (λ (p : PeerPtr). p.peer) st.peers) (elim (Bool-cases (length st.peers == 0)) [
      | inl z ↦ rw z ends
      | inr z ↦ rw z (
          Matches-bind (mark_all_in-Marked (d ∷ ds) st.sent_msg_buffer) λ marked vs (is, w).
            Matches-bind (purge_acked-Purged marked vs is) λ (buffer, gone) vs' (is', w'). both (
              (
                disconnected_state _ st _ _
                    ∙ ap₂ (λ ps b. record (left_by (d ∷ ds) st) { peers = ps; sent_msg_buffer = b })
                        (peers_marked (d ∷ ds) st.peers) is',
                Holds-as st.heap _ _
                    (λ a. omega (
                      arith,
                      w a,
                      w' a,
                      total-marked (d ∷ ds) st.peers a,
                      total-append sent_weight a st.lost_sent gone,
                    ))
                    owned,
              ),
              λ a. omega (arith, w a, w' a, total-append sent_weight a st.lost_sent gone),
            ))
    ])
